-- ===== src/Sip/Framer/Checks.antt =====
-- The theorems on the framer at concrete streams.
use ketphone.Base.{[], ◌∷◌, ◌++◌, ◌≡◌, ◌≤◌, refl, false, none, some, length, Bytes, codes}
use ketphone.Sip.Framer.{init, StreamFramer, push, next, skip_crlf}
use ketphone.Sip.Text.{find_text, split_lines, find, text_eq, lowercase, trim, parse_unsigned}
use ketphone.Sip.Framer.Chunks.{next-push}
use ketphone.Sip.Framer.Stream.{
  Gives, Gives-none, Gives-some, GivesInChunks, last_chunk, one_chunk, joined, GivesInChunks-joined,
}
use ketphone.Sip.Framer.Frames.{IsFrame, next-IsFrame, next_bound}

abbrev one_message : Bytes
one_message = codes "ACK sip:a SIP/2.0\r\nl: 2\r\n\r\nhi"

abbrev one_and_more : StreamFramer
one_and_more = record {
  buffer = codes "\r\nACK sip:a SIP/2.0\r\nl: 2\r\n\r\nhiBYE";
  failed = false;
}

one_and_more_next : (next one_and_more).1 ≡ some one_message
unfolding next find_text split_lines find text_eq lowercase trim parse_unsigned
one_and_more_next = refl

next-IsFrame_example : IsFrame (skip_crlf one_and_more.buffer) (next one_and_more) one_message
next-IsFrame_example = next-IsFrame one_and_more one_message one_and_more_next

abbrev half_message : StreamFramer
half_message = record { buffer = codes "ACK sip:a SIP/2.0\r\nl: 2\r\n\r\nh"; failed = false }

half_message_next : ((next half_message).1 ≡ none) × ((next half_message).0.failed ≡ false)
unfolding next find_text split_lines find text_eq lowercase trim parse_unsigned
half_message_next = (refl, refl)

next_bound_example : length (next half_message).0.buffer ≤ 65536
next_bound_example = next_bound half_message half_message_next.0 half_message_next.1

next-push_example :
    next (push one_and_more (codes " sip"))
    ≡ (push (next one_and_more).0 (codes " sip"), some one_message)
next-push_example = next-push one_and_more (codes " sip") one_message one_and_more_next

-- A message that arrives in two chunks, with the beginning of another.
abbrev first_chunk : Bytes
first_chunk = codes "\r\nACK sip:a SIP/2.0\r\nl: 2\r\n\r"

abbrev second_chunk : Bytes
second_chunk = codes "\nhiBYE"

abbrev waiting : StreamFramer
waiting = record { buffer = codes "ACK sip:a SIP/2.0\r\nl: 2\r\n\r"; failed = false }

abbrev begun : StreamFramer
begun = record { buffer = codes "BYE"; failed = false }

waits : next (push init first_chunk) ≡ (waiting, none)
unfolding next push init find_text split_lines find text_eq lowercase trim parse_unsigned
waits = refl

completes : next (push waiting second_chunk) ≡ (begun, some one_message)
unfolding next push find_text split_lines find text_eq lowercase trim parse_unsigned
completes = refl

begins_another : next begun ≡ (begun, none)
unfolding next find_text split_lines find text_eq lowercase trim parse_unsigned
begins_another = refl

abbrev in_chunks :
    GivesInChunks init (first_chunk ∷ second_chunk ∷ []) ([] ++ (one_message ∷ [])) begun
in_chunks =
    one_chunk init waiting begun first_chunk (second_chunk ∷ []) [] (one_message ∷ [])
      (Gives-none (push init first_chunk) waiting waits) refl
      (last_chunk waiting begun second_chunk (one_message ∷ []) (
        Gives-some (push waiting second_chunk) begun begun one_message [] completes
          (Gives-none begun begun begins_another)))

GivesInChunks-joined_example :
    Gives (push init (joined (first_chunk ∷ second_chunk ∷ []))) (one_message ∷ []) begun
GivesInChunks-joined_example =
    GivesInChunks-joined init begun (first_chunk ∷ second_chunk ∷ []) (one_message ∷ []) in_chunks
