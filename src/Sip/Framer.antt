-- ===== src/Sip/Framer.antt =====
-- src/sip/stream_framer.cpp.
mod Checks
pub mod Frames
pub mod Chunks
pub mod Rest
pub mod Stream
use ketphone.Base.{
  ℕ, suc, ◌+◌, ◌^◌, Bool, true, false, ◌||◌, List, [], ◌∷◌, ◌++◌, Option, none, some, ltb, ◌==◌,
  if◌then◌else◌, length, take, drop, Bytes, codes,
}
use ketphone.Sip.Text.{text_eq, find, find_text, trim, lowercase, split_lines, parse_unsigned}

pub record StreamFramer : Type 0 where
  pub buffer : Bytes
  pub failed : Bool

-- kMaxMessage.
abbrev max_message : ℕ
max_message = 65536

pub init : StreamFramer
init = record { buffer = []; failed = false }

-- The loop over the lines behind the start line: the first Content-Length decides.
length_in : List Bytes → Option ℕ
length_in [] = none
length_in (line ∷ lines) =
    let others = length_in lines in
    elim (find b':' line) [
      | none ↦ others
      | some colon ↦
          let name = lowercase (trim (take colon line)) in
          if text_eq name (codes "content-length") || text_eq name (codes "l")
          then parse_unsigned (2 ^ 64) (drop (suc colon) line)
          else others
    ]

behind_start_line : List Bytes → List Bytes
behind_start_line [] = []
behind_start_line (start ∷ lines) = lines

content_length : Bytes → Option ℕ
unfolding length_in behind_start_line
content_length head = length_in (behind_start_line (split_lines head))

pub push : StreamFramer → Bytes → StreamFramer
push f bytes = if f.failed then f else record f { buffer = f.buffer ++ bytes }

-- The buffer from the first byte on that is neither CR nor LF.
pub skip_crlf : Bytes → Bytes
skip_crlf [] = []
skip_crlf (c ∷ cs) = if c == b'\r' || c == b'\n' then skip_crlf cs else c ∷ cs

abbrev fail : Bytes → StreamFramer × Option Bytes
fail buffer = (record { buffer = buffer; failed = true }, none)

abbrev wait : Bytes → StreamFramer × Option Bytes
wait buffer = (record { buffer = buffer; failed = false }, none)

-- next, by the announced length, on a buffer whose head ends at `head_end`.
cut_message : Bytes → ℕ → Option ℕ → StreamFramer × Option Bytes
cut_message buffer head_end none = fail buffer
cut_message buffer head_end (some announced) =
    let total = head_end + 4 + announced in
    if ltb max_message announced || ltb max_message total
    then fail buffer
    else if ltb (length buffer) total
    then wait buffer
    else (record { buffer = drop total buffer; failed = false }, some (take total buffer))

-- next on a buffer that begins with a message, by where its head ends.
next_by_head : Bytes → Option ℕ → StreamFramer × Option Bytes
unfolding cut_message content_length
next_by_head buffer none = if ltb max_message (length buffer) then fail buffer else wait buffer
next_by_head buffer (some head_end) =
    cut_message buffer head_end (content_length (take head_end buffer))

pub next_from : Bytes → StreamFramer × Option Bytes
unfolding next_by_head
next_from [] = wait []
next_from (c ∷ cs) = next_by_head (c ∷ cs) (find_text (codes "\r\n\r\n") (c ∷ cs))

pub next : StreamFramer → StreamFramer × Option Bytes
unfolding skip_crlf next_from
next f = if f.failed then (f, none) else next_from (skip_crlf f.buffer)

pub reset : StreamFramer → StreamFramer
reset f = record { buffer = []; failed = false }
