-- ===== src/Sip/Sdp/Checks.antt =====
-- The theorems on descriptions at a concrete one.
use ketphone.Base.{◌≡◌, refl, true, [], ◌∷◌, some, replicate, Bytes, codes}
use ketphone.Sip.Sdp.{AudioDescription, parse_audio}
use ketphone.Sip.Base64.{base64_decode}
use ketphone.Sip.Text.{split_lines, starts_with, parse_unsigned, find, text_eq, find_first_of}
use ketphone.Sip.Sdp.Sound.{IsUsable, parse_audio-IsUsable}

abbrev some_sdp : Bytes
some_sdp =
    codes
      "v=0\r\nc=IN IP4 10.0.0.1\r\nm=audio 4000 RTP/SAVP 8 101\r\na=crypto:1 AES_CM_128_HMAC_SHA1_80 inline:AAAAAAAAAAAAAAAAAAAAAAAAAAAAAAAAAAAAAAAA\r\n"

abbrev some_audio : AudioDescription
some_audio = record {
  address = codes "10.0.0.1";
  port = 4000;
  payload_types = 8 ∷ 101 ∷ [];
  remote_sends = true;
  savp = true;
  crypto = record { tag = 1; key = replicate 30 0 } ∷ [];
}

parse_audio-some_sdp : parse_audio some_sdp ≡ some some_audio
unfolding parse_audio split_lines starts_with parse_unsigned find text_eq find_first_of
    base64_decode
parse_audio-some_sdp = refl

parse_audio-IsUsable_example : IsUsable some_audio
parse_audio-IsUsable_example = parse_audio-IsUsable some_sdp some_audio parse_audio-some_sdp
