-- ===== src/Media/Srtp.antt =====
-- src/media/srtp.cpp. libsrtp is a parameter: its sessions, and what it makes of a buffer.
use ketphone.Base.{
  ℕ, ◌-◌, ◌^◌, Bool, not, ◌&&◌, ◌||◌, Option, none, some, ltb, leb, if◌then◌else◌, length, Bytes,
}
use ketphone.Sip.Random.{Randomness, secure_random}

-- kSrtpKeyLength and kSrtpTrailerRoom.
abbrev pub srtp_key_length : ℕ
srtp_key_length = 30

abbrev pub srtp_trailer_room : ℕ
srtp_trailer_room = 144

pub data Direction : Type 0 where
  outbound inbound : Direction

-- What the source uses of libsrtp. srtp_protect and srtp_unprotect work on the packet at the front
-- of a buffer, in place: the session and the buffer afterwards, and the new size if the call
-- succeeded. The `length < 0` that the source also tests for is a failure here.
pub record Libsrtp : Type 1 where
  pub Session : Type 0
  pub srtp_init : Bool
  pub srtp_create : Direction → Bytes → Option Session
  pub srtp_protect : Session → Bytes → ℕ → Session × Bytes × Option ℕ
  pub srtp_unprotect : Session → Bytes → ℕ → Session × Bytes × Option ℕ

pub record SrtpStream (L : Libsrtp) : Type 0 where
  pub session : L.Session
  pub key : Bytes

-- Buffers stand on a 4-byte boundary here, as the engine's do.
fits : Bytes → ℕ → ℕ → Bool
fits buffer size room =
    leb size (length buffer) && leb room (length buffer - size) && leb size (2 ^ 31 - 1)

-- A key from the system's generator, at a draw.
pub generate_srtp_key : Randomness → ℕ → Option Bytes
generate_srtp_key r at = secure_random r at srtp_key_length

module _ (L : Libsrtp) where
  unfoldable pub create : Direction → Bytes → Option (SrtpStream L)
  create direction key =
      if not L.srtp_init
      then none
      else elim (L.srtp_create direction key) as (λ _. Option (SrtpStream L)) [
        | none ↦ none
        | some session ↦ some (record { session = session; key = key })
      ]

  -- The stream and the buffer afterwards, and the size of the packet, 0 on failure.
  unfoldable pub protect : SrtpStream L → Bytes → ℕ → SrtpStream L × Bytes × ℕ
  unfolding fits
  protect s buffer size =
      let (session, written, sized) = L.srtp_protect s.session buffer size in
      if not (fits buffer size srtp_trailer_room) then (s, buffer, 0) else (
        record s { session = session },
        written,
        elim sized as (λ _. ℕ) [ none ↦ 0 | some n ↦ n ],
      )

  unfoldable pub unprotect : SrtpStream L → Bytes → ℕ → SrtpStream L × Bytes × Option ℕ
  unfolding fits
  unprotect s buffer size =
      let (session, written, sized) = L.srtp_unprotect s.session buffer size in
      if ltb size 22 || not (fits buffer size 0)
      then (s, buffer, none)
      else (record s { session = session }, written, sized)
