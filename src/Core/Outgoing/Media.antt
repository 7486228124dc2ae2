-- ===== src/Core/Outgoing/Media.antt =====
-- Provisional responses, and the media of an answer.
use ketphone.Base.{ℕ, true, Option, none, some, arith, ◌≡◌, refl, ap, sym, ◌∙◌, is_some}
use ketphone.Core.Contract.{Origin, KeepsContract, Keeps-step, IsSound, media_state, up, IsSound-of}
use ketphone.Core.Types.{World, UserAgent, UserAgentConfig, RemoteMedia, Call, Time}
use ketphone.Core.Host.{start, emit}
use ketphone.Core.Wire.{remote_media_for}
use ketphone.Sip.Sdp.{AudioDescription, SdesCrypto}
use ketphone.Core.Outgoing.{
  provisional_for, on_invite_provisional, usable_answer, hang_up_failed, connect,
}
use ketphone.Sip.Message.{Message}
use ketphone.Core.Outgoing.Contract.{
  end_call-KeepsContract, send_bye-KeepsContract, send_cancel-KeepsContract,
}

provisional_for-KeepsContract :
    {origin : Origin}
    → (w : World) (a : UserAgent) (held : Option Call) (id : ℕ) (response : Message) (now : Time)
    → KeepsContract origin a
    → a.call ≡ held
    → KeepsContract origin (provisional_for w a held id response now)
unfolding provisional_for emit
provisional_for-KeepsContract w a none id response now k e = k
provisional_for-KeepsContract w a (some c) id response now k e =
    let heard : Call = record c { provisional = true } in
    let s = IsSound-of a k e in
    let sound : IsSound a.config heard = ground arith in
    ground (
      arith,
      λ (asked : c.cancel_requested ≡ true).
          send_cancel-KeepsContract w a k heard now (ap media_state (sym e)) sound asked refl,
    )

pub on_invite_provisional-KeepsContract :
    {origin : Origin}
    → (w : World) (a : UserAgent) (id : ℕ) (response : Message) (now : Time)
    → KeepsContract origin a
    → KeepsContract origin (on_invite_provisional w a id response now)
unfolding on_invite_provisional
on_invite_provisional-KeepsContract w a id response now k =
    provisional_for-KeepsContract w a a.call id response now k refl

pub hang_up_failed-KeepsContract :
    {origin : Origin}
    → (w : World) (a : UserAgent) (c : Call) (now : Time) → KeepsContract origin a
    → a.call ≡ some c
    → KeepsContract origin (hang_up_failed w a c now)
unfolding hang_up_failed
hang_up_failed-KeepsContract w a c now k e =
    end_call-KeepsContract _ _ 488
      (send_bye-KeepsContract w a k c now (ap media_state (sym e)) (IsSound-of a k e))

-- An answer that can be used comes with a key where media must be SRTP.
usable_answer-key :
    (config : UserAgentConfig) (answer : AudioDescription)
    → (usable_answer config answer).0 ≡ true
    → config.srtp ≡ true
    → is_some (usable_answer config answer).1 ≡ true
unfolding usable_answer
usable_answer-key config answer u s = ground arith

pub remote_media_for-key :
    (config : UserAgentConfig) (c : Call) (media : AudioDescription) (key : Option SdesCrypto)
    → config.srtp ≡ true
    → is_some key ≡ true
    → is_some (remote_media_for config c media key).srtp ≡ true
unfolding remote_media_for
remote_media_for-key config c media key s h = ground arith

-- Starting media on an open socket, with a key where media must be SRTP.
pub start-KeepsContract :
    {origin : Origin}
    → (w : World) (a : UserAgent) (c : Call) (media : AudioDescription) (key : Option SdesCrypto)
    → KeepsContract origin a
    → a.call ≡ some c
    → c.media_open ≡ true
    → (a.config.srtp ≡ true → is_some key ≡ true)
    → KeepsContract origin (start w a (remote_media_for a.config c media key)).0
unfolding start
start-KeepsContract w a c media key k e m keyed =
    let remote = remote_media_for a.config c media key in
    let keys : a.config.srtp ≡ true → is_some remote.srtp ≡ true =
      λ s. remote_media_for-key a.config c media key s (keyed s) in
    let up_now : media_state a.call ≡ up = rw e (rw m) in
    record {
      kept = Keeps-step a.call _ (rw up_now (ground (arith, keys))) k.kept.sound k.kept;
      pending = k.pending;
      same = k.same;
    }

start-call : (w : World) (a : UserAgent) (remote : RemoteMedia) → (start w a remote).0.call ≡ a.call
unfolding start
start-call w a remote = refl

pub connect-KeepsContract :
    {origin : Origin}
    → (w : World) (a : UserAgent) (c : Call) (response : Message) (answer : Option AudioDescription)
      (now : Time)
    → KeepsContract origin a
    → a.call ≡ some c
    → c.media_open ≡ true
    → KeepsContract origin (connect w a c response answer now)
unfolding connect emit
connect-KeepsContract w a c response none now k e m = hang_up_failed-KeepsContract w a c now k e
connect-KeepsContract w a c response (some answer) now k e m =
    let key = (usable_answer a.config answer).1 in
    let started = start w a (remote_media_for a.config c answer key) in
    let keyed = usable_answer-key a.config answer in
    let up_now = start-KeepsContract w a c answer key k e m in
    let held = start-call w a (remote_media_for a.config c answer key) in
    ground (
      arith,
      hang_up_failed-KeepsContract w a c now k e,
      λ (u : (usable_answer a.config answer).0 ≡ true). up_now (keyed u),
      λ (u : (usable_answer a.config answer).0 ≡ true).
          hang_up_failed-KeepsContract w started.0 c now (up_now (keyed u)) (held ∙ e),
    )
