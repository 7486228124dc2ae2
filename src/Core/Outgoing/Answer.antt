-- ===== src/Core/Outgoing/Answer.antt =====
-- A 2xx to an INVITE.
use ketphone.Base.{
  true, false, Option, none, some, arith, [], ◌∷◌, Bytes, ◌≡◌, refl, ap, sym, if_case, is_empty,
  if◌then◌else◌,
}
use ketphone.Core.Contract.{
  Origin, KeepsContract, Keeps-send, Keeps-call, IsSound, media_state, IsSound-of,
}
use ketphone.Core.Register.Contract.{send_request-KeepsContract}
use ketphone.Core.Types.{
  World, UserAgent, UserAgentConfig, Call, Time, InviteContext, ringing, confirmed,
}
use ketphone.Core.Host.{send_raw, draw_hex, end_call}
use ketphone.Core.Wire.{draw_branch}
use ketphone.Sip.Sdp.{parse_audio}
use ketphone.Sip.Text.{text_eq}
use ketphone.Core.Outgoing.{in_state, ending_reason, send_bye, ours, connect, answered}
use ketphone.Sip.Message.{Message}
use ketphone.Core.Outgoing.Contract.{end_call-KeepsContract, send_bye-KeepsContract}
use ketphone.Core.Outgoing.Media.{connect-KeepsContract}

-- The call that a 2xx confirms.
confirmed_call : Call → Bytes → Bytes → Bytes → Call
confirmed_call c ack to target = record c {
  ack = ack;
  remote_header = to;
  remote_target = target;
  state = confirmed;
}

confirmed_call-IsSound :
    (config : UserAgentConfig) (c : Call) (ack to target : Bytes)
    → IsSound config c
    → in_state c.state ringing ≡ false
    → IsSound config (confirmed_call c ack to target)
unfolding confirmed_call
confirmed_call-IsSound config c ack to target s r = ground arith

-- A call that the agent holds with its media, in the place of one that had it too.
answered_some-KeepsContract :
    {origin : Origin}
    → (w : World) (a : UserAgent) (c : Call) (response : Message) (now : Time)
    → KeepsContract origin a
    → a.call ≡ some c
    → c.media_open ≡ true
    → KeepsContract origin (
        if c.cancel_requested
        then end_call (send_bye w a c now) (ending_reason a) 0
        else connect w a c response (parse_audio response.body) now)
answered_some-KeepsContract {origin} w a c response now k e m =
    if_case (KeepsContract origin) c.cancel_requested
      (λ _.
        end_call-KeepsContract _ (ending_reason a) 0
          (send_bye-KeepsContract w a k c now (ap media_state (sym e)) (IsSound-of a k e)))
      (λ _. connect-KeepsContract w a c response (parse_audio response.body) now k e m)

pub answered-KeepsContract :
    {origin : Origin}
    → (w : World) (a : UserAgent) (held : Option Call) (context : InviteContext)
      (response : Message) (now : Time)
    → KeepsContract origin a
    → ((c : Call) → held ≡ some c → (a.call ≡ some c) × (in_state c.state ringing ≡ false))
    → KeepsContract origin (answered w a held context response now)
unfolding answered draw_branch draw_hex send_raw confirmed_call
answered-KeepsContract w a none context response now k h =
    send_request-KeepsContract w _
      (record { kept = Keeps-send _ k.kept; pending = k.pending; same = k.same }) _ now _ _ tt
answered-KeepsContract w a (some c) context response now k h =
    let e = (h c refl).0 in
    let s = IsSound-of a k e in
    let m : c.media_open ≡ true = ground (arith, (h c refl).1) in
    let up_sound = confirmed_call-IsSound a.config c _ _ _ s (h c refl).1 in
    answered_some-KeepsContract w _ _ response now
      (record {
        kept = Keeps-call _ (ap media_state (sym e)) up_sound (Keeps-send _ k.kept);
        pending = k.pending;
        same = k.same;
      })
      refl m

text_eq-nil : (xs : Bytes) → text_eq [] xs ≡ true → is_empty xs ≡ true
unfolding text_eq
text_eq-nil [] h = refl
text_eq-nil (x ∷ xs) h = cc

held_branch :
    {origin : Origin}
    → (a : UserAgent) (d c : Call) (context : InviteContext) → KeepsContract origin a
    → a.call ≡ some d
    → is_empty context.branch ≡ false
    → ours (some d) context ≡ some c
    → (a.call ≡ some c) × (in_state c.state ringing ≡ false)
unfolding ours
held_branch a d c context k h b o =
    let s = IsSound-of a k h in ground (arith, text_eq-nil context.branch)

-- A call with this side's branch does not ring.
pub ours-held :
    {origin : Origin}
    → (a : UserAgent) (context : InviteContext) (c : Call) → KeepsContract origin a
    → is_empty context.branch ≡ false
    → ours a.call context ≡ some c
    → (a.call ≡ some c) × (in_state c.state ringing ≡ false)
unfolding ours
ours-held a context c k b e = of_held a.call refl e
  where
    of_held :
        (held : Option Call)
        → a.call ≡ held
        → ours held context ≡ some c
        → (a.call ≡ some c) × (in_state c.state ringing ≡ false)
    of_held none h o = cc
    of_held (some d) h o = held_branch a d c context k h b o
