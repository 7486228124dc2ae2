-- ===== src/Core/Dispatch/Timers.antt =====
-- The contract with the host: the timers and the connection.
use ketphone.Base.{
  Bool, not, ◌&&◌, ◌||◌, List, Option, none, some, arith, [], ◌∷◌, ◌++◌, map, Bytes, ◌≡◌, refl, ap,
  sym, ◌∙◌, if_case, leb, min, ◌*◌, ◌+◌,
}
use ketphone.Core.Contract.{
  Origin, KeepsContract, Keeps-send, Keeps-call, IsSound, media_state, IsSound-of, ArePending,
  erase-ArePending, find-HasBranch, host_after, host_step, HostState,
}
use ketphone.Core.Outgoing.Contract.{end_call-KeepsContract, send_bye-KeepsContract}
use ketphone.Core.Register.Contract.{send_register-KeepsContract}
use ketphone.Core.Types.{
  World, UserAgent, Call, Time, Transaction, HostCall, send_sip, answering, timeout, t2,
}
use ketphone.Core.Host.{emit, send_raw}
use ketphone.Core.Outgoing.{holding, in_state}
use ketphone.Core.Register.{with_registration}
use ketphone.Core.Wire.{Transactions, find_transaction}
use ketphone.Core.Dispatch.Contract.{run_final-KeepsContract}
use ketphone.Core.Dispatch.{
  run_final, resent, sweep, fail_transaction, fail_expired, resend_answer, refresh, is_due,
  on_timer, fail_all, on_transport_down, on_transport_up,
}

resent-on_final : (t : Transaction) (now : Time) → (resent t now).on_final ≡ t.on_final
unfolding resent
resent-on_final t now = ground arith

sweep-ArePending : (now : Time) (ts : Transactions) → ArePending ts → ArePending (sweep now ts).0
unfolding sweep
sweep-ArePending now [] p = tt
sweep-ArePending now ((key, t) ∷ rest) p =
    let kept = sweep-ArePending now rest p.1 in
    if_case (λ (r : Transactions × List Bytes × List Bytes). ArePending r.0) (leb t.deadline now)
      (λ _. (p.0, kept))
      λ _.
        if_case (λ (r : Transactions × List Bytes × List Bytes). ArePending r.0)
          (t.retransmitting && leb t.retransmit_at now)
          (λ _. (rw (resent-on_final t now) p.0, kept)) (λ _. (p.0, kept))

-- Messages leave the media as it is.
host_after-sends :
    (origin : Origin) (srtp : Bool) (log : List HostCall) (messages : List Bytes)
    → host_after srtp origin.media (log ++ map send_sip messages) ≡ host_after srtp origin.media log
unfolding host_after
host_after-sends origin srtp log messages = from origin.media log messages
  where
    sends : (s : HostState) (messages : List Bytes) → host_after srtp s (map send_sip messages) ≡ s
    sends s [] = refl
    sends s (m ∷ ms) = sends s ms

    from :
        (s : HostState) (log : List HostCall) (messages : List Bytes)
        → host_after srtp s (log ++ map send_sip messages) ≡ host_after srtp s log
    from s [] messages = sends s messages
    from s (h ∷ hs) messages = from (host_step srtp s h) hs messages

fail_transaction-KeepsContract :
    {origin : Origin}
    → (w : World) (a : UserAgent) (key : Bytes) (found : Option Transaction) (now : Time)
    → KeepsContract origin a
    → find_transaction key a.transactions ≡ found
    → KeepsContract origin (fail_transaction w a key found now)
unfolding fail_transaction
fail_transaction-KeepsContract w a key none now k e = k
fail_transaction-KeepsContract w a key (some t) now k e =
    run_final-KeepsContract w _ t.on_final none now
      (record {
        kept = k.kept;
        pending = erase-ArePending key a.transactions k.pending;
        same = k.same;
      })
      (find-HasBranch key a.transactions k.pending e)

fail_expired-KeepsContract :
    {origin : Origin}
    → (w : World) (a : UserAgent) (keys : List Bytes) (now : Time) → KeepsContract origin a
    → KeepsContract origin (fail_expired w a keys now)
unfolding fail_expired
fail_expired-KeepsContract w a [] now k = k
fail_expired-KeepsContract w a (key ∷ keys) now k =
    fail_expired-KeepsContract w
      (fail_transaction w a key (find_transaction key a.transactions) now) keys now
      (fail_transaction-KeepsContract w a key (find_transaction key a.transactions) now k refl)

resent-KeepsContract :
    {origin : Origin}
    → (w : World) (a : UserAgent) (c d : Call) → KeepsContract origin a
    → media_state (some d) ≡ media_state a.call
    → IsSound a.config d
    → KeepsContract origin (holding (send_raw a c.last_response) d)
unfolding send_raw
resent-KeepsContract w a c d k m s = record {
  kept = Keeps-send _ (Keeps-call (some d) m s k.kept);
  pending = k.pending;
  same = k.same;
}

resend_answer-KeepsContract :
    {origin : Origin}
    → (w : World) (a : UserAgent) (held : Option Call) (now : Time) → KeepsContract origin a
    → a.call ≡ held
    → KeepsContract origin (resend_answer w a held now)
unfolding resend_answer
resend_answer-KeepsContract {origin} w a none now k e = k
resend_answer-KeepsContract {origin} w a (some c) now k e =
    let s = IsSound-of a k e in
    let m = ap media_state (sym e) in
    let interval = min (c.resend_interval * 2) t2 in
    let resending : Call = record c { resend_interval = interval; resend_at = now + interval } in
    let again : IsSound a.config resending = ground arith in
    if_case (KeepsContract origin) (not (in_state c.state answering)) (λ _. k)
      λ _.
        if_case (KeepsContract origin) (leb c.ack_deadline now)
          (λ _. end_call-KeepsContract _ timeout 408 (send_bye-KeepsContract w a k c now m s))
          λ _.
            if_case (KeepsContract origin) (leb c.resend_at now)
              (λ _. resent-KeepsContract w a c resending k m again) (λ _. k)

refresh-KeepsContract :
    {origin : Origin}
    → (w : World) (a : UserAgent) (now : Time) → KeepsContract origin a
    → KeepsContract origin (refresh w a now)
unfolding refresh
refresh-KeepsContract {origin} w a now k =
    if_case (KeepsContract origin)
      (a.registration.wanted
        && is_due a.registration.next_attempt now
        && not a.registration.in_flight)
      (λ _.
        send_register-KeepsContract w
          (with_registration a (record (a.registration) { next_attempt = none }))
          (record { kept = k.kept; pending = k.pending; same = k.same }) a.config.register_expires
          [] now)
      (λ _. k)

pub on_timer-KeepsContract :
    {origin : Origin}
    → (w : World) (a : UserAgent) (now : Time) → KeepsContract origin a
    → KeepsContract origin (on_timer w a now)
unfolding on_timer
on_timer-KeepsContract {origin} w a now k =
    let (kept, sent, expired) = sweep now a.transactions in
    let swept : UserAgent = record a { transactions = kept; log = a.log ++ map send_sip sent } in
    let after_sweep : KeepsContract origin swept = record {
      kept = record {
        host = host_after-sends origin a.config.srtp a.log sent ∙ k.kept.host;
        sound = k.kept.sound;
      };
      pending = sweep-ArePending now a.transactions k.pending;
      same = k.same;
    } in
    let failed = fail_expired w swept expired now in
    refresh-KeepsContract w _ now (
      resend_answer-KeepsContract w failed failed.call now
        (fail_expired-KeepsContract w swept expired now after_sweep) refl)

fail_all-KeepsContract :
    {origin : Origin}
    → (w : World) (a : UserAgent) (ts : Transactions) (now : Time) → KeepsContract origin a
    → ArePending ts
    → KeepsContract origin (fail_all w a ts now)
unfolding fail_all
fail_all-KeepsContract w a [] now k p = k
fail_all-KeepsContract w a ((key, t) ∷ rest) now k p =
    fail_all-KeepsContract w (run_final w a t.on_final none now) rest now
      (run_final-KeepsContract w a t.on_final none now k p.0) p.1

pub on_transport_down-KeepsContract :
    {origin : Origin}
    → (w : World) (a : UserAgent) (now : Time) → KeepsContract origin a
    → KeepsContract origin (on_transport_down w a now)
unfolding on_transport_down emit
on_transport_down-KeepsContract {origin} w a now k =
    let dropped : UserAgent = record a { transactions = [] } in
    let failed = fail_all w dropped a.transactions now in
    let kept : KeepsContract origin failed =
      fail_all-KeepsContract w dropped a.transactions now
        (record { kept = k.kept; pending = tt; same = k.same }) k.pending in
    if_case (KeepsContract origin) failed.registration.registered
      (λ _. record { kept = kept.kept; pending = kept.pending; same = kept.same }) (λ _. kept)

pub on_transport_up-KeepsContract :
    {origin : Origin}
    → (w : World) (a : UserAgent) (now : Time) → KeepsContract origin a
    → KeepsContract origin (on_transport_up w a now)
unfolding on_transport_up
on_transport_up-KeepsContract {origin} w a now k =
    if_case (KeepsContract origin)
      (a.shutting_down || not a.registration.wanted || a.registration.in_flight) (λ _. k)
      λ _.
        send_register-KeepsContract w
          (with_registration a (record (a.registration) { next_attempt = none }))
          (record { kept = k.kept; pending = k.pending; same = k.same }) a.config.register_expires
          [] now
