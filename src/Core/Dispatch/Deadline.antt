-- ===== src/Core/Dispatch/Deadline.antt =====
-- `next_deadline` against `on_timer`.
use ketphone.Base.{
  Bool, true, false, List, Option, none, some, arith, [], ◌∷◌, ◌++◌, map, Bytes, ◌≡◌, refl, ap, ◌∙◌,
  ◌<◌, if◌then◌else◌, Bool-cases, inl, inr,
}
use mathlib.Core.List.{append-nil}
use ketphone.Core.Types.{World, UserAgent, Call, Time, send_sip}
use ketphone.Core.Wire.{Transactions}
use ketphone.Core.Dispatch.{
  sweep, fail_expired, resend_answer, refresh, is_due, on_timer, earlier, transaction_deadline,
  call_deadline, refresh_deadline, next_deadline,
}

-- The time lies before a deadline, if there is one.
abbrev pub IsBefore : Time → Option Time → Type 0
IsBefore now none = Unit
IsBefore now (some at) = now < at

-- What comes before the earlier of two deadlines comes before both.
IsBefore-earlier :
    (now : Time) (next : Option Time) (at : Time)
    → IsBefore now (earlier next at)
    → IsBefore now next × (now < at)
unfolding earlier
IsBefore-earlier now none at h = (tt, h)
IsBefore-earlier now (some n) at h = ground arith

-- Nothing of these transactions is due.
abbrev AreQuiet : Time → Transactions → Type 0
AreQuiet now [] = Unit
AreQuiet now ((key, t) ∷ rest) =
    (now < t.deadline) × (t.retransmitting ≡ true → now < t.retransmit_at) × AreQuiet now rest

IsBefore-retransmission :
    (now : Time) (next : Option Time) (retransmitting : Bool) (at : Time)
    → IsBefore now (if retransmitting then earlier next at else next)
    → IsBefore now next × (retransmitting ≡ true → now < at)
IsBefore-retransmission now next true at h =
    ((IsBefore-earlier now next at h).0, λ _. (IsBefore-earlier now next at h).1)
IsBefore-retransmission now next false at h = (h, λ e. cc)

IsBefore-transactions :
    (now : Time) (next : Option Time) (ts : Transactions)
    → IsBefore now (transaction_deadline next ts)
    → IsBefore now next × AreQuiet now ts
unfolding transaction_deadline
IsBefore-transactions now next [] h = (h, tt)
IsBefore-transactions now next ((key, t) ∷ rest) h =
    let considered = earlier next t.deadline in
    let (before, quiet) =
      IsBefore-transactions now
        (if t.retransmitting then earlier considered t.retransmit_at else considered) rest h in
    let (first, again) =
      IsBefore-retransmission now considered t.retransmitting t.retransmit_at before in
    let (start, last) = IsBefore-earlier now next t.deadline first in (start, (last, again, quiet))

sweep-quiet : (now : Time) (ts : Transactions) → AreQuiet now ts → sweep now ts ≡ (ts, [], [])
unfolding sweep
sweep-quiet now [] q = refl
sweep-quiet now ((key, t) ∷ rest) q = ground (arith, sweep-quiet now rest q.2)

IsBefore-call :
    (now : Time) (next : Option Time) (held : Option Call)
    → IsBefore now (call_deadline next held)
    → IsBefore now next × IsBefore now (call_deadline none held)
unfolding call_deadline earlier
IsBefore-call now next none h = (h, tt)
IsBefore-call now none (some c) h = (tt, h)
IsBefore-call now (some at) (some c) h = ground arith

resend_answer-quiet :
    (w : World) (a : UserAgent) (held : Option Call) (now : Time)
    → IsBefore now (call_deadline none held)
    → resend_answer w a held now ≡ a
unfolding resend_answer call_deadline earlier
resend_answer-quiet w a none now h = refl
resend_answer-quiet w a (some c) now h = ground arith

IsBefore-refresh :
    (now : Time) (next : Option Time) (wanted : Bool) (at : Option Time)
    → IsBefore now (refresh_deadline next wanted at)
    → IsBefore now next × (wanted ≡ true → IsBefore now at)
unfolding refresh_deadline
IsBefore-refresh now next wanted none h = (h, λ _. tt)
IsBefore-refresh now next true (some at) h =
    ((IsBefore-earlier now next at h).0, λ _. (IsBefore-earlier now next at h).1)
IsBefore-refresh now next false (some at) h = (h, λ e. cc)

is_due-quiet : (at : Option Time) (now : Time) → IsBefore now at → is_due at now ≡ false
unfolding is_due
is_due-quiet none now h = refl
is_due-quiet (some at) now h = ground arith

refresh-quiet :
    (w : World) (a : UserAgent) (now : Time)
    → (a.registration.wanted ≡ true → IsBefore now a.registration.next_attempt)
    → refresh w a now ≡ a
unfolding refresh
refresh-quiet w a now h = elim (Bool-cases a.registration.wanted) [
  | inl wanted ↦ rw (is_due-quiet a.registration.next_attempt now (h wanted)) (ground arith)
  | inr unwanted ↦ ground arith
]

-- What on_timer does behind its first loop.
after_sweep : World → UserAgent → Time → Transactions × List Bytes × List Bytes → UserAgent
after_sweep w a now (kept, sent, expired) =
    let swept : UserAgent = record a { transactions = kept; log = a.log ++ map send_sip sent } in
    let failed = fail_expired w swept expired now in
    refresh w (resend_answer w failed failed.call now) now

-- Until the time that `next_deadline` gives, `on_timer` changes nothing and sends nothing.
pub on_timer-next_deadline :
    (w : World) (a : UserAgent) (now : Time) → IsBefore now (next_deadline a) → on_timer w a now ≡ a
unfolding on_timer next_deadline fail_expired after_sweep
on_timer-next_deadline w a now h =
    let call_next = call_deadline (transaction_deadline none a.transactions) a.call in
    let (before, registered) =
      IsBefore-refresh now call_next a.registration.wanted a.registration.next_attempt h in
    let (sent_before, answer_before) =
      IsBefore-call now (transaction_deadline none a.transactions) a.call before in
    let quiet = (IsBefore-transactions now none a.transactions sent_before).1 in
    let swept : UserAgent = record a { log = a.log ++ [] } in
    ap (after_sweep w a now) (sweep-quiet now a.transactions quiet)
    ∙ ap (λ t. refresh w t now) (resend_answer-quiet w swept a.call now answer_before)
    ∙ refresh-quiet w swept now registered
    ∙ (λ i. record a { log = append-nil a.log i })
