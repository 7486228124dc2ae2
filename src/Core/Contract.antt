-- ===== src/Core/Contract.antt =====
-- What the user agent promises its host (UserAgentHost in src/core/user_agent.hpp) about the media
-- socket, as a state machine over the calls that it made, and the state of its call that goes with it.
use ketphone.Base.{
  ◌==◌, Bool, true, false, not, List, [], ◌∷◌, ◌++◌, Option, none, some, if◌then◌else◌, ◌≡◌, refl,
  Bytes, is_some, is_empty, ◌||◌, subst, if_case, Bool-cases, inl, inr,
}
use ketphone.Core.Types.{
  UserAgent, UserAgentConfig, Call, Transaction, OnFinal, ignore_final, register_final,
  invite_final, HostCall, send_sip, open_media, start_media, close_media, ringing,
}
use ketphone.Core.Outgoing.{in_state}
use ketphone.Core.Wire.{
  acceptable, Transactions, put_transaction, erase_transaction, find_transaction, text_lt,
}
use ketphone.Sip.Text.{text_eq}

-- The media socket is closed or open, or the agent has broken the order of the calls.
pub data HostState : Type 0 where
  idle up broken : HostState

-- A socket is opened only while none is, and counts as open if it has a port; media starts and the
-- socket closes only while it is open; and where media must be SRTP, it starts with keys.
abbrev pub host_step : Bool → HostState → HostCall → HostState
host_step srtp s (send_sip message) = s
host_step srtp idle (open_media port) = if port == 0 then idle else up
host_step srtp up (open_media port) = broken
host_step srtp broken (open_media port) = broken
host_step srtp up (start_media remote ok) = if not srtp || is_some remote.srtp then up else broken
host_step srtp idle (start_media remote ok) = broken
host_step srtp broken (start_media remote ok) = broken
host_step srtp up close_media = idle
host_step srtp idle close_media = broken
host_step srtp broken close_media = broken

unfoldable pub host_after : Bool → HostState → List HostCall → HostState
host_after srtp s [] = s
host_after srtp s (h ∷ hs) = host_after srtp (host_step srtp s h) hs

pub host_after-append :
    (srtp : Bool) (s : HostState) (hs : List HostCall) (h : HostCall)
    → host_after srtp s (hs ++ h ∷ []) ≡ host_step srtp (host_after srtp s hs) h
unfolding host_after
host_after-append srtp s [] h = refl
host_after-append srtp s (g ∷ hs) h = host_after-append srtp (host_step srtp s g) hs h

-- The state of the media socket that belongs to a call.
abbrev pub media_state : Option Call → HostState
media_state none = idle
media_state (some c) = if c.media_open then up else idle

-- A call that rings is an incoming one with an offer that suits this side, and has no media yet;
-- every other call has. An incoming call has its INVITE. CANCEL goes out only once it was asked for
-- and a provisional response came. A call that rings has no branch of an INVITE of this side.
pub record IsSound (config : UserAgentConfig) (c : Call) : Type 0 where
  pub media : c.media_open ≡ not (in_state c.state ringing)
  pub offer : in_state c.state ringing ≡ true → acceptable config c.offer ≡ true
  pub incoming : in_state c.state ringing ≡ true → c.outgoing ≡ false
  pub invited : c.outgoing ≡ false → is_some c.invite ≡ true
  pub asked : c.cancel_sent ≡ true → c.cancel_requested ≡ true
  pub heard : c.cancel_sent ≡ true → c.provisional ≡ true
  pub unbranched : in_state c.state ringing ≡ true → c.invite_branch ≡ []

abbrev pub HasSound : UserAgentConfig → Option Call → Type 0
HasSound config none = Unit
HasSound config (some c) = IsSound config c

-- Where a user agent stands out from: its settings, and the state of the media socket.
pub record Origin : Type 0 where
  pub settings : UserAgentConfig
  pub media : HostState

pub record Keeps (origin : Origin) (config : UserAgentConfig) (call : Option Call)
    (log : List HostCall) : Type 0 where
  pub host : host_after config.srtp origin.media log ≡ media_state call
  pub sound : HasSound config call

-- The INVITE of a pending transaction went out under a branch.
abbrev pub HasBranch : OnFinal → Type 0
HasBranch ignore_final = Unit
HasBranch (register_final expires authenticated) = Unit
HasBranch (invite_final context) = is_empty context.branch ≡ false

abbrev HeldBranch : Option Transaction → Type 0
HeldBranch none = Unit
HeldBranch (some t) = HasBranch t.on_final

abbrev pub ArePending : Transactions → Type 0
ArePending [] = Unit
ArePending ((key, t) ∷ rest) = HasBranch t.on_final × ArePending rest

-- The agent keeps the contract, its log being the calls since `origin`.
pub record KeepsContract (origin : Origin) (a : UserAgent) : Type 0 where
  pub kept : Keeps origin a.config a.call a.log
  pub pending : ArePending a.transactions
  pub same : a.config ≡ origin.settings

pub put-ArePending :
    (key : Bytes) (t : Transaction) (ts : Transactions)
    → HasBranch t.on_final
    → ArePending ts
    → ArePending (put_transaction key t ts)
unfolding put_transaction
put-ArePending key t [] h p = (h, tt)
put-ArePending key t ((j, u) ∷ rest) h p =
    if_case ArePending (text_eq j key) (λ _. (h, p.1))
      λ _.
        if_case ArePending (text_lt key j) (λ _. (h, p)) λ _. (p.0, put-ArePending key t rest h p.1)

pub erase-ArePending :
    (key : Bytes) (ts : Transactions) → ArePending ts → ArePending (erase_transaction key ts)
unfolding erase_transaction
erase-ArePending key [] p = tt
erase-ArePending key ((j, u) ∷ rest) p =
    if_case ArePending (text_eq j key) (λ _. p.1) (λ _. (p.0, erase-ArePending key rest p.1))

transport_branch :
    {t u : Transaction}
    → ◌≡◌ {A = Option Transaction} (some u) (some t)
    → HasBranch u.on_final
    → HasBranch t.on_final
transport_branch {t} {u} e h = subst (λ (o : Option Transaction). HeldBranch o) e h

pub find-HasBranch :
    (key : Bytes) (ts : Transactions) {t : Transaction}
    → ArePending ts
    → find_transaction key ts ≡ some t
    → HasBranch t.on_final
unfolding find_transaction
find-HasBranch key [] p e = cc
find-HasBranch key ((j, u) ∷ rest) {t} p e = elim (Bool-cases (text_eq j key)) [
  | inl same ↦ transport_branch (rw same at e) p.0
  | inr other ↦ find-HasBranch key rest p.1 (rw other at e)
]

module _ {origin : Origin} {config : UserAgentConfig} {call : Option Call}
    {log : List HostCall} where
  -- Sending a message does not touch the media.
  pub Keeps-send :
      (message : Bytes)
      → Keeps origin config call log
      → Keeps origin config call (log ++ send_sip message ∷ [])
  Keeps-send message k = record {
    host = rw (host_after-append config.srtp origin.media log (send_sip message)) k.host;
    sound = k.sound;
  }

  -- Another call with the same media.
  pub Keeps-call :
      (other : Option Call)
      → media_state other ≡ media_state call
      → HasSound config other
      → Keeps origin config call log
      → Keeps origin config other log
  Keeps-call other e s k = record { host = rw e k.host; sound = s }

  -- A host call that takes the media from one state to the next.
  pub Keeps-step :
      (other : Option Call) (h : HostCall)
      → host_step config.srtp (media_state call) h ≡ media_state other
      → HasSound config other
      → Keeps origin config call log
      → Keeps origin config other (log ++ h ∷ [])
  Keeps-step other h e s k = record {
    host = rw (host_after-append config.srtp origin.media log h, k.host) e;
    sound = s;
  }

-- The call that an agent holds.
pub IsSound-of :
    {origin : Origin} (a : UserAgent) {c : Call}
    → KeepsContract origin a
    → a.call ≡ some c
    → IsSound a.config c
IsSound-of a k e = subst (HasSound a.config) e k.kept.sound
