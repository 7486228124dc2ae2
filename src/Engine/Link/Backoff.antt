-- ===== src/Engine/Link/Backoff.antt =====
-- What the TLS connection's state keeps.
use ketphone.Base.{ℕ, ◌≤◌, true, [], ◌≡◌, arith, not, length, length-append, Bytes}
use ketphone.Core.Types.{Time, seconds}
use ketphone.Engine.Link.{
  Link, is_down, send, schedule_reconnect, connect_link, disconnect, bring_up, keep_open,
  pending_limit,
}
use ketphone.Engine.Media.{Surroundings}

-- An event can be from a connection that was made so far.
abbrev pub IsPosted : Link → ℕ → Type 0
IsPosted l generation = (1 ≤ generation) × (generation ≤ l.made)

-- There is a connection exactly if the link is not down; messages wait only while there is none, and
-- not more than 65536 bytes; the next pause before connecting again is 1 to 30 seconds; and the last
-- connection that was made is still there if its generation is the current one.
pub record IsLink (l : Link) : Type 0 where
  pub present : is_down l.state ≡ not l.connection
  pub waiting : l.connection ≡ true → l.pending ≡ []
  pub bounded : length l.pending ≤ pending_limit
  pub least : seconds 1 ≤ l.backoff
  pub most : l.backoff ≤ seconds 30
  pub earlier : l.made ≤ l.generation
  pub current : l.made ≡ l.generation → 1 ≤ l.generation → l.connection ≡ true

pub send-IsLink : (l : Link) (message : Bytes) → IsLink l → IsLink (send l message)
unfolding send
send-IsLink l message k = ground (arith, length-append l.pending message)

pub disconnect-IsLink : (l : Link) (now : Time) → IsLink l → IsLink (disconnect l now)
unfolding disconnect schedule_reconnect
disconnect-IsLink l now k = ground arith

pub connect_link-IsLink :
    (s : Surroundings) (l : Link) (now : Time) → IsLink l → IsLink (connect_link s l now)
unfolding connect_link schedule_reconnect
connect_link-IsLink s l now k = ground arith

pub bring_up-IsLink :
    (l : Link) (now : Time) → l.connection ≡ true → IsLink l → IsLink (bring_up l now)
unfolding bring_up
bring_up-IsLink l now e k = ground arith

pub keep_open-IsLink : (l : Link) (now : Time) → IsLink l → IsLink (keep_open l now)
unfolding keep_open
keep_open-IsLink l now k = ground arith
