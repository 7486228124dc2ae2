-- ===== src/Engine/Link.antt =====
-- src/core/engine.cpp, the TLS connection: its state, and how it is made, lost and made again. A
-- connection is src/net/tls_transport.hpp's interface: `written` is what was handed to connections,
-- in order, and `made` is bookkeeping: the generation of the last connection that was made.
pub mod Backoff
use ketphone.Base.{
  ℕ, ◌+◌, ◌*◌, ◌==◌, Bool, true, false, not, ◌&&◌, List, [], ◌∷◌, ◌++◌, if◌then◌else◌, leb, min,
  length, Bytes, is_empty, codes,
}
use ketphone.Core.Types.{Time, seconds}
use ketphone.Engine.Media.{Surroundings}
use ketphone.Sip.Framer
use ketphone.Sip.Framer.{StreamFramer}

-- kKeepAlive, kReconnectFirst, kReconnectMost and kPendingLimit.
abbrev pub keep_alive : Time
keep_alive = seconds 30

abbrev pub reconnect_first : Time
reconnect_first = seconds 1

abbrev pub reconnect_most : Time
reconnect_most = seconds 30

abbrev pub pending_limit : ℕ
pending_limit = 65536

pub data LinkState : Type 0 where
  down connecting connected : LinkState

abbrev pub is_down : LinkState → Bool
is_down down = true
is_down connecting = false
is_down connected = false

abbrev pub is_connected : LinkState → Bool
is_connected down = false
is_connected connecting = false
is_connected connected = true

pub record Link : Type 0 where
  pub connection : Bool
  pub generation : ℕ
  pub made : ℕ
  pub state : LinkState
  pub reconnect_at : Time
  pub backoff : Time
  pub keepalive_at : Time
  pub relink : Bool
  pub pending : Bytes
  pub framer : StreamFramer
  pub written : List Bytes

abbrev pub new_link : Link
new_link = record {
  connection = false;
  generation = 0;
  made = 0;
  state = down;
  reconnect_at = 0;
  backoff = reconnect_first;
  keepalive_at = 0;
  relink = false;
  pending = [];
  framer = Framer.init;
  written = [];
}

-- send_sip over TLS.
unfoldable pub send : Link → Bytes → Link
send l message =
    if l.connection
    then record l { written = l.written ++ message ∷ [] }
    else if leb (length l.pending + length message) pending_limit
    then record l { pending = l.pending ++ message }
    else l

unfoldable pub schedule_reconnect : Link → Time → Link
schedule_reconnect l now = record l {
  state = down;
  reconnect_at = now + l.backoff;
  backoff = min (l.backoff * 2) reconnect_most;
}

unfoldable pub connect_link : Surroundings → Link → Time → Link
connect_link s l now =
    let replaced = record l {
      generation = l.generation + 1;
      framer = Framer.reset l.framer;
      connection = s.connects_tls (l.generation + 1);
    } in
    if not replaced.connection
    then schedule_reconnect replaced now
    else if is_empty l.pending
    then record replaced { state = connecting; made = replaced.generation }
    else record replaced {
      state = connecting;
      made = replaced.generation;
      written = l.written ++ l.pending ∷ [];
      pending = [];
    }

-- drop_link, before it tells the user agent.
unfoldable pub disconnect : Link → Time → Link
disconnect l now =
    schedule_reconnect
      (record l {
        connection = false;
        generation = l.generation + 1;
        framer = Framer.reset l.framer;
      })
      now

-- The connection's handshake is done.
unfoldable pub bring_up : Link → Time → Link
bring_up l now = record l {
  state = connected;
  backoff = reconnect_first;
  keepalive_at = now + keep_alive;
}

-- The double line end that keeps an idle connection alive, when it is due.
unfoldable pub keep_open : Link → Time → Link
keep_open l now =
    if is_connected l.state && leb l.keepalive_at now
    then record l {
      written = l.written ++ (13 ∷ 10 ∷ 13 ∷ 10 ∷ []) ∷ [];
      keepalive_at = now + keep_alive;
    }
    else l
