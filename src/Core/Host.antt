-- ===== src/Core/Host.antt =====
-- How the user agent reaches its surroundings: the host, the random sources and the event queue.
use ketphone.Base.{
  ℕ, ◌+◌, Bool, true, false, List, [], ◌∷◌, ◌++◌, Option, none, some, if◌then◌else◌, Bytes,
  replicate,
}
use ketphone.Core.Types.{
  World, UserAgent, Event, EndReason, HostCall, RemoteMedia, Call, send_sip, open_media,
  start_media, close_media, blank_event, call_ended,
}
use ketphone.Sip.Random
use ketphone.Sip.Sdp.{sdes_key_length}

unfoldable pub emit : UserAgent → Event → UserAgent
emit a event = record a { events = a.events ++ event ∷ [] }

unfoldable pub take_events : UserAgent → UserAgent × List Event
take_events a = (record a { events = [] }, a.events)

abbrev called : UserAgent → HostCall → UserAgent
called a h = record a { log = a.log ++ h ∷ [] }

unfoldable pub send_raw : UserAgent → Bytes → UserAgent
send_raw a message = called a (send_sip message)

unfoldable pub open_port : World → UserAgent → UserAgent × ℕ
open_port w a = let port = w.opens a.log in (called a (open_media port), port)

unfoldable pub start : World → UserAgent → RemoteMedia → UserAgent × Bool
start w a remote =
    let started = w.starts a.log remote in (called a (start_media remote started), started)

unfoldable pub draw_hex : World → UserAgent → ℕ → UserAgent × Bytes
draw_hex w a bytes =
    (record a { draws = a.draws + bytes }, Random.random_hex w.randomness a.draws bytes)

unfoldable pub draw_u32 : World → UserAgent → UserAgent × ℕ
draw_u32 w a = (record a { draws = a.draws + 1 }, Random.random_u32 w.randomness a.draws)

-- new_srtp_key, on a call that the agent does not hold yet: the agent, the call with its key, and
-- whether there is one.
unfoldable pub new_srtp_key : World → UserAgent → Call → UserAgent × Call × Bool
new_srtp_key w a c =
    if a.config.srtp
    then elim (Random.secure_random w.randomness a.secure_draws sdes_key_length) [
      | none ↦ (
        record a { secure_draws = a.secure_draws + 1 },
        record c { srtp_key = replicate sdes_key_length 0 },
        false,
      )
      | some key ↦
          (record a { secure_draws = a.secure_draws + 1 }, record c { srtp_key = key }, true)
    ]
    else (a, c, true)

-- end_call on the call that the agent holds.
end_held : UserAgent → Option Call → EndReason → ℕ → UserAgent
end_held a none _ _ = a
end_held a (some c) reason status =
    let closed = if c.media_open then called a close_media else a in
    record closed {
      call = none;
      events =
          closed.events
          ++ record blank_event {
            kind = call_ended;
            call_id = c.id;
            status = status;
            end_reason = reason;
            remote = c.remote_uri;
            remote_display_name = c.remote_display_name;
          }
            ∷ [];
    }

unfoldable pub end_call : UserAgent → EndReason → ℕ → UserAgent
unfolding end_held
end_call a reason status = end_held a a.call reason status
