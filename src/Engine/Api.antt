-- ===== src/Engine/Api.antt =====
-- src/core/engine.cpp, the C functions on an engine; a null pointer is `none`. A command's result
-- comes when the network thread answers it. Nothing throws here.
use ketphone.Base.{ℕ, Bool, true, false, List, [], Option, none, some, Bytes, ℤ}
use ketphone.Engine.Commands.{submit, place_call, capture, playout, media_stats}
use ketphone.Engine.State.{Engine, registers, unregisters, answers, rejects, hangs_up, ApiResult}
use ketphone.Media.Session.{MediaStats}
use ketphone.Media.Srtp.{Libsrtp}
use ketphone.Media.Statistics.{Floats}

module _ {F : Floats} {L : Libsrtp} where
  -- KETPHONE_GUARD: the engine behind the call, and the result that is known at once.
  unfoldable pub guarded :
      Option (Engine F L) → (Engine F L → Engine F L) → Option (Engine F L) × Option ApiResult
  guarded none f = (none, some ApiResult.invalid_argument)
  guarded (some e) f = (some (f e), none)

  unfoldable pub ketphone_register : Option (Engine F L) → Option (Engine F L) × Option ApiResult
  unfolding guarded
  ketphone_register engine = guarded engine (λ (e : Engine F L). submit e registers)

  unfoldable pub ketphone_unregister : Option (Engine F L) → Option (Engine F L) × Option ApiResult
  unfolding guarded
  ketphone_unregister engine = guarded engine (λ (e : Engine F L). submit e unregisters)

  unfoldable pub ketphone_call :
      Option (Engine F L) → Option Bytes → Option (Engine F L) × Option ApiResult
  unfolding guarded
  ketphone_call engine none = (engine, some ApiResult.invalid_argument)
  ketphone_call engine (some target) = guarded engine (λ (e : Engine F L). place_call e target)

  unfoldable pub ketphone_answer : Option (Engine F L) → ℕ → Option (Engine F L) × Option ApiResult
  unfolding guarded
  ketphone_answer engine id = guarded engine (λ (e : Engine F L). submit e (answers id))

  unfoldable pub ketphone_reject :
      Option (Engine F L) → ℕ → ℕ → Option (Engine F L) × Option ApiResult
  unfolding guarded
  ketphone_reject engine id status =
      guarded engine (λ (e : Engine F L). submit e (rejects id status))

  unfoldable pub ketphone_hangup : Option (Engine F L) → ℕ → Option (Engine F L) × Option ApiResult
  unfolding guarded
  ketphone_hangup engine id = guarded engine (λ (e : Engine F L). submit e (hangs_up id))

  -- How many samples were accepted.
  unfoldable pub ketphone_audio_capture :
      Option (Engine F L) → Option (List ℤ) → Option (Engine F L) × ℕ
  ketphone_audio_capture none samples = (none, 0)
  ketphone_audio_capture (some e) none = (some e, 0)
  ketphone_audio_capture (some e) (some samples) =
      let (f, accepted) = capture e samples in (some f, accepted)

  -- The samples to play, for an array of a size, and how many are real.
  unfoldable pub ketphone_audio_playout :
      Option (Engine F L) → Option ℕ → Option (Engine F L) × List ℤ × ℕ
  ketphone_audio_playout none count = (none, [], 0)
  ketphone_audio_playout (some e) none = (some e, [], 0)
  ketphone_audio_playout (some e) (some count) =
      let (f, samples, real) = playout e count in (some f, samples, real)

  -- The result, and what is written to the caller's record, if it is there.
  unfoldable pub ketphone_media_stats_get :
      Option (Engine F L) → Bool → ApiResult × Option (MediaStats F)
  ketphone_media_stats_get engine false = (ApiResult.invalid_argument, none)
  ketphone_media_stats_get none true = (ApiResult.invalid_argument, none)
  ketphone_media_stats_get (some e) true = (ApiResult.ok, some (media_stats e))
