-- ===== src/Smoothing/Reach.antt =====
-- The states that the smoothing thread and the threads around it can reach, in any interleaving.
use obe_rt.Base.{ℕ, ◌≡◌, List, [], ◌∷◌, ◌++◌, some}
use obe_rt.Base.Int.{ℤ}
use obe_rt.Smoothing.{Frame, State, init, thread_step, arrive, refill, tick, close}

-- `Reach n fs s`: with a buffer of n frames, s is reached when exactly the frames fs have arrived.
pub data Reach (buffer_frames : ℕ) : List Frame → State → Type 0 where
  start : (clock : ℤ) → Reach buffer_frames [] (init clock)
  run :
      {fs : List Frame} {s t : State} (now : ℤ)
      → thread_step buffer_frames now s ≡ some t
      → Reach buffer_frames fs s
      → Reach buffer_frames fs t
  arrival :
      {fs : List Frame} {s : State} (f : Frame)
      → Reach buffer_frames fs s
      → Reach buffer_frames (fs ++ f ∷ []) (arrive f s)
  refilling :
      {fs : List Frame} {s : State} → Reach buffer_frames fs s → Reach buffer_frames fs (refill s)
  ticking :
      {fs : List Frame} {s : State} (value : ℤ)
      → Reach buffer_frames fs s
      → Reach buffer_frames fs (tick value s)
  closing :
      {fs : List Frame} {s : State} → Reach buffer_frames fs s → Reach buffer_frames fs (close s)
