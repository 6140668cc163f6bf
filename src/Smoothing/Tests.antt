-- ===== src/Smoothing/Tests.antt =====
-- Runs of the smoothing thread with a buffer of two frames.
use obe_rt.Base.{
  ℕ, ◌*◌, ◌≤◌, ◌≡◌, ◌≢◌, ◌⊎◌, refl, true, false, List, [], ◌∷◌, ◌++◌, some, arith, length,
}
use obe_rt.Base.Int.{ℤ, pos, negsuc, ◌+ℤ◌, int_laws, parts_of_eq}
use obe_rt.Smoothing.{
  Frame, holding, sending, removing, first_wait, stopped, faulted, State, thread_step, step_at,
  fill, take_first, first_of, pace, waits_for_tick, init, arrive, close, tick,
}
use obe_rt.Smoothing.Reach.{Reach, start, run, arrival, ticking, closing}
use obe_rt.Smoothing.Order.{pending, Reach-order}
use obe_rt.Smoothing.Progress.{Starved, Unticked, Reach-progress, steps, cancel-stops}
use obe_rt.Smoothing.Drain.{Times, ready, turns, turns-drain}

abbrev first : Frame
first = record { ident = 1; real_dts = pos 0 }

abbrev second : Frame
second = record { ident = 2; real_dts = pos 900000 }

abbrev both : List Frame
both = first ∷ second ∷ []

abbrev filled : State
filled = arrive second (arrive first (init (pos 5)))

-- The state in which the first frame waits for a tick, and how it is reached.
abbrev waiting : State
waiting = record {
  enc_smoothing_queue = both;
  mux_queue = [];
  buffer_complete = true;
  cancel = false;
  clock = pos 5;
  last_clock = pos 5;
  start_pts = negsuc 0;
  start_dts = pos 0;
  num_frames = 2;
  last_exit_time = pos 0;
  place = first_wait first;
}

abbrev held : State
held = record waiting { last_clock = negsuc 0; start_dts = negsuc 0; place = holding first }

waiting-Reach : Reach 2 both waiting
unfolding init arrive thread_step step_at fill take_first first_of pace
waiting-Reach =
    run {s = held} (pos 0) refl
      (run {s = filled} (pos 0) refl (arrival second (arrival first (start (pos 5)))))

-- After a tick the first frame has been sent, and stays in the queue until it is removed.
abbrev going : State
going = record waiting { clock = pos 6; start_pts = pos 6; place = sending first }

abbrev sent : State
sent = record going { mux_queue = first ∷ []; place = removing first }

sent-Reach : Reach 2 both sent
unfolding tick thread_step step_at waits_for_tick
sent-Reach =
    run {s = going} (pos 0) refl
      (run {s = record waiting { clock = pos 6 }} (pos 0) refl (ticking (pos 6) waiting-Reach))

Reach-order_example :
    (both ≡ sent.mux_queue ++ pending sent.place sent.enc_smoothing_queue)
    × ((sent.mux_queue ≡ []) ⊎ (2 ≤ length both))
    × (sent.place ≢ faulted)
Reach-order_example = Reach-order sent-Reach

Reach-progress_example :
    ((t : State) × (thread_step 2 (pos 0) waiting ≡ some t))
    ⊎ (Starved 2 waiting ⊎ Unticked waiting)
Reach-progress_example = Reach-progress (pos 0) waiting-Reach (λ e. ground arith)

cancel-stops_example : (steps 2 (pos 0) 6 (close waiting)).place ≡ stopped
unfolding close
cancel-stops_example = cancel-stops (pos 0) (closing waiting-Reach) refl

next_second : ℤ → ℤ
next_second c = c +ℤ pos 27000000

next_second_new : (c : ℤ) → next_second c ≢ c
unfolding next_second
next_second_new c e = absurd (omega (int_laws, parts_of_eq e))

abbrev times : Times
times = record {
  clock = pos 5;
  last_clock = pos 5;
  start_pts = negsuc 0;
  start_dts = negsuc 0;
  last_exit_time = pos 0;
}

turns-drain_example :
    (k : ℕ) × (k ≤ 7 * 2)
    × (w : Times) × (turns 2 (pos 0) next_second k (ready both [] times) ≡ ready [] both w)
turns-drain_example = turns-drain 2 (pos 0) next_second next_second_new both [] times
