-- ===== src/Smoothing.antt =====
-- encoders/encoder_smoothing.c: the thread that paces coded video frames between the encoder and the
-- multiplexer, interleaved with the encoder, the input clock and obe_close of obe/obe.c.
-- A step of the thread is what it does up to the next place where another thread can come between.
-- Clock values and time stamps are ideal integers; the two queues have memory at hand.
pub mod Reach
pub mod Order
pub mod Progress
pub mod Drain
mod Tests
use obe_rt.Base.{
  ℕ, ◌<◌, Bool, true, false, List, [], ◌∷◌, ◌++◌, Option, none, some, ltb, leb, ◌==◌, if◌then◌else◌,
  length,
}
use obe_rt.Base.Int.{pos, ℤ, negsuc, ◌-ℤ◌, ltb_ℤ, eqb_ℤ}

-- What the thread reads of `obe_coded_frame_t`, and the identity of the frame.
pub record Frame : Type 0 where
  pub ident : ℕ
  pub real_dts : ℤ

-- Where the thread stands, with `coded_frame` where it is live.
pub data Place : Type 0 where
  at_top : Place  -- before or in the wait for frames
  holding : (coded_frame : Frame) → Place  -- before it locks the clock
  first_wait : (coded_frame : Frame) → Place  -- in the wait for a tick that starts a run
  pace_wait : (coded_frame : Frame) → Place  -- in the wait for a tick of a frame that is early
  sending : (coded_frame : Frame) → Place  -- before `add_to_queue`
  removing : (coded_frame : Frame) → Place  -- before `remove_from_queue`
  leaving : Place  -- before the exit time is noted
  stopped : Place
  faulted : Place  -- it has read `queue[0]` of an empty queue

pub record State : Type 0 where
  pub enc_smoothing_queue : List Frame
  pub mux_queue : List Frame
  pub buffer_complete : Bool  -- enc_smoothing_buffer_complete
  pub cancel : Bool  -- cancel_enc_smoothing_thread
  pub clock : ℤ  -- obe_clock_last_pts
  pub last_clock : ℤ
  pub start_pts : ℤ
  pub start_dts : ℤ
  pub num_frames : ℕ  -- num_enc_smoothing_frames
  pub last_exit_time : ℤ
  pub place : Place

-- The start of the thread.
pub init : ℤ → State
init clock = record {
  enc_smoothing_queue = [];
  mux_queue = [];
  buffer_complete = false;
  cancel = false;
  clock = clock;
  last_clock = negsuc 0;
  start_pts = negsuc 0;
  start_dts = negsuc 0;
  num_frames = 0;
  last_exit_time = pos 0;
  place = at_top;
}

-- `queue[0]` of the list
pub first_of : List Frame → Place
first_of [] = faulted
first_of (f ∷ fs) = holding f

-- The array without its first item.
pub rest_of : List Frame → List Frame
rest_of [] = []
rest_of (f ∷ fs) = fs

-- `coded_frame = queue[0]`
pub take_first : State → State
take_first s = record s { place = first_of s.enc_smoothing_queue }

-- From the count of the frames on: the buffer fills before the first frame is taken.
pub fill : ℕ → State → State
fill buffer_frames s =
    if s.buffer_complete
    then take_first s
    else if leb buffer_frames s.num_frames
    then take_first (record s { buffer_complete = true; start_dts = negsuc 0 })
    else record s { place = at_top }

-- From the lock of the clock to the wait, or past it for a frame that is late.
pub pace : Frame → State → State
pace f s =
    if eqb_ℤ s.start_dts (negsuc 0)
    then record s { last_clock = s.clock; start_dts = f.real_dts; place = first_wait f }
    else if ltb_ℤ (s.clock -ℤ s.start_pts) (f.real_dts -ℤ s.start_dts)
    then record s { last_clock = s.clock; place = pace_wait f }
    else record s { last_clock = s.clock; place = sending f }

-- The condition of both waits for a tick.
pub waits_for_tick : State → Bool
waits_for_tick s = if s.cancel then false else eqb_ℤ s.last_clock s.clock

-- One step of the thread; `none` where it waits or has ended. `buffer_frames` is the size of the buffer,
-- `now` the time that `get_input_clock_in_mpeg_ticks` gives.
pub step_at : ℕ → ℤ → State → Place → Option State
step_at buffer_frames now s at_top =
    if s.cancel
    then some (record s { place = stopped })
    else if length s.enc_smoothing_queue == s.num_frames
    then none
    else some (fill buffer_frames (record s { num_frames = length s.enc_smoothing_queue }))
step_at buffer_frames now s (holding f) = some (pace f s)
step_at buffer_frames now s (first_wait f) =
    if waits_for_tick s then none else some (record s { start_pts = s.clock; place = sending f })
step_at buffer_frames now s (pace_wait f) =
    if waits_for_tick s then none else some (record s { place = sending f })
step_at buffer_frames now s (sending f) =
    some (record s { mux_queue = s.mux_queue ++ f ∷ []; place = removing f })
step_at buffer_frames now s (removing f) =
    some (record s { enc_smoothing_queue = rest_of s.enc_smoothing_queue; place = leaving })
step_at buffer_frames now s leaving =
    some (record s { last_exit_time = now; num_frames = 0; place = at_top })
step_at buffer_frames now s stopped = none
step_at buffer_frames now s faulted = none

pub thread_step : ℕ → ℤ → State → Option State
thread_step buffer_frames now s = step_at buffer_frames now s s.place

-- The other threads: the encoder adds a frame or refills the buffer after a drop, the input ticks
-- (`obe_clock_tick`), and `obe_close` cancels the thread.
pub arrive : Frame → State → State
arrive f s = record s { enc_smoothing_queue = s.enc_smoothing_queue ++ f ∷ [] }

pub refill : State → State
refill s = record s { buffer_complete = false }

pub tick : ℤ → State → State
tick value s = record s { clock = value }

pub close : State → State
close s = record s { cancel = true }
