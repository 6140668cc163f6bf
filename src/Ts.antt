-- ===== src/Ts.antt =====
-- mux/ts/ts.c: the loop of the muxer thread, which takes the coded frames that are due out of the mux
-- queue, has libmpegts make transport packets of them and hands those to the mux smoothing thread.
-- libmpegts is a parameter. The queues are the lists that Queue.Fifo shows them to be while memory is at
-- hand.
pub mod Frames
pub mod Due
pub mod Round
pub mod Sends
pub mod Order
pub mod Runs
mod Tests
use obe_rt.Base.{
  ℕ, zero, suc, ◌+◌, ◌/◌, Bool, true, false, not, List, [], ◌∷◌, ◌++◌, Option, none, some, ltb,
  ◌==◌, if◌then◌else◌, length, take,
}
use obe_rt.Base.Int.{ℤ, pos, negsuc, ◌+ℤ◌, ◌-ℤ◌, tdiv, ltb_ℤ, eqb_ℤ}
use obe_rt.Queue.Fifo.{erase_first}
use obe_rt.Obe.Routing.{MuxFrame, remove_early_frames}
use obe_rt.Obe.Streams.{OutputStream}
use obe_rt.Mux.{MuxedData}

-- `ts_frame_t` of libmpegts, as far as the muxer fills it
pub record TsFrame : Type 0 where
  pub opaque : MuxFrame
  pub pid : ℕ
  pub dts : ℤ
  pub pts : ℤ
  pub cpb_initial_arrival_time : ℤ
  pub cpb_final_arrival_time : ℤ
  pub random_access : ℤ
  pub priority : ℤ

-- What `ts_write_frames` gives, with the writer after it, and `ts_query_num_buffered_frames`.
pub record Written (W : Type 0) : Type 0 where
  pub output : List ℕ
  pub pcr_list : List ℤ
  pub writer : W

pub record TsWriter (W : Type 0) : Type 0 where
  pub write_frames : W → List TsFrame → Written W
  pub num_buffered_frames : W → ℕ

pub record Muxer (W : Type 0) : Type 0 where
  pub mux_queue : List MuxFrame
  pub mux_smoothing_queue : List MuxedData
  pub writer : W
  pub first_video_pts : ℤ
  pub first_video_real_pts : ℤ
  pub initial_audio_latency : ℤ
  pub last_video_dts : ℤ
  pub cancel : Bool

-- How a pass ends: it waits for a frame, or the thread ends on a cancellation, the process on a stall;
-- it reads through a null stream; or it has handed on these frames.
pub data Outcome (W : Type 0) : Type 0 where
  waits : Outcome W
  ended : Outcome W
  stalled : Outcome W
  faulted : Outcome W
  passed : List TsFrame → Muxer W → Outcome W

pub get_output_mux_stream : List OutputStream → ℤ → Option OutputStream
get_output_mux_stream [] output_stream_id = none
get_output_mux_stream (s ∷ streams) output_stream_id =
    if eqb_ℤ s.output_stream_id output_stream_id
    then some s
    else get_output_mux_stream streams output_stream_id

-- The loop that looks for a video frame, with `current_audio_pts`.
pub find_video : ℤ → List MuxFrame → ℤ × Option MuxFrame
find_video current_audio_pts [] = (current_audio_pts, none)
find_video current_audio_pts (f ∷ queue) =
    if f.is_video then (current_audio_pts, some f) else find_video f.pts queue

-- `rescaled_dts`
pub rescaled_dts : {W : Type 0} → Muxer W → MuxFrame → ℤ
rescaled_dts m f =
    if f.is_video then f.real_dts else (f.pts -ℤ m.first_video_pts) +ℤ m.first_video_real_pts

pub is_due : {W : Type 0} → Muxer W → ℤ → MuxFrame → Bool
is_due m video_dts f = not (ltb_ℤ video_dts (rescaled_dts m f))

-- The entry of `frames` for a frame; only video frames bring arrival times.
pub fill_entry : {W : Type 0} → Muxer W → MuxFrame → OutputStream → TsFrame
fill_entry m f stream =
    if f.is_video
    then record {
      opaque = f;
      pid = stream.pid;
      dts = tdiv f.real_dts 300;
      pts = tdiv f.real_pts 300;
      cpb_initial_arrival_time = f.cpb_initial_arrival_time;
      cpb_final_arrival_time = f.cpb_final_arrival_time;
      random_access = f.random_access;
      priority = f.priority;
    }
    else record {
      opaque = f;
      pid = stream.pid;
      dts = tdiv ((f.pts -ℤ m.first_video_pts) +ℤ m.first_video_real_pts) 300;
      pts = tdiv ((f.pts -ℤ m.first_video_pts) +ℤ m.first_video_real_pts) 300;
      cpb_initial_arrival_time = pos 0;
      cpb_final_arrival_time = pos 0;
      random_access = f.random_access;
      priority = f.priority;
    }

-- One more frame in front of the array; a null stream is read through.
abbrev pub with_entry :
    {W : Type 0}
    → Muxer W
    → MuxFrame
    → Option OutputStream
    → Option (List TsFrame)
    → Option (List TsFrame)
with_entry m f none rest = none
with_entry m f (some stream) none = none
with_entry m f (some stream) (some frames) = some (fill_entry m f stream ∷ frames)

-- The loop that fills `frames`.
pub gather : {W : Type 0} → List OutputStream → Muxer W → ℤ → List MuxFrame → Option (List TsFrame)
gather streams m video_dts [] = some []
gather streams m video_dts (f ∷ queue) =
    let rest = gather streams m video_dts queue in
    if is_due m video_dts f
    then with_entry m f (get_output_mux_stream streams f.output_stream_id) rest
    else rest

-- The comparison of pointers in `remove_item_from_queue`
pub same_frame : MuxFrame → MuxFrame → Bool
same_frame f g = f.ident == g.ident

-- The loop over `frames` at the end of the pass.
pub remove_frames : List TsFrame → List MuxFrame → List MuxFrame
remove_frames [] queue = queue
remove_frames (t ∷ frames) queue = remove_frames frames (erase_first same_frame t.opaque queue)

-- The first video frame ever sets the start of the clock, and frames before it are dropped.
pub start_timing : {W : Type 0} → (ℕ → Bool) → MuxFrame → Muxer W → Muxer W
start_timing grants f m =
    if eqb_ℤ m.first_video_pts (negsuc 0)
    then record m {
      first_video_pts = f.pts;
      first_video_real_pts = f.real_pts;
      mux_queue = (remove_early_frames grants m.mux_queue f.pts).1;
    }
    else m

-- What is noted of the video frame that was found.
pub note_video : {W : Type 0} → ℤ → MuxFrame → Muxer W → Muxer W
note_video current_audio_pts f m = record m {
  last_video_dts = f.real_dts;
  initial_audio_latency =
      if eqb_ℤ m.initial_audio_latency (negsuc 0)
      then current_audio_pts
      else m.initial_audio_latency;
}

-- The packets that were made are put on the queue of the smoothing thread.
pub hand_on : List ℕ → List ℤ → List MuxedData → List MuxedData
hand_on [] pcr_list queue = queue
hand_on (b ∷ output) pcr_list queue =
    queue
    ++ record { bytes = b ∷ output; pcr_list = take (length (b ∷ output) / 188) pcr_list } ∷ []

module _ {W : Type 0} (lib : TsWriter W) (streams : List OutputStream) where
  -- From the call of `ts_write_frames` on, without the queue's mutex: `arrived` are the frames that the
  -- encoders put on the queue before the frames are removed.
  pub write_out : List MuxFrame → Muxer W → Option (List TsFrame) → Outcome W
  write_out arrived m none = faulted
  write_out arrived m (some frames) =
      let w = lib.write_frames m.writer frames in
      if ltb 2200 (lib.num_buffered_frames w.writer)
      then stalled
      else passed frames (record m {
        writer = w.writer;
        mux_smoothing_queue = hand_on w.output w.pcr_list m.mux_smoothing_queue;
        mux_queue = remove_frames frames (m.mux_queue ++ arrived);
      })

  -- From the frame that the search has found.
  pub with_video : (ℕ → Bool) → List MuxFrame → Muxer W → ℤ × Option MuxFrame → Outcome W
  with_video grants arrived m (current_audio_pts, none) = waits
  with_video grants arrived m (current_audio_pts, some f) =
      let started = note_video current_audio_pts f (start_timing grants f m) in
      write_out arrived started (gather streams started f.real_dts started.mux_queue)

  -- One pass of the loop. `grants` is `realloc` in the removal of early frames.
  pub round : (ℕ → Bool) → List MuxFrame → Muxer W → Outcome W
  round grants arrived m =
      if m.cancel then ended else with_video grants arrived m (find_video (pos 0) m.mux_queue)
