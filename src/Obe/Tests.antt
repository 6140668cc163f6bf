-- ===== src/Obe/Tests.antt =====
-- The theorems on obe/obe.c at concrete frames, streams and times.
use obe_rt.Base.{ℕ, ◌+◌, Bool, true, false, List, [], ◌∷◌}
use obe_rt.Base.Int.{ℤ, pos}
use obe_rt.Queue.{Queue}
use obe_rt.Obe.Clock.{Timespec, InputClock}
use obe_rt.Obe.Streams.{OutputStream}
use obe_rt.Obe.Routing.{
  Filter, Encoder, MuxFrame, remove_early_frames, Cleared, remove_early_frames-Cleared,
}

abbrev one : Queue ℕ
one = record { cells = 5 ∷ []; size = 1; locked = false; in_signals = 1; out_signals = 0 }

abbrev video : Filter ℕ
video = record { stream_id_list = pos 0 ∷ []; queue = one }

abbrev audio : Filter ℕ
audio = record { stream_id_list = pos 0 ∷ pos 1 ∷ []; queue = one }

abbrev encoder : ℕ → Encoder ℕ
encoder n = record { output_stream_id = pos n; queue = one }

abbrev stream : ℕ → OutputStream
stream n = record {
  input_stream_id = pos n;
  output_stream_id = pos n;
  stream_format = 1;
  pid = 256 + n;
}

abbrev frame : Bool → ℤ → MuxFrame
frame is_video pts = record {
  ident = 0;
  output_stream_id = pos 0;
  is_video = is_video;
  pts = pts;
  cpb_initial_arrival_time = pos 0;
  cpb_final_arrival_time = pos 0;
  real_dts = pts;
  real_pts = pts;
  random_access = pos 0;
  priority = pos 0;
  bytes = [];
}

abbrev frames : List MuxFrame
frames = frame false (pos 10) ∷ frame true (pos 10) ∷ frame false (pos 30) ∷ []

remove_early_frames-Cleared_example :
    Cleared (pos 20) frames (remove_early_frames (λ n. true) frames (pos 20))
remove_early_frames-Cleared_example = remove_early_frames-Cleared (λ n. true) frames (pos 20)

abbrev second : Timespec
second = record { tv_sec = 1; tv_nsec = 0 }

abbrev clock : InputClock
clock = record { last_pts = pos 100; last_wallclock = pos 27000000 }
