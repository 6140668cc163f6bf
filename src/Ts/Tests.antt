-- ===== src/Ts/Tests.antt =====
-- The theorems on mux/ts/ts.c at a queue of two video and two audio frames.
use obe_rt.Base.{
  ℕ, ◌+◌, ◌≤◌, ◌<◌, ◌≡◌, refl, Bool, true, false, List, [], ◌∷◌, ◌++◌, arith, replicate, length,
}
use obe_rt.Base.Int.{pos, negsuc, tdiv, ◌+ℤ◌, ◌-ℤ◌}
use obe_rt.Obe.Routing.{MuxFrame}
use obe_rt.Obe.Streams.{OutputStream}
use obe_rt.Ts.{
  TsFrame, TsWriter, Muxer, passed, get_output_mux_stream, find_video, rescaled_dts, is_due,
  fill_entry, gather, same_frame, remove_frames, start_timing, note_video, hand_on, write_out,
  with_video, round,
}
use obe_rt.Ts.Frames.{occ, Distinct, Known, opaques, passing}
use obe_rt.Ts.Round.{videos}
use obe_rt.Ts.Sends.{round-sends}
use obe_rt.Ts.Order.{From}
use obe_rt.Ts.Runs.{MuxRun, starts, arrives, passes, MuxRun-videos}

abbrev frame : ℕ → Bool → ℕ → MuxFrame
frame ident is_video time = record {
  ident = ident;
  output_stream_id = pos 0;
  is_video = is_video;
  pts = pos time;
  cpb_initial_arrival_time = pos 0;
  cpb_final_arrival_time = pos 0;
  real_dts = pos time;
  real_pts = pos time;
  random_access = pos 0;
  priority = pos 0;
  bytes = [];
}

abbrev queue : List MuxFrame
queue = frame 1 false 300 ∷ frame 2 true 600 ∷ frame 3 false 900 ∷ frame 4 true 1200 ∷ []

abbrev stream : OutputStream
stream = record { input_stream_id = pos 0; output_stream_id = pos 0; stream_format = 1; pid = 256 }

abbrev streams : List OutputStream
streams = stream ∷ []

-- A writer that gives a packet for each call and counts the calls.
abbrev lib : TsWriter ℕ
lib = record {
  write_frames =
      λ n frames. record { output = replicate 188 71; pcr_list = pos n ∷ []; writer = n + 1 };
  num_buffered_frames = λ n. 0;
}

abbrev muxer : Muxer ℕ
muxer = record {
  mux_queue = [];
  mux_smoothing_queue = [];
  writer = 0;
  first_video_pts = pos 0;
  first_video_real_pts = pos 0;
  initial_audio_latency = pos 0;
  last_video_dts = pos 0;
  cancel = false;
}

abbrev filled : Muxer ℕ
filled = record muxer { mux_queue = queue }

abbrev entry : MuxFrame → ℕ → TsFrame
entry f time = record {
  opaque = f;
  pid = 256;
  dts = pos time;
  pts = pos time;
  cpb_initial_arrival_time = pos 0;
  cpb_final_arrival_time = pos 0;
  random_access = pos 0;
  priority = pos 0;
}

-- A pass sends the first two frames.
abbrev sent : List TsFrame
sent = entry (frame 1 false 300) 1 ∷ entry (frame 2 true 600) 2 ∷ []

abbrev after : Muxer ℕ
after = record muxer {
  mux_queue = frame 3 false 900 ∷ frame 4 true 1200 ∷ frame 5 true 1500 ∷ [];
  mux_smoothing_queue = record { bytes = replicate 188 71; pcr_list = pos 0 ∷ [] } ∷ [];
  writer = 1;
  last_video_dts = pos 600;
}

queue-Distinct : Distinct queue
unfolding occ
queue-Distinct a = ground arith

first_pass : round lib streams (λ n. true) (frame 5 true 1500 ∷ []) filled ≡ passed sent after
unfolding round with_video find_video start_timing note_video gather is_due rescaled_dts
    get_output_mux_stream write_out remove_frames same_frame hand_on fill_entry tdiv ◌+ℤ◌ ◌-ℤ◌
first_pass = refl

-- The first pass of all: the audio frame in front of the first video frame is taken out of the queue.
abbrev unset : Muxer ℕ
unset = record filled { first_video_pts = negsuc 0; first_video_real_pts = negsuc 0 }

abbrev sent_first : List TsFrame
sent_first = entry (frame 2 true 600) 2 ∷ []

abbrev set : Muxer ℕ
set = record after { first_video_pts = pos 600; first_video_real_pts = pos 600 }

queue-videos : videos queue ≡ frame 2 true 600 ∷ frame 4 true 1200 ∷ []
unfolding passing
queue-videos = refl

queue-Known : Known streams queue
unfolding get_output_mux_stream
queue-Known = ((stream, refl), ((stream, refl), ((stream, refl), ((stream, refl), tt))))

round-sends_example :
    (frames : List TsFrame) × (m' : Muxer ℕ) × (round lib streams (λ n. true) [] filled
      ≡ passed frames m')
    × ((vs' : List MuxFrame) × (videos (opaques frames) ≡ frame 2 true 600 ∷ vs'))
    × (length m'.mux_queue < length (queue ++ []))
round-sends_example =
    round-sends lib streams (λ n. true) [] filled (frame 2 true 600) (frame 4 true 1200 ∷ []) refl
      queue-videos queue-Distinct queue-Known (λ frames. ground arith)

all-Distinct : Distinct (queue ++ frame 5 true 1500 ∷ [])
unfolding occ
all-Distinct a = ground arith

all-From : From (pos 600) (videos (queue ++ frame 5 true 1500 ∷ []))
unfolding passing From
all-From = (omega arith, (omega arith, (omega arith, tt)))

run : MuxRun lib streams after (queue ++ frame 5 true 1500 ∷ []) (opaques sent)
run =
    passes (λ n. true) filled after sent queue [] (frame 5 true 1500 ∷ [])
      (arrives muxer [] [] queue (starts muxer refl)) first_pass

MuxRun-videos_example :
    (videos (opaques sent) ++ videos after.mux_queue ≡ videos (queue ++ frame 5 true 1500 ∷ []))
    × ((a : ℕ)
        → occ a (opaques sent) + occ a after.mux_queue ≤ occ a (queue ++ frame 5 true 1500 ∷ []))
MuxRun-videos_example =
    MuxRun-videos lib streams after (queue ++ frame 5 true 1500 ∷ []) (opaques sent) (pos 600)
      all-Distinct all-From run
