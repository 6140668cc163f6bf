-- ===== src/Mux.antt =====
-- mux/smoothing.c: the thread that cuts the transport stream of the multiplexer into buffers for the
-- outputs. The fifos of libavutil and the clock are parameters; what other threads do while a pass runs
-- is a parameter too: whether they have asked for a drop before each round. Allocations other than the
-- growth of the fifos are granted. All outputs get the same buffers, so one list stands for them.
pub mod Fifo
pub mod Payload
pub mod Copy
pub mod Pass
mod Tests
use obe_rt.Base.{
  ℕ, zero, suc, ◌+◌, ◌-◌, ◌*◌, ◌/◌, ◌<◌, Bool, true, false, ◌||◌, List, [], ◌∷◌, ◌++◌, Option, none,
  some, ltb, ◌==◌, if◌then◌else◌, length, get_or, take,
}
use obe_rt.Output.{payload_packets}
use obe_rt.Base.Int.{ℤ, pos, negsuc, ◌+ℤ◌, ◌-ℤ◌, ltb_ℤ, eqb_ℤ}

-- What the code uses of `AVFifoBuffer`, for one kind of items.
pub record FifoOps (F : Type 0) (A : Type 0) : Type 0 where
  pub size : F → ℕ  -- av_fifo_size, in items
  pub reset : F → F  -- av_fifo_reset
  pub write : F → List A → F  -- av_fifo_generic_write
  pub read : F → ℕ → List A × F  -- av_fifo_generic_read

-- `obe_muxed_data_t`; `len` is the length of the data.
pub record MuxedData : Type 0 where
  pub bytes : List ℕ
  pub pcr_list : List ℤ

-- A buffer for the outputs: its times, then its packets. `wake` is the time that the thread slept to.
pub record Buffer : Type 0 where
  pub pcrs : List ℤ
  pub payload : List ℕ
  pub wake : Option ℤ

pub record Smoother (F G : Type 0) : Type 0 where
  pub fifo_data : F
  pub fifo_pcr : G
  pub mux_drop : Bool
  pub buffer_complete : Bool
  pub start_clock : ℤ
  pub start_pcr : ℤ
  pub cur_pcr : ℤ

module _ {F G : Type 0} (bytes : FifoOps F ℕ) (times : FifoOps G ℤ) where
  -- The refill after a drop. The queue is thrown away too.
  pub restart : Smoother F G → Smoother F G
  restart s = record s {
    fifo_data = bytes.reset s.fifo_data;
    fifo_pcr = times.reset s.fifo_pcr;
    mux_drop = false;
    buffer_complete = false;
    start_clock = negsuc 0;
  }

  abbrev pub first_pcr : List MuxedData → ℤ
  first_pcr [] = pos 0
  first_pcr (d ∷ queue) = get_or d.pcr_list 0 (pos 0)

  abbrev pub last_pcr : List MuxedData → ℤ
  last_pcr [] = pos 0
  last_pcr (d ∷ []) = get_or d.pcr_list (length d.bytes / 188 - 1) (pos 0)
  last_pcr (d ∷ e ∷ queue) = last_pcr (e ∷ queue)

  -- The test whether the queue holds `temporal_vbv_size` ticks; the thread goes on if the flag is set.
  pub fill_vbv : ℤ → Smoother F G → List MuxedData → Smoother F G
  fill_vbv temporal_vbv_size s queue =
      if s.buffer_complete
      then s
      else if ltb_ℤ (last_pcr queue -ℤ first_pcr queue) temporal_vbv_size
      then record s { start_pcr = first_pcr queue }
      else record s { start_pcr = first_pcr queue; buffer_complete = true; start_clock = negsuc 0 }

  -- The loop that writes the queue to the fifos; `none` where a fifo could not grow to a number of items.
  pub copy_in : (ℕ → Bool) → (ℕ → Bool) → Smoother F G → List MuxedData → Option (Smoother F G)
  copy_in grants_data grants_pcr s [] = some s
  copy_in grants_data grants_pcr s (d ∷ queue) =
      let next = record s {
        fifo_data = bytes.write s.fifo_data d.bytes;
        fifo_pcr = times.write s.fifo_pcr (take (length d.bytes / 188) d.pcr_list);
      } in
      let rest = copy_in grants_data grants_pcr next queue in
      if grants_data (bytes.size s.fifo_data + length d.bytes)
      then (if grants_pcr (times.size s.fifo_pcr + length d.bytes / 188) then rest else none)
      else none

  -- Where the thread sleeps, if it does, before a buffer with this time.
  abbrev pub wake_time : Smoother F G → ℤ → Option ℤ
  wake_time s cur_pcr =
      if eqb_ℤ s.start_clock (negsuc 0)
      then none
      else some ((cur_pcr -ℤ s.start_pcr) +ℤ s.start_clock)

  -- The clock that the first buffer of a run starts.
  abbrev pub start_run : ℤ → Smoother F G → Smoother F G
  start_run now s =
      if eqb_ℤ s.start_clock (negsuc 0)
      then record s { start_clock = now; start_pcr = s.cur_pcr }
      else s

  module _ (payload_size : ℕ) (clock : ℕ → ℤ) (drops : ℕ → Bool) where
    -- A buffer that takes its part of the fifos, and the state after it.
    pub take_buffer : ℤ → Smoother F G → Buffer × Smoother F G
    take_buffer now s =
        let (pcrs, fifo_pcr) = times.read s.fifo_pcr (payload_packets payload_size) in
        let (payload, fifo_data) = bytes.read s.fifo_data payload_size in
        let cur_pcr = get_or pcrs 0 (pos 0) in
        (
          record { pcrs = pcrs; payload = payload; wake = wake_time s cur_pcr },
          start_run now
              (record s { fifo_data = fifo_data; fifo_pcr = fifo_pcr; cur_pcr = cur_pcr }),
        )

    abbrev pub with_buffer : Buffer → List Buffer × Smoother F G → List Buffer × Smoother F G
    with_buffer b (bs, s) = (b ∷ bs, s)

    -- The loop that fills buffers; the fuel counts the rounds. More than 10,000,000 bytes are dropped.
    pub send_buffers : ℕ → Smoother F G → List Buffer × Smoother F G
    send_buffers zero s = ([], s)
    send_buffers (suc fuel) s =
        let (b, next) = take_buffer (clock fuel) s in
        let rest = send_buffers fuel next in
        if s.mux_drop || drops fuel
        then ([], record s { mux_drop = true })
        else if ltb (bytes.size s.fifo_data) payload_size
        then ([], s)
        else if ltb 10000000 (bytes.size s.fifo_data)
        then ([], record s { mux_drop = true })
        else with_buffer b rest

    abbrev pub after_copy :
        ℕ → Option (Smoother F G) → Option (List Buffer × Smoother F G × List MuxedData)
    after_copy fuel none = none
    after_copy fuel (some s) = let (bs, t) = send_buffers fuel s in some (bs, t, [])

    -- One round of the thread's loop on a queue that is not empty: the buffers sent, and what is left;
    -- `none` where the thread ends for want of memory.
    pub pass :
        ℤ
        → (ℕ → Bool)
        → (ℕ → Bool)
        → ℕ
        → Smoother F G
        → List MuxedData
        → Option (List Buffer × Smoother F G × List MuxedData)
    pass temporal_vbv_size grants_data grants_pcr fuel s queue =
        if s.mux_drop
        then some ([], restart s, [])
        else (let filled = fill_vbv temporal_vbv_size s queue in
            if filled.buffer_complete
            then after_copy fuel (copy_in grants_data grants_pcr filled queue)
            else some ([], filled, queue))
