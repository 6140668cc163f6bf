-- ===== src/Mux/Pass.antt =====
-- One round of the thread of mux/smoothing.c loses no byte and no time of the stream, unless a drop was asked for.
use obe_rt.Base.{
  ℕ, ◌*◌, ◌/◌, ◌≡◌, ◌⊎◌, refl, ap, ◌∙◌, Bool, true, false, List, [], ◌++◌, Option, none, some,
  arith, Bool-cases, inl, inr, if_elim, if◌then◌else◌, append-nil,
}
use obe_rt.Base.Int.{ℤ, ltb_ℤ, ◌-ℤ◌}
use obe_rt.Mux.{
  FifoOps, Buffer, Smoother, MuxedData, copy_in, fill_vbv, restart, send_buffers, after_copy, pass,
  first_pcr, last_pcr,
}
use obe_rt.Mux.Fifo.{IsFifo}
use obe_rt.Mux.Payload.{payloads, pcr_lists, InStep, send_buffers-Cuts}
use obe_rt.Mux.Copy.{
  queue_bytes, queue_times, AreWhole, Refused, Copied, Copied-same, copy_in-Copied,
}

module _ {F G : Type 0} {bytes : FifoOps F ℕ} {times : FifoOps G ℤ} (data_fifo : IsFifo bytes)
    (pcr_fifo : IsFifo times) where
  fill_vbv-fifos :
      (vbv : ℤ) (s : Smoother F G) (queue : List MuxedData)
      → ((fill_vbv bytes times vbv s queue).fifo_data ≡ s.fifo_data)
        × ((fill_vbv bytes times vbv s queue).fifo_pcr ≡ s.fifo_pcr)
  unfolding fill_vbv
  fill_vbv-fifos vbv s queue =
      if_elim (λ (t : Smoother F G). (t.fifo_data ≡ s.fifo_data) × (t.fifo_pcr ≡ s.fifo_pcr))
        s.buffer_complete (λ _. (refl, refl))
        (λ _.
          if_elim (λ (t : Smoother F G). (t.fifo_data ≡ s.fifo_data) × (t.fifo_pcr ≡ s.fifo_pcr))
            (ltb_ℤ (last_pcr bytes times queue -ℤ first_pcr bytes times queue) vbv)
            (λ _. (refl, refl)) (λ _. (refl, refl)))

  -- What was sent, what is in the fifos and what is queued are these bytes and these times, and the fifos
  -- are in step; or the thread has ended for want of memory.
  abbrev pub Keeps :
      (ℕ → Bool)
      → (ℕ → Bool)
      → List ℕ
      → List ℤ
      → Option (List Buffer × Smoother F G × List MuxedData)
      → Type 0
  Keeps grants_data grants_pcr xs ts none = Refused grants_data grants_pcr
  Keeps grants_data grants_pcr xs ts (some (bs, t, queue)) =
      (payloads bs ++ (data_fifo.contents t.fifo_data ++ queue_bytes queue) ≡ xs)
      × (pcr_lists bs ++ (pcr_fifo.contents t.fifo_pcr ++ queue_times queue) ≡ ts)
      × InStep data_fifo pcr_fifo t

  restart-Keeps :
      (s : Smoother F G) (grants_data grants_pcr : ℕ → Bool)
      → Keeps grants_data grants_pcr [] [] (some ([], restart bytes times s, []))
  unfolding restart payloads queue_bytes pcr_lists queue_times
  restart-Keeps s grants_data grants_pcr = (
    append-nil _ ∙ data_fifo.emptied s.fifo_data,
    append-nil _ ∙ pcr_fifo.emptied s.fifo_pcr,
    rw (data_fifo.emptied s.fifo_data, pcr_fifo.emptied s.fifo_pcr) refl,
  )

  module _ (payload_size : ℕ) (clock : ℕ → ℤ) (drops : ℕ → Bool) where
    after_copy-Keeps :
        (grants_data grants_pcr : ℕ → Bool) (fuel : ℕ) (xs : List ℕ) (ts : List ℤ)
        (o : Option (Smoother F G))
        → payload_size ≡ 188 * (payload_size / 188)
        → Copied data_fifo pcr_fifo grants_data grants_pcr xs ts o
        → Keeps grants_data grants_pcr xs ts
            (after_copy bytes times payload_size clock drops fuel o)
    unfolding queue_bytes queue_times
    after_copy-Keeps grants_data grants_pcr fuel xs ts none whole c = c
    after_copy-Keeps grants_data grants_pcr fuel xs ts (some s) whole (e, h, step) =
        let cuts =
          send_buffers-Cuts data_fifo pcr_fifo payload_size clock drops fuel s step whole in
        (
          ap (λ ys. payloads (send_buffers bytes times payload_size clock drops fuel s).0 ++ ys)
                (append-nil _)
              ∙ cuts.0
              ∙ e,
          ap (λ ys. pcr_lists (send_buffers bytes times payload_size clock drops fuel s).0 ++ ys)
                (append-nil _)
              ∙ cuts.1
              ∙ h,
          cuts.3,
        )

    filled-Keeps :
        (grants_data grants_pcr : ℕ → Bool) (fuel : ℕ) (s t : Smoother F G) (queue : List MuxedData)
        → InStep data_fifo pcr_fifo s
        → AreWhole queue
        → payload_size ≡ 188 * (payload_size / 188)
        → t.fifo_data ≡ s.fifo_data
        → t.fifo_pcr ≡ s.fifo_pcr
        → Keeps grants_data grants_pcr
            (data_fifo.contents s.fifo_data ++ queue_bytes queue)
            (pcr_fifo.contents s.fifo_pcr ++ queue_times queue)
            (if t.buffer_complete
              then after_copy bytes times payload_size clock drops fuel
                  (copy_in bytes times grants_data grants_pcr t queue)
              else some ([], t, queue))
    unfolding payloads pcr_lists
    filled-Keeps grants_data grants_pcr fuel s t queue step a whole d p =
        let in_step : InStep data_fifo pcr_fifo t = rw (d, p) step in
        let same : data_fifo.contents t.fifo_data ++ queue_bytes queue
            ≡ data_fifo.contents s.fifo_data ++ queue_bytes queue =
          ap (λ f. data_fifo.contents f ++ queue_bytes queue) d in
        let same_times : pcr_fifo.contents t.fifo_pcr ++ queue_times queue
            ≡ pcr_fifo.contents s.fifo_pcr ++ queue_times queue =
          ap (λ f. pcr_fifo.contents f ++ queue_times queue) p in
        if_elim
          (Keeps grants_data grants_pcr (data_fifo.contents s.fifo_data ++ queue_bytes queue)
            (pcr_fifo.contents s.fifo_pcr ++ queue_times queue))
          t.buffer_complete
          (λ _. after_copy-Keeps grants_data grants_pcr fuel _ _ _ whole (
            Copied-same data_fifo pcr_fifo grants_data grants_pcr
              (copy_in bytes times grants_data grants_pcr t queue) same same_times
              (copy_in-Copied data_fifo pcr_fifo grants_data grants_pcr t queue in_step a)))
          (λ _. (same, same_times, in_step))

    -- For queued data of whole packets with a time each, fifos in step and a payload of whole packets: one
    -- round of the thread while no drop is asked for keeps every byte and every time in order. The bytes
    -- that it sends, that then wait in the fifo and that are still queued are those that waited in the fifo
    -- and in the queue, and so are the times, and the fifos stay in step; this holds while the buffer
    -- fills, in a round that sends, and for any number of buffers. A round with a drop sends nothing and
    -- leaves the fifos and the queue empty. The thread ends only where a fifo is not allowed to grow.
    pub pass-Keeps :
        (vbv : ℤ) (grants_data grants_pcr : ℕ → Bool) (fuel : ℕ) (s : Smoother F G)
        (queue : List MuxedData)
        → InStep data_fifo pcr_fifo s
        → AreWhole queue
        → payload_size ≡ 188 * (payload_size / 188)
        → ((s.mux_drop ≡ false)
            × Keeps grants_data grants_pcr
                (data_fifo.contents s.fifo_data ++ queue_bytes queue)
                (pcr_fifo.contents s.fifo_pcr ++ queue_times queue)
                (pass bytes times payload_size clock drops vbv grants_data grants_pcr fuel s queue))
          ⊎ ((s.mux_drop ≡ true)
              × Keeps grants_data grants_pcr [] [] (
                  pass bytes times payload_size clock drops vbv grants_data grants_pcr fuel s
                    queue))
    unfolding pass
    pass-Keeps vbv grants_data grants_pcr fuel s queue step a whole = elim (Bool-cases s.mux_drop) [
      | inl dropped ↦ inr (
        dropped,
        if_elim (Keeps grants_data grants_pcr [] []) s.mux_drop
            (λ _. restart-Keeps s grants_data grants_pcr) (λ goes_on. ground arith),
      )
      | inr goes_on ↦ inl (
        goes_on,
        if_elim (Keeps grants_data grants_pcr _ _) s.mux_drop (λ dropped. ground arith)
            (λ _.
              let (d, p) = fill_vbv-fifos vbv s queue in
              filled-Keeps grants_data grants_pcr fuel s _ queue step a whole d p),
      )
    ]
