-- ===== src/Mux/Copy.antt =====
-- mux/smoothing.c: the copy of the queue to the fifos keeps bytes and times.
use obe_rt.Base.{
  ℕ, ◌+◌, ◌*◌, ◌/◌, ◌≡◌, ◌⊎◌, sym, ap, ◌∙◌, Bool, false, List, [], ◌∷◌, ◌++◌, Option, none, some,
  arith, inl, inr, if_elim, length, take, take_all, append_assoc, append-nil, length-append,
}
use obe_rt.Base.Int.{ℤ}
use obe_rt.Mux.{FifoOps, Smoother, MuxedData, copy_in}
use obe_rt.Mux.Fifo.{IsFifo}
use obe_rt.Mux.Payload.{InStep}

unfoldable pub queue_bytes : List MuxedData → List ℕ
queue_bytes [] = []
queue_bytes (d ∷ queue) = d.bytes ++ queue_bytes queue

unfoldable pub queue_times : List MuxedData → List ℤ
queue_times [] = []
queue_times (d ∷ queue) = d.pcr_list ++ queue_times queue

-- Whole packets, with a time for each.
abbrev pub AreWhole : List MuxedData → Type 0
AreWhole [] = Unit
AreWhole (d ∷ queue) = (length d.bytes ≡ 188 * length d.pcr_list) × AreWhole queue

-- A fifo was not allowed to grow.
abbrev pub Refused : (ℕ → Bool) → (ℕ → Bool) → Type 0
Refused grants_data grants_pcr = (n : ℕ) × ((grants_data n ≡ false) ⊎ (grants_pcr n ≡ false))

module _ {F G : Type 0} {bytes : FifoOps F ℕ} {times : FifoOps G ℤ} (data_fifo : IsFifo bytes)
    (pcr_fifo : IsFifo times) where
  -- The copy ends with a state in step that holds the bytes and the times of the queue behind those that
  -- were there.
  abbrev pub Copied : (ℕ → Bool) → (ℕ → Bool) → List ℕ → List ℤ → Option (Smoother F G) → Type 0
  Copied grants_data grants_pcr xs ts none = Refused grants_data grants_pcr
  Copied grants_data grants_pcr xs ts (some t) =
      (data_fifo.contents t.fifo_data ≡ xs)
      × (pcr_fifo.contents t.fifo_pcr ≡ ts)
      × (length (data_fifo.contents t.fifo_data) ≡ 188 * length (pcr_fifo.contents t.fifo_pcr))

  pub Copied-same :
      (grants_data grants_pcr : ℕ → Bool) (o : Option (Smoother F G)) {xs xs' : List ℕ}
      {ts ts' : List ℤ}
      → xs ≡ xs'
      → ts ≡ ts'
      → Copied grants_data grants_pcr xs ts o
      → Copied grants_data grants_pcr xs' ts' o
  Copied-same grants_data grants_pcr none e h c = c
  Copied-same grants_data grants_pcr (some t) e h (c, d, step) = (c ∙ e, d ∙ h, step)

  write-InStep :
      (s : Smoother F G) (d : MuxedData)
      → InStep data_fifo pcr_fifo s
      → length d.bytes ≡ 188 * length d.pcr_list
      → length (data_fifo.contents (bytes.write s.fifo_data d.bytes))
        ≡ 188
          * length
              (pcr_fifo.contents (times.write s.fifo_pcr (take (length d.bytes / 188) d.pcr_list)))
  write-InStep s d step w =
      rw
        (
          data_fifo.written s.fifo_data d.bytes,
          pcr_fifo.written s.fifo_pcr (take (length d.bytes / 188) d.pcr_list),
          take_all (length d.bytes / 188) d.pcr_list (omega (arith, w)),
        )
        (omega (
          arith,
          step,
          w,
          length-append (data_fifo.contents s.fifo_data) d.bytes,
          length-append (pcr_fifo.contents s.fifo_pcr) d.pcr_list,
        ))

  -- The times that a write adds are those of the item.
  written_times :
      (s : Smoother F G) (d : MuxedData) (queue : List MuxedData)
      → length d.bytes ≡ 188 * length d.pcr_list
      → pcr_fifo.contents (times.write s.fifo_pcr (take (length d.bytes / 188) d.pcr_list))
          ++ queue_times queue
        ≡ pcr_fifo.contents s.fifo_pcr ++ (d.pcr_list ++ queue_times queue)
  written_times s d queue w =
      ap (λ ts. ts ++ queue_times queue) (pcr_fifo.written s.fifo_pcr _)
      ∙ ap (λ ts. (pcr_fifo.contents s.fifo_pcr ++ ts) ++ queue_times queue)
          (take_all (length d.bytes / 188) d.pcr_list (omega (arith, w)))
      ∙ append_assoc (pcr_fifo.contents s.fifo_pcr) d.pcr_list (queue_times queue)

  pub copy_in-Copied :
      (grants_data grants_pcr : ℕ → Bool) (s : Smoother F G) (queue : List MuxedData)
      → InStep data_fifo pcr_fifo s
      → AreWhole queue
      → Copied grants_data grants_pcr
          (data_fifo.contents s.fifo_data ++ queue_bytes queue)
          (pcr_fifo.contents s.fifo_pcr ++ queue_times queue)
          (copy_in bytes times grants_data grants_pcr s queue)
  unfolding copy_in queue_bytes queue_times
  copy_in-Copied grants_data grants_pcr s [] step a = (sym (append-nil _), sym (append-nil _), step)
  copy_in-Copied grants_data grants_pcr s (d ∷ queue) step (w, a) =
      let next : Smoother F G = record s {
        fifo_data = bytes.write s.fifo_data d.bytes;
        fifo_pcr = times.write s.fifo_pcr (take (length d.bytes / 188) d.pcr_list);
      } in
      let in_step : InStep data_fifo pcr_fifo next = write-InStep s d step w in
      if_elim (Copied grants_data grants_pcr _ _)
        (grants_data (bytes.size s.fifo_data + length d.bytes))
        (λ _.
          if_elim (Copied grants_data grants_pcr _ _)
            (grants_pcr (times.size s.fifo_pcr + length d.bytes / 188))
            (λ _.
              Copied-same grants_data grants_pcr
                (copy_in bytes times grants_data grants_pcr next queue)
                (ap (λ xs. xs ++ queue_bytes queue) (data_fifo.written s.fifo_data d.bytes)
                  ∙ append_assoc (data_fifo.contents s.fifo_data) d.bytes (queue_bytes queue))
                (written_times s d queue w)
                (copy_in-Copied grants_data grants_pcr next queue in_step a))
            (λ refused. (_, inr refused)))
        (λ refused. (_, inl refused))
