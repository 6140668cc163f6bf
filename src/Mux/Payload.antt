-- ===== src/Mux/Payload.antt =====
-- The buffers of mux/smoothing.c are the stream, cut into pieces of one size.
use obe_rt.Base.{
  ℕ, zero, suc, ◌+◌, ◌*◌, ◌/◌, ◌≤◌, ◌<◌, ◌≡◌, ◌⊎◌, inl, inr, refl, sym, ap, ◌∙◌, Bool, true, false,
  ◌||◌, List, [], ◌∷◌, ◌++◌, arith, ltb, if_elim, length, append_assoc, length-append,
}
use obe_rt.Base.Int.{ℤ, negsuc, eqb_ℤ}
use obe_rt.Mux.{FifoOps, Buffer, Smoother, take_buffer, send_buffers}
use obe_rt.Mux.Fifo.{IsFifo, read-splits}

unfoldable pub payloads : List Buffer → List ℕ
payloads [] = []
payloads (b ∷ bs) = b.payload ++ payloads bs

unfoldable pub pcr_lists : List Buffer → List ℤ
pcr_lists [] = []
pcr_lists (b ∷ bs) = b.pcrs ++ pcr_lists bs

-- Every buffer holds so many times and so many bytes.
abbrev pub AllSized : ℕ → ℕ → List Buffer → Type 0
AllSized k n [] = Unit
AllSized k n (b ∷ bs) = (length b.pcrs ≡ k) × (length b.payload ≡ n) × AllSized k n bs

module _ {F G : Type 0} {bytes : FifoOps F ℕ} {times : FifoOps G ℤ} (data_fifo : IsFifo bytes)
    (pcr_fifo : IsFifo times) where
  -- A time waits for each packet of 188 bytes.
  abbrev pub InStep : Smoother F G → Type 0
  InStep s = length (data_fifo.contents s.fifo_data) ≡ 188 * length (pcr_fifo.contents s.fifo_pcr)

  -- What was sent and what is left make up what was there, and the pieces have their size.
  abbrev pub Cuts : ℕ → Smoother F G → List Buffer × Smoother F G → Type 0
  Cuts payload_size s (bs, t) =
      (payloads bs ++ data_fifo.contents t.fifo_data ≡ data_fifo.contents s.fifo_data)
      × (pcr_lists bs ++ pcr_fifo.contents t.fifo_pcr ≡ pcr_fifo.contents s.fifo_pcr)
      × AllSized (payload_size / 188) payload_size bs
      × InStep t

  module _ (payload_size : ℕ) (clock : ℕ → ℤ) (drops : ℕ → Bool) where
    nothing_sent :
        (s t : Smoother F G)
        → InStep s
        → t.fifo_data ≡ s.fifo_data
        → t.fifo_pcr ≡ s.fifo_pcr
        → Cuts payload_size s ([], t)
    unfolding payloads pcr_lists
    nothing_sent s t step d p =
        (ap data_fifo.contents d, ap pcr_fifo.contents p, tt, rw (d, p) step)

    take_buffer-Cuts :
        (now : ℤ) (s : Smoother F G)
        → InStep s
        → payload_size ≡ 188 * (payload_size / 188)
        → payload_size ≤ length (data_fifo.contents s.fifo_data)
        → let r : Buffer × Smoother F G = take_buffer bytes times payload_size clock drops now s in
          Cuts payload_size s (r.0 ∷ [], r.1)
    unfolding take_buffer payloads pcr_lists
    take_buffer-Cuts now s step whole enough =
        let (data_whole, data_size, data_left) =
          read-splits data_fifo s.fifo_data payload_size enough in
        let (pcr_whole, pcr_size, pcr_left) =
          read-splits pcr_fifo s.fifo_pcr (payload_size / 188)
            (omega (arith, step, whole, enough)) in
        let data_same = append_assoc (bytes.read s.fifo_data payload_size).0 [] _ ∙ data_whole in
        let pcr_same =
          append_assoc (times.read s.fifo_pcr (payload_size / 188)).0 [] _ ∙ pcr_whole in
        if_elim
          (λ (t : Smoother F G).
            Cuts payload_size s
              ((take_buffer bytes times payload_size clock drops now s).0 ∷ [], t))
          (eqb_ℤ s.start_clock (negsuc 0))
          (λ _. (
            data_same,
            pcr_same,
            (pcr_size, data_size, tt),
            omega (arith, step, whole, data_left, pcr_left, enough),
          ))
          (λ _. (
            data_same,
            pcr_same,
            (pcr_size, data_size, tt),
            omega (arith, step, whole, data_left, pcr_left, enough),
          ))

    not_short :
        (s : Smoother F G)
        → ltb (bytes.size s.fifo_data) payload_size ≡ false
        → payload_size ≤ length (data_fifo.contents s.fifo_data)
    not_short s h = ground (arith, h, data_fifo.sized s.fifo_data)

    Cuts-then :
        (s t u : Smoother F G) (b : Buffer) (bs : List Buffer)
        → Cuts payload_size s (b ∷ [], t)
        → Cuts payload_size t (bs, u)
        → Cuts payload_size s (b ∷ bs, u)
    unfolding payloads pcr_lists
    Cuts-then s t u b bs (d, p, (k, n, _), _) (d', p', sizes, step) = (
      append_assoc b.payload (payloads bs) _
          ∙ ap (λ xs. b.payload ++ xs) d'
          ∙ sym (append_assoc b.payload [] _)
          ∙ d,
      append_assoc b.pcrs (pcr_lists bs) _
          ∙ ap (λ xs. b.pcrs ++ xs) p'
          ∙ sym (append_assoc b.pcrs [] _)
          ∙ p,
      (k, n, sizes),
      step,
    )

    -- For a payload of whole packets, and fifos that hold a time for each packet, the buffers that a pass
    -- sends followed by what it leaves in the fifos are the bytes and the times that were there, each
    -- buffer has the size of the payload and a time for each of its packets, and the fifos stay in step;
    -- this holds for any number of rounds and wherever other threads ask for a drop.
    pub send_buffers-Cuts :
        (fuel : ℕ) (s : Smoother F G)
        → InStep s
        → payload_size ≡ 188 * (payload_size / 188)
        → Cuts payload_size s (send_buffers bytes times payload_size clock drops fuel s)
    unfolding send_buffers
    send_buffers-Cuts zero s step whole = nothing_sent s s step refl refl
    send_buffers-Cuts (suc fuel) s step whole =
        if_elim (Cuts payload_size s) (s.mux_drop || drops fuel)
          (λ _. nothing_sent s (record s { mux_drop = true }) step refl refl)
          (λ _.
            if_elim (Cuts payload_size s) (ltb (bytes.size s.fifo_data) payload_size)
              (λ _. nothing_sent s s step refl refl)
              (λ full.
                if_elim (Cuts payload_size s) (ltb 10000000 (bytes.size s.fifo_data))
                  (λ _. nothing_sent s (record s { mux_drop = true }) step refl refl)
                  (λ _.
                    let one = take_buffer-Cuts (clock fuel) s step whole (not_short s full) in
                    let r : Buffer × Smoother F G =
                      take_buffer bytes times payload_size clock drops (clock fuel) s in
                    let rest : List Buffer × Smoother F G =
                      send_buffers bytes times payload_size clock drops fuel r.1 in
                    Cuts-then s r.1 rest.1 r.0 rest.0 one
                      (send_buffers-Cuts fuel r.1 one.3 whole))))

    Cuts-shorter :
        (s t : Smoother F G) (b : Buffer)
        → Cuts payload_size s (b ∷ [], t)
        → payload_size + length (data_fifo.contents t.fifo_data)
          ≡ length (data_fifo.contents s.fifo_data)
    unfolding payloads
    Cuts-shorter s t b (d, _, (_, n, _), _) = omega (
      arith,
      n,
      ap length d,
      length-append (b.payload ++ []) (data_fifo.contents t.fifo_data),
      length-append b.payload [],
    )

    -- The pass has ended as the code ends it.
    abbrev Done : List Buffer × Smoother F G → Type 0
    Done r = (r.1.mux_drop ≡ true) ⊎ (length (data_fifo.contents r.1.fifo_data) < payload_size)

    -- A pass ends by itself, with a drop or with less than a payload left, after at most one round for
    -- each byte that waits and one more.
    pub send_buffers-Done :
        (fuel : ℕ) (s : Smoother F G)
        → InStep s
        → payload_size ≡ 188 * (payload_size / 188)
        → 0 < payload_size
        → length (data_fifo.contents s.fifo_data) < fuel
        → ((send_buffers bytes times payload_size clock drops fuel s).1.mux_drop ≡ true)
          ⊎ (length (
                data_fifo.contents
                  (send_buffers bytes times payload_size clock drops fuel s).1.fifo_data)
              < payload_size)
    unfolding send_buffers
    send_buffers-Done zero s step whole some_bytes few = absurd (omega arith)
    send_buffers-Done (suc fuel) s step whole some_bytes few =
        if_elim Done (s.mux_drop || drops fuel) (λ _. inl refl)
          (λ _.
            if_elim Done (ltb (bytes.size s.fifo_data) payload_size)
              (λ short. inr (ground (arith, short, data_fifo.sized s.fifo_data)))
              (λ full.
                if_elim Done (ltb 10000000 (bytes.size s.fifo_data)) (λ _. inl refl)
                  (λ _.
                    let one = take_buffer-Cuts (clock fuel) s step whole (not_short s full) in
                    send_buffers-Done fuel _ one.3 whole some_bytes
                      (omega (arith, few, some_bytes, Cuts-shorter s _ _ one)))))
