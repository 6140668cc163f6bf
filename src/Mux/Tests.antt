-- ===== src/Mux/Tests.antt =====
-- A fifo of libavutil as a list, and a round of the thread with payloads of one packet.
use obe_rt.Base.{
  ℕ, ◌<◌, ◌≡◌, ◌⊎◌, refl, true, false, List, [], ◌∷◌, ◌++◌, arith, length, take, drop, replicate,
}
use obe_rt.Base.Int.{ℤ, pos, negsuc}
use obe_rt.Mux.{FifoOps, MuxedData, Smoother, send_buffers, pass}
use obe_rt.Mux.Fifo.{IsFifo}
use obe_rt.Mux.Payload.{Cuts, send_buffers-Cuts, send_buffers-Done}
use obe_rt.Mux.Copy.{queue_bytes, queue_times}
use obe_rt.Mux.Pass.{Keeps, pass-Keeps}

abbrev list_fifo : {A : Type 0} → FifoOps (List A) A
list_fifo = record {
  size = λ xs. length xs;
  reset = λ xs. [];
  write = λ xs ys. xs ++ ys;
  read = λ xs n. (take n xs, drop n xs);
}

list_fifo-IsFifo : {A : Type 0} → IsFifo (list_fifo {A = A})
list_fifo-IsFifo = record {
  contents = λ xs. xs;
  sized = λ xs. refl;
  emptied = λ xs. refl;
  written = λ xs ys. refl;
  given = λ xs n h. refl;
  left = λ xs n h. refl;
}

abbrev smoother : Smoother (List ℕ) (List ℤ)
smoother = record {
  fifo_data = replicate 376 0x47;
  fifo_pcr = pos 1 ∷ pos 2 ∷ [];
  mux_drop = false;
  buffer_complete = true;
  start_clock = negsuc 0;
  start_pcr = pos 0;
  cur_pcr = pos 0;
}

abbrev queue : List MuxedData
queue = record { bytes = replicate 188 0x47; pcr_list = pos 3 ∷ [] } ∷ []

send_buffers-Cuts_example :
    Cuts list_fifo-IsFifo list_fifo-IsFifo 188 smoother
      (send_buffers list_fifo list_fifo 188 (λ k. pos k) (λ k. false) 377 smoother)
unfolding list_fifo-IsFifo
send_buffers-Cuts_example =
    send_buffers-Cuts list_fifo-IsFifo list_fifo-IsFifo 188 (λ k. pos k) (λ k. false) 377 smoother
      refl refl

send_buffers-Done_example :
    ((send_buffers list_fifo list_fifo 188 (λ k. pos k) (λ k. false) 377 smoother).1.mux_drop
      ≡ true)
    ⊎ (length
          (send_buffers list_fifo list_fifo 188 (λ k. pos k) (λ k. false) 377 smoother).1.fifo_data
        < 188)
unfolding list_fifo-IsFifo
send_buffers-Done_example =
    send_buffers-Done list_fifo-IsFifo list_fifo-IsFifo 188 (λ k. pos k) (λ k. false) 377 smoother
      refl refl (omega arith) (omega arith)

pass-Keeps_example :
    ((smoother.mux_drop ≡ false)
      × Keeps list_fifo-IsFifo list_fifo-IsFifo
          (λ n. true)
          (λ n. true)
          (smoother.fifo_data ++ queue_bytes queue)
          (smoother.fifo_pcr ++ queue_times queue)
          (pass list_fifo list_fifo 188
            (λ k. pos k)
            (λ k. false)
            (pos 0)
            (λ n. true)
            (λ n. true)
            565
            smoother
            queue))
    ⊎ ((smoother.mux_drop ≡ true)
        × Keeps list_fifo-IsFifo list_fifo-IsFifo
            (λ n. true)
            (λ n. true)
            []
            []
            (pass list_fifo list_fifo 188
              (λ k. pos k)
              (λ k. false)
              (pos 0)
              (λ n. true)
              (λ n. true)
              565
              smoother
              queue))
unfolding list_fifo-IsFifo
pass-Keeps_example =
    pass-Keeps list_fifo-IsFifo list_fifo-IsFifo 188 (λ k. pos k) (λ k. false) (pos 0) (λ n. true)
      (λ n. true) 565 smoother queue refl (refl, tt) refl
