-- ===== src/Queue/Tests.antt =====
-- Tests of the model of common/queue.c, and its theorems at concrete queues.
use obe_rt.Base.{ℕ, ◌-◌, ◌^◌, ◌≡◌, refl, true, false, some, [], ◌∷◌, arith, ◌==◌}
use obe_rt.Base.Int.{pos, negsuc}
use obe_rt.Queue.{
  Queue, returned, close_gap, init, resize, shrink, remove_from_queue_without_lock, leave,
  remove_from_queue, position, remove_item_from_queue,
}
use obe_rt.Queue.Fifo.{IsValid, contents, Left, erase_first, remove_item_from_queue-Left}
use obe_rt.Queue.Script.{put, get, run, run_list, run-run_list}

abbrev two : Queue ℕ
two = record { cells = 5 ∷ 7 ∷ 9 ∷ []; size = 2; locked = false; in_signals = 2; out_signals = 0 }

remove_two :
    remove_from_queue (λ n. true) two
    ≡ returned (pos 0) (record two { cells = 7 ∷ []; size = 1; out_signals = 1 })
unfolding remove_from_queue remove_from_queue_without_lock shrink resize leave close_gap
remove_two = refl

-- Removal from an empty queue asks for 2^64 - 8 bytes; refused, it leaves the size at -1.
remove_empty :
    remove_from_queue (λ n. false) (init {A = ℕ})
    ≡ returned
        (negsuc 0)
        (record { cells = []; size = 2 ^ 32 - 1; locked = true; in_signals = 0; out_signals = 0 })
unfolding init remove_from_queue remove_from_queue_without_lock shrink resize leave
remove_empty = refl

remove_item_two :
    remove_item_from_queue (λ n. true) ◌==◌ two 7
    ≡ returned (pos 0) (record two { cells = 5 ∷ []; size = 1; out_signals = 1 })
unfolding remove_item_from_queue position shrink resize leave close_gap
remove_item_two = refl

remove_item_from_queue-Left_example :
    Left (erase_first ◌==◌ 7 (5 ∷ 7 ∷ [])) (remove_item_from_queue (λ n. true) ◌==◌ two 7)
remove_item_from_queue-Left_example =
    remove_item_from_queue-Left (λ n. true) ◌==◌ two 7 (omega arith) refl

run-run_list_example :
    (q' : Queue ℕ) × (run (λ n. true) (put 3 ∷ get ∷ []) two ≡ some q')
    × (contents q' ≡ 7 ∷ 3 ∷ [])
    × IsValid q'
unfolding run_list
run-run_list_example =
    run-run_list (λ n. true) (put 3 ∷ get ∷ []) two (5 ∷ 7 ∷ []) (7 ∷ 3 ∷ []) (λ n. refl)
      (omega arith) refl refl (omega arith) refl
