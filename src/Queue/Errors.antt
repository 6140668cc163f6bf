-- ===== src/Queue/Errors.antt =====
-- The error path of common/queue.c: a refused `realloc` leaves the function with the mutex held.
use obe_rt.Base.{ℕ, ◌+◌, ◌≡◌, refl, Bool, true, false}
use obe_rt.Base.Int.{negsuc}
use obe_rt.Queue.{
  Queue, blocked, returned, to_size_t, bytes_of, add_to_queue, remove_from_queue,
  remove_item_from_queue,
}
use obe_rt.Queue.Fifo.{contents}

module _ {ℓ} {A : Type ℓ} where
  -- When `realloc` refuses the new pointer, `add_to_queue` returns -1 and leaves the waiting items as
  -- they are, and from then on every locking operation on the queue blocks, with any item and however
  -- much memory there is later.
  pub add_to_queue_refused :
      (grants later : ℕ → Bool) (same : A → A → Bool) (q : Queue A) (item other : A)
      → q.locked ≡ false
      → grants (bytes_of (to_size_t q.size + 1)) ≡ false
      → (q' : Queue A) × (add_to_queue grants q item ≡ returned (negsuc 0) q')
        × (contents q' ≡ contents q)
        × (add_to_queue later q' other ≡ blocked)
        × (remove_from_queue later q' ≡ blocked)
        × (remove_item_from_queue later same q' other ≡ blocked)
  unfolding add_to_queue remove_from_queue remove_item_from_queue
  add_to_queue_refused grants later same q item other free refused =
      (record q { locked = true }, rw (free, refused) refl, refl, refl, refl, refl)
