-- ===== src/Queue/Script.antt =====
-- A producer and a consumer of one queue of common/queue.c, as the order of their calls.
use obe_rt.Base.{
  ℕ, ◌+◌, ◌-◌, ◌%◌, ◌^◌, ◌<◌, ◌≡◌, refl, ap, ◌∙◌, Bool, true, false, Option, none, some, List, [],
  ◌∷◌, ◌++◌, arith, length, length-append, length-take,
}
use obe_rt.Base.Int.{ℤ, pos, negsuc}
use obe_rt.Queue.{
  to_size_t, bytes_of, Queue, Call, blocked, returned, add_to_queue, remove_from_queue,
  remove_from_queue_without_lock, shrink, resize, leave,
}
use obe_rt.Queue.Fifo.{IsValid, contents, add_to_queue-append, remove_from_queue-Left}

pub data Op {ℓ} (A : Type ℓ) : Type ℓ where
  put : A → Op A
  get : Op A

module _ {ℓ} {A : Type ℓ} where
  -- What the calls mean. A consumer waits until there is an item, so no `get` meets an empty queue.
  unfoldable pub run_list : List A → List (Op A) → Option (List A)
  run_list xs [] = some xs
  run_list xs (put x ∷ ops) = run_list (xs ++ x ∷ []) ops
  run_list [] (get ∷ ops) = none
  run_list (x ∷ xs) (get ∷ ops) = run_list xs ops

  abbrev go_on : Call A → (Queue A → Option (Queue A)) → Option (Queue A)
  go_on blocked k = none
  go_on (returned r q) k = k q

  -- The calls, one after the other; `none` where a call blocks.
  pub run : (ℕ → Bool) → List (Op A) → Queue A → Option (Queue A)
  run grants [] q = some q
  run grants (put x ∷ ops) q = go_on (add_to_queue grants q x) (run grants ops)
  run grants (get ∷ ops) q = go_on (remove_from_queue grants q) (run grants ops)

  leave_pos :
      (grants : ℕ → Bool) (p : ℤ × Queue A) {r : ℤ} {q' : Queue A}
      → p.0 ≡ pos 0
      → leave grants p ≡ returned r q'
      → r ≡ pos 0
  unfolding leave
  leave_pos grants (pos n, q) h e = ground arith
  leave_pos grants (negsuc n, q) h e = cc

  remove_granted :
      (grants : ℕ → Bool) (q : Queue A) {r : ℤ} {q' : Queue A}
      → ((n : ℕ) → grants n ≡ true)
      → q.locked ≡ false
      → remove_from_queue grants q ≡ returned r q'
      → r ≡ pos 0
  unfolding remove_from_queue remove_from_queue_without_lock shrink resize
  remove_granted grants q all free e =
      leave_pos grants (remove_from_queue_without_lock grants (record q { locked = true }))
        (rw (all (bytes_of ((to_size_t q.size + 2 ^ 64 - 1) % 2 ^ 64)))) (rw free at e)

  -- With memory at hand a valid queue gives out exactly the items that were put in, in that order: any
  -- sequence of calls in which no consumer takes from an empty queue runs to its end without blocking,
  -- and leaves the items that the same sequence leaves in a list.
  pub run-run_list :
      (grants : ℕ → Bool) (ops : List (Op A)) (q : Queue A) (xs ys : List A)
      → ((n : ℕ) → grants n ≡ true)
      → IsValid q
      → q.locked ≡ false
      → contents q ≡ xs
      → length xs + length ops < 2 ^ 31
      → run_list xs ops ≡ some ys
      → (q' : Queue A) × (run grants ops q ≡ some q') × (contents q' ≡ ys) × IsValid q'
  unfolding run run_list
  run-run_list grants [] q xs ys all v free c room h = (q, refl, ground arith, v)
  run-run_list grants (put x ∷ ops) q xs ys all v free c room h =
      let size : q.size ≡ length xs =
        omega (arith, ap length c, length-take q.size q.cells, v.fits) in
      let (q₁, e, c₁, v₁, free₁, _) = add_to_queue-append grants q x v (omega arith) free (all _) in
      rw e (
        run-run_list grants ops q₁ (xs ++ x ∷ []) ys all v₁ free₁ (c₁ ∙ ap (λ l. l ++ x ∷ []) c)
          (omega (arith, length-append xs (x ∷ []))) h)
  run-run_list grants (get ∷ ops) q [] ys all v free c room h = cc
  run-run_list grants (get ∷ ops) q (x ∷ xs) ys all v free c room h =
      let (r, q₁, e, c₁, v₁, code) = remove_from_queue-Left grants q x xs v free c in
      rw e (
        run-run_list grants ops q₁ xs ys all v₁
          (ground (arith, code, remove_granted grants q all free e)) c₁ (omega arith) h)
