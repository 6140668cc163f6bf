-- ===== src/Queue/Shift.antt =====
-- Shifting the array of common/queue.c down over one cell, on lists.
use obe_rt.Base.{
  ℕ, zero, suc, ◌≤◌, ◌<◌, ◌≡◌, ap, List, [], ◌∷◌, arith, length, take, remove_at, take-append_exact,
  length-take, length-remove_at,
}
use obe_rt.Queue.{close_gap}

module _ {ℓ} {A : Type ℓ} where
  pub take-close_gap :
      (i m : ℕ) (cells : List A)
      → i ≤ m
      → m < length cells
      → take m (close_gap i m cells) ≡ remove_at i (take (suc m) cells)
  unfolding close_gap
  take-close_gap i m [] h k = absurd (omega arith)
  take-close_gap zero m (x ∷ xs) h k =
      take-append_exact m (take m xs) _ (omega (arith, length-take m xs))
  take-close_gap (suc i) zero (x ∷ xs) h k = absurd (omega arith)
  take-close_gap (suc i) (suc m) (x ∷ xs) h k =
      ap (◌∷◌ x) (take-close_gap i m xs (omega arith) (omega arith))

  pub length-close_gap :
      (i m : ℕ) (cells : List A) → i ≤ m → m < length cells → m ≤ length (close_gap i m cells)
  length-close_gap i m cells h k = omega (
    arith,
    ap length (take-close_gap i m cells h k),
    length-take m (close_gap i m cells),
    length-remove_at i (take (suc m) cells),
    length-take (suc m) cells,
  )
