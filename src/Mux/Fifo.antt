-- ===== src/Mux/Fifo.antt =====
-- What mux/smoothing.c relies on of the fifos of libavutil.
use obe_rt.Base.{
  ℕ, ◌-◌, ◌≤◌, ◌≡◌, ◌∙◌, ap, ap₂, List, [], ◌++◌, arith, length, take, drop, take-append-drop,
  length-take, length-drop,
}
use obe_rt.Mux.{FifoOps}

-- A fifo keeps the items that are written to it in their order, and gives the oldest first.
pub record IsFifo {F : Type 0} {A : Type 0} (ops : FifoOps F A) : Type 0 where
  pub contents : F → List A
  pub sized : (f : F) → ops.size f ≡ length (contents f)
  pub emptied : (f : F) → contents (ops.reset f) ≡ []
  pub written : (f : F) (xs : List A) → contents (ops.write f xs) ≡ contents f ++ xs
  pub given : (f : F) (n : ℕ) → n ≤ length (contents f) → (ops.read f n).0 ≡ take n (contents f)
  pub left :
      (f : F) (n : ℕ) → n ≤ length (contents f) → contents (ops.read f n).1 ≡ drop n (contents f)

module _ {F : Type 0} {A : Type 0} {ops : FifoOps F A} (fifo : IsFifo ops) where
  -- What is read and what is left make up what was there.
  pub read-splits :
      (f : F) (n : ℕ)
      → n ≤ length (fifo.contents f)
      → ((ops.read f n).0 ++ fifo.contents (ops.read f n).1 ≡ fifo.contents f)
        × (length (ops.read f n).0 ≡ n)
        × (length (fifo.contents (ops.read f n).1) ≡ length (fifo.contents f) - n)
  read-splits f n h = (
    ap₂ (λ xs ys. xs ++ ys) (fifo.given f n h) (fifo.left f n h)
        ∙ take-append-drop n (fifo.contents f),
    ap length (fifo.given f n h) ∙ omega (arith, h, length-take n (fifo.contents f)),
    ap length (fifo.left f n h) ∙ length-drop n (fifo.contents f),
  )
