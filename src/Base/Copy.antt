-- ===== src/Base/Copy.antt =====
-- `memcpy` and `memset` into an array, on lists.
use obe_rt.Base.{
  ℕ, zero, suc, ◌+◌, ◌≤◌, ◌<◌, ◌≡◌, refl, ap, List, [], ◌∷◌, arith, length, get_elem?,
}

module _ {ℓ} {A : Type ℓ} where
  -- The array with `xs` written over it from index `p` on; what would fall outside is lost.
  unfoldable pub splice : ℕ → List A → List A → List A
  splice p xs [] = []
  splice (suc p) xs (b ∷ bs) = b ∷ splice p xs bs
  splice zero [] (b ∷ bs) = b ∷ bs
  splice zero (x ∷ xs) (b ∷ bs) = x ∷ splice zero xs bs

  pub length-splice : (p : ℕ) (xs buf : List A) → length (splice p xs buf) ≡ length buf
  unfolding splice
  length-splice p xs [] = refl
  length-splice (suc p) xs (b ∷ bs) = ap suc (length-splice p xs bs)
  length-splice zero [] (b ∷ bs) = refl
  length-splice zero (x ∷ xs) (b ∷ bs) = ap suc (length-splice zero xs bs)

  pub get_elem?-splice_in :
      (p : ℕ) (xs buf : List A) (k i : ℕ)
      → i ≡ p + k
      → k < length xs
      → p + length xs ≤ length buf
      → get_elem? (splice p xs buf) i ≡ get_elem? xs k
  unfolding splice
  get_elem?-splice_in p [] buf k i e h r = absurd (omega arith)
  get_elem?-splice_in p (x ∷ xs) [] k i e h r = absurd (omega arith)
  get_elem?-splice_in (suc p) (x ∷ xs) (b ∷ bs) k zero e h r = absurd (omega arith)
  get_elem?-splice_in (suc p) (x ∷ xs) (b ∷ bs) k (suc i) e h r =
      get_elem?-splice_in p (x ∷ xs) bs k i (omega arith) h (omega arith)
  get_elem?-splice_in zero (x ∷ xs) (b ∷ bs) zero zero e h r = refl
  get_elem?-splice_in zero (x ∷ xs) (b ∷ bs) zero (suc i) e h r = absurd (omega arith)
  get_elem?-splice_in zero (x ∷ xs) (b ∷ bs) (suc k) zero e h r = absurd (omega arith)
  get_elem?-splice_in zero (x ∷ xs) (b ∷ bs) (suc k) (suc i) e h r =
      get_elem?-splice_in zero xs bs k i (omega arith) (omega arith) (omega arith)

  pub get_elem?-splice_before :
      (p : ℕ) (xs buf : List A) (i : ℕ) → i < p → get_elem? (splice p xs buf) i ≡ get_elem? buf i
  unfolding splice
  get_elem?-splice_before p xs [] i h = refl
  get_elem?-splice_before zero xs (b ∷ bs) i h = absurd (omega arith)
  get_elem?-splice_before (suc p) xs (b ∷ bs) zero h = refl
  get_elem?-splice_before (suc p) xs (b ∷ bs) (suc i) h =
      get_elem?-splice_before p xs bs i (omega arith)

  pub get_elem?-splice_after :
      (p : ℕ) (xs buf : List A) (i : ℕ)
      → p + length xs ≤ i
      → get_elem? (splice p xs buf) i ≡ get_elem? buf i
  unfolding splice
  get_elem?-splice_after p xs [] i h = refl
  get_elem?-splice_after (suc p) xs (b ∷ bs) zero h = absurd (omega arith)
  get_elem?-splice_after (suc p) xs (b ∷ bs) (suc i) h =
      get_elem?-splice_after p xs bs i (omega arith)
  get_elem?-splice_after zero [] (b ∷ bs) i h = refl
  get_elem?-splice_after zero (x ∷ xs) (b ∷ bs) zero h = absurd (omega arith)
  get_elem?-splice_after zero (x ∷ xs) (b ∷ bs) (suc i) h =
      get_elem?-splice_after zero xs bs i (omega arith)
