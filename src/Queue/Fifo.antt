-- ===== src/Queue/Fifo.antt =====
-- common/queue.c as a first-in first-out queue of the live part of its array.
use obe_rt.Base.{
  ℕ, zero, suc, ◌+◌, ◌-◌, ◌*◌, ◌%◌, ◌^◌, ◌≤◌, ◌<◌, ◌≡◌, refl, if◌then◌else◌, sym, ap, ◌∙◌, ◌⊎◌, inl,
  inr, Bool, true, false, List, [], ◌∷◌, ◌++◌, arith, Bool-cases, ltb, lt→ltb, length, take,
  remove_at, take-take, length-take, length-append, take_all,
}
use obe_rt.Base.Int.{ℤ, pos, negsuc}
use obe_rt.Queue.{
  Queue, Call, returned, pred32, to_size_t, bytes_of, close_gap, add_to_queue, resize, shrink,
  remove_from_queue_without_lock, remove_from_queue, leave, more_than_one, position,
  remove_item_from_queue,
}
use obe_rt.Queue.Shift.{take-close_gap, length-close_gap}

-- The live part fits the allocation, and the `int` is not negative.
pub record IsValid {ℓ} {A : Type ℓ} (q : Queue A) : Type 0 where
  pub fits : q.size ≤ length q.cells
  pub small : q.size < 2 ^ 31

-- The items that wait, oldest first.
abbrev pub contents {ℓ} : {A : Type ℓ} → Queue A → List A
contents q = take q.size q.cells

pred32-suc : (n m : ℕ) → n ≡ suc m → n < 2 ^ 31 → pred32 n ≡ m
pred32-suc n m e h = omega arith

remove_at-take_one {ℓ} : {A : Type ℓ} (xs : List A) → remove_at 0 (take 1 xs) ≡ []
remove_at-take_one [] = refl
remove_at-take_one (x ∷ xs) = refl

-- What a removal leaves: the item at `i` is gone, and the mutex is as the caller had it.
abbrev pub Removed {ℓ} : {A : Type ℓ} → ℕ → Queue A → ℤ × Queue A → Type ℓ
Removed i q (r, q') =
    (contents q' ≡ remove_at i (contents q))
    × IsValid q'
    × (q'.locked ≡ q.locked)
    × ((r ≡ pos 0) ⊎ (r ≡ negsuc 0))

-- A removal that has returned: the live part is `xs`, and the mutex is free unless the call failed.
abbrev pub Left {ℓ} : {A : Type ℓ} → List A → Call A → Type ℓ
Left {A} xs c =
    (r : ℤ) × (q' : Queue A) × (c ≡ returned r q')
    × (contents q' ≡ xs)
    × IsValid q'
    × (((r ≡ pos 0) × (q'.locked ≡ false)) ⊎ ((r ≡ negsuc 0) × (q'.locked ≡ true)))

-- The first item that equals the given one is gone.
abbrev pub erase_first {ℓ} : {A : Type ℓ} → (A → A → Bool) → A → List A → List A
erase_first same item [] = []
erase_first same item (x ∷ xs) = if same x item then xs else x ∷ erase_first same item xs

module _ {ℓ} {A : Type ℓ} (grants : ℕ → Bool) where
  -- An addition to a valid queue that is free, has fewer than 2^31 - 1 items and gets its memory appends
  -- the item, keeps the queue valid, signals one waiter and leaves the mutex free.
  pub add_to_queue-append :
      (q : Queue A) (item : A)
      → IsValid q
      → q.size + 1 < 2 ^ 31
      → q.locked ≡ false
      → grants (8 * (q.size + 1)) ≡ true
      → (q' : Queue A) × (add_to_queue grants q item ≡ returned (pos 0) q')
        × (contents q' ≡ contents q ++ item ∷ [])
        × IsValid q'
        × (q'.locked ≡ false)
        × (q'.in_signals ≡ q.in_signals + 1)
  unfolding add_to_queue
  add_to_queue-append q item v room free got = (
    record q {
      cells = take q.size q.cells ++ item ∷ [];
      size = q.size + 1;
      in_signals = q.in_signals + 1;
    },
    rw (free, request, got) refl,
    take_all (q.size + 1) _ (omega (arith, size)),
    record { fits = omega (arith, size); small = room },
    free,
    refl,
  )
    where
      request : bytes_of (to_size_t q.size + 1) ≡ 8 * (q.size + 1)
      request = ground arith

      size : length (take q.size q.cells ++ item ∷ []) ≡ q.size + 1
      size = omega (
        arith,
        length-append (take q.size q.cells) (item ∷ []),
        length-take q.size q.cells,
        v.fits,
      )

  -- What `realloc` and the counting do to an array that has been shifted already.
  resize-contents :
      (granted : Bool) (m : ℕ) (q : Queue A) (shifted : List A)
      → m < 2 ^ 31
      → m ≤ length shifted
      → let (r, q') = resize granted m q shifted in
        (contents q' ≡ take m shifted)
        × IsValid q'
        × (q'.locked ≡ q.locked)
        × ((r ≡ pos 0) ⊎ (r ≡ negsuc 0))
  unfolding resize
  resize-contents true m q shifted small fits = (
    take-take m shifted,
    record { fits = omega (arith, length-take m shifted); small = small },
    refl,
    inl refl,
  )
  resize-contents false zero q shifted small fits =
      (refl, record { fits = omega arith; small = omega arith }, refl, inl refl)
  resize-contents false (suc n) q shifted small fits =
      (refl, record { fits = fits; small = small }, refl, inr refl)

  -- The memory of an array that loses the pointer at `i`, whatever `realloc` answers.
  pub shrink-Removed :
      (q : Queue A) (i m : ℕ)
      → IsValid q
      → q.size ≡ suc m
      → i ≤ m
      → Removed i q (shrink grants q (close_gap i m q.cells))
  unfolding shrink
  shrink-Removed q i m v e le =
      let r =
        resize-contents (grants (bytes_of ((to_size_t q.size + 2 ^ 64 - 1) % 2 ^ 64))) m q
          (close_gap i m q.cells) (omega arith) (length-close_gap i m q.cells le (omega arith)) in
      rw (pred32-suc q.size m e v.small) (
        r.0
            ∙ take-close_gap i m q.cells le (omega arith)
            ∙ ap (λ k. remove_at i (take k q.cells)) (sym e),
        r.1,
        r.2,
        r.3,
      )

  shrink_last-Removed :
      (q : Queue A) → IsValid q → q.size ≡ 1 → Removed 0 q (shrink grants q q.cells)
  unfolding shrink
  shrink_last-Removed q v e =
      let r =
        resize-contents (grants (bytes_of ((to_size_t q.size + 2 ^ 64 - 1) % 2 ^ 64))) 0 q q.cells
          (omega arith) (omega arith) in
      rw (pred32-suc q.size 0 e v.small) (
        r.0 ∙ sym (ap (λ k. remove_at 0 (take k q.cells)) e ∙ remove_at-take_one q.cells),
        r.1,
        r.2,
        r.3,
      )

  -- `remove_from_queue_without_lock` takes the oldest item off any queue that is not empty.
  pub remove_from_queue_without_lock-Removed :
      (q : Queue A) (m : ℕ)
      → IsValid q
      → q.size ≡ suc m
      → Removed 0 q (remove_from_queue_without_lock grants q)
  unfolding remove_from_queue_without_lock
  remove_from_queue_without_lock-Removed q zero v e =
      rw (ap more_than_one e) (shrink_last-Removed q v e)
  remove_from_queue_without_lock-Removed q (suc m) v e =
      let many : more_than_one q.size ≡ true = ground arith in
      let last : q.size - 1 ≡ suc m = omega arith in
      rw (many, last) (shrink-Removed q 0 (suc m) v e (omega arith))

  leave-Left :
      (r : ℤ) (q : Queue A)
      → IsValid q
      → q.locked ≡ true
      → (r ≡ pos 0) ⊎ (r ≡ negsuc 0)
      → Left (contents q) (leave grants (r, q))
  unfolding leave
  leave-Left (pos n) q v l h = (
    pos n,
    record q { locked = false; out_signals = q.out_signals + 1 },
    refl,
    refl,
    record { fits = v.fits; small = v.small },
    inl (ground arith, refl),
  )
  leave-Left (negsuc n) q v l h = (negsuc n, q, refl, refl, v, inr (ground arith, l))

  leave-Removed :
      (i : ℕ) (q : Queue A) (p : ℤ × Queue A)
      → q.locked ≡ true
      → Removed i q p
      → Left (remove_at i (contents q)) (leave grants p)
  leave-Removed i q (r, q') l (same, v, keep, code) =
      rw (← same) (leave-Left r q' v (keep ∙ l) code)

  -- `remove_from_queue` takes the oldest item off a valid, free queue that is not empty, whatever `realloc` answers: on its error path too,
  -- but then the mutex stays locked.
  pub remove_from_queue-Left :
      (q : Queue A) (x : A) (rest : List A)
      → IsValid q
      → q.locked ≡ false
      → contents q ≡ x ∷ rest
      → Left rest (remove_from_queue grants q)
  unfolding remove_from_queue
  remove_from_queue-Left q x rest v free h =
      rw (free, ← ap (remove_at 0) h)
        (leave-Removed 0 (record q { locked = true }) _ refl
          (remove_from_queue_without_lock-Removed (record q { locked = true }) (length rest)
            (record { fits = v.fits; small = v.small }) size))
    where
      size : q.size ≡ suc (length rest)
      size = omega (arith, ap length h, length-take q.size q.cells, v.fits)

  position_cases :
      (same : A → A → Bool) (item : A) (xs : List A) (n i : ℕ)
      → n ≤ length xs
      → ((position grants same item xs n i ≡ i + n)
          × (erase_first same item (take n xs) ≡ take n xs))
        ⊎ ((k : ℕ) × (position grants same item xs n i ≡ i + k)
            × (k < n)
            × (erase_first same item (take n xs) ≡ remove_at k (take n xs)))
  unfolding position
  position_cases same item [] zero i h = inl (refl, refl)
  position_cases same item [] (suc n) i h = absurd (omega arith)
  position_cases same item (x ∷ xs) zero i h = inl (omega arith, refl)
  position_cases same item (x ∷ xs) (suc n) i h = elim (Bool-cases (same x item)) [
    | inl hit ↦ rw hit (inr (0, omega arith, omega arith, refl))
    | inr miss ↦ rw miss (elim (position_cases same item xs n (suc i) (omega arith)) [
      | inl (p, e) ↦ inl (omega arith, ap (◌∷◌ x) e)
      | inr (k, p, lt, e) ↦ inr (suc k, omega arith, omega arith, ap (◌∷◌ x) e)
    ])
  ]

  -- On a valid, free queue `remove_item_from_queue` takes out the first pointer that equals the given
  -- one, and nothing else;
  -- without such a pointer it changes nothing.
  pub remove_item_from_queue-Left :
      (same : A → A → Bool) (q : Queue A) (item : A)
      → IsValid q
      → q.locked ≡ false
      → Left (erase_first same item (contents q)) (remove_item_from_queue grants same q item)
  unfolding remove_item_from_queue
  remove_item_from_queue-Left same q item v free =
      elim (position_cases same item q.cells q.size 0 v.fits) [
        | inl (p, e) ↦
            let end : position grants same item q.cells q.size 0 ≡ q.size = omega (arith, p) in
            let out : ltb q.size q.size ≡ false = ground arith in
            rw (free, end, out, e)
              (leave-Left (pos 0) (record q { locked = true })
                (record { fits = v.fits; small = v.small }) refl (inl refl))
        | inr (k, p, lt, e) ↦
            let at : position grants same item q.cells q.size 0 ≡ k = omega (arith, p) in
            let size : q.size ≡ suc (q.size - 1) = omega arith in
            rw (free, at, lt→ltb k q.size lt, e)
              (leave-Removed k (record q { locked = true }) _ refl
                (shrink-Removed (record q { locked = true }) k (q.size - 1)
                  (record { fits = v.fits; small = v.small }) size (omega arith)))
      ]
