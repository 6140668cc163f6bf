-- ===== src/Queue.antt =====
-- common/queue.c and common/queue.h: the locked pointer array that joins the encoder's threads.
-- `realloc` is a parameter: for each requested number of bytes, whether the request is granted.
-- A call returns its `int`, or blocks on a mutex that is never released.
pub mod Shift
pub mod Fifo
pub mod Errors
pub mod Script
mod Tests
use obe_rt.Base.{
  ℕ, zero, suc, ◌+◌, ◌-◌, ◌*◌, ◌%◌, ◌^◌, Bool, true, false, ◌&&◌, List, [], ◌∷◌, ◌++◌, ltb, ◌==◌,
  if◌then◌else◌, take, drop,
}
use obe_rt.Base.Int.{ℤ, pos, negsuc}

-- `obe_queue_t`. `cells` is the allocated array; `size` is the bit pattern of the C `int`; the
-- condition variables are counted by their signals.
pub record Queue {ℓ} (A : Type ℓ) : Type ℓ where
  pub cells : List A
  pub size : ℕ
  pub locked : Bool
  pub in_signals : ℕ
  pub out_signals : ℕ

pub data Call {ℓ} (A : Type ℓ) : Type ℓ where
  blocked : Call A
  returned : ℤ → Queue A → Call A

-- `size--` on an `int`
abbrev pub pred32 : ℕ → ℕ
pred32 n = (n + 2 ^ 32 - 1) % 2 ^ 32

-- An `int` converted to `size_t`.
abbrev pub to_size_t : ℕ → ℕ
to_size_t n = if ltb n (2 ^ 31) then n else n + 2 ^ 64 - 2 ^ 32

-- `sizeof(*queue->queue) * n` for the `size_t` n
abbrev pub bytes_of : ℕ → ℕ
bytes_of n = 8 * n % 2 ^ 64

-- `memmove(&queue[i], &queue[i+1], sizeof(*queue) * (last-i))`
pub close_gap {ℓ} : {A : Type ℓ} → ℕ → ℕ → List A → List A
close_gap i last cells = take i cells ++ (drop (suc i) (take (suc last) cells) ++ drop last cells)

-- `size > 1` on `int`s
abbrev pub more_than_one : ℕ → Bool
more_than_one n = ltb 1 n && ltb n (2 ^ 31)

module _ {ℓ} {A : Type ℓ} where
  pub init : Queue A
  init = record { cells = []; size = 0; locked = false; in_signals = 0; out_signals = 0 }

  -- What follows `realloc`: `granted` tells whether it returned an array. A null result for an
  -- array of no pointer is no error.
  pub resize : Bool → ℕ → Queue A → List A → ℤ × Queue A
  resize true size q shifted = (pos 0, record q { cells = take size shifted; size = size })
  resize false zero q shifted = (pos 0, record q { cells = []; size = 0 })
  resize false (suc n) q shifted = (negsuc 0, record q { cells = shifted; size = suc n })

  module _ (grants : ℕ → Bool) where
    pub add_to_queue : Queue A → A → Call A
    add_to_queue q item =
        if q.locked
        then blocked
        else if grants (bytes_of (to_size_t q.size + 1))
        then returned (pos 0) (record q {
          cells = take q.size q.cells ++ item ∷ [];
          size = q.size + 1;
          in_signals = q.in_signals + 1;
        })
        else returned (negsuc 0) (record q { locked = true })

    -- The part that the removals share: `shifted` is the array after `memmove`.
    pub shrink : Queue A → List A → ℤ × Queue A
    shrink q shifted =
        resize (grants (bytes_of ((to_size_t q.size + 2 ^ 64 - 1) % 2 ^ 64))) (pred32 q.size) q
          shifted

    pub remove_from_queue_without_lock : Queue A → ℤ × Queue A
    remove_from_queue_without_lock q =
        shrink q (if more_than_one q.size then close_gap 0 (q.size - 1) q.cells else q.cells)

    -- The tail of `remove_from_queue`: the error path leaves before the unlock.
    pub leave : ℤ × Queue A → Call A
    leave (pos n, q) =
        returned (pos n) (record q { locked = false; out_signals = q.out_signals + 1 })
    leave (negsuc n, q) = returned (negsuc n) q

    pub remove_from_queue : Queue A → Call A
    remove_from_queue q =
        if q.locked
        then blocked
        else leave (remove_from_queue_without_lock (record q { locked = true }))

    -- The loop over `i`: the list is the array from `i` on, at most `size - i` of it is looked at.
    pub position : (A → A → Bool) → A → List A → ℕ → ℕ → ℕ
    position same item [] n i = i + n
    position same item (x ∷ xs) zero i = i
    position same item (x ∷ xs) (suc n) i =
        let rest = position same item xs n (suc i) in if same x item then i else rest

    pub remove_item_from_queue : (A → A → Bool) → Queue A → A → Call A
    remove_item_from_queue same q item =
        if q.locked
        then blocked
        else (let i = position same item q.cells q.size 0 in
            if ltb i q.size
            then leave (shrink (record q { locked = true }) (close_gap i (q.size - 1) q.cells))
            else leave (pos 0, record q { locked = true }))
