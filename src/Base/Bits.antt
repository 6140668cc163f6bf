-- ===== src/Base/Bits.antt =====
-- Laws of exclusive or on bytes and words, and checking a statement at every value of a byte.
use Prim.Native.Nat.{bit_xor, digits, differ, bit_xor-bitwise}
use native.Mathlib.Nat.{pow-suc, div-div-eq-div-mul}
use obe_rt.Base.{
  ℕ, zero, suc, ◌+◌, ◌*◌, ◌/◌, ◌%◌, ◌^◌, ◌≤◌, ◌<◌, ◌≡◌, refl, sym, ap, ◌∙◌, Bool, true, ◌&&◌, arith,
}

-- A test that every number of a range passes, `n` of them from `from` on.
unfoldable pub passes : (ℕ → Bool) → ℕ → ℕ → Bool
passes test from zero = true
passes test from (suc n) = test from && passes test (suc from) n

passes_at :
    (test : ℕ → Bool) (from n k : ℕ) → passes test from n ≡ true → k < n → test (from + k) ≡ true
unfolding passes
passes_at test from zero k all lt = absurd (omega arith)
passes_at test from (suc n) zero all lt = ground arith
passes_at test from (suc n) (suc k) all lt = ground (arith, passes_at test (suc from) n k)

pub passes_below : (test : ℕ → Bool) (n k : ℕ) → passes test 0 n ≡ true → k < n → test k ≡ true
passes_below test n k all lt = ground (arith, passes_at test 0 n k all lt)

-- Exclusive or is defined by a recursion on binary digits with fuel; the fuel does not matter.
abbrev xor_digits : ℕ → ℕ → ℕ → ℕ
xor_digits fuel a b = digits (λ y. y) differ fuel a b

xor_digits_enough :
    (fuel a b : ℕ) → a ≤ fuel → (more : ℕ) → a ≤ more → xor_digits fuel a b ≡ xor_digits more a b
xor_digits_enough fuel zero b p zero q = elim fuel as (λ n. xor_digits n 0 b ≡ b) [
  | zero ↦ refl
  | suc n ↦ refl
]
xor_digits_enough fuel zero b p (suc more) q = elim fuel as (λ n. xor_digits n 0 b ≡ b) [
  | zero ↦ refl
  | suc n ↦ refl
]
xor_digits_enough zero (suc a) b p more q = absurd (omega arith)
xor_digits_enough (suc fuel) (suc a) b p zero q = absurd (omega arith)
xor_digits_enough (suc fuel) (suc a) b p (suc more) q =
    rw (xor_digits_enough fuel (suc a / 2) (b / 2) (omega arith) more (omega arith))

differ_bits : (x y : ℕ) → x < 2 → y < 2 → differ x y ≡ (x + y) % 2
differ_bits zero y p q = omega arith
differ_bits (suc zero) zero p q = refl
differ_bits (suc zero) (suc zero) p q = refl
differ_bits (suc zero) (suc (suc y)) p q = absurd (omega arith)
differ_bits (suc (suc x)) y p q = absurd (omega arith)

pub zero-bit_xor : (b : ℕ) → bit_xor 0 b ≡ b
zero-bit_xor b = bit_xor-bitwise 0 b

-- The lowest digit of an exclusive or, and the others.
pub bit_xor_digit : (a b : ℕ) → bit_xor a b ≡ bit_xor (a / 2) (b / 2) * 2 + (a + b) % 2
bit_xor_digit zero b = omega (arith, zero-bit_xor b, zero-bit_xor (b / 2))
bit_xor_digit (suc a) b = omega (
  arith,
  bit_xor-bitwise (suc a) b,
  bit_xor-bitwise (suc a / 2) (b / 2),
  xor_digits_enough a (suc a / 2) (b / 2) (omega arith) (suc a / 2) (omega arith),
  differ_bits (suc a % 2) (b % 2) (omega arith) (omega arith),
)

bit_xor-zero_fuel : (fuel a : ℕ) → a ≤ fuel → bit_xor a 0 ≡ a
bit_xor-zero_fuel fuel zero h = zero-bit_xor 0
bit_xor-zero_fuel zero (suc a) h = absurd (omega arith)
bit_xor-zero_fuel (suc fuel) (suc a) h =
    omega (arith, bit_xor_digit (suc a) 0, bit_xor-zero_fuel fuel (suc a / 2) (omega arith))

pub bit_xor-zero : (a : ℕ) → bit_xor a 0 ≡ a
bit_xor-zero a = bit_xor-zero_fuel a a (omega arith)

bit_xor_self_fuel : (fuel a : ℕ) → a ≤ fuel → bit_xor a a ≡ 0
bit_xor_self_fuel fuel zero h = zero-bit_xor 0
bit_xor_self_fuel zero (suc a) h = absurd (omega arith)
bit_xor_self_fuel (suc fuel) (suc a) h =
    omega (arith, bit_xor_digit (suc a) (suc a), bit_xor_self_fuel fuel (suc a / 2) (omega arith))

pub bit_xor_self : (a : ℕ) → bit_xor a a ≡ 0
bit_xor_self a = bit_xor_self_fuel a a (omega arith)

bit_xor_eq_fuel : (fuel a b : ℕ) → a ≤ fuel → bit_xor a b ≡ 0 → a ≡ b
bit_xor_eq_fuel fuel zero b h e = omega (arith, zero-bit_xor b)
bit_xor_eq_fuel zero (suc a) b h e = absurd (omega arith)
bit_xor_eq_fuel (suc fuel) (suc a) b h e =
    let d = bit_xor_digit (suc a) b in
    omega (arith, bit_xor_eq_fuel fuel (suc a / 2) (b / 2) (omega arith) (omega (arith, d)))

-- Only equal numbers cancel.
pub eq_of_bit_xor : (a b : ℕ) → bit_xor a b ≡ 0 → a ≡ b
eq_of_bit_xor a b e = bit_xor_eq_fuel a a b (omega arith) e

-- A multiple of 256 leaves the low byte alone.
pub bit_xor_low_byte : (a b : ℕ) → bit_xor (a * 256) b % 256 ≡ b % 256
bit_xor_low_byte a b = omega (
  arith,
  bit_xor_digit (a * 256) b,
  bit_xor_digit (a * 256 / 2) (b / 2),
  bit_xor_digit (a * 256 / 2 / 2) (b / 2 / 2),
  bit_xor_digit (a * 256 / 2 / 2 / 2) (b / 2 / 2 / 2),
  bit_xor_digit (a * 256 / 2 / 2 / 2 / 2) (b / 2 / 2 / 2 / 2),
  bit_xor_digit (a * 256 / 2 / 2 / 2 / 2 / 2) (b / 2 / 2 / 2 / 2 / 2),
  bit_xor_digit (a * 256 / 2 / 2 / 2 / 2 / 2 / 2) (b / 2 / 2 / 2 / 2 / 2 / 2),
  bit_xor_digit (a * 256 / 2 / 2 / 2 / 2 / 2 / 2 / 2) (b / 2 / 2 / 2 / 2 / 2 / 2 / 2),
)

both-zero : (a b : ℕ) → a ≡ 0 → b ≡ 0 → bit_xor a b ≡ 0
both-zero a b p q = rw (p, q) (zero-bit_xor 0)

-- Bytes stay bytes.
pub bit_xor_byte : (a b : ℕ) → a < 256 → b < 256 → bit_xor a b < 256
bit_xor_byte a b p q = omega (
  arith,
  bit_xor_digit a b,
  bit_xor_digit (a / 2) (b / 2),
  bit_xor_digit (a / 2 / 2) (b / 2 / 2),
  bit_xor_digit (a / 2 / 2 / 2) (b / 2 / 2 / 2),
  bit_xor_digit (a / 2 / 2 / 2 / 2) (b / 2 / 2 / 2 / 2),
  bit_xor_digit (a / 2 / 2 / 2 / 2 / 2) (b / 2 / 2 / 2 / 2 / 2),
  bit_xor_digit (a / 2 / 2 / 2 / 2 / 2 / 2) (b / 2 / 2 / 2 / 2 / 2 / 2),
  bit_xor_digit (a / 2 / 2 / 2 / 2 / 2 / 2 / 2) (b / 2 / 2 / 2 / 2 / 2 / 2 / 2),
  both-zero (a / 2 / 2 / 2 / 2 / 2 / 2 / 2 / 2) (b / 2 / 2 / 2 / 2 / 2 / 2 / 2 / 2) (omega arith)
      (omega arith),
)

-- One more halving.
pub halve : (v m : ℕ) → v / 2 ^ suc m ≡ v / 2 ^ m / 2
halve v m = ap (λ d. v / d) (pow-suc 2 m) ∙ sym (div-div-eq-div-mul v (2 ^ m) 2)
