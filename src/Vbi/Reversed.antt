-- ===== src/Vbi/Reversed.antt =====
-- `reverse_tab` of input/sdi/vbi.c.
use obe_rt.Base.{
  ℕ, zero, suc, ◌+◌, ◌*◌, ◌/◌, ◌%◌, ◌<◌, ◌≡◌, refl, Bool, true, ◌&&◌, ◌==◌, ==_iff, arith,
}
use obe_rt.Vbi.{reverse_tab, reversed}

-- The bits of a byte in the other order.
abbrev pub mirrored : ℕ → ℕ
mirrored b =
    b % 2 * 128
    + b / 2 % 2 * 64
    + b / 4 % 2 * 32
    + b / 8 % 2 * 16
    + b / 16 % 2 * 8
    + b / 32 % 2 * 4
    + b / 64 % 2 * 2
    + b / 128 % 2

-- The table agrees with that on the bytes below a number.
agrees : ℕ → Bool
agrees zero = true
agrees (suc n) = reversed n == mirrored n && agrees n

agrees_below : (n b : ℕ) → agrees n ≡ true → b < n → (reversed b == mirrored b) ≡ true
unfolding agrees
agrees_below zero b h lt = absurd (omega arith)
agrees_below (suc n) b h lt = ground (arith, agrees_below n b)

agrees_all : agrees 256 ≡ true
unfolding agrees reversed reverse_tab
agrees_all = refl

-- For each byte the table has the byte with its bits in the other order.
pub reversed-mirrored : (b : ℕ) → b < 256 → reversed b ≡ mirrored b
reversed-mirrored b lt = (==_iff (reversed b) (mirrored b)).0 (agrees_below 256 b agrees_all lt)

pub reversed_small : (b : ℕ) → b < 256 → reversed b < 256
reversed_small b lt = omega (arith, reversed-mirrored b lt)
