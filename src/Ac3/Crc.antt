-- ===== src/Ac3/Crc.antt =====
-- When the checksum of an AC-3 frame comes out as zero.
use Prim.Native.Nat.{bit_xor}
use obe_rt.Base.{
  ℕ, zero, suc, ◌+◌, ◌*◌, ◌/◌, ◌%◌, ◌^◌, ◌≤◌, ◌<◌, ◌≡◌, ◌↔◌, refl, sym, ap, ◌∙◌, none, some, List,
  [], ◌∷◌, ◌++◌, arith, length, take, take_all, length-append,
}
use obe_rt.Base.Bits.{bit_xor-zero, bit_xor_self, eq_of_bit_xor, bit_xor_low_byte, bit_xor_byte}
use obe_rt.Ac3.Table.{crc_entry, crc_entry_low, crc_entry-zero}
use obe_rt.Ac3.{crc_byte, crc_word, crc_from, crc_calc}

-- The checksum of a whole list of words.
pub crc_fold : ℕ → List ℕ → ℕ
crc_fold crc [] = crc
crc_fold crc (w ∷ ws) = crc_fold (crc_word crc w) ws

pub crc_from-fold :
    (crc : ℕ) (ws : List ℕ) (n : ℕ)
    → n ≤ length ws
    → crc_from crc ws n ≡ some (crc_fold crc (take n ws))
unfolding crc_from crc_fold
crc_from-fold crc ws zero h = refl
crc_from-fold crc [] (suc n) h = absurd (omega arith)
crc_from-fold crc (w ∷ ws) (suc n) h = crc_from-fold (crc_word crc w) ws n (omega arith)

pub crc_from-none : (crc : ℕ) (ws : List ℕ) (n : ℕ) → length ws < n → crc_from crc ws n ≡ none
unfolding crc_from
crc_from-none crc ws zero h = absurd (omega arith)
crc_from-none crc [] (suc n) h = refl
crc_from-none crc (w ∷ ws) (suc n) h = crc_from-none (crc_word crc w) ws n (omega arith)

pub crc_fold-append :
    (crc : ℕ) (us vs : List ℕ) → crc_fold crc (us ++ vs) ≡ crc_fold (crc_fold crc us) vs
unfolding crc_fold
crc_fold-append crc [] vs = refl
crc_fold-append crc (u ∷ us) vs = crc_fold-append (crc_word crc u) us vs

pub crc_byte-lt : (crc t : ℕ) → crc_byte crc t < 2 ^ 16
unfolding crc_byte
crc_byte-lt crc t = omega arith

pub crc_fold-lt : (crc : ℕ) (ws : List ℕ) → crc < 2 ^ 16 → crc_fold crc ws < 2 ^ 16
unfolding crc_fold crc_word
crc_fold-lt crc [] h = h
crc_fold-lt crc (w ∷ ws) h =
    crc_fold-lt (crc_byte (crc_byte crc (w / 256 % 256)) (w % 256)) ws
      (crc_byte-lt (crc_byte crc (w / 256 % 256)) (w % 256))

-- Feeding a checksum its own high byte moves the low byte up.
crc_byte_same : (crc : ℕ) → crc_byte crc (crc / 256 % 256) ≡ crc * 256 % 2 ^ 16
unfolding crc_byte
crc_byte_same crc = rw (bit_xor_self (crc / 256 % 256), crc_entry-zero, bit_xor-zero (crc * 256))

-- A checksum byte step ends in a zero low byte only if the byte was the checksum's high byte.
crc_byte_low : (crc t : ℕ) → t < 256 → crc_byte crc t % 256 ≡ 0 → crc / 256 % 256 ≡ t
unfolding crc_byte
crc_byte_low crc t h e = eq_of_bit_xor _ t (
    crc_entry_low _ (bit_xor_byte _ t (omega arith) h)
      (omega (arith, bit_xor_low_byte crc (crc_entry (bit_xor (crc / 256 % 256) t)))))

-- A word takes a checksum to zero exactly when it is that checksum.
pub crc_word-zero_iff : (crc w : ℕ) → crc < 2 ^ 16 → w < 2 ^ 16 → (crc_word crc w ≡ 0) ↔ (w ≡ crc)
unfolding crc_word
crc_word-zero_iff crc w hc hw = (closes, λ e. rw e same)
  where
    mid : ℕ
    mid = crc_byte crc (w / 256 % 256)

    same : crc_byte (crc_byte crc (crc / 256 % 256)) (crc % 256) ≡ 0
    same =
        let low : crc % 256 ≡ crc * 256 % 2 ^ 16 / 256 % 256 = omega arith in
        rw (crc_byte_same crc, low, crc_byte_same (crc * 256 % 2 ^ 16)) (omega arith)

    closes : crc_byte mid (w % 256) ≡ 0 → w ≡ crc
    closes e =
        let lo : mid / 256 % 256 ≡ w % 256 =
          crc_byte_low mid (w % 256) (omega arith) (omega (arith, e)) in
        let full : mid * 256 % 2 ^ 16 ≡ 0 = sym (crc_byte_same mid) ∙ (rw lo e) in
        let hi : crc / 256 % 256 ≡ w / 256 % 256 =
          crc_byte_low crc (w / 256 % 256) (omega arith) (omega (arith, full)) in
        let m : mid ≡ crc * 256 % 2 ^ 16 = rw (← hi) (crc_byte_same crc) in omega (arith, lo, hi, m)

-- A sequence of words that ends in `w` has a zero checksum exactly when `w` is the checksum of the
-- words before it: one word closes a sequence, and no other.
pub crc_calc-snoc_iff :
    (ws : List ℕ) (w : ℕ)
    → w < 2 ^ 16
    → (crc_calc (ws ++ w ∷ []) (length ws + 1) ≡ some 0) ↔ (crc_calc ws (length ws) ≡ some w)
unfolding crc_calc crc_fold
crc_calc-snoc_iff ws w hw =
    let c = crc_fold 0 ws in
    let iff = crc_word-zero_iff c w (crc_fold-lt 0 ws (omega arith)) hw in
    rw (crc_from-ws, crc_from-snoc)
      (
        (λ e. let q : crc_word c w ≡ 0 = cc in ap some (sym (iff.0 q))),
        (λ e. let q : w ≡ c = cc in ap some (iff.1 q)),
      )
  where
    crc_from-ws : crc_from 0 ws (length ws) ≡ some (crc_fold 0 ws)
    crc_from-ws =
        crc_from-fold 0 ws (length ws) (omega arith)
        ∙ ap (λ l. some (crc_fold 0 l)) (take_all (length ws) ws (omega arith))

    crc_from-snoc : crc_from 0 (ws ++ w ∷ []) (length ws + 1) ≡ some (crc_word (crc_fold 0 ws) w)
    crc_from-snoc =
        let size = length-append ws (w ∷ []) in
        crc_from-fold 0 (ws ++ w ∷ []) (length ws + 1) (omega (arith, size))
        ∙ ap (λ l. some (crc_fold 0 l))
            (take_all (length ws + 1) (ws ++ w ∷ []) (omega (arith, size)))
        ∙ ap some (crc_fold-append 0 ws (w ∷ []))
