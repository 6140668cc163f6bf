-- ===== src/UserData/Caption/Places.antt =====
-- The bits of one place for a caption, and of the head in front of the captions.
use obe_rt.Base.{ℕ, ◌+◌, ◌/◌, ◌%◌, ◌<◌, ◌≡◌, ap, ◌∙◌, [], ◌∷◌, ◌++◌, arith}
use obe_rt.UserData.{BitWriter}
use obe_rt.UserData.Bits.{to_bits, unpack, WriterLaws, Adds, Adds-trans}
use obe_rt.UserData.Caption.{write_invalid, write_cc_head}

pub head_bits : (c : ℕ) → c < 32 → 1 ∷ 1 ∷ 0 ∷ to_bits 5 c ≡ to_bits 8 (192 + c)
head_bits c lt =
    let same₇ : 1 ≡ (192 + c) / 128 % 2 = omega arith in
    let same₆ : 1 ≡ (192 + c) / 64 % 2 = omega arith in
    let same₅ : 0 ≡ (192 + c) / 32 % 2 = omega arith in
    let same₄ : c / 16 % 2 ≡ (192 + c) / 16 % 2 = omega arith in
    let same₃ : c / 8 % 2 ≡ (192 + c) / 8 % 2 = omega arith in
    let same₂ : c / 4 % 2 ≡ (192 + c) / 4 % 2 = omega arith in
    let same₁ : c / 2 % 2 ≡ (192 + c) / 2 % 2 = omega arith in
    let same₀ : c / 1 % 2 ≡ (192 + c) / 1 % 2 = omega arith in cc

module _ {S : Type 0} (lib : BitWriter S) (laws : WriterLaws lib) where
  pub write_cc_head-Adds :
      (c : ℕ) (s : S)
      → c < 32
      → Adds lib laws s (write_cc_head lib c s) (unpack ((192 + c) ∷ 255 ∷ []))
  unfolding write_cc_head unpack
  write_cc_head-Adds c s lt =
      let s1 = lib.bs_write1 s 1 in
      let s2 = lib.bs_write1 s1 1 in
      let s3 = lib.bs_write1 s2 0 in
      let s4 = lib.bs_write s3 5 c in
      let s5 = lib.bs_write s4 8 255 in
      let p =
        Adds-trans lib laws s s1 s2 _ _ (laws.write1 s 1 (omega arith))
          (laws.write1 s1 1 (omega arith)) in
      let q = Adds-trans lib laws s s2 s3 _ _ p (laws.write1 s2 0 (omega arith)) in
      let r = Adds-trans lib laws s s3 s4 _ _ q (laws.write s3 5 c (omega arith)) in
      Adds-trans lib laws s s4 s5 _ _ r (laws.write s4 8 255 (omega arith))
      ∙ ap (λ x. laws.bits s ++ (x ++ to_bits 8 255)) (head_bits c lt)

  -- The bits in front of the two bytes of a place.
  pub entry_head-Adds :
      (valid i : ℕ) (s : S)
      → valid < 2
      → i < 4
      → Adds lib laws s
          (lib.bs_write (lib.bs_write1 (lib.bs_write (lib.bs_write1 s 1) 4 15) valid) 2 i)
          (1 ∷ 1 ∷ 1 ∷ 1 ∷ 1 ∷ to_bits 1 valid ++ to_bits 2 i)
  entry_head-Adds valid i s p q =
      let s1 = lib.bs_write1 s 1 in
      let s2 = lib.bs_write s1 4 15 in
      let s3 = lib.bs_write1 s2 valid in
      let a =
        Adds-trans lib laws s s1 s2 _ _ (laws.write1 s 1 (omega arith))
          (laws.write s1 4 15 (omega arith)) in
      Adds-trans lib laws s s3 (lib.bs_write s3 2 i) _ _
        (Adds-trans lib laws s s2 s3 _ _ a (laws.write1 s2 valid p)) (laws.write s3 2 i q)

  pub entry-Adds :
      (valid i a b : ℕ) (s : S)
      → valid < 2
      → i < 4
      → a < 256
      → b < 256
      → Adds lib laws s
          (lib.bs_write
            (lib.bs_write
              (lib.bs_write (lib.bs_write1 (lib.bs_write (lib.bs_write1 s 1) 4 15) valid) 2 i)
              8
              a)
            8
            b)
          ((1 ∷ 1 ∷ 1 ∷ 1 ∷ 1 ∷ to_bits 1 valid ++ to_bits 2 i) ++ unpack (a ∷ b ∷ []))
  unfolding unpack
  entry-Adds valid i a b s p q la lb =
      let t = lib.bs_write (lib.bs_write1 (lib.bs_write (lib.bs_write1 s 1) 4 15) valid) 2 i in
      let u = lib.bs_write t 8 a in
      Adds-trans lib laws s u (lib.bs_write u 8 b) _ _
        (Adds-trans lib laws s t u _ _ (entry_head-Adds valid i s p q) (laws.write t 8 a la))
        (laws.write u 8 b lb)

  pub write_invalid-Adds :
      (s : S)
      → Adds lib laws s
          (write_invalid lib (lib.bs_write (lib.bs_write1 s 1) 4 15))
          (unpack (250 ∷ 0 ∷ 0 ∷ []))
  unfolding write_invalid unpack
  write_invalid-Adds s =
      entry-Adds 0 2 0 0 s (omega arith) (omega arith) (omega arith) (omega arith)

  pub first-Adds :
      (a b : ℕ) (s : S)
      → a < 256
      → b < 256
      → Adds lib laws s
          (lib.bs_write
            (lib.bs_write
              (lib.bs_write (lib.bs_write1 (lib.bs_write (lib.bs_write1 s 1) 4 15) 1) 2 0)
              8
              a)
            8
            b)
          (unpack (252 ∷ a ∷ b ∷ []))
  unfolding unpack
  first-Adds a b s p q = entry-Adds 1 0 a b s (omega arith) (omega arith) p q

  pub second-Adds :
      (a b : ℕ) (s : S)
      → a < 256
      → b < 256
      → Adds lib laws s
          (lib.bs_write
            (lib.bs_write
              (lib.bs_write (lib.bs_write1 (lib.bs_write (lib.bs_write1 s 1) 4 15) 1) 2 1)
              8
              a)
            8
            b)
          (unpack (253 ∷ a ∷ b ∷ []))
  unfolding unpack
  second-Adds a b s p q = entry-Adds 1 1 a b s (omega arith) (omega arith) p q
