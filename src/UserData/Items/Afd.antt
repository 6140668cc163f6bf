-- ===== src/UserData/Items/Afd.antt =====
-- What is written for the active format, byte by byte.
use obe_rt.Base.{
  ℕ, Bool, ◌+◌, ◌/◌, ◌%◌, ◌<◌, ◌≡◌, refl, ap, ◌∙◌, some, List, [], ◌∷◌, ◌++◌, arith, if◌then◌else◌,
}
use obe_rt.UserData.{
  UserItem, RawFrame, BitWriter, replace_data, byte_at, write_identifier, write_itu_t_codes,
}
use obe_rt.UserData.Bits.{
  head-Holds, all_bytes-AllBytes, literals-AllBytes, to_bits, unpack, WriterLaws, Adds, Adds-trans,
  Holds-Adds,
}
use obe_rt.UserData.Sar.{set_sar, is_sd}
use obe_rt.UserData.Items.{with_frame, dtg1, write_afd_of, afd_byte, write_afd}

code_bits : (v : ℕ) → v < 16 → to_bits 4 15 ++ to_bits 4 v ≡ to_bits 8 (240 + v)
code_bits v lt =
    let same₀ : v / 1 % 2 ≡ (240 + v) / 1 % 2 = omega arith in
    let same₁ : v / 2 % 2 ≡ (240 + v) / 2 % 2 = omega arith in
    let same₂ : v / 4 % 2 ≡ (240 + v) / 4 % 2 = omega arith in
    let same₃ : v / 8 % 2 ≡ (240 + v) / 8 % 2 = omega arith in
    let same₄ : 1 ≡ (240 + v) / 16 % 2 = omega arith in
    let same₅ : 1 ≡ (240 + v) / 32 % 2 = omega arith in
    let same₆ : 1 ≡ (240 + v) / 64 % 2 = omega arith in
    let same₇ : 1 ≡ (240 + v) / 128 % 2 = omega arith in cc

module _ {S : Type 0} (lib : BitWriter S) (laws : WriterLaws lib) (grants : ℕ → Bool) where
  afd-Adds :
      (s : S) (v : ℕ)
      → v < 16
      → Adds lib laws s
          (lib.bs_write
            (lib.bs_write (lib.bs_write (lib.bs_write1 (lib.bs_write1 s 0) 1) 6 1) 4 15)
            4
            v)
          (unpack (65 ∷ (240 + v) ∷ []))
  unfolding unpack
  afd-Adds s v lt =
      let s1 = lib.bs_write1 s 0 in
      let s2 = lib.bs_write1 s1 1 in
      let s3 = lib.bs_write s2 6 1 in
      let s4 = lib.bs_write s3 4 15 in
      let p =
        Adds-trans lib laws s s1 s2 _ _ (laws.write1 s 0 (omega arith))
          (laws.write1 s1 1 (omega arith)) in
      let q = Adds-trans lib laws s s2 s3 _ _ p (laws.write s2 6 1 (omega arith)) in
      let t =
        Adds-trans lib laws s3 s4 (lib.bs_write s4 4 v) _ _ (laws.write s3 4 15 (omega arith))
          (laws.write s4 4 v lt) in
      Adds-trans lib laws s s3 (lib.bs_write s4 4 v) _ _ q t
      ∙ ap (λ x. laws.bits s ++ (to_bits 8 65 ++ x)) (code_bits v lt)

  afd-bytes :
      (b : ℕ)
      → lib.bytes (
          lib.bs_flush (
            lib.bs_write
              (lib.bs_write
                (lib.bs_write
                  (lib.bs_write1
                    (lib.bs_write1
                      (write_identifier lib dtg1 (write_itu_t_codes lib lib.bs_init))
                      0)
                    1)
                  6
                  1)
                4
                15)
              4
              (b / 8 % 16)))
        ≡ 181 ∷ 0 ∷ 49 ∷ 68 ∷ 84 ∷ 71 ∷ 49 ∷ 65 ∷ (240 + b / 8 % 16) ∷ []
  afd-bytes b =
      let head = write_identifier lib dtg1 (write_itu_t_codes lib lib.bs_init) in
      laws.flush _ (181 ∷ 0 ∷ 49 ∷ 68 ∷ 84 ∷ 71 ∷ 49 ∷ 65 ∷ (240 + b / 8 % 16) ∷ [])
        (literals-AllBytes (181 ∷ 0 ∷ 49 ∷ 68 ∷ 84 ∷ 71 ∷ 49 ∷ 65 ∷ []) ((240 + b / 8 % 16) ∷ [])
          refl (omega arith, tt))
        (Holds-Adds lib laws head _ (181 ∷ 0 ∷ 49 ∷ dtg1) (65 ∷ (240 + b / 8 % 16) ∷ [])
          (head-Holds lib laws dtg1 (all_bytes-AllBytes dtg1 refl))
          (afd-Adds head (b / 8 % 16) (omega arith)))

  -- Of an item with a byte at least, write_afd makes the user data of an active format, the code being four
  -- bits of the first byte; an SD frame gets the aspect ratio of the wide or narrow picture that bit 2 tells.
  write_afd-bytes :
      (u : UserItem) (f : RawFrame) (b : ℕ) (bs : List ℕ)
      → u.bytes ≡ some (b ∷ bs)
      → write_afd lib grants u f
        ≡ some (
            with_frame (if is_sd f.format then (set_sar f (b / 4 % 2)).1 else f) (
              replace_data grants
                (181 ∷ 0 ∷ 49 ∷ 68 ∷ 84 ∷ 71 ∷ 49 ∷ 65 ∷ (240 + b / 8 % 16) ∷ [])
                u))
  unfolding write_afd afd_byte write_afd_of byte_at
  write_afd-bytes u f b bs e =
      ap (λ d. afd_byte lib grants u f (byte_at d 0)) e
      ∙ ap
          (λ bytes. some (
            with_frame (if is_sd f.format then (set_sar f (b / 4 % 2)).1 else f)
              (replace_data grants bytes u)))
          (afd-bytes b)
