-- ===== src/UserData/Items/Bars.antt =====
-- What is written for bars, byte by byte.
use obe_rt.Base.{
  ℕ, zero, suc, Bool, ◌+◌, ◌*◌, ◌/◌, ◌%◌, ◌<◌, ◌≡◌, refl, sym, ap, ◌∙◌, some, List, [], ◌∷◌, ◌++◌,
  append_assoc, append-nil, length, arith,
}
use obe_rt.UserData.{UserItem, BitWriter, replace_data, write_identifier, write_itu_t_codes}
use obe_rt.UserData.Bits.{
  head-Holds, all_bytes-AllBytes, literals-AllBytes, to_bits, unpack, AllBytes, AllBytes-append,
  AllBytes-parts, WriterLaws, Holds, Adds, Adds-trans, Holds-Adds, write_byte,
}
use obe_rt.UserData.Caption.{ga94}
use obe_rt.UserData.Items.{write_element, end_bars, bars_of, write_bar_data}

flag_bits :
    (b : ℕ)
    → b < 256
    → to_bits 1 (b / 128)
        ++ to_bits 1 (b / 64 % 2)
        ++ to_bits 1 (b / 32 % 2)
        ++ to_bits 1 (b / 16 % 2)
        ++ to_bits 4 15
      ≡ to_bits 8 (b / 16 * 16 + 15)
flag_bits b lt =
    let same₀ : 1 ≡ (b / 16 * 16 + 15) / 1 % 2 = omega arith in
    let same₁ : 1 ≡ (b / 16 * 16 + 15) / 2 % 2 = omega arith in
    let same₂ : 1 ≡ (b / 16 * 16 + 15) / 4 % 2 = omega arith in
    let same₃ : 1 ≡ (b / 16 * 16 + 15) / 8 % 2 = omega arith in
    let same₄ : b / 16 % 2 / 1 % 2 ≡ (b / 16 * 16 + 15) / 16 % 2 = omega arith in
    let same₅ : b / 32 % 2 / 1 % 2 ≡ (b / 16 * 16 + 15) / 32 % 2 = omega arith in
    let same₆ : b / 64 % 2 / 1 % 2 ≡ (b / 16 * 16 + 15) / 64 % 2 = omega arith in
    let same₇ : b / 128 / 1 % 2 ≡ (b / 16 * 16 + 15) / 128 % 2 = omega arith in cc

module _ {S : Type 0} (lib : BitWriter S) (laws : WriterLaws lib) (grants : ℕ → Bool) where
  -- The bytes of a flag that is set are written.
  write_element-Holds :
      (x : ℕ) (r : S) (bs xs rest : List ℕ)
      → x < 2
      → length xs ≡ 2 * x
      → AllBytes xs
      → Holds lib laws r bs
      → (r' : S) × (write_element lib grants x (some (r, xs ++ rest)) ≡ some (r', rest))
        × Holds lib laws r' (bs ++ xs)
  unfolding write_element
  write_element-Holds zero r bs [] rest lt l p h = (r, refl, h ∙ ap unpack (sym (append-nil bs)))
  write_element-Holds zero r bs (x ∷ xs) rest lt l p h = absurd (omega (arith, l))
  write_element-Holds (suc zero) r bs [] rest lt l p h = absurd (omega (arith, l))
  write_element-Holds (suc zero) r bs (x ∷ []) rest lt l p h = absurd (omega (arith, l))
  write_element-Holds (suc zero) r bs (x ∷ y ∷ []) rest lt l (p, (q, w)) h = (
    _,
    refl,
    write_byte lib laws (lib.bs_write r 8 x) (bs ++ x ∷ []) y q (write_byte lib laws r bs x p h)
        ∙ ap unpack (append_assoc bs (x ∷ []) (y ∷ [])),
  )
  write_element-Holds (suc zero) r bs (x ∷ y ∷ z ∷ xs) rest lt l p h = absurd (omega (arith, l))
  write_element-Holds (suc (suc x)) r bs xs rest lt l p h = absurd (omega arith)

  flags-Adds :
      (s : S) (b : ℕ)
      → b < 256
      → Adds lib laws s
          (lib.bs_write
            (lib.bs_write1
              (lib.bs_write1 (lib.bs_write1 (lib.bs_write1 s (b / 128)) (b / 64 % 2)) (b / 32 % 2))
              (b / 16 % 2))
            4
            15)
          (unpack ((b / 16 * 16 + 15) ∷ []))
  unfolding unpack
  flags-Adds s b lt =
      let s1 = lib.bs_write1 s (b / 128) in
      let s2 = lib.bs_write1 s1 (b / 64 % 2) in
      let s3 = lib.bs_write1 s2 (b / 32 % 2) in
      let s4 = lib.bs_write1 s3 (b / 16 % 2) in
      let p =
        Adds-trans lib laws s s1 s2 _ _ (laws.write1 s (b / 128) (omega arith))
          (laws.write1 s1 (b / 64 % 2) (omega arith)) in
      let q = Adds-trans lib laws s s2 s3 _ _ p (laws.write1 s2 (b / 32 % 2) (omega arith)) in
      let t = Adds-trans lib laws s s3 s4 _ _ q (laws.write1 s3 (b / 16 % 2) (omega arith)) in
      Adds-trans lib laws s s4 (lib.bs_write s4 4 15) _ _ t (laws.write s4 4 15 (omega arith))
      ∙ ap (λ x. laws.bits s ++ x) (flag_bits b lt)

  -- Of bar data with two bytes for each flag that is set in the first byte, write_bar_data makes the user data
  -- with these flags and bytes, in the order of top, bottom, left and right bar.
  pub write_bar_data-bytes :
      (u : UserItem) (b : ℕ) (ts os ls rs rest : List ℕ)
      → u.bytes ≡ some (b ∷ (ts ++ (os ++ (ls ++ (rs ++ rest)))))
      → b < 256
      → AllBytes (ts ++ (os ++ (ls ++ rs)))
      → length ts ≡ 2 * (b / 128)
      → length os ≡ 2 * (b / 64 % 2)
      → length ls ≡ 2 * (b / 32 % 2)
      → length rs ≡ 2 * (b / 16 % 2)
      → write_bar_data lib grants u
        ≡ some (
            replace_data grants
              (181
                ∷ 0
                ∷ 49
                ∷ 71
                ∷ 65
                ∷ 57
                ∷ 52
                ∷ 6
                ∷ (b / 16 * 16 + 15)
                ∷ (ts ++ (os ++ (ls ++ rs))))
              u)
  unfolding write_bar_data bars_of end_bars
  write_bar_data-bytes u b ts os ls rs rest e lt p lt₁ lo ll lr =
      let head = lib.bs_write (write_identifier lib ga94 (write_itu_t_codes lib lib.bs_init)) 8 6 in
      let start = 181 ∷ 0 ∷ 49 ∷ 71 ∷ 65 ∷ 57 ∷ 52 ∷ 6 ∷ (b / 16 * 16 + 15) ∷ [] in
      let begun =
        write_byte lib laws _ (181 ∷ 0 ∷ 49 ∷ ga94) 6 (omega arith)
          (head-Holds lib laws ga94 (all_bytes-AllBytes ga94 refl)) in
      let h =
        Holds-Adds lib laws head _ (181 ∷ 0 ∷ 49 ∷ 71 ∷ 65 ∷ 57 ∷ 52 ∷ 6 ∷ [])
          ((b / 16 * 16 + 15) ∷ []) begun (flags-Adds head b lt) in
      let (pt, p₁) = AllBytes-parts ts (os ++ (ls ++ rs)) p in
      let (po, p₂) = AllBytes-parts os (ls ++ rs) p₁ in
      let (pl, pr) = AllBytes-parts ls rs p₂ in
      let (r₁, e₁, h₁) =
        write_element-Holds (b / 128) _ start ts (os ++ (ls ++ (rs ++ rest))) (omega arith) lt₁ pt
          h in
      let (r₂, e₂, h₂) =
        write_element-Holds (b / 64 % 2) r₁ (start ++ ts) os (ls ++ (rs ++ rest)) (omega arith) lo
          po h₁ in
      let (r₃, e₃, h₃) =
        write_element-Holds (b / 32 % 2) r₂ ((start ++ ts) ++ os) ls (rs ++ rest) (omega arith) ll
          pl h₂ in
      let (r₄, e₄, h₄) =
        write_element-Holds (b / 16 % 2) r₃ (((start ++ ts) ++ os) ++ ls) rs rest (omega arith) lr
          pr h₃ in
      let nested : ((((start ++ ts) ++ os) ++ ls) ++ rs) ≡ start ++ (ts ++ (os ++ (ls ++ rs))) =
        append_assoc ((start ++ ts) ++ os) ls rs
        ∙ append_assoc (start ++ ts) os (ls ++ rs)
        ∙ append_assoc start ts (os ++ (ls ++ rs)) in
      ap (bars_of lib grants u) e
      ∙ ap
          (λ w. end_bars lib grants u (
            write_element lib grants (b / 16 % 2)
              (write_element lib grants (b / 32 % 2) (write_element lib grants (b / 64 % 2) w))))
          e₁
      ∙ ap
          (λ w.
            end_bars lib grants u
              (write_element lib grants (b / 16 % 2) (write_element lib grants (b / 32 % 2) w)))
          e₂
      ∙ ap (λ w. end_bars lib grants u (write_element lib grants (b / 16 % 2) w)) e₃
      ∙ ap (end_bars lib grants u) e₄
      ∙ ap (λ bytes. some (replace_data grants bytes u))
          (laws.flush r₄ (start ++ (ts ++ (os ++ (ls ++ rs))))
            (AllBytes-append start (ts ++ (os ++ (ls ++ rs)))
              (literals-AllBytes (181 ∷ 0 ∷ 49 ∷ 71 ∷ 65 ∷ 57 ∷ 52 ∷ 6 ∷ [])
                ((b / 16 * 16 + 15) ∷ []) refl (omega arith, tt))
              p)
            (h₄ ∙ ap unpack nested))
