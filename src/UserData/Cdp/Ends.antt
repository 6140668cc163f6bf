-- ===== src/UserData/Cdp/Ends.antt =====
-- The loop of read_cdp ends on any bytes.
use obe_rt.Base.{
  ℕ, zero, suc, ◌≤◌, ◌<◌, ◌≡◌, ◌∙◌, some, List, [], ◌∷◌, length, arith, Bool-cases, if_elim,
  if_true, if_false, ◌==◌, ◌%◌, inl, inr,
}
use obe_rt.UserData.{BitReader}
use obe_rt.UserData.Bits.{ReaderProgress}
use obe_rt.UserData.Cdp.{
  Captions, cdp_header, skip_all, skip_times, read_tc, read_cc_data, read_svc_info, read_future,
  read_section, read_sections, read_captions,
}

module _ {R : Type 0} (reader : BitReader R) (progress : ReaderProgress reader) where
  skip_all-measure :
      (widths : List ℕ) (s : R) → progress.measure (skip_all reader widths s) ≤ progress.measure s
  unfolding skip_all
  skip_all-measure [] s = omega arith
  skip_all-measure (w ∷ widths) s =
      omega (arith, skip_all-measure widths (reader.bs_skip s w), progress.skips s w)

  skip_times-measure :
      (n : ℕ) (widths : List ℕ) (s : R)
      → progress.measure (skip_times reader n widths s) ≤ progress.measure s
  unfolding skip_times
  skip_times-measure zero widths s = omega arith
  skip_times-measure (suc n) widths s =
      omega
        (arith, skip_times-measure n widths (skip_all reader widths s), skip_all-measure widths s)

  read_section-measure :
      (id : ℕ) (c : Captions) (s : R)
      → progress.measure (read_section reader id (c, s)).1 ≤ progress.measure s
  unfolding read_section read_tc read_cc_data read_svc_info read_future
  read_section-measure id c s =
      let Fewer : Captions × R → Type 0 = λ p. progress.measure p.1 ≤ progress.measure s in
      if_elim Fewer (id == 113) (λ h. skip_all-measure _ s)
        (λ h₁.
          if_elim Fewer (id == 114)
            (λ h. omega (
              arith,
              skip_times-measure ((reader.bs_read s 8).0 % 32) (5 ∷ 1 ∷ 2 ∷ 8 ∷ 8 ∷ [])
                  (reader.bs_read s 8).1,
              progress.reads s 8,
            ))
            (λ h₂.
              if_elim Fewer (id == 115)
                (λ h.
                  let t = skip_all reader (1 ∷ 1 ∷ 1 ∷ 1 ∷ []) s in
                  omega (
                    arith,
                    skip_times-measure (reader.bs_read t 4).0
                        (1 ∷ 1 ∷ 6 ∷ 8 ∷ 8 ∷ 8 ∷ 8 ∷ 8 ∷ 8 ∷ []) (reader.bs_read t 4).1,
                    progress.reads t 4,
                    skip_all-measure (1 ∷ 1 ∷ 1 ∷ 1 ∷ []) s,
                  ))
                (λ h₃. omega (
                  arith,
                  skip_times-measure (reader.bs_read s 8).0 (8 ∷ []) (reader.bs_read s 8).1,
                  progress.reads s 8,
                ))))

  read_sections-ends :
      (fuel : ℕ) (c : Captions) (s : R)
      → progress.measure s < fuel
      → (c' : Captions) × (read_sections reader fuel c s ≡ some c')
  unfolding read_sections
  read_sections-ends zero c s lt = absurd (omega arith)
  read_sections-ends (suc fuel) c s lt =
      let (id, after) = reader.bs_read s 8 in
      let (c', s') = read_section reader id (c, after) in
      elim (Bool-cases (reader.bs_read_eof s)) [
        | inl eof ↦ (c, if_true (reader.bs_read_eof s) _ _ eof)
        | inr more ↦ elim (Bool-cases (id == 116)) [
          | inl foot ↦ (c, if_false (reader.bs_read_eof s) _ _ more ∙ if_true (id == 116) _ _ foot)
          | inr other ↦
              let (c₂, e) =
                read_sections-ends fuel c' s'
                  (omega (arith, progress.reads_on s more, read_section-measure id c after)) in
              (c₂, if_false (reader.bs_read_eof s) _ _ more ∙ if_false (id == 116) _ _ other ∙ e)
        ]
      ]

  -- Whatever the bytes of a packet are, the loop over its sections ends within one round more than there are
  -- bytes.
  pub read_captions-ends :
      (bytes : List ℕ)
      → (c : Captions) × (read_captions reader bytes
            (reader.bs_read (reader.bs_read_init bytes) 16).1
          ≡ some c)
  unfolding read_captions
  read_captions-ends bytes =
      let s = (reader.bs_read (reader.bs_read_init bytes) 16).1 in
      read_sections-ends (suc (length bytes)) (record { start = 0; cc_count = 0 })
        (skip_all reader (cdp_header reader) s)
        (omega (
          arith,
          skip_all-measure (cdp_header reader) s,
          progress.reads (reader.bs_read_init bytes) 16,
          progress.starts bytes,
        ))
