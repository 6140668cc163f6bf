-- ===== src/Vanc/Receive.antt =====
-- What the parsers of input/sdi/ancillary.c do with a packet of Vanc.Packets, with memory at hand.
use obe_rt.Base.{
  ℕ, ◌%◌, ◌<◌, ◌≡◌, refl, sym, ap, ◌∙◌, inl, inr, Bool, true, false, some, List, [], ◌∷◌, ◌++◌,
  length, length-map, ◌==◌, ==_iff, if◌then◌else◌, Bool-cases, arith,
}
use obe_rt.Base.Int.{ℤ, pos, eqb_ℤ, eqb_ℤ_iff}
use obe_rt.Obe.Streams.{OutputStream}
use obe_rt.Sdi.Services.{check_probed_non_display_data}
use obe_rt.Sdi.Selected.{Options}
use obe_rt.UserData.{UserItem, user_data_cea_708_cdp, user_data_afd}
use obe_rt.Vanc.{
  Vanc, get_vanc_type, misc_afd, captions_cea_708, vanc_dvb_scte_vbi, read_words, store_words,
  add_items, is_wanted, inject_708_cdp, read_cdp_words, probe_services, probed, parse_cdp,
  store_bars, read_afd, parse_afd, parse_dvb_scte_vbi,
}
use obe_rt.Vanc.Line.{state_of, dispatch}
use obe_rt.Vanc.Packets.{
  Packet, low, announce, afd_items, receive_afd, receive_cdp, receive, read_words-low,
}

one_type :
    (t : ℤ) → eqb_ℤ t (pos vanc_dvb_scte_vbi) ≡ true → eqb_ℤ t (pos captions_cea_708) ≡ true → ⊥
one_type t p q =
    let a : t ≡ pos vanc_dvb_scte_vbi = (eqb_ℤ_iff t _).0 p in
    let b : t ≡ pos captions_cea_708 = (eqb_ℤ_iff t _).0 q in cc

module _ (options : OutputStream → Options) (streams : List OutputStream) (grants : ℕ → Bool)
    (line_number : ℕ) where
  some_if :
      {A : Type 0} (b : Bool) (x y : A) → (if b then some x else some y) ≡ some (if b then x else y)
  some_if true x y = refl
  some_if false x y = refl

  -- Past probing, parse_cdp does with the low bytes of the words of a packet what inject_708_cdp does
  -- with these bytes, also where memory is refused.
  pub parse_cdp-inject_708_cdp :
      (v : Vanc) (dc : ℕ) (ws rest : List ℕ)
      → v.probe ≡ false
      → parse_cdp options streams grants line_number v (dc ∷ ws ++ rest) (length (low ws))
        ≡ some (inject_708_cdp options streams grants v (low ws))
  unfolding parse_cdp read_cdp_words inject_708_cdp store_words
  parse_cdp-inject_708_cdp v dc ws rest p =
      let words = read_words-low (length (low ws)) ws rest (length-map ws _) in
      simp (p, words, some_if) refl

  module _ (memory : (n : ℕ) → grants n ≡ true) where
    probed-announce :
        (v : Vanc) (type : ℕ) (types : List ℕ)
        → (probed grants line_number v type types).1 ≡ announce line_number v type types
    unfolding probed probe_services announce
    probed-announce v type types =
        elim (Bool-cases (check_probed_non_display_data v.frame_data type == 0)) [
          | inl new ↦ simp (new, memory) refl
          | inr met ↦ simp met refl
        ]

    inject-receive :
        (v : Vanc) (bytes : List ℕ)
        → v.probe ≡ false
        → (inject_708_cdp options streams grants v bytes).1
          ≡ receive_cdp options streams line_number v bytes
    unfolding inject_708_cdp receive_cdp
    inject-receive v bytes p =
        elim (Bool-cases (is_wanted options streams v captions_cea_708 user_data_cea_708_cdp)) [
          | inl w ↦ simp (p, w, memory) refl
          | inr w ↦ simp (p, w) refl
        ]

    cdp_probed :
        (v : Vanc) (dc : ℕ) (ws rest : List ℕ)
        → v.probe ≡ true
        → state_of
            (parse_cdp options streams grants line_number v (dc ∷ ws ++ rest) (length (low ws)))
          ≡ some (receive_cdp options streams line_number v (low ws))
    unfolding parse_cdp receive_cdp state_of
    cdp_probed v dc ws rest p = simp (p, probed-announce) refl

    parse_cdp-receive :
        (v : Vanc) (dc : ℕ) (ws rest : List ℕ)
        → state_of
            (parse_cdp options streams grants line_number v (dc ∷ ws ++ rest) (length (low ws)))
          ≡ some (receive_cdp options streams line_number v (low ws))
    unfolding state_of
    parse_cdp-receive v dc ws rest = elim (Bool-cases v.probe) [
      | inl p ↦ cdp_probed v dc ws rest p
      | inr p ↦ rw (parse_cdp-inject_708_cdp v dc ws rest p) (ap some (inject-receive v (low ws) p))
    ]

    read_afd-items :
        (stale : UserItem) (v : Vanc) (ws rest : List ℕ)
        → length ws ≡ 8
        → read_afd grants stale v (ws ++ rest) ≡ some (pos 0, add_items v (afd_items (low ws)))
    unfolding read_afd store_bars read_words afd_items
    read_afd-items stale v (a ∷ b ∷ c ∷ d ∷ e ∷ f ∷ g ∷ h ∷ []) rest l =
        rw (memory 1, memory 5) refl
    read_afd-items stale v ws rest l = absurd (omega arith)

    parse_afd-receive :
        (stale : UserItem) (v : Vanc) (dc : ℕ) (ws rest : List ℕ)
        → dc % 256 ≡ length ws
        → state_of (parse_afd options streams grants line_number stale v (dc ∷ ws ++ rest))
          ≡ some (receive_afd options streams line_number v (low ws))
    unfolding parse_afd receive_afd state_of
    parse_afd-receive stale v dc ws rest h =
        let same : length (low ws) ≡ dc % 256 = length-map ws _ ∙ sym h in
        elim (Bool-cases (dc % 256 == 8)) [
          | inr other ↦ simp (other, same) refl
          | inl eight ↦
              let l : length ws ≡ 8 = sym h ∙ (==_iff (dc % 256) 8).0 eight in
              elim (Bool-cases v.probe) [
                | inl p ↦ simp (eight, same, p, probed-announce) refl
                | inr p ↦ elim (Bool-cases (is_wanted options streams v misc_afd user_data_afd)) [
                  | inl w ↦ simp (eight, same, p, w, memory, read_afd-items stale v ws rest l) refl
                  | inr w ↦ simp (eight, same, p, w) refl
                ]
              ]
        ]

    module _ (stale : UserItem) (disable_captions : ℕ) where
      parse_dvb-same :
          (v : Vanc) (dc c : ℕ) (ws rest : List ℕ)
          → 0 < length rest
          → state_of (parse_dvb_scte_vbi v (dc ∷ ws ++ c ∷ rest)) ≡ some v
      unfolding parse_dvb_scte_vbi state_of
      parse_dvb-same v dc c [] [] h = absurd (omega arith)
      parse_dvb-same v dc c [] (r ∷ rest) h = refl
      parse_dvb-same v dc c (a ∷ []) rest h = refl
      parse_dvb-same v dc c (a ∷ b ∷ ws) rest h = refl

      pub dispatch-receive :
          (v : Vanc) (p : Packet) (c : ℕ) (rest : List ℕ)
          → p.dc % 256 ≡ length p.words
          → 0 < length rest
          → dispatch options streams grants line_number stale disable_captions v
              (get_vanc_type (p.did % 256) (p.sdid % 256))
              (p.dc ∷ p.words ++ c ∷ rest)
              (p.dc % 256)
            ≡ some (receive options streams line_number disable_captions v p)
      unfolding dispatch receive
      dispatch-receive v p c rest h more =
          let type = get_vanc_type (p.did % 256) (p.sdid % 256) in
          let n : p.dc % 256 ≡ length (low p.words) = h ∙ sym (length-map p.words _) in
          elim (Bool-cases (eqb_ℤ type (pos misc_afd))) [
            | inl afd ↦ simp (afd, parse_afd-receive stale v p.dc p.words (c ∷ rest) h) refl
            | inr not_afd ↦ elim (Bool-cases (eqb_ℤ type (pos vanc_dvb_scte_vbi))) [
              | inl vbi ↦ elim (Bool-cases (eqb_ℤ type (pos captions_cea_708))) [
                | inl cdp ↦ absurd (one_type type vbi cdp)
                | inr not_cdp ↦ elim (Bool-cases (disable_captions == 0)) [
                  | inl on ↦
                      simp (not_afd, vbi, not_cdp, on, parse_dvb-same v p.dc c p.words rest more)
                        refl
                  | inr off ↦ simp (not_afd, vbi, not_cdp, off) refl
                ]
              ]
              | inr not_vbi ↦ elim (Bool-cases (eqb_ℤ type (pos captions_cea_708))) [
                | inl cdp ↦ elim (Bool-cases (disable_captions == 0)) [
                  | inl on ↦
                      simp
                        (not_afd, not_vbi, cdp, on, n, parse_cdp-receive v p.dc p.words (c ∷ rest))
                        refl
                  | inr off ↦ simp (not_afd, not_vbi, cdp, off) refl
                ]
                | inr not_cdp ↦ simp (not_afd, not_vbi, not_cdp) refl
              ]
            ]
          ]
