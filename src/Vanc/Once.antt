-- ===== src/Vanc/Once.antt =====
-- `parse_vanc_line` adds no service and no user data twice.
use obe_rt.Base.{
  ℕ, ◌+◌, ◌*◌, ◌%◌, ◌≡◌, ◌≢◌, subst, Bool, Option, none, some, List, [], ◌∷◌, length, drop, ◌==◌,
  if_elim, arith,
}
use obe_rt.Base.Int.{ℤ, pos, eqb_ℤ}
use obe_rt.Obe.Streams.{OutputStream}
use obe_rt.Sdi.Selected.{Options}
use obe_rt.UserData.{UserItem, user_data_cea_708_cdp, user_data_afd, user_data_bar_data}
use obe_rt.Vanc.{
  Vanc, size_of_item, misc_afd, misc_bar_data, captions_cea_708, vanc_dvb_scte_vbi, read_words,
  store_words, item_of, is_wanted, read_cdp_words, probed, parse_cdp, store_bars, read_afd,
  parse_afd, parse_dvb_scte_vbi,
}
use obe_rt.Vanc.Keeps.{Holds, scan-Holds}
use obe_rt.Vanc.Line.{state_of, dispatch, set_probed, parse_vanc_line}
use obe_rt.Vanc.Counts.{
  count, item_types, Once, wanted_none, cdp-Once, afd-Once, services-Once, probed-Once,
}

probed_cdp-Once :
    (grants : ℕ → Bool) (line_number : ℕ) (v : Vanc)
    → Once v
    → Once (probed grants line_number v captions_cea_708 (captions_cea_708 ∷ [])).1
unfolding Once count
probed_cdp-Once grants line_number v (a, b, c, d) =
    probed-Once grants line_number v captions_cea_708 (captions_cea_708 ∷ [])
      (λ free.
        services-Once v line_number (captions_cea_708 ∷ []) (omega (arith, free)) (omega (arith, d))
          (a, b, c, d))
      (a, b, c, d)

probed_afd-Once :
    (grants : ℕ → Bool) (line_number : ℕ) (v : Vanc)
    → Once v
    → Once (probed grants line_number v misc_afd (misc_afd ∷ misc_bar_data ∷ [])).1
unfolding Once count
probed_afd-Once grants line_number v (a, b, c, d) =
    probed-Once grants line_number v misc_afd (misc_afd ∷ misc_bar_data ∷ [])
      (λ free.
        services-Once v line_number (misc_afd ∷ misc_bar_data ∷ []) (omega (arith, c))
          (omega (arith, free)) (a, b, c, d))
      (a, b, c, d)

abbrev Keeps : Option (ℤ × Vanc) → Type 0
Keeps o = Holds Once (state_of o)

store_cdp-Keeps :
    (v : Vanc) (len : ℕ) (o : Option (List ℕ))
    → count user_data_cea_708_cdp (item_types v) ≡ 0
    → Once v
    → Keeps (store_words v user_data_cea_708_cdp len o)
unfolding store_words state_of
store_cdp-Keeps v len none free h = tt
store_cdp-Keeps v len (some bytes) free h = cdp-Once v (some bytes) len free h

store_bars-Keeps :
    (v : Vanc) (afd : ℕ) (o : Option (List ℕ))
    → count user_data_afd (item_types v) ≡ 0
    → Once v
    → Keeps (store_bars v afd o)
unfolding store_bars state_of item_of
store_bars-Keeps v afd none free h = tt
store_bars-Keeps v afd (some bars) free h =
    afd-Once v (some (afd ∷ [])) (item_of user_data_bar_data 5 (some bars))
      (λ e. absurd (omega (arith, e))) (λ e. absurd (omega (arith, e))) free h

module _ (options : OutputStream → Options) (streams : List OutputStream) (grants : ℕ → Bool)
    (line_number : ℕ) (stale : UserItem) (no_cdp : stale.type ≢ user_data_cea_708_cdp)
    (no_afd : stale.type ≢ user_data_afd) where
  parse_cdp-Keeps :
      (v : Vanc) (line : List ℕ) (len : ℕ)
      → Once v
      → Keeps (parse_cdp options streams grants line_number v line len)
  unfolding parse_cdp read_cdp_words state_of
  parse_cdp-Keeps v line len h =
      if_elim Keeps v.probe (λ p. probed_cdp-Once grants line_number v h)
        (λ p.
          if_elim Keeps (is_wanted options streams v captions_cea_708 user_data_cea_708_cdp)
            (λ w.
              let free = wanted_none options streams v _ _ w in
              if_elim Keeps (grants ((length v.user_data + 1) * size_of_item))
                (λ q.
                  if_elim Keeps (grants len)
                    (λ r. store_cdp-Keeps v len (read_words len (drop 1 line)) free h)
                    (λ r. cdp-Once v none len free h))
                (λ q. h))
            (λ w. h))

  read_afd-Keeps :
      (v : Vanc) (line : List ℕ)
      → count user_data_afd (item_types v) ≡ 0
      → Once v
      → Keeps (read_afd grants stale v line)
  unfolding read_afd state_of item_of
  read_afd-Keeps v [] free h =
      if_elim Keeps (grants 1) (λ p. tt) (λ p. afd-Once v none stale no_cdp no_afd free h)
  read_afd-Keeps v (w ∷ line) free h =
      if_elim Keeps (grants 1)
        (λ p.
          if_elim Keeps (grants 5)
            (λ q. store_bars-Keeps v (w % 256) (read_words 5 (drop 1 line)) free h)
            (λ q.
              afd-Once v (some (w % 256 ∷ [])) (item_of user_data_bar_data 5 none)
                (λ e. absurd (omega (arith, e))) (λ e. absurd (omega (arith, e))) free h))
        (λ p. afd-Once v none stale no_cdp no_afd free h)

  parse_afd-Keeps :
      (v : Vanc) (line : List ℕ)
      → Once v
      → Keeps (parse_afd options streams grants line_number stale v line)
  unfolding parse_afd state_of
  parse_afd-Keeps v [] h = tt
  parse_afd-Keeps v (dc ∷ line) h =
      if_elim Keeps (dc % 256 == 8)
        (λ eight.
          if_elim Keeps v.probe (λ p. probed_afd-Once grants line_number v h)
            (λ p.
              if_elim Keeps (is_wanted options streams v misc_afd user_data_afd)
                (λ w.
                  if_elim Keeps (grants ((length v.user_data + 2) * size_of_item))
                    (λ q. read_afd-Keeps v line (wanted_none options streams v _ _ w) h) (λ q. h))
                (λ w. h)))
        (λ other. h)

  parse_dvb-Keeps : (v : Vanc) (line : List ℕ) → Once v → Keeps (parse_dvb_scte_vbi v line)
  unfolding parse_dvb_scte_vbi state_of
  parse_dvb-Keeps v [] h = tt
  parse_dvb-Keeps v (a ∷ []) h = tt
  parse_dvb-Keeps v (a ∷ b ∷ []) h = tt
  parse_dvb-Keeps v (a ∷ b ∷ c ∷ line) h = h

  dispatch-Keeps :
      (disable_captions : ℕ) (v : Vanc) (type : ℤ) (line : List ℕ) (len : ℕ)
      → Once v
      → Holds Once
          (dispatch options streams grants line_number stale disable_captions v type line len)
  unfolding dispatch
  dispatch-Keeps disable_captions v type line len h =
      if_elim (Holds Once) (eqb_ℤ type (pos misc_afd)) (λ p. parse_afd-Keeps v line h)
        (λ p.
          if_elim (Holds Once) (eqb_ℤ type (pos vanc_dvb_scte_vbi))
            (λ q.
              if_elim (Holds Once) (disable_captions == 0) (λ r. parse_dvb-Keeps v line h) (λ r. h))
            (λ q.
              if_elim (Holds Once) (eqb_ℤ type (pos captions_cea_708))
                (λ r.
                  if_elim (Holds Once) (disable_captions == 0) (λ t. parse_cdp-Keeps v line len h)
                    (λ t. h))
                (λ r. h)))

  set_probed-Holds : (o : Option Vanc) → Holds Once o → Holds Once (set_probed o)
  unfolding set_probed Once
  set_probed-Holds none h = tt
  set_probed-Holds (some v) h = if_elim (Holds Once) v.probe (λ p. h) (λ p. h)

  -- Whatever the words of the line are and wherever memory runs out: if the captions and the active format
  -- stand at most once among the services and among the user data before, so they do after, as long as
  -- what fresh memory holds is no item of one of the two types.
  pub parse_vanc_line-Once :
      (disable_captions : ℕ) (v : Vanc) (line : List ℕ) (width : ℕ) (w : Vanc)
      → Once v
      → parse_vanc_line options streams grants line_number stale disable_captions v line width
        ≡ some w
      → Once w
  unfolding parse_vanc_line
  parse_vanc_line-Once disable_captions v line width w h e = subst (Holds Once) e (
      set_probed-Holds _ (
        scan-Holds Once options streams grants line_number stale disable_captions
          (dispatch-Keeps disable_captions) (2 * width + 1) (2 * width) 0 line v h))
