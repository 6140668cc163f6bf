-- ===== src/UserData/Items/Loop.antt =====
-- The loop over the user data of a frame.
use obe_rt.Base.{
  ℕ, ◌≤◌, ◌≡◌, ◌≢◌, ◌⊎◌, inl, inr, refl, sym, ap, ◌∙◌, subst, Bool, true, false, Option, none, some,
  List, [], ◌∷◌, length, arith, ◌==◌, if_elim,
}
use obe_rt.Base.Int.{ℤ, pos, negsuc, ltb_ℤ, eqb_ℤ, eqb_ℤ_iff}
use obe_rt.UserData.{
  UserItem, RawFrame, BitWriter, BitReader, user_data_avc_registered_itu_t35, user_data_cea_608,
  user_data_cea_708_cdp, user_data_afd, user_data_bar_data, user_data_wss,
}
use obe_rt.UserData.Told.{Told, ToldBy, replace_data-Told}
use obe_rt.UserData.Caption.Told.{write_608_cc-Told}
use obe_rt.UserData.Cdp.Told.{read_cdp-Told}
use obe_rt.UserData.Items.{
  Result, with_frame, on_frame, write_afd_of, afd_byte, write_afd, end_bars, bars_of,
  write_bar_data, wss_entry, wss_of, convert_wss_to_afd, encapsulate, Encapsulated, keep_item,
  after_item, encapsulate_items, encapsulate_user_data,
}

true≢false : true ≢ false
true≢false e = cc

-- The types that are encapsulated.
unfoldable pub Raw : UserItem → Type 0
Raw u = (64 ≤ u.type) × (u.type ≤ 68)

unfoldable pub AllRaw : List UserItem → Type 0
AllRaw [] = Unit
AllRaw (u ∷ us) = Raw u × AllRaw us

-- Every item is for the encoder.
pub AllRegistered : List UserItem → Type 0
AllRegistered [] = Unit
AllRegistered (u ∷ us) = (u.type ≡ user_data_avc_registered_itu_t35) × AllRegistered us

module _ {S : Type 0} (lib : BitWriter S) (grants : ℕ → Bool) {R : Type 0}
    (reader : BitReader R) where
  ToldOn : Option Result → Type 0
  ToldOn none = Unit
  ToldOn (some r) = Told (r.ret, r.item)

  on_frame-Told : (f : RawFrame) (p : Option (ℤ × UserItem)) → ToldBy p → ToldOn (on_frame f p)
  unfolding on_frame with_frame ToldBy ToldOn
  on_frame-Told f none t = tt
  on_frame-Told f (some (ret, u)) t = t

  end_bars-Told : (u : UserItem) (w : Option (S × List ℕ)) → ToldBy (end_bars lib grants u w)
  unfolding end_bars ToldBy
  end_bars-Told u none = tt
  end_bars-Told u (some (r, position)) = replace_data-Told grants _ u

  bars_of-Told : (u : UserItem) (d : Option (List ℕ)) → ToldBy (bars_of lib grants u d)
  unfolding bars_of ToldBy
  bars_of-Told u none = tt
  bars_of-Told u (some []) = tt
  bars_of-Told u (some (b ∷ position)) = end_bars-Told u _

  write_bar_data-Told : (u : UserItem) → ToldBy (write_bar_data lib grants u)
  unfolding write_bar_data
  write_bar_data-Told u = bars_of-Told u u.bytes

  afd_byte-Told : (u : UserItem) (f : RawFrame) (b : Option ℕ) → ToldOn (afd_byte lib grants u f b)
  unfolding afd_byte write_afd_of with_frame ToldOn
  afd_byte-Told u f none = tt
  afd_byte-Told u f (some b) = replace_data-Told grants _ u

  write_afd-Told : (u : UserItem) (f : RawFrame) → ToldOn (write_afd lib grants u f)
  unfolding write_afd
  write_afd-Told u f = afd_byte-Told u f _

  wss_entry-Told :
      (u : UserItem) (f : RawFrame) (bytes : List ℕ) (e : Option (ℕ × ℕ))
      → ToldOn (wss_entry lib grants u f bytes e)
  unfolding wss_entry ToldOn
  wss_entry-Told u f bytes none = tt
  wss_entry-Told u f bytes (some (code, wide)) = write_afd-Told _ f

  wss_of-Told :
      (u : UserItem) (f : RawFrame) (d : Option (List ℕ)) → ToldOn (wss_of lib grants u f d)
  unfolding wss_of ToldOn
  wss_of-Told u f none = tt
  wss_of-Told u f (some []) = tt
  wss_of-Told u f (some (b ∷ bytes)) = wss_entry-Told u f (b ∷ bytes) _

  convert_wss_to_afd-Told :
      (u : UserItem) (f : RawFrame) → ToldOn (convert_wss_to_afd lib grants u f)
  unfolding convert_wss_to_afd
  convert_wss_to_afd-Told u f = wss_of-Told u f u.bytes

  encapsulate-Told :
      (ret : ℤ) (u : UserItem) (f : RawFrame)
      → Raw u
      → ToldOn (encapsulate lib grants reader ret u f)
  unfolding encapsulate Raw
  encapsulate-Told ret u f (low, high) =
      if_elim ToldOn (u.type == user_data_cea_608)
        (λ h. on_frame-Told f _ (write_608_cc-Told lib grants u f))
        (λ h₁.
          if_elim ToldOn (u.type == user_data_cea_708_cdp)
            (λ h. on_frame-Told f _ (read_cdp-Told reader lib grants u))
            (λ h₂.
              if_elim ToldOn (u.type == user_data_afd) (λ h. write_afd-Told u f)
                (λ h₃.
                  if_elim ToldOn (u.type == user_data_bar_data)
                    (λ h. on_frame-Told f _ (write_bar_data-Told u))
                    (λ h₄.
                      if_elim ToldOn (u.type == user_data_wss) (λ h. convert_wss_to_afd-Told u f)
                        (λ h₅. absurd (ground arith))))))

  -- What the loop owes the items that it has not passed.
  Done : List UserItem → Option (Encapsulated lib grants reader) → Type 0
  Done us none = Unit
  Done us (some e) =
      (length e.items ≤ length us)
      × ((e.status ≡ negsuc 0)
          ⊎ (((e.status ≡ pos 1) ⊎ (e.status ≡ pos 0)) × AllRegistered e.items))

  keep-Done :
      (us : List UserItem) (u i : UserItem) (e : Option (Encapsulated lib grants reader))
      → i.type ≡ user_data_avc_registered_itu_t35
      → Done us e
      → Done (u ∷ us) (keep_item lib grants reader i e)
  unfolding Done AllRegistered
  keep-Done us u i none t d = tt
  keep-Done us u i (some e) t (l, inl failed) = (omega (arith, l), inl failed)
  keep-Done us u i (some e) t (l, inr (ok, all)) = (omega (arith, l), inr (ok, (t, all)))

  more-Done :
      (us : List UserItem) (u : UserItem) (e : Option (Encapsulated lib grants reader))
      → Done us e
      → Done (u ∷ us) e
  unfolding Done
  more-Done us u none d = tt
  more-Done us u (some e) (l, d) = (omega (arith, l), d)

  after_item-Done :
      (u : UserItem) (us : List UserItem)
      (rest : ℤ → RawFrame → Option (Encapsulated lib grants reader)) (r : Option Result)
      → ToldOn r
      → ((ret : ℤ) (f : RawFrame) → (ret ≡ pos 1) ⊎ (ret ≡ pos 0) → Done us (rest ret f))
      → Done (u ∷ us) (after_item lib grants reader us rest r)
  unfolding after_item ToldOn Told Done
  after_item-Done u us rest none t d = tt
  after_item-Done u us rest (some r) t d =
      if_elim (Done (u ∷ us)) (ltb_ℤ r.ret (pos 0))
        (λ neg. (
          omega arith,
          inl (elim t [
            | inl failed ↦ failed
            | inr (inl one) ↦ absurd (true≢false (sym neg ∙ ap (λ k. ltb_ℤ k (pos 0)) one))
            | inr (inr (zero_, typed)) ↦
                absurd (true≢false (sym neg ∙ ap (λ k. ltb_ℤ k (pos 0)) zero_))
          ]),
        ))
        (λ ok.
          if_elim (Done (u ∷ us)) (eqb_ℤ r.ret (pos 1))
            (λ one. more-Done us u _ (d r.ret r.frame (inl ((eqb_ℤ_iff r.ret (pos 1)).0 one))))
            (λ other. elim t [
              | inl failed ↦ absurd (true≢false (sym (ap (λ k. ltb_ℤ k (pos 0)) failed) ∙ ok))
              | inr (inl one) ↦ absurd (true≢false (sym (ap (λ k. eqb_ℤ k (pos 1)) one) ∙ other))
              | inr (inr (zero_, typed)) ↦
                  keep-Done us u r.item _ typed (d r.ret r.frame (inr zero_))
            ]))

  encapsulate_items-Done :
      (ret : ℤ) (us : List UserItem) (f : RawFrame)
      → (ret ≡ pos 1) ⊎ (ret ≡ pos 0)
      → AllRaw us
      → Done us (encapsulate_items lib grants reader ret us f)
  unfolding encapsulate_items Done AllRaw AllRegistered
  encapsulate_items-Done ret [] f r raw = (omega arith, inr (r, tt))
  encapsulate_items-Done ret (u ∷ us) f r (raw, raws) =
      after_item-Done u us _ (encapsulate lib grants reader ret u f) (encapsulate-Told ret u f raw)
        (λ ret' f' r'. encapsulate_items-Done ret' us f' r' raws)

  -- When every item of a frame is of a type that is encapsulated and no read is out of bounds,
  -- encapsulate_user_data leaves no more items than there were, and unless it returns -1 it returns 0 or 1
  -- and every item that is left is one for the encoder.
  pub encapsulate_user_data-AllRegistered :
      (f : RawFrame) (e : Encapsulated lib grants reader)
      → AllRaw f.user_data
      → encapsulate_user_data lib grants reader f ≡ some e
      → (length e.items ≤ length f.user_data)
        × ((e.status ≡ negsuc 0)
            ⊎ (((e.status ≡ pos 1) ⊎ (e.status ≡ pos 0)) × AllRegistered e.items))
  unfolding encapsulate_user_data Done
  encapsulate_user_data-AllRegistered f e raw is =
      subst (Done f.user_data) is (encapsulate_items-Done (pos 0) f.user_data f (inr refl) raw)
