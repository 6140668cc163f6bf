-- ===== src/UserData/Caption/Told.antt =====
-- How the writers of captions return.
use obe_rt.Base.{ℕ, inl, refl, Bool, List, Option, none, some, if_elim, ◌==◌}
use obe_rt.UserData.{UserItem, RawFrame, BitWriter}
use obe_rt.UserData.Told.{Told, ToldBy, replace_data-Told}
use obe_rt.UserData.Caption.{find_cc_count, cc_timecode, end_608, write_608_cc, write_708_cc}

module _ {S : Type 0} (lib : BitWriter S) (grants : ℕ → Bool) where
  pub write_708_cc-Told :
      (u : UserItem) (start : List ℕ) (c : ℕ) → Told (write_708_cc lib grants u start c)
  unfolding write_708_cc
  write_708_cc-Told u start c = replace_data-Told grants _ u

  end_608-Told : (u : UserItem) (q : Option S) → ToldBy (end_608 lib grants u q)
  unfolding end_608 ToldBy
  end_608-Told u none = tt
  end_608-Told u (some s) = replace_data-Told grants _ u

  pub write_608_cc-Told : (u : UserItem) (f : RawFrame) → ToldBy (write_608_cc lib grants u f)
  unfolding write_608_cc ToldBy Told
  write_608_cc-Told u f =
      if_elim ToldBy (find_cc_count f 0 cc_timecode == 0) (λ z. inl refl) (λ p. end_608-Told u _)
