-- ===== src/UserData/Cdp/Told.antt =====
-- How read_cdp returns.
use obe_rt.Base.{
  ℕ, ◌+◌, ◌*◌, inl, inr, refl, Bool, not, List, Option, none, some, length, if_elim, ◌==◌, leb,
}
use obe_rt.UserData.{UserItem, BitWriter, BitReader}
use obe_rt.UserData.Told.{Told, ToldBy}
use obe_rt.UserData.Caption.Told.{write_708_cc-Told}
use obe_rt.UserData.Cdp.{Captions, checks, with_captions, read_bytes, read_pointer, read_cdp}

module _ {R : Type 0} (reader : BitReader R) {S : Type 0} (lib : BitWriter S)
    (grants : ℕ → Bool) where
  with_captions-Told :
      (u : UserItem) (bytes : List ℕ) (c : Option Captions)
      → ToldBy (with_captions reader lib grants u bytes c)
  unfolding with_captions ToldBy Told
  with_captions-Told u bytes none = tt
  with_captions-Told u bytes (some c) =
      if_elim ToldBy (c.cc_count == 0) (λ z. inr (inl refl))
        (λ p.
          if_elim ToldBy (leb (c.start + c.cc_count * 3) (length bytes))
            (λ l. write_708_cc-Told lib grants u _ c.cc_count) (λ l. tt))

  read_pointer-Told :
      (u : UserItem) (d : Option (List ℕ)) → ToldBy (read_pointer reader lib grants u d)
  unfolding read_pointer read_bytes ToldBy Told
  read_pointer-Told u none = tt
  read_pointer-Told u (some bytes) =
      if_elim ToldBy (not ((reader.bs_read (reader.bs_read_init bytes) 16).0 == 38505))
        (λ w. inr (inl refl))
        (λ r.
          if_elim ToldBy (not (checks bytes)) (λ w. inr (inl refl))
            (λ r. with_captions-Told u bytes _))

  pub read_cdp-Told : (u : UserItem) → ToldBy (read_cdp reader lib grants u)
  unfolding read_cdp
  read_cdp-Told u = read_pointer-Told u u.bytes
