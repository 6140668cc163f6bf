-- ===== src/UserData/Caption/Write.antt =====
-- What the writers of captions write, byte by byte.
use obe_rt.Base.{
  ℕ, suc, ◌+◌, ◌<◌, ◌≡◌, ◌⊎◌, inl, inr, refl, ap, ◌∙◌, Bool, Option, some, List, [], ◌∷◌, ◌++◌,
  length, arith, ◌==◌, if_false,
}
use obe_rt.Base.Int.{negsuc}
use obe_rt.UserData.{UserItem, RawFrame, BitWriter, replace_data, write_itu_t_codes}
use obe_rt.UserData.Bits.{
  all_bytes-AllBytes, literals-AllBytes, unpack, AllBytes, AllBytes-append, WriterLaws, Holds,
  Holds-Adds, write_byte, write_identifier-Holds, write_itu_t_codes-Holds,
}
use obe_rt.UserData.Caption.{
  cc_timecode, find_cc_count, ga94, write_bytes, write_cc_head, end_608, write_608_cc, write_708_cc,
  user_head,
}
use obe_rt.UserData.Caption.Places.{write_cc_head-Adds}
use obe_rt.UserData.Caption.Entries.{
  Count, Ends, cc_timecode-Count, cc_user_data, entries-pairs, find_cc_count-Count, pairs,
  pairs-AllBytes,
}

module _ {S : Type 0} (lib : BitWriter S) (laws : WriterLaws lib) where
  user_head-Holds : Holds lib laws (user_head lib) (181 ∷ 0 ∷ 49 ∷ 71 ∷ 65 ∷ 57 ∷ 52 ∷ 3 ∷ [])
  user_head-Holds = write_byte lib laws _ (181 ∷ 0 ∷ 49 ∷ 71 ∷ 65 ∷ 57 ∷ 52 ∷ []) 3 (omega arith) (
      write_identifier-Holds lib laws ga94 (write_itu_t_codes lib lib.bs_init) (181 ∷ 0 ∷ 49 ∷ [])
        (all_bytes-AllBytes ga94 refl) (write_itu_t_codes-Holds lib laws))

  end_608-bytes :
      (grants : ℕ → Bool) (u : UserItem) (q : Option S) (cs : List ℕ)
      → AllBytes cs
      → Ends lib laws q cs
      → end_608 lib grants u q
        ≡ some (replace_data grants (181 ∷ 0 ∷ 49 ∷ 71 ∷ 65 ∷ 57 ∷ 52 ∷ 3 ∷ (cs ++ 255 ∷ [])) u)
  unfolding end_608 write_bytes Ends
  end_608-bytes grants u q cs p (s, e, h) =
      let all = AllBytes-append cs (255 ∷ []) p (omega arith, tt) in
      let done =
        laws.flush (lib.bs_write s 8 255) (cs ++ 255 ∷ []) all
          (write_byte lib laws s cs 255 (omega arith) h) in
      let copied =
        laws.put_after (user_head lib) (181 ∷ 0 ∷ 49 ∷ 71 ∷ 65 ∷ 57 ∷ 52 ∷ 3 ∷ []) (cs ++ 255 ∷ [])
          user_head-Holds in
      rw (e, done)
        (ap (λ bytes. some (replace_data grants bytes u))
          (laws.flush _ (181 ∷ 0 ∷ 49 ∷ 71 ∷ 65 ∷ 57 ∷ 52 ∷ 3 ∷ (cs ++ 255 ∷ []))
            (literals-AllBytes (181 ∷ 0 ∷ 49 ∷ 71 ∷ 65 ∷ 57 ∷ 52 ∷ 3 ∷ []) (cs ++ 255 ∷ []) refl
              all)
            copied))

  supported :
      (grants : ℕ → Bool) (u : UserItem) (f : RawFrame) (d : List ℕ) (n : ℕ)
      → u.bytes ≡ some d
      → u.len ≡ length d
      → AllBytes d
      → n < 30
      → find_cc_count f 0 cc_timecode ≡ suc (suc n)
      → write_608_cc lib grants u f
        ≡ some (replace_data grants (cc_user_data (suc (suc n)) (pairs n d)) u)
  unfolding write_608_cc
  supported grants u f d n e l p lt count = rw count (
      if_false (suc (suc n) == 0) _ _ (ground arith)
      ∙ end_608-bytes grants u _ ((192 + suc (suc n)) ∷ 255 ∷ pairs n d)
          (omega arith, (omega arith, pairs-AllBytes n d p))
          (entries-pairs lib laws u d n (write_cc_head lib (suc (suc n)) lib.bs_init)
            ((192 + suc (suc n)) ∷ 255 ∷ []) e l p
            (write_cc_head-Adds lib laws (suc (suc n)) lib.bs_init (omega arith)
              ∙ ap (λ x. x ++ unpack ((192 + suc (suc n)) ∷ 255 ∷ [])) laws.init)))

  -- write_608_cc refuses a frame whose rate is not in its table with -1 and leaves the item alone; for any
  -- other it replaces the bytes of the item by the user data of ATSC A/53 for as many captions as the table
  -- gives, at least two, with the pairs of the first and the second field in front and fillers in the other
  -- places, or returns -1 with a null pointer where memory is refused.
  pub write_608_cc-pairs :
      (grants : ℕ → Bool) (u : UserItem) (f : RawFrame) (d : List ℕ)
      → u.bytes ≡ some d
      → u.len ≡ length d
      → AllBytes d
      → ((find_cc_count f 0 cc_timecode ≡ 0) × (write_608_cc lib grants u f ≡ some (negsuc 0, u)))
        ⊎ ((n : ℕ) × (find_cc_count f 0 cc_timecode ≡ suc (suc n))
            × (write_608_cc lib grants u f
                ≡ some (replace_data grants (cc_user_data (suc (suc n)) (pairs n d)) u)))
  unfolding write_608_cc Count
  write_608_cc-pairs grants u f d e l p =
      elim (find_cc_count-Count f 0 cc_timecode (inl refl) cc_timecode-Count) [
        | inl count ↦ inl (count, rw count refl)
        | inr (n, count, lt) ↦ inr (n, count, supported grants u f d n e l p lt count)
      ]

  pub write_708_cc-bytes :
      (grants : ℕ → Bool) (u : UserItem) (start : List ℕ) (c : ℕ)
      → AllBytes start
      → c < 32
      → write_708_cc lib grants u start c ≡ replace_data grants (cc_user_data c start) u
  unfolding write_708_cc write_bytes
  write_708_cc-bytes grants u start c p lt =
      let head =
        Holds-Adds lib laws (user_head lib) (write_cc_head lib c (user_head lib)) _
          ((192 + c) ∷ 255 ∷ []) user_head-Holds
          (write_cc_head-Adds lib laws c (user_head lib) lt) in
      let copied =
        laws.put_after (write_cc_head lib c (user_head lib))
          (181 ∷ 0 ∷ 49 ∷ 71 ∷ 65 ∷ 57 ∷ 52 ∷ 3 ∷ (192 + c) ∷ 255 ∷ []) start head in
      let all = AllBytes-append start (255 ∷ []) p (omega arith, tt) in
      ap (λ bytes. replace_data grants bytes u)
        (laws.flush _ (cc_user_data c start)
          (literals-AllBytes (181 ∷ 0 ∷ 49 ∷ 71 ∷ 65 ∷ 57 ∷ 52 ∷ 3 ∷ [])
            ((192 + c) ∷ 255 ∷ (start ++ 255 ∷ [])) refl (omega arith, (omega arith, all)))
          (write_byte lib laws _ (181 ∷ 0 ∷ 49 ∷ 71 ∷ 65 ∷ 57 ∷ 52 ∷ 3 ∷ (192 + c) ∷ 255 ∷ start)
            255 (omega arith) copied))
