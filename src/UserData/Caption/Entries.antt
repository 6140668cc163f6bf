-- ===== src/UserData/Caption/Entries.antt =====
-- What the loop over the captions writes.
use obe_rt.Base.{
  ℕ, zero, suc, ◌+◌, ◌*◌, ◌<◌, ◌≤◌, ◌≡◌, ◌⊎◌, inr, refl, sym, ap, ◌∙◌, subst, true, false, Option,
  some, List, [], ◌∷◌, ◌++◌, append-nil, append_assoc, length, arith, if◌then◌else◌, ◌==◌, ◌&&◌,
  leb, if_elim, if_false,
}
use obe_rt.UserData.{UserItem, RawFrame, BitWriter, byte_at}
use obe_rt.UserData.Bits.{unpack, AllBytes, WriterLaws, Holds, Holds-Adds}
use obe_rt.UserData.Caption.{
  CcTimecode, cc_timecode, find_cc_count, write_invalid, write_pair, write_entry, write_entries,
}
use obe_rt.UserData.Caption.Places.{first-Adds, second-Adds, write_invalid-Adds}

-- What stands for no caption.
fillers : ℕ → List ℕ
fillers zero = []
fillers (suc n) = 250 ∷ 0 ∷ 0 ∷ fillers n

-- The captions of CEA-608 for n + 2 places: one pair for the first field and one for the second.
pub pairs : ℕ → List ℕ → List ℕ
pairs n (a ∷ b ∷ c ∷ d ∷ _) = 252 ∷ a ∷ b ∷ 253 ∷ c ∷ d ∷ fillers n
pairs n (a ∷ b ∷ _) = 252 ∷ a ∷ b ∷ fillers (suc n)
pairs n _ = fillers (suc (suc n))

-- The user data that ATSC A/53 puts around a number of captions.
abbrev pub cc_user_data : ℕ → List ℕ → List ℕ
cc_user_data cc_count captions =
    181 ∷ 0 ∷ 49 ∷ 71 ∷ 65 ∷ 57 ∷ 52 ∷ 3 ∷ (192 + cc_count) ∷ 255 ∷ (captions ++ 255 ∷ [])

fillers-AllBytes : (n : ℕ) → AllBytes (fillers n)
unfolding fillers
fillers-AllBytes zero = tt
fillers-AllBytes (suc n) = (omega arith, (omega arith, (omega arith, fillers-AllBytes n)))

pub pairs-AllBytes : (n : ℕ) (d : List ℕ) → AllBytes d → AllBytes (pairs n d)
unfolding pairs
pairs-AllBytes n [] p = fillers-AllBytes (suc (suc n))
pairs-AllBytes n (a ∷ []) p = fillers-AllBytes (suc (suc n))
pairs-AllBytes n (a ∷ b ∷ []) (p, (q, r)) = (omega arith, (p, (q, fillers-AllBytes (suc n))))
pairs-AllBytes n (a ∷ b ∷ c ∷ []) (p, (q, r)) = (omega arith, (p, (q, fillers-AllBytes (suc n))))
pairs-AllBytes n (a ∷ b ∷ c ∷ d ∷ ds) (p, (q, (p', (q', r)))) =
    (omega arith, (p, (q, (omega arith, (p', (q', fillers-AllBytes n))))))

-- What the table may give.
unfoldable pub Count : ℕ → Type 0
Count c = (c ≡ 0) ⊎ ((n : ℕ) × (c ≡ suc (suc n)) × (n < 30))

pub Counts : List CcTimecode → Type 0
Counts [] = Unit
Counts (t ∷ table) = Count t.cc_count × Counts table

pub find_cc_count-Count :
    (f : RawFrame) (c : ℕ) (table : List CcTimecode)
    → Count c
    → Counts table
    → Count (find_cc_count f c table)
unfolding find_cc_count Counts
find_cc_count-Count f c [] p q = p
find_cc_count-Count f c (t ∷ table) p (h, q) =
    find_cc_count-Count f
      (if (f.timebase_num == t.timebase_num) && (f.timebase_den == t.timebase_den)
        then t.cc_count
        else c)
      table
      (if_elim Count ((f.timebase_num == t.timebase_num) && (f.timebase_den == t.timebase_den))
        (λ same. h) (λ other. p))
      q

pub cc_timecode-Count : Counts cc_timecode
unfolding Counts Count
cc_timecode-Count = (
  inr (23, refl, omega arith),
  (
    inr (23, refl, omega arith),
    (
      inr (22, refl, omega arith),
      (
        inr (18, refl, omega arith),
        (
          inr (18, refl, omega arith),
          (
            inr (10, refl, omega arith),
            (inr (8, refl, omega arith), (inr (8, refl, omega arith), tt)),
          ),
        ),
      ),
    ),
  ),
)

module _ {S : Type 0} (lib : BitWriter S) (laws : WriterLaws lib) where
  -- What a writer that held these bytes holds after the loop.
  unfoldable pub Ends : Option S → List ℕ → Type 0
  Ends q bs = (t : S) × (q ≡ some t) × Holds lib laws t bs

  next :
      (u : UserItem) (i n : ℕ) (s t : S) (bs : List ℕ)
      → write_entry lib u i s ≡ some t
      → Ends (write_entries lib u (suc i) n (some t)) bs
      → Ends (write_entries lib u i (suc n) (some s)) bs
  unfolding write_entries Ends
  next u i n s t bs e (w, q, h) = (w, ap (write_entries lib u (suc i) n) e ∙ q, h)

  miss :
      (u : UserItem) (i n : ℕ) (s : S) (bs cs : List ℕ)
      → (leb i 1 && leb ((i + 1) * 2) u.len) ≡ false
      → Holds lib laws s bs
      → ((t : S)
          → Holds lib laws t (bs ++ 250 ∷ 0 ∷ 0 ∷ [])
          → Ends (write_entries lib u (suc i) n (some t)) ((bs ++ 250 ∷ 0 ∷ 0 ∷ []) ++ cs))
      → Ends (write_entries lib u i (suc n) (some s)) (bs ++ 250 ∷ 0 ∷ 0 ∷ cs)
  unfolding write_entry
  miss u i n s bs cs no_pair h rest =
      let t = write_invalid lib (lib.bs_write (lib.bs_write1 s 1) 4 15) in
      next u i n s t _ (if_false (leb i 1 && leb ((i + 1) * 2) u.len) _ _ no_pair) (
        subst (Ends (write_entries lib u (suc i) n (some t)))
          (append_assoc bs (250 ∷ 0 ∷ 0 ∷ []) cs)
          (rest t
            (Holds-Adds lib laws s t bs (250 ∷ 0 ∷ 0 ∷ []) h (write_invalid-Adds lib laws s))))

  entries-fillers :
      (u : UserItem) (i n : ℕ) (s : S) (bs : List ℕ)
      → (leb i 1 && leb ((i + 1) * 2) u.len) ≡ false
      → 1 ≤ i
      → Holds lib laws s bs
      → Ends (write_entries lib u i n (some s)) (bs ++ fillers n)
  unfolding write_entries fillers Ends
  entries-fillers u i zero s bs no_pair one h = (s, refl, h ∙ ap unpack (sym (append-nil bs)))
  entries-fillers u i (suc n) s bs no_pair one h =
      miss u i n s bs (fillers n) no_pair h (λ t g.
        entries-fillers u (suc i) n t (bs ++ 250 ∷ 0 ∷ 0 ∷ []) (ground arith) (omega arith) g)

  first_pair :
      (u : UserItem) (d : List ℕ) (a b n : ℕ) (s : S) (bs cs : List ℕ)
      → u.bytes ≡ some (a ∷ b ∷ d)
      → 2 ≤ u.len
      → a < 256
      → b < 256
      → Holds lib laws s bs
      → ((t : S)
          → Holds lib laws t (bs ++ 252 ∷ a ∷ b ∷ [])
          → Ends (write_entries lib u 1 n (some t)) ((bs ++ 252 ∷ a ∷ b ∷ []) ++ cs))
      → Ends (write_entries lib u 0 (suc n) (some s)) (bs ++ 252 ∷ a ∷ b ∷ cs)
  unfolding write_entry write_pair byte_at
  first_pair u d a b n s bs cs e l p q h rest =
      let t =
        lib.bs_write
          (lib.bs_write (lib.bs_write (lib.bs_write1 (lib.bs_write (lib.bs_write1 s 1) 4 15) 1) 2 0)
            8 a)
          8 b in
      let hit : leb 2 u.len ≡ true = ground arith in
      next u 0 n s t _ (rw (hit, e) refl) (
        subst (Ends (write_entries lib u 1 n (some t))) (append_assoc bs (252 ∷ a ∷ b ∷ []) cs) (
          rest t (Holds-Adds lib laws s t bs (252 ∷ a ∷ b ∷ []) h (first-Adds lib laws a b s p q))))

  second_pair :
      (u : UserItem) (d : List ℕ) (x y a b n : ℕ) (s : S) (bs cs : List ℕ)
      → u.bytes ≡ some (x ∷ y ∷ a ∷ b ∷ d)
      → 4 ≤ u.len
      → a < 256
      → b < 256
      → Holds lib laws s bs
      → ((t : S)
          → Holds lib laws t (bs ++ 253 ∷ a ∷ b ∷ [])
          → Ends (write_entries lib u 2 n (some t)) ((bs ++ 253 ∷ a ∷ b ∷ []) ++ cs))
      → Ends (write_entries lib u 1 (suc n) (some s)) (bs ++ 253 ∷ a ∷ b ∷ cs)
  unfolding write_entry write_pair byte_at
  second_pair u d x y a b n s bs cs e l p q h rest =
      let t =
        lib.bs_write
          (lib.bs_write (lib.bs_write (lib.bs_write1 (lib.bs_write (lib.bs_write1 s 1) 4 15) 1) 2 1)
            8 a)
          8 b in
      let hit : leb 4 u.len ≡ true = ground arith in
      next u 1 n s t _ (rw (hit, e) refl) (
        subst (Ends (write_entries lib u 2 n (some t))) (append_assoc bs (253 ∷ a ∷ b ∷ []) cs) (
          rest t
            (Holds-Adds lib laws s t bs (253 ∷ a ∷ b ∷ []) h (second-Adds lib laws a b s p q))))

  -- The loop from the start writes the pairs.
  pub entries-pairs :
      (u : UserItem) (d : List ℕ) (n : ℕ) (s : S) (bs : List ℕ)
      → u.bytes ≡ some d
      → u.len ≡ length d
      → AllBytes d
      → Holds lib laws s bs
      → Ends (write_entries lib u 0 (suc (suc n)) (some s)) (bs ++ pairs n d)
  unfolding pairs fillers
  entries-pairs u [] n s bs e l p h =
      miss u 0 (suc n) s bs (fillers (suc n)) (ground (arith, l)) h
        (λ t g. entries-fillers u 1 (suc n) t _ (ground (arith, l)) (omega arith) g)
  entries-pairs u (a ∷ []) n s bs e l p h =
      miss u 0 (suc n) s bs (fillers (suc n)) (ground (arith, l)) h
        (λ t g. entries-fillers u 1 (suc n) t _ (ground (arith, l)) (omega arith) g)
  entries-pairs u (a ∷ b ∷ []) n s bs e l (p, (q, r)) h =
      first_pair u [] a b (suc n) s bs (fillers (suc n)) e (omega (arith, l)) p q h
        (λ t g. entries-fillers u 1 (suc n) t _ (ground (arith, l)) (omega arith) g)
  entries-pairs u (a ∷ b ∷ c ∷ []) n s bs e l (p, (q, r)) h =
      first_pair u (c ∷ []) a b (suc n) s bs (fillers (suc n)) e (omega (arith, l)) p q h
        (λ t g. entries-fillers u 1 (suc n) t _ (ground (arith, l)) (omega arith) g)
  entries-pairs u (a ∷ b ∷ c ∷ d ∷ ds) n s bs e l (p, (q, (p', (q', r)))) h =
      first_pair u (c ∷ d ∷ ds) a b (suc n) s bs (253 ∷ c ∷ d ∷ fillers n) e (omega (arith, l)) p q
        h
        (λ t g.
          second_pair u ds a b c d n t _ (fillers n) e (omega (arith, l)) p' q' g
            (λ t' g'. entries-fillers u 2 n t' _ (ground arith) (omega arith) g'))
