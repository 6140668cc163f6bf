-- ===== src/UserData/Cdp/Packet.antt =====
-- Caption distribution packets, and what read_cdp makes of them.
use obe_rt.Base.{
  ℕ, zero, suc, ◌+◌, ◌*◌, ◌/◌, ◌%◌, ◌<◌, ◌≤◌, ◌≡◌, ◌≢◌, ◌==◌, Bool-cases, ==_iff, inl, inr, refl,
  sym, ap, ◌∙◌, subst, false, List, [], ◌∷◌, ◌++◌, append_assoc, length, arith, take, drop,
  length-take, length-drop, take-append-drop,
}
use obe_rt.UserData.{BitReader}
use obe_rt.UserData.Bits.{length-unpack, to_bits, unpack, unpack-append, ReaderLaws}
use obe_rt.UserData.Cdp.{
  Captions, skip_all, skip_times, read_tc, read_cc_data, read_svc_info, read_future, read_section,
}

-- The sections in front of the footer: a time code of four bytes; flags and caption triples; flags and
-- services of seven bytes; a section of another identifier.
pub data Section : Type 0 where
  tc : ℕ → ℕ → ℕ → ℕ → Section
  cc_data : ℕ → List (ℕ × ℕ × ℕ) → Section
  svc_info : ℕ → List (ℕ × ℕ × ℕ × ℕ × ℕ × ℕ × ℕ) → Section
  future : ℕ → List ℕ → Section

unfoldable pub triples : List (ℕ × ℕ × ℕ) → List ℕ
triples [] = []
triples ((a, b, c) ∷ ts) = a ∷ b ∷ c ∷ triples ts

unfoldable pub services : List (ℕ × ℕ × ℕ × ℕ × ℕ × ℕ × ℕ) → List ℕ
services [] = []
services ((a, b, c, d, e, f, g) ∷ ss) = a ∷ b ∷ c ∷ d ∷ e ∷ f ∷ g ∷ services ss

-- The bytes of a section
unfoldable pub encode : Section → List ℕ
encode (tc a b c d) = 113 ∷ a ∷ b ∷ c ∷ d ∷ []
encode (cc_data flags ts) = 114 ∷ (flags * 32 + length ts) ∷ triples ts
encode (svc_info flags ss) = 115 ∷ (flags * 16 + length ss) ∷ services ss
encode (future id bs) = id ∷ length bs ∷ bs

unfoldable pub encode_all : List Section → List ℕ
encode_all [] = []
encode_all (s ∷ ss) = encode s ++ encode_all ss

-- The ranges of the fields; another identifier is any byte that is none of the four that the reader
-- knows. Bytes need no range where they are only skipped.
unfoldable pub Fits : Section → Type 0
Fits (tc a b c d) = Unit
Fits (cc_data flags ts) = (flags < 8) × (length ts < 32)
Fits (svc_info flags ss) = (flags < 16) × (length ss < 16)
Fits (future id bs) =
    (id < 256) × (id ≢ 113) × (id ≢ 114) × (id ≢ 115) × (id ≢ 116) × (length bs < 256)

-- What the sections leave of `start` and `cc_count`, when they stand from a byte on: the last caption
-- section wins.
unfoldable pub last_captions : ℕ → Captions → List Section → Captions
last_captions at c [] = c
last_captions at c (cc_data flags ts ∷ ss) =
    last_captions (at + length (encode (cc_data flags ts)))
      (record { start = at + 2; cc_count = length ts }) ss
last_captions at c (s ∷ ss) = last_captions (at + length (encode s)) c ss

==_false : (m n : ℕ) → m ≢ n → (m == n) ≡ false
==_false m n different = elim (Bool-cases (m == n)) [
  | inl equal ↦ absurd (different ((==_iff m n).0 equal))
  | inr unequal ↦ unequal
]

module _ {R : Type 0} (reader : BitReader R) (laws : ReaderLaws reader) where
  -- The reader stands at this byte, in front of these.
  unfoldable pub At : R → ℕ → List ℕ → Type 0
  At s at bs = (laws.left s ≡ unpack bs) × (reader.bs_read_pos s ≡ at * 8)

  unfoldable pub total : List ℕ → ℕ
  total [] = 0
  total (w ∷ widths) = w + total widths

  -- Skipping fields of so many bits in all.
  skip_all-total :
      (widths : List ℕ) (s : R) (bs rest : List ℕ)
      → length bs ≡ total widths
      → laws.left s ≡ bs ++ rest
      → (laws.left (skip_all reader widths s) ≡ rest)
        × (reader.bs_read_pos (skip_all reader widths s) ≡ reader.bs_read_pos s + total widths)
  unfolding skip_all total
  skip_all-total [] s [] rest l e = (e, omega arith)
  skip_all-total [] s (b ∷ bs) rest l e = absurd (omega (arith, l))
  skip_all-total (w ∷ widths) s bs rest l e =
      let short : w ≤ length bs = omega (arith, l) in
      let (left', pos') =
        laws.skip s w (take w bs) (drop w bs ++ rest) (omega (arith, length-take w bs)) (
          e
          ∙ ap (λ x. x ++ rest) (sym (take-append-drop w bs))
          ∙ append_assoc (take w bs) (drop w bs) rest) in
      let (l', p') =
        skip_all-total widths (reader.bs_skip s w) (drop w bs) rest
          (omega (arith, l, length-drop w bs)) left' in
      (l', omega (arith, p', pos'))

  At-pos : (s : R) (at : ℕ) (bs : List ℕ) → At s at bs → reader.bs_read_pos s ≡ at * 8
  unfolding At
  At-pos s at bs (e, p) = p

  pub skip_bytes :
      (widths : List ℕ) (s : R) (at : ℕ) (bs rest : List ℕ)
      → total widths ≡ 8 * length bs
      → At s at (bs ++ rest)
      → At (skip_all reader widths s) (at + length bs) rest
  unfolding At
  skip_bytes widths s at bs rest l (e, p) =
      let (e', p') =
        skip_all-total widths s (unpack bs) (unpack rest) (omega (arith, l, length-unpack bs))
          (e ∙ unpack-append bs rest) in
      (e', omega (arith, p, p', l))

  move : (s : R) (i j : ℕ) (rest : List ℕ) → i ≡ j → At s i rest → At s j rest
  move s i j rest e a = subst (λ k. At s k rest) e a

  -- Rounds that skip k bytes each.
  skip_rounds :
      (n k : ℕ) (widths : List ℕ) (s : R) (at : ℕ) (bs rest : List ℕ)
      → total widths ≡ 8 * k
      → length bs ≡ n * k
      → At s at (bs ++ rest)
      → At (skip_times reader n widths s) (at + length bs) rest
  unfolding skip_times
  skip_rounds zero k widths s at [] rest t l a = move s at _ rest (omega arith) a
  skip_rounds zero k widths s at (b ∷ bs) rest t l a = absurd (omega (arith, l))
  skip_rounds (suc n) k widths s at bs rest t l a =
      let few : k ≤ length bs = omega (arith, l) in
      let first =
        skip_bytes widths s at (take k bs) (drop k bs ++ rest) (omega (arith, t, length-take k bs))
          (subst (At s at)
            (ap (λ x. x ++ rest) (sym (take-append-drop k bs))
              ∙ append_assoc (take k bs) (drop k bs) rest)
            a) in
      move _ _ _ rest (omega (arith, length-take k bs, length-drop k bs)) (
        skip_rounds n k widths (skip_all reader widths s) (at + length (take k bs)) (drop k bs) rest
          t (omega (arith, l, length-drop k bs)) first)

  pub read_byte :
      (s : R) (at b : ℕ) (rest : List ℕ)
      → b < 256
      → At s at (b ∷ rest)
      → ((reader.bs_read s 8).0 ≡ b) × At (reader.bs_read s 8).1 (at + 1) rest
  unfolding At unpack
  read_byte s at b rest lt (e, p) =
      let (v, e', p') = laws.read s 8 b (unpack rest) lt e in (v, (e', omega (arith, p, p')))

  pub triples-length : (ts : List (ℕ × ℕ × ℕ)) → length (triples ts) ≡ length ts * 3
  unfolding triples
  triples-length [] = refl
  triples-length ((a, b, c) ∷ ts) = omega (arith, triples-length ts)

  services-length : (ss : List (ℕ × ℕ × ℕ × ℕ × ℕ × ℕ × ℕ)) → length (services ss) ≡ length ss * 7
  unfolding services
  services-length [] = refl
  services-length ((a, b, c, d, e, f, g) ∷ ss) = omega (arith, services-length ss)

  nibbles :
      (flags n : ℕ)
      → flags < 16
      → n < 16
      → to_bits 8 (flags * 16 + n) ≡ to_bits 4 flags ++ to_bits 4 n
  nibbles flags n p q =
      let same₇ : (flags * 16 + n) / 128 % 2 ≡ flags / 8 % 2 = omega arith in
      let same₆ : (flags * 16 + n) / 64 % 2 ≡ flags / 4 % 2 = omega arith in
      let same₅ : (flags * 16 + n) / 32 % 2 ≡ flags / 2 % 2 = omega arith in
      let same₄ : (flags * 16 + n) / 16 % 2 ≡ flags / 1 % 2 = omega arith in
      let same₃ : (flags * 16 + n) / 8 % 2 ≡ n / 8 % 2 = omega arith in
      let same₂ : (flags * 16 + n) / 4 % 2 ≡ n / 4 % 2 = omega arith in
      let same₁ : (flags * 16 + n) / 2 % 2 ≡ n / 2 % 2 = omega arith in
      let same₀ : (flags * 16 + n) / 1 % 2 ≡ n / 1 % 2 = omega arith in cc

  -- A byte whose upper half is skipped and whose lower half is read.
  read_nibble :
      (s : R) (at flags n : ℕ) (rest : List ℕ)
      → flags < 16
      → n < 16
      → At s at ((flags * 16 + n) ∷ rest)
      → ((reader.bs_read (skip_all reader (1 ∷ 1 ∷ 1 ∷ 1 ∷ []) s) 4).0 ≡ n)
        × At (reader.bs_read (skip_all reader (1 ∷ 1 ∷ 1 ∷ 1 ∷ []) s) 4).1 (at + 1) rest
  unfolding At unpack total
  read_nibble s at flags n rest p q (e, i) =
      let half = to_bits 4 flags in
      let (l, j) =
        skip_all-total (1 ∷ 1 ∷ 1 ∷ 1 ∷ []) s half (to_bits 4 n ++ unpack rest) refl
          (e ∙ ap (λ x. x ++ unpack rest) (nibbles flags n p q)) in
      let (v, l', k) = laws.read _ 4 n (unpack rest) (omega arith) l in
      (v, (l', omega (arith, i, j, k)))

  -- What a section owes the loop.
  unfoldable pub Reads : ℕ → Captions → R → Section → List ℕ → Type 0
  Reads at c s sec rest =
      let (id, after) = reader.bs_read s 8 in
      let (c', s') = read_section reader id (c, after) in
      ((id == 116) ≡ false)
      × (c' ≡ last_captions at c (sec ∷ []))
      × At s' (at + length (encode sec)) rest

  pub section-Reads :
      (at : ℕ) (c : Captions) (s : R) (sec : Section) (rest : List ℕ)
      → Fits sec
      → At s at (encode sec ++ rest)
      → Reads at c s sec rest
  unfolding Reads encode Fits last_captions read_section read_tc read_cc_data read_svc_info
      read_future total
  section-Reads at c s (tc x y z w) rest f a =
      let (i, a1) = read_byte s at 113 (x ∷ y ∷ z ∷ w ∷ rest) (omega arith) a in
      rw i (
        refl,
        refl,
        move _ _ _ rest (omega arith) (
            skip_bytes (2 ∷ 2 ∷ 4 ∷ 1 ∷ 3 ∷ 4 ∷ 1 ∷ 3 ∷ 4 ∷ 1 ∷ 1 ∷ 2 ∷ 4 ∷ []) _ (at + 1)
              (x ∷ y ∷ z ∷ w ∷ []) rest refl a1),
      )
  section-Reads at c s (cc_data flags ts) rest f a =
      let (lf, ln) = f in
      let (i, a1) =
        read_byte s at 114 ((flags * 32 + length ts) ∷ triples ts ++ rest) (omega arith) a in
      let (j, a2) =
        read_byte _ (at + 1) (flags * 32 + length ts) (triples ts ++ rest) (omega arith) a1 in
      let count : (flags * 32 + length ts) % 32 ≡ length ts = omega arith in
      let start : reader.bs_read_pos (reader.bs_read (reader.bs_read s 8).1 8).1 / 8 ≡ at + 2 =
        omega (arith, At-pos _ _ _ a2) in
      rw (i, j, count, start)
        (
          refl,
          refl,
          move _ _ _ rest (omega arith) (
              skip_rounds (length ts) 3 (5 ∷ 1 ∷ 2 ∷ 8 ∷ 8 ∷ []) _ (at + 1 + 1) (triples ts) rest
                refl (triples-length ts) a2),
        )
  section-Reads at c s (svc_info flags ss) rest f a =
      let (lf, ln) = f in
      let (i, a1) =
        read_byte s at 115 ((flags * 16 + length ss) ∷ services ss ++ rest) (omega arith) a in
      let (j, a2) = read_nibble _ (at + 1) flags (length ss) (services ss ++ rest) lf ln a1 in
      rw (i, j)
        (
          refl,
          refl,
          move _ _ _ rest (omega arith) (
              skip_rounds (length ss) 7 (1 ∷ 1 ∷ 6 ∷ 8 ∷ 8 ∷ 8 ∷ 8 ∷ 8 ∷ 8 ∷ []) _ (at + 1 + 1)
                (services ss) rest refl (services-length ss) a2),
        )
  section-Reads at c s (future id bs) rest f a =
      let (byte, no_tc, no_cc, no_svc, no_footer, ln) = f in
      let (i, a1) = read_byte s at id (length bs ∷ bs ++ rest) byte a in
      let (j, a2) = read_byte _ (at + 1) (length bs) (bs ++ rest) ln a1 in
      let not_tc = ==_false id 113 no_tc in
      let not_cc = ==_false id 114 no_cc in
      let not_svc = ==_false id 115 no_svc in
      let not_footer = ==_false id 116 no_footer in
      rw (i, not_tc, not_cc, not_svc, not_footer, j)
        (
          refl,
          refl,
          move _ _ _ rest (omega arith)
              (skip_rounds (length bs) 1 (8 ∷ []) _ (at + 1 + 1) bs rest refl (omega arith) a2),
        )
