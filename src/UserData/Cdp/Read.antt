-- ===== src/UserData/Cdp/Read.antt =====
-- read_cdp on whole packets.
use obe_rt.Base.{
  ℕ, zero, suc, ◌+◌, ◌*◌, ◌%◌, ◌<◌, ◌≤◌, ◌≡◌, ◌≢◌, ◌⊎◌, inl, inr, refl, sym, ap, ap₂, ◌∙◌, subst,
  Bool, true, false, not, none, some, List, [], ◌∷◌, ◌++◌, append_assoc, length, arith,
  if◌then◌else◌, ◌==◌, leb, Bool-cases, if_false, if_true, take, drop, length-append,
  take-append_exact, drop-append_exact, ==_iff, le→leb,
}
use obe_rt.Base.Int.{pos}
use obe_rt.UserData.{UserItem, BitWriter, BitReader, replace_data}
use obe_rt.UserData.Bits.{unpack, AllBytes, AllBytes-parts, ReaderLaws, WriterLaws}
use obe_rt.UserData.Caption.{write_708_cc}
use obe_rt.UserData.Caption.Entries.{cc_user_data}
use obe_rt.UserData.Caption.Write.{write_708_cc-bytes}
use obe_rt.UserData.Cdp.{
  checks, cdp_header, Captions, read_sections, read_captions, with_captions, read_bytes,
  read_pointer, read_cdp,
}
use obe_rt.UserData.Cdp.Packet.{
  Section, tc, cc_data, svc_info, future, triples, encode, encode_all, last_captions, At, Reads,
  section-Reads, read_byte, skip_bytes, total, triples-length,
}
use obe_rt.UserData.Cdp.Sections.{
  AllFit, Points, checks-sum, encode_all-long, halves, last-Points, last_captions-cons,
  last_triples, last_triples-few, packet, sum, uneven,
}

module _ {R : Type 0} (reader : BitReader R) (laws : ReaderLaws reader) where
  first-eof :
      (s : R) (at b : ℕ) (bs : List ℕ) → At reader laws s at (b ∷ bs) → reader.bs_read_eof s ≡ false
  unfolding At unpack
  first-eof s at b bs (e, p) = laws.eof_more s _ _ e

  encode-eof :
      (s : R) (at : ℕ) (sec : Section) (bs : List ℕ)
      → At reader laws s at (encode sec ++ bs)
      → reader.bs_read_eof s ≡ false
  unfolding encode
  encode-eof s at (tc x y z w) bs a = first-eof s at 113 _ a
  encode-eof s at (cc_data flags ts) bs a = first-eof s at 114 _ a
  encode-eof s at (svc_info flags ss) bs a = first-eof s at 115 _ a
  encode-eof s at (future id xs) bs a = first-eof s at id _ a

  read_sections-last :
      (ss : List Section) (at fuel : ℕ) (c : Captions) (s : R) (rest : List ℕ)
      → AllFit ss
      → length ss < fuel
      → At reader laws s at (encode_all ss ++ 116 ∷ rest)
      → read_sections reader fuel c s ≡ some (last_captions at c ss)
  unfolding read_sections encode_all last_captions AllFit Reads
  read_sections-last ss at zero c s rest f l a = absurd (omega arith)
  read_sections-last [] at (suc fuel) c s rest f l a =
      let (i, after) = read_byte reader laws s at 116 rest (omega arith) a in
      rw (first-eof s at 116 rest a, i) refl
  read_sections-last (sec ∷ ss) at (suc fuel) c s rest (f, fs) l a =
      let all : At reader laws s at (encode sec ++ (encode_all ss ++ 116 ∷ rest)) =
        subst (At reader laws s at) (append_assoc (encode sec) (encode_all ss) (116 ∷ rest)) a in
      let (keeps, same, after) =
        section-Reads reader laws at c s sec (encode_all ss ++ 116 ∷ rest) f all in
      rw (encode-eof s at sec (encode_all ss ++ 116 ∷ rest) all, keeps)
        (read_sections-last ss (at + length (encode sec)) fuel _ _ rest fs (omega arith) after
          ∙ ap (λ k. some (last_captions (at + length (encode sec)) k ss)) same
          ∙ ap some (sym (last_captions-cons at c sec ss)))

  At-two :
      (s : R) (bs : List ℕ)
      → laws.left s ≡ unpack bs
      → reader.bs_read_pos s ≡ 16
      → At reader laws s 2 bs
  unfolding At
  At-two s bs l p = (l, p)

  read_captions-last :
      (len rate flags c₁ c₂ : ℕ) (ss : List Section) (rest : List ℕ) (whole : List ℕ) (s : R)
      → AllFit ss
      → length ss ≤ length whole
      → At reader laws s 2 (len ∷ rate ∷ flags ∷ c₁ ∷ c₂ ∷ (encode_all ss ++ 116 ∷ rest))
      → read_captions reader whole s
        ≡ some (last_captions 7 (record { start = 0; cc_count = 0 }) ss)
  unfolding read_captions total
  read_captions-last len rate flags c₁ c₂ ss rest whole s f l a =
      read_sections-last ss 7 (suc (length whole)) (record { start = 0; cc_count = 0 }) _ rest f
        (omega (arith, l))
        (skip_bytes reader laws (cdp_header reader) s 2 (len ∷ rate ∷ flags ∷ c₁ ∷ c₂ ∷ [])
          (encode_all ss ++ 116 ∷ rest) refl a)

  module _ {S : Type 0} (lib : BitWriter S) (wlaws : WriterLaws lib) (grants : ℕ → Bool) where
    written :
        (u : UserItem) (whole : List ℕ) (c : Captions) (ts : List (ℕ × ℕ × ℕ))
        → AllBytes whole
        → length ts < 32
        → Points whole c ts
        → (if leb (c.start + c.cc_count * 3) (length whole)
            then some
                (write_708_cc lib grants u (take (c.cc_count * 3) (drop c.start whole)) c.cc_count)
            else none)
          ≡ some (replace_data grants (cc_user_data (length ts) (triples ts)) u)
    unfolding Points
    written u whole c ts p few (count, (before, after, e, start)) =
        let three = triples-length reader laws ts in
        let long = ap length e in
        let inside : leb (c.start + c.cc_count * 3) (length whole) ≡ true = le→leb _ _ (
          omega (
            arith,
            three,
            long,
            count,
            start,
            length-append before (triples ts ++ after),
            length-append (triples ts) after,
          )) in
        let taken : take (c.cc_count * 3) (drop c.start whole) ≡ triples ts =
          ap (λ w. take (c.cc_count * 3) (drop c.start w)) e
          ∙ ap (take (c.cc_count * 3))
              (drop-append_exact c.start before (triples ts ++ after) (sym start))
          ∙ take-append_exact (c.cc_count * 3) (triples ts) after (omega (arith, three, count)) in
        let inner = (AllBytes-parts before (triples ts ++ after) (subst AllBytes e p)).1 in
        if_true (leb (c.start + c.cc_count * 3) (length whole)) _ _ inside
        ∙ ap some (
            ap₂ (write_708_cc lib grants u) taken count
            ∙ write_708_cc-bytes lib wlaws grants u (triples ts) (length ts)
                (AllBytes-parts (triples ts) after inner).0 few)

    with_captions-Points :
        (u : UserItem) (whole : List ℕ) (c : Captions) (ts : List (ℕ × ℕ × ℕ))
        → AllBytes whole
        → length ts < 32
        → Points whole c ts
        → ((length ts ≡ 0) × (with_captions reader lib grants u whole (some c) ≡ some (pos 1, u)))
          ⊎ ((0 < length ts)
              × (with_captions reader lib grants u whole (some c)
                  ≡ some (replace_data grants (cc_user_data (length ts) (triples ts)) u)))
    unfolding with_captions Points
    with_captions-Points u whole c ts p few (count, (before, after, e, start)) =
        elim (Bool-cases (c.cc_count == 0)) [
          | inl none_there ↦ inl (
            sym count ∙ (==_iff c.cc_count 0).0 none_there,
            if_true (c.cc_count == 0) _ _ none_there,
          )
          | inr there ↦ inr (
            ground (arith, there, count),
            if_false (c.cc_count == 0) _ _ there
                ∙ written u whole c ts p few (count, (before, after, e, start)),
          )
        ]

    -- Of a packet of any sections whose fields fit their bits, sections of identifiers that the reader does not
    -- know included, and whose bytes sum to a multiple of 256, read_cdp takes the captions of the last caption section:
    -- they become user data of ATSC A/53, unless there are none, when it returns 1 and leaves the item.
    pub read_cdp-packet :
        (u : UserItem) (len rate flags c₁ c₂ : ℕ) (ss : List Section) (f₁ f₂ cs : ℕ)
        → u.bytes ≡ some (packet len rate flags c₁ c₂ ss f₁ f₂ cs)
        → AllFit ss
        → AllBytes (packet len rate flags c₁ c₂ ss f₁ f₂ cs)
        → sum (packet len rate flags c₁ c₂ ss f₁ f₂ cs) % 256 ≡ 0
        → ((length (last_triples [] ss) ≡ 0) × (read_cdp reader lib grants u ≡ some (pos 1, u)))
          ⊎ ((0 < length (last_triples [] ss))
              × (read_cdp reader lib grants u
                  ≡ some (
                      replace_data grants
                        (cc_user_data (length (last_triples [] ss)) (triples (last_triples [] ss)))
                        u)))
    unfolding read_cdp read_pointer read_bytes Points unpack triples
    read_cdp-packet u len rate flags c₁ c₂ ss f₁ f₂ cs e fit bytes good =
        let whole = packet len rate flags c₁ c₂ ss f₁ f₂ cs in
        let rest = len ∷ rate ∷ flags ∷ c₁ ∷ c₂ ∷ (encode_all ss ++ 116 ∷ f₁ ∷ f₂ ∷ cs ∷ []) in
        let s = (reader.bs_read (reader.bs_read_init whole) 16).1 in
        let (v, l, i) =
          laws.read (reader.bs_read_init whole) 16 38505 (unpack rest) (omega arith)
            (laws.init whole) in
        let found =
          read_captions-last len rate flags c₁ c₂ ss (f₁ ∷ f₂ ∷ cs ∷ []) whole s fit
            (omega
              (arith, encode_all-long ss, length-append (encode_all ss) (116 ∷ f₁ ∷ f₂ ∷ cs ∷ [])))
            (At-two s rest l (omega (arith, i, laws.init_pos whole))) in
        let is : read_cdp reader lib grants u
            ≡ with_captions reader lib grants u whole
                (some (last_captions 7 (record { start = 0; cc_count = 0 }) ss)) =
          ap (read_pointer reader lib grants u) e
          ∙ if_false (not ((reader.bs_read (reader.bs_read_init whole) 16).0 == 38505)) _ _
              (ap (λ k. not (k == 38505)) v)
          ∙ if_false (not (checks whole)) _ _
              (ap not (checks-sum (105 ∷ rest) 150 bytes ∙ ap (λ k. k == 0) good))
          ∙ ap (with_captions reader lib grants u whole) found in
        elim (with_captions-Points u whole (last_captions 7 (record { start = 0; cc_count = 0 }) ss)
          (last_triples [] ss) bytes (last_triples-few [] ss (omega arith) fit)
          (last-Points whole (150 ∷ 105 ∷ len ∷ rate ∷ flags ∷ c₁ ∷ c₂ ∷ [])
            (116 ∷ f₁ ∷ f₂ ∷ cs ∷ []) 7 (record { start = 0; cc_count = 0 }) [] ss refl refl
            (refl, ([], whole, refl, refl)))) [
              | inl (z, w) ↦ inl (z, is ∙ w)
              | inr (z, w) ↦ inr (z, is ∙ w)
            ]

    -- A packet of two bytes at least that does not start with 0x9669, or whose bytes do not sum to a multiple of
    -- 256, is refused with 1, and the item stays as it was.
    pub read_cdp-refuses :
        (u : UserItem) (b₀ b₁ : ℕ) (bs : List ℕ)
        → u.bytes ≡ some (b₀ ∷ b₁ ∷ bs)
        → AllBytes (b₀ ∷ b₁ ∷ bs)
        → (b₀ * 256 + b₁ ≢ 38505) ⊎ (sum (b₀ ∷ b₁ ∷ bs) % 256 ≢ 0)
        → read_cdp reader lib grants u ≡ some (pos 1, u)
    unfolding read_cdp read_pointer read_bytes unpack
    read_cdp-refuses u b₀ b₁ bs e bytes bad =
        let whole = b₀ ∷ b₁ ∷ bs in
        let (p, (q, r)) = bytes in
        let (v, l, i) =
          laws.read (reader.bs_read_init whole) 16 (b₀ * 256 + b₁) (unpack bs) (omega arith)
            (laws.init whole ∙ ap (λ x. x ++ unpack bs) (sym (halves b₀ b₁ p q))) in
        ap (read_pointer reader lib grants u) e
        ∙ elim (Bool-cases ((reader.bs_read (reader.bs_read_init whole) 16).0 == 38505)) [
          | inl same ↦
              if_false (not ((reader.bs_read (reader.bs_read_init whole) 16).0 == 38505)) _ _
                (ap not same)
              ∙ if_true (not (checks whole)) _ _ (
                  ap not (
                    checks-sum (b₁ ∷ bs) b₀ bytes
                    ∙ uneven (sum whole) (elim bad [
                      | inl other ↦ absurd (other (sym v ∙ (==_iff _ 38505).0 same))
                      | inr odd ↦ odd
                    ])))
          | inr other ↦
              if_true (not ((reader.bs_read (reader.bs_read_init whole) 16).0 == 38505)) _ _
                (ap not other)
        ]
