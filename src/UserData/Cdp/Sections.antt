-- ===== src/UserData/Cdp/Sections.antt =====
-- Facts on the bytes of packets: where their captions stand, and their sum.
use obe_rt.Base.{
  ℕ, ◌+◌, ◌*◌, ◌/◌, ◌%◌, ◌<◌, ◌≤◌, ◌≡◌, ◌≢◌, inl, inr, refl, sym, ap, ◌∙◌, false, some, List, [],
  ◌∷◌, ◌++◌, append_assoc, length, arith, ◌==◌, Bool-cases, length-append, ==_iff,
}
use obe_rt.UserData.Bits.{to_bits, AllBytes}
use obe_rt.UserData.Cdp.{sum_bytes, last_byte, negated, same_byte, checks, Captions}
use obe_rt.UserData.Cdp.Packet.{
  Section, tc, cc_data, svc_info, future, triples, encode, encode_all, Fits, last_captions,
}

unfoldable pub AllFit : List Section → Type 0
AllFit [] = Unit
AllFit (sec ∷ ss) = Fits sec × AllFit ss

-- The captions of the last caption section.
unfoldable pub last_triples : List (ℕ × ℕ × ℕ) → List Section → List (ℕ × ℕ × ℕ)
last_triples ts [] = ts
last_triples ts (cc_data flags ts' ∷ ss) = last_triples ts' ss
last_triples ts (sec ∷ ss) = last_triples ts ss

unfoldable pub sum : List ℕ → ℕ
sum [] = 0
sum (b ∷ bs) = b + sum bs

-- The bytes of a packet: cdp_header, sections and footer, the last byte the checksum.
abbrev pub packet : ℕ → ℕ → ℕ → ℕ → ℕ → List Section → ℕ → ℕ → ℕ → List ℕ
packet len rate flags c₁ c₂ ss f₁ f₂ cs =
    150 ∷ 105 ∷ len ∷ rate ∷ flags ∷ c₁ ∷ c₂ ∷ (encode_all ss ++ 116 ∷ f₁ ∷ f₂ ∷ cs ∷ [])

-- The captions stand where they were noted.
unfoldable pub Points : List ℕ → Captions → List (ℕ × ℕ × ℕ) → Type 0
Points whole c ts =
    (c.cc_count ≡ length ts)
    × ((before : List ℕ) × (after : List ℕ) × (whole ≡ before ++ (triples ts ++ after))
        × (c.start ≡ length before))

past :
    (whole before rest : List ℕ) (sec : Section) (ss : List Section)
    → whole ≡ before ++ (encode_all (sec ∷ ss) ++ rest)
    → whole ≡ (before ++ encode sec) ++ (encode_all ss ++ rest)
unfolding encode_all
past whole before rest sec ss e =
    e
    ∙ ap (λ x. before ++ x) (append_assoc (encode sec) (encode_all ss) rest)
    ∙ sym (append_assoc before (encode sec) (encode_all ss ++ rest))

pub last-Points :
    (whole before rest : List ℕ) (at : ℕ) (c : Captions) (ts : List (ℕ × ℕ × ℕ)) (ss : List Section)
    → whole ≡ before ++ (encode_all ss ++ rest)
    → at ≡ length before
    → Points whole c ts
    → Points whole (last_captions at c ss) (last_triples ts ss)
unfolding last_captions last_triples encode_all encode Points
last-Points whole before rest at c ts [] e l p = p
last-Points whole before rest at c ts (tc x y z w ∷ ss) e l p =
    last-Points whole (before ++ encode (tc x y z w)) rest _ c ts ss
      (past whole before rest (tc x y z w) ss e)
      (omega (arith, l, length-append before (encode (tc x y z w)))) p
last-Points whole before rest at c ts (svc_info flags xs ∷ ss) e l p =
    last-Points whole (before ++ encode (svc_info flags xs)) rest _ c ts ss
      (past whole before rest (svc_info flags xs) ss e)
      (omega (arith, l, length-append before (encode (svc_info flags xs)))) p
last-Points whole before rest at c ts (future id bs ∷ ss) e l p =
    last-Points whole (before ++ encode (future id bs)) rest _ c ts ss
      (past whole before rest (future id bs) ss e)
      (omega (arith, l, length-append before (encode (future id bs)))) p
last-Points whole before rest at c ts (cc_data flags ts' ∷ ss) e l p =
    let head = 114 ∷ (flags * 32 + length ts') ∷ [] in
    last-Points whole (before ++ encode (cc_data flags ts')) rest _ _ ts' ss
      (past whole before rest (cc_data flags ts') ss e)
      (omega (arith, l, length-append before (encode (cc_data flags ts'))))
      (
        refl,
        (
          before ++ head,
          encode_all ss ++ rest,
          e
              ∙ ap (λ x. before ++ (head ++ x)) (append_assoc (triples ts') (encode_all ss) rest)
              ∙ sym (append_assoc before head (triples ts' ++ (encode_all ss ++ rest))),
          omega (arith, l, length-append before head),
        ),
      )

pub last_captions-cons :
    (at : ℕ) (c : Captions) (sec : Section) (ss : List Section)
    → last_captions at c (sec ∷ ss)
      ≡ last_captions (at + length (encode sec)) (last_captions at c (sec ∷ [])) ss
unfolding last_captions
last_captions-cons at c (tc a b d e) ss = refl
last_captions-cons at c (cc_data flags ts) ss = refl
last_captions-cons at c (svc_info flags ts) ss = refl
last_captions-cons at c (future id bs) ss = refl

sum-last :
    (bs : List ℕ) (b : ℕ)
    → AllBytes (b ∷ bs)
    → (l : ℕ) × (last_byte (b ∷ bs) ≡ some l)
      × (l < 256)
      × ((sum_bytes (b ∷ bs) + l) % 256 ≡ sum (b ∷ bs) % 256)
      × (sum_bytes (b ∷ bs) < 256)
unfolding last_byte sum_bytes sum
sum-last [] b (lt, p) = (b, refl, lt, omega arith, omega arith)
sum-last (c ∷ bs) b (lt, p) =
    let (l, e, small, h, byte) = sum-last bs c p in (l, e, small, omega (arith, h), omega arith)

agrees :
    (x l s : ℕ) → x < 256 → l < 256 → (x + l) % 256 ≡ s % 256 → (negated x == l) ≡ (s % 256 == 0)
unfolding negated
agrees x l s p q h = ground arith

-- The last byte makes the sum a multiple of 256.
pub checks-sum :
    (bs : List ℕ) (b : ℕ) → AllBytes (b ∷ bs) → checks (b ∷ bs) ≡ (sum (b ∷ bs) % 256 == 0)
unfolding checks sum same_byte negated
checks-sum bs b p =
    let (l, e, lt, h, small) = sum-last bs b p in
    rw e (agrees (sum_bytes (b ∷ bs)) l (sum (b ∷ bs)) small lt h)

pub uneven : (s : ℕ) → s % 256 ≢ 0 → (s % 256 == 0) ≡ false
uneven s odd = elim (Bool-cases (s % 256 == 0)) [
  | inl even ↦ absurd (odd ((==_iff _ 0).0 even))
  | inr no_rest ↦ no_rest
]

pub last_triples-few :
    (ts : List (ℕ × ℕ × ℕ)) (ss : List Section)
    → length ts < 32
    → AllFit ss
    → length (last_triples ts ss) < 32
unfolding last_triples AllFit Fits
last_triples-few ts [] l f = l
last_triples-few ts (tc x y z w ∷ ss) l (f, fs) = last_triples-few ts ss l fs
last_triples-few ts (svc_info flags xs ∷ ss) l (f, fs) = last_triples-few ts ss l fs
last_triples-few ts (future id bs ∷ ss) l (f, fs) = last_triples-few ts ss l fs
last_triples-few ts (cc_data flags ts' ∷ ss) l ((a, b), fs) = last_triples-few ts' ss b fs

pub encode_all-long : (ss : List Section) → length ss ≤ length (encode_all ss)
unfolding encode_all encode
encode_all-long [] = omega arith
encode_all-long (tc x y z w ∷ ss) = omega (arith, encode_all-long ss)
encode_all-long (cc_data flags ts ∷ ss) =
    omega (arith, encode_all-long ss, length-append (triples ts) (encode_all ss))
encode_all-long (svc_info flags xs ∷ ss) =
    omega (arith, encode_all-long ss, length-append (encode (svc_info flags xs)) (encode_all ss))
encode_all-long (future id bs ∷ ss) =
    omega (arith, encode_all-long ss, length-append bs (encode_all ss))

pub halves : (a b : ℕ) → a < 256 → b < 256 → to_bits 16 (a * 256 + b) ≡ to_bits 8 a ++ to_bits 8 b
halves a b p q =
    let same₀ : (a * 256 + b) / 1 % 2 ≡ b / 1 % 2 = omega arith in
    let same₁ : (a * 256 + b) / 2 % 2 ≡ b / 2 % 2 = omega arith in
    let same₂ : (a * 256 + b) / 4 % 2 ≡ b / 4 % 2 = omega arith in
    let same₃ : (a * 256 + b) / 8 % 2 ≡ b / 8 % 2 = omega arith in
    let same₄ : (a * 256 + b) / 16 % 2 ≡ b / 16 % 2 = omega arith in
    let same₅ : (a * 256 + b) / 32 % 2 ≡ b / 32 % 2 = omega arith in
    let same₆ : (a * 256 + b) / 64 % 2 ≡ b / 64 % 2 = omega arith in
    let same₇ : (a * 256 + b) / 128 % 2 ≡ b / 128 % 2 = omega arith in
    let same₈ : (a * 256 + b) / 256 % 2 ≡ a / 1 % 2 = omega arith in
    let same₉ : (a * 256 + b) / 512 % 2 ≡ a / 2 % 2 = omega arith in
    let same₁₀ : (a * 256 + b) / 1024 % 2 ≡ a / 4 % 2 = omega arith in
    let same₁₁ : (a * 256 + b) / 2048 % 2 ≡ a / 8 % 2 = omega arith in
    let same₁₂ : (a * 256 + b) / 4096 % 2 ≡ a / 16 % 2 = omega arith in
    let same₁₃ : (a * 256 + b) / 8192 % 2 ≡ a / 32 % 2 = omega arith in
    let same₁₄ : (a * 256 + b) / 16384 % 2 ≡ a / 64 % 2 = omega arith in
    let same₁₅ : (a * 256 + b) / 32768 % 2 ≡ a / 128 % 2 = omega arith in cc
