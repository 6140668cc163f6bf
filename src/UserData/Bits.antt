-- ===== src/UserData/Bits.antt =====
-- Bytes as lists of bits, the first bit the highest, and what the functions on user data rely on of the
-- writer of common/bitstream.h and of the reader of common/bs_read.h.
use obe_rt.Base.{
  ◌*◌, ◌≤◌, ltb, ◌&&◌, Bool, true, false, ℕ, zero, suc, ◌+◌, ◌/◌, ◌%◌, ◌^◌, ◌<◌, ◌≡◌, refl, sym, ap,
  ◌∙◌, true, false, List, [], ◌∷◌, ◌++◌, append-nil, append_assoc, length, arith,
}
use obe_rt.UserData.{BitWriter, BitReader, write_identifier, write_itu_t_codes}

-- The lowest n bits of a number.
abbrev pub to_bits : ℕ → ℕ → List ℕ
to_bits zero v = []
to_bits (suc n) v = v / 2 ^ n % 2 ∷ to_bits n v

unfoldable pub unpack : List ℕ → List ℕ
unpack [] = []
unpack (b ∷ bs) = to_bits 8 b ++ unpack bs

abbrev pub AllBytes : List ℕ → Type 0
AllBytes [] = Unit
AllBytes (b ∷ bs) = (b < 256) × AllBytes bs

pub length-unpack : (bs : List ℕ) → length (unpack bs) ≡ 8 * length bs
unfolding unpack
length-unpack [] = refl
length-unpack (b ∷ bs) = omega (arith, length-unpack bs)

-- Whether a list of literals is one of bytes.
abbrev pub all_bytes : List ℕ → Bool
all_bytes [] = true
all_bytes (b ∷ bs) = ltb b 256 && all_bytes bs

pub all_bytes-AllBytes : (bs : List ℕ) → all_bytes bs ≡ true → AllBytes bs
all_bytes-AllBytes [] h = tt
all_bytes-AllBytes (b ∷ bs) h = (ground (arith, h), all_bytes-AllBytes bs (ground (arith, h)))

pub unpack-append : (bs cs : List ℕ) → unpack (bs ++ cs) ≡ unpack bs ++ unpack cs
unfolding unpack
unpack-append [] cs = refl
unpack-append (b ∷ bs) cs = ap (λ x. to_bits 8 b ++ x) (unpack-append bs cs)

pub AllBytes-append : (bs cs : List ℕ) → AllBytes bs → AllBytes cs → AllBytes (bs ++ cs)
AllBytes-append [] cs p q = q
AllBytes-append (b ∷ bs) cs (lt, p) q = (lt, AllBytes-append bs cs p q)

pub AllBytes-parts : (bs cs : List ℕ) → AllBytes (bs ++ cs) → AllBytes bs × AllBytes cs
AllBytes-parts [] cs p = (tt, p)
AllBytes-parts (b ∷ bs) cs (lt, p) = let (q, r) = AllBytes-parts bs cs p in ((lt, q), r)

-- Bytes behind literals.
pub literals-AllBytes : (bs cs : List ℕ) → all_bytes bs ≡ true → AllBytes cs → AllBytes (bs ++ cs)
literals-AllBytes bs cs h p = AllBytes-append bs cs (all_bytes-AllBytes bs h) p

-- The writer appends the bits that it is given; whole bytes can be had by a flush, and more bytes put
-- behind them. Its position is their number, for a buffer that starts at a multiple of four.
pub record WriterLaws {S : Type 0} (lib : BitWriter S) : Type 0 where
  pub bits : S → List ℕ
  pub init : bits lib.bs_init ≡ []
  pub write : (s : S) (n v : ℕ) → v < 2 ^ n → bits (lib.bs_write s n v) ≡ bits s ++ to_bits n v
  pub write1 : (s : S) (v : ℕ) → v < 2 → bits (lib.bs_write1 s v) ≡ bits s ++ to_bits 1 v
  pub write32 :
      (s : S) (v : ℕ)
      → v < 2 ^ 32
      → bits (lib.bs_write32 s v) ≡ bits s ++ (to_bits 16 (v / 2 ^ 16) ++ to_bits 16 (v % 2 ^ 16))
  pub pos : (s : S) → lib.bs_pos s ≡ length (bits s)
  pub flush_bits : (s : S) (bs : List ℕ) → bits s ≡ unpack bs → bits (lib.bs_flush s) ≡ unpack bs
  pub flush :
      (s : S) (bs : List ℕ) → AllBytes bs → bits s ≡ unpack bs → lib.bytes (lib.bs_flush s) ≡ bs
  pub put_after :
      (s : S) (bs cs : List ℕ)
      → bits s ≡ unpack bs
      → bits (lib.put (lib.bs_flush s) cs) ≡ unpack (bs ++ cs)

-- The reader stands in front of the bits that are left.
pub record ReaderLaws {R : Type 0} (lib : BitReader R) : Type 0 where
  pub left : R → List ℕ
  pub init : (bs : List ℕ) → left (lib.bs_read_init bs) ≡ unpack bs
  pub init_pos : (bs : List ℕ) → lib.bs_read_pos (lib.bs_read_init bs) ≡ 0
  pub read :
      (s : R) (n v : ℕ) (rest : List ℕ)
      → v < 2 ^ n
      → left s ≡ to_bits n v ++ rest
      → ((lib.bs_read s n).0 ≡ v)
        × (left (lib.bs_read s n).1 ≡ rest)
        × (lib.bs_read_pos (lib.bs_read s n).1 ≡ lib.bs_read_pos s + n)
  pub skip :
      (s : R) (n : ℕ) (bs rest : List ℕ)
      → length bs ≡ n
      → left s ≡ bs ++ rest
      → (left (lib.bs_skip s n) ≡ rest)
        × (lib.bs_read_pos (lib.bs_skip s n) ≡ lib.bs_read_pos s + n)
  pub eof_end : (s : R) → left s ≡ [] → lib.bs_read_eof s ≡ true
  pub eof_more : (s : R) (b : ℕ) (bs : List ℕ) → left s ≡ b ∷ bs → lib.bs_read_eof s ≡ false

-- The reader never goes back, and a byte that is read before the end takes it on: `measure` are the bytes from
-- where it stands to the end.
pub record ReaderProgress {R : Type 0} (lib : BitReader R) : Type 0 where
  pub measure : R → ℕ
  pub starts : (bs : List ℕ) → measure (lib.bs_read_init bs) ≤ length bs
  pub reads : (s : R) (n : ℕ) → measure (lib.bs_read s n).1 ≤ measure s
  pub reads_on : (s : R) → lib.bs_read_eof s ≡ false → measure (lib.bs_read s 8).1 < measure s
  pub skips : (s : R) (n : ℕ) → measure (lib.bs_skip s n) ≤ measure s

module _ {S : Type 0} (lib : BitWriter S) (laws : WriterLaws lib) where
  -- The writer holds these bytes and no more.
  abbrev pub Holds : S → List ℕ → Type 0
  Holds s bs = laws.bits s ≡ unpack bs

  pub write_byte :
      (s : S) (bs : List ℕ) (b : ℕ)
      → b < 256
      → Holds s bs
      → Holds (lib.bs_write s 8 b) (bs ++ b ∷ [])
  unfolding unpack
  write_byte s bs b lt h =
      laws.write s 8 b lt ∙ ap (λ x. x ++ to_bits 8 b) h ∙ sym (unpack-append bs (b ∷ []))

  pub write_identifier-Holds :
      (cs : List ℕ) (s : S) (bs : List ℕ)
      → AllBytes cs
      → Holds s bs
      → Holds (write_identifier lib cs s) (bs ++ cs)
  unfolding write_identifier
  write_identifier-Holds [] s bs p h = h ∙ ap unpack (sym (append-nil bs))
  write_identifier-Holds (c ∷ cs) s bs (lt, p) h =
      write_identifier-Holds cs (lib.bs_write s 8 c) (bs ++ c ∷ []) p (write_byte s bs c lt h)
      ∙ ap unpack (append_assoc bs (c ∷ []) cs)

  pub write_itu_t_codes-Holds : Holds (write_itu_t_codes lib lib.bs_init) (181 ∷ 0 ∷ 49 ∷ [])
  unfolding write_itu_t_codes unpack
  write_itu_t_codes-Holds =
      laws.write (lib.bs_write lib.bs_init 8 181) 16 49 (omega arith)
      ∙ ap (λ x. x ++ to_bits 16 49)
          (laws.write lib.bs_init 8 181 (omega arith) ∙ ap (λ x. x ++ to_bits 8 181) laws.init)

  -- From one state to another the writer gets these bits.
  abbrev pub Adds : S → S → List ℕ → Type 0
  Adds s t xs = laws.bits t ≡ laws.bits s ++ xs

  pub Adds-trans : (s t u : S) (xs ys : List ℕ) → Adds s t xs → Adds t u ys → Adds s u (xs ++ ys)
  Adds-trans s t u xs ys p q = q ∙ ap (λ x. x ++ ys) p ∙ append_assoc (laws.bits s) xs ys

  pub Holds-Adds :
      (s t : S) (bs cs : List ℕ) → Holds s bs → Adds s t (unpack cs) → Holds t (bs ++ cs)
  Holds-Adds s t bs cs h p = p ∙ ap (λ x. x ++ unpack cs) h ∙ sym (unpack-append bs cs)

  -- The codes and the identifier in front of user data.
  pub head-Holds :
      (name : List ℕ)
      → AllBytes name
      → Holds (write_identifier lib name (write_itu_t_codes lib lib.bs_init)) (181 ∷ 0 ∷ 49 ∷ name)
  head-Holds name p =
      write_identifier-Holds name (write_itu_t_codes lib lib.bs_init) (181 ∷ 0 ∷ 49 ∷ []) p
        write_itu_t_codes-Holds
