-- ===== src/Vbi/Units.antt =====
-- The bytes of a teletext frame for the multiplexer.
use obe_rt.Base.{
  ℕ, zero, suc, ◌+◌, ◌-◌, ◌*◌, ◌/◌, ◌%◌, ◌^◌, ◌<◌, ◌≤◌, ◌≡◌, refl, sym, ap, ap₂, ◌∙◌, inl, inr,
  Bool, true, Option, some, List, [], ◌∷◌, ◌++◌, map, append-nil, append_assoc, length,
  length-append, take, replicate, ◌==◌, if◌then◌else◌, if_true, if_false, if_elim, Bool-cases,
  arith,
}
use obe_rt.Base.Int.{ℤ, pos}
use obe_rt.Sdi.Lines.{input_video_format_pal, input_video_format_ntsc, convert_smpte_to_analogue}
use obe_rt.UserData.{BitWriter}
use obe_rt.UserData.Bits.{
  to_bits, unpack, length-unpack, AllBytes, AllBytes-append, WriterLaws, Holds, Holds-Adds,
  Adds-trans, write_byte,
}
use obe_rt.Vbi.{
  reversed, Sliced, Services, to_uint32, write_line, write_header_byte, write_reversed,
  write_ttx_field, write_fill, stuff, write_stuffing, write_ttx_unit, write_ttx_units, frame_of,
  encapsulate_dvb_ttx,
}
use obe_rt.Vbi.Reversed.{reversed_small}
use obe_rt.Vbi.Stuffing.{stuffing_of, framed, framed_whole, stuffing_of-AllBytes}

-- The line and the field of a slice
abbrev pub place : Bool → Sliced → Option (ℤ × ℕ)
place ntsc x =
    convert_smpte_to_analogue (if ntsc then input_video_format_ntsc else input_video_format_pal)
      (pos x.line)

abbrev parity : ℕ → ℕ
parity field = if field == 1 then 1 else 0

abbrev pub header_of : Option (ℤ × ℕ) → ℕ
header_of (some (pos line, field)) = 192 + parity field * 32 + line
header_of _ = 0

-- A unit: its identifier, its length, the byte of the line, the framing code and the 42 bytes of teletext,
-- each with its bits in the other order.
unfoldable pub unit_of : Services → Bool → Sliced → List ℕ
unit_of zvbi ntsc x =
    if zvbi.teletext_b x.id
    then 2 ∷ 44 ∷ header_of (place ntsc x) ∷ 228 ∷ map reversed (take 42 x.payload)
    else []

unfoldable pub units_of : Services → Bool → List Sliced → List ℕ
units_of zvbi ntsc [] = []
units_of zvbi ntsc (x ∷ xs) = unit_of zvbi ntsc x ++ units_of zvbi ntsc xs

-- The array is as long as libzvbi's, and the line fits into the five bits of its number.
unfoldable pub Fits : Bool → Sliced → Type 0
Fits ntsc x =
    (length x.payload ≡ 56)
    × AllBytes x.payload
    × ((line : ℕ) × (field : ℕ) × (place ntsc x ≡ some (pos line, field)) × (line < 32))

unfoldable pub AllFit : Bool → List Sliced → Type 0
AllFit ntsc [] = Unit
AllFit ntsc (x ∷ xs) = Fits ntsc x × AllFit ntsc xs

parity_small : (field : ℕ) → parity field < 2
parity_small field = ground arith

header_bits :
    (p l : ℕ)
    → p < 2
    → l < 32
    → (to_bits 2 3 ++ to_bits 1 p) ++ to_bits 5 l ≡ to_bits 8 (192 + p * 32 + l)
header_bits p l a b =
    let v = 192 + p * 32 + l in
    let same₀ : l / 1 % 2 ≡ v / 1 % 2 = omega arith in
    let same₁ : l / 2 % 2 ≡ v / 2 % 2 = omega arith in
    let same₂ : l / 4 % 2 ≡ v / 4 % 2 = omega arith in
    let same₃ : l / 8 % 2 ≡ v / 8 % 2 = omega arith in
    let same₄ : l / 16 % 2 ≡ v / 16 % 2 = omega arith in
    let same₅ : p / 1 % 2 ≡ v / 32 % 2 = omega arith in
    let same₆ : 1 ≡ v / 64 % 2 = omega arith in let same₇ : 1 ≡ v / 128 % 2 = omega arith in cc

reversed-AllBytes : (n : ℕ) (bs : List ℕ) → AllBytes bs → AllBytes (map reversed (take n bs))
reversed-AllBytes zero bs p = tt
reversed-AllBytes (suc n) [] p = tt
reversed-AllBytes (suc n) (b ∷ bs) (lt, p) = (reversed_small b lt, reversed-AllBytes n bs p)

unit_of-AllBytes :
    (zvbi : Services) (ntsc : Bool) (x : Sliced) → Fits ntsc x → AllBytes (unit_of zvbi ntsc x)
unfolding unit_of Fits
unit_of-AllBytes zvbi ntsc x (l, p, (line, field, e, lt)) =
    let small : header_of (place ntsc x) < 256 =
      omega (arith, ap header_of e, parity_small field) in
    if_elim AllBytes (zvbi.teletext_b x.id)
      (λ ttx.
        (omega arith, (omega arith, (small, (omega arith, reversed-AllBytes 42 x.payload p)))))
      (λ other. tt)

units_of-AllBytes :
    (zvbi : Services) (ntsc : Bool) (xs : List Sliced)
    → AllFit ntsc xs
    → AllBytes (units_of zvbi ntsc xs)
unfolding units_of AllFit
units_of-AllBytes zvbi ntsc [] ok = tt
units_of-AllBytes zvbi ntsc (x ∷ xs) (ok, oks) =
    AllBytes-append (unit_of zvbi ntsc x) (units_of zvbi ntsc xs) (unit_of-AllBytes zvbi ntsc x ok)
      (units_of-AllBytes zvbi ntsc xs oks)

module _ {S : Type 0} (lib : BitWriter S) (laws : WriterLaws lib) where
  abbrev Has : S → List ℕ → Type 0
  Has = Holds lib laws

  write_reversed-Has :
      (n : ℕ) (bytes : List ℕ) (s : S) (bs : List ℕ)
      → n ≤ length bytes
      → AllBytes bytes
      → Has s bs
      → Has (write_reversed lib n bytes s) (bs ++ map reversed (take n bytes))
  unfolding write_reversed
  write_reversed-Has zero bytes s bs l p h = h ∙ ap unpack (sym (append-nil bs))
  write_reversed-Has (suc n) [] s bs l p h = absurd (omega arith)
  write_reversed-Has (suc n) (b ∷ bytes) s bs l (lt, p) h =
      write_reversed-Has n bytes _ (bs ++ reversed b ∷ []) (omega arith) p
        (write_byte lib laws s bs (reversed b) (reversed_small b lt) h)
      ∙ ap unpack (append_assoc bs (reversed b ∷ []) (map reversed (take n bytes)))

  write_fill-Has :
      (n : ℕ) (s : S) (bs : List ℕ) → Has s bs → Has (write_fill lib n s) (bs ++ replicate n 255)
  unfolding write_fill
  write_fill-Has zero s bs h = h ∙ ap unpack (sym (append-nil bs))
  write_fill-Has (suc n) s bs h =
      write_fill-Has n _ (bs ++ 255 ∷ []) (write_byte lib laws s bs 255 (omega arith) h)
      ∙ ap unpack (append_assoc bs (255 ∷ []) (replicate n 255))

  write_line-Has :
      (s : S) (bs : List ℕ) (line field : ℕ)
      → line < 32
      → Has s bs
      → Has
          (write_line lib s (some (pos line, field)))
          (bs ++ (192 + parity field * 32 + line) ∷ [])
  unfolding write_line to_uint32 unpack
  write_line-Has s bs line field lt h =
      let p = parity field in
      let s1 = lib.bs_write s 2 3 in
      let s2 = lib.bs_write s1 1 p in
      let same : line % 2 ^ 32 ≡ line = omega arith in
      let two =
        Adds-trans lib laws s s1 s2 _ _ (laws.write s 2 3 (omega arith))
          (laws.write s1 1 p (omega (arith, parity_small field))) in
      let three =
        Adds-trans lib laws s s2 (lib.bs_write s2 5 line) _ _ two
          (laws.write s2 5 line (omega arith)) in
      ap (λ n. laws.bits (lib.bs_write s2 5 n)) same
      ∙ Holds-Adds lib laws s (lib.bs_write s2 5 line) bs _ h
          (three ∙ ap (λ x. laws.bits s ++ x) (header_bits p line (parity_small field) lt))

  write_header_byte-Has :
      (ntsc : Bool) (x : Sliced) (s : S) (bs : List ℕ) (line field : ℕ)
      → place ntsc x ≡ some (pos line, field)
      → line < 32
      → Has s bs
      → Has (write_header_byte lib s x.line ntsc) (bs ++ header_of (place ntsc x) ∷ [])
  unfolding write_header_byte
  write_header_byte-Has ntsc x s bs line field e lt h = rw e (write_line-Has s bs line field lt h)

  write_ttx_unit-Has :
      (zvbi : Services) (ntsc : Bool) (x : Sliced) (s : S) (bs : List ℕ)
      → Fits ntsc x
      → Has s bs
      → Has (write_ttx_unit lib zvbi ntsc x s) (bs ++ unit_of zvbi ntsc x)
  unfolding write_ttx_unit unit_of Fits write_ttx_field
  write_ttx_unit-Has zvbi ntsc x s bs (l, p, (line, field, e, lt)) h =
      elim (Bool-cases (zvbi.teletext_b x.id)) [
        | inr other ↦ rw other (h ∙ ap unpack (sym (append-nil bs)))
        | inl ttx ↦
            let v = header_of (place ntsc x) in
            let h1 = write_byte lib laws s bs 2 (omega arith) h in
            let h2 = write_byte lib laws _ _ 44 (omega arith) h1 in
            let h3 = write_header_byte-Has ntsc x _ _ line field e lt h2 in
            let h4 = write_byte lib laws _ _ 228 (omega arith) h3 in
            let h5 = write_reversed-Has 42 x.payload _ _ (omega (arith, l)) p h4 in
            rw ttx (h5 ∙ ap unpack (simp append_assoc refl))
      ]

  write_ttx_units-Has :
      (zvbi : Services) (ntsc : Bool) (xs : List Sliced) (s : S) (bs : List ℕ)
      → AllFit ntsc xs
      → Has s bs
      → Has (write_ttx_units lib zvbi ntsc xs s) (bs ++ units_of zvbi ntsc xs)
  unfolding write_ttx_units units_of AllFit
  write_ttx_units-Has zvbi ntsc [] s bs ok h = h ∙ ap unpack (sym (append-nil bs))
  write_ttx_units-Has zvbi ntsc (x ∷ xs) s bs (ok, oks) h =
      write_ttx_units-Has zvbi ntsc xs _ _ oks (write_ttx_unit-Has zvbi ntsc x s bs ok h)
      ∙ ap unpack (append_assoc bs (unit_of zvbi ntsc x) (units_of zvbi ntsc xs))

  pos-Has : (s : S) (bs : List ℕ) → Has s bs → lib.bs_pos s / 8 ≡ length bs
  pos-Has s bs h = omega (arith, laws.pos s, ap length h, length-unpack bs)

  stuff-Has :
      (s : S) (bs : List ℕ) (over : ℕ)
      → over < 184
      → Has s bs
      → Has (stuff lib s over) (bs ++ (184 - over) % 184 ∷ replicate ((184 - over) % 184) 255)
  unfolding stuff
  stuff-Has s bs over lt h =
      let n = (184 - over) % 184 in
      let count : (if over == 0 then 0 else 184 - over) ≡ n = ground arith in
      ap (λ k. laws.bits (write_fill lib k (lib.bs_write s 8 k))) count
      ∙ write_fill-Has n _ (bs ++ n ∷ []) (write_byte lib laws s bs n (omega arith) h)
      ∙ ap unpack (append_assoc bs (n ∷ []) (replicate n 255))

  write_stuffing-Has :
      (s : S) (bs : List ℕ) → Has s bs → Has (write_stuffing lib s) (bs ++ stuffing_of (length bs))
  unfolding write_stuffing
  write_stuffing-Has s bs h =
      let t = lib.bs_write s 8 255 in
      let n = length bs in
      let ht = write_byte lib laws s bs 255 (omega arith) h in
      let there : lib.bs_pos s / 8 ≡ n = pos-Has s bs h in
      let behind : (lib.bs_pos t / 8 + 45 + 1) % 184 ≡ (n + 47) % 184 =
        omega (arith, pos-Has t (bs ++ 255 ∷ []) ht, length-append bs (255 ∷ [])) in
      elim (Bool-cases ((n + 45) % 184 == 0)) [
        | inl full ↦
            ap laws.bits (if_true _ _ _ (ap (λ k. (k + 45) % 184 == 0) there ∙ full))
            ∙ h
            ∙ ap unpack (sym (append-nil bs) ∙ ap (λ x. bs ++ x) (sym (if_true _ _ _ full)))
        | inr open_end ↦
            ap laws.bits (if_false _ _ _ (ap (λ k. (k + 45) % 184 == 0) there ∙ open_end))
            ∙ ap (λ k. laws.bits (stuff lib t k)) behind
            ∙ stuff-Has t (bs ++ 255 ∷ []) ((n + 47) % 184) (omega arith) ht
            ∙ ap unpack
                (append_assoc bs (255 ∷ []) _ ∙ ap (λ x. bs ++ x) (sym (if_false _ _ _ open_end)))
      ]

  frame_of-Has : (s : S) (bs : List ℕ) → AllBytes bs → Has s bs → frame_of lib s ≡ (bs, length bs)
  unfolding frame_of
  frame_of-Has s bs p h =
      ap₂ (λ (x : List ℕ) (y : ℕ). (x, y)) (laws.flush s bs p h)
        (pos-Has (lib.bs_flush s) bs (laws.flush_bits s bs h))

  -- When there is memory, each array is as long as libzvbi's and each line fits into five bits, the frame
  -- holds the identifier of the data, a unit for each slice of teletext B in their order and no other, and
  -- stuffing that fills the last packet, with the 45 bytes of the PES header in front; its length is told.
  pub encapsulate_dvb_ttx-units_of :
      (zvbi : Services) (ntsc : Bool) (xs : List Sliced)
      → AllFit ntsc xs
      → (encapsulate_dvb_ttx lib zvbi ntsc true xs
          ≡ some
              (framed (16 ∷ units_of zvbi ntsc xs), length (framed (16 ∷ units_of zvbi ntsc xs))))
        × ((45 + length (framed (16 ∷ units_of zvbi ntsc xs))) % 184 ≡ 0)
  unfolding encapsulate_dvb_ttx unpack
  encapsulate_dvb_ttx-units_of zvbi ntsc xs ok =
      let body = 16 ∷ units_of zvbi ntsc xs in
      let start : Has (lib.bs_write lib.bs_init 8 16) (16 ∷ []) =
        write_byte lib laws lib.bs_init [] 16 (omega arith) laws.init in
      let bytes =
        AllBytes-append body _ (omega arith, units_of-AllBytes zvbi ntsc xs ok)
          (stuffing_of-AllBytes (length body)) in
      (
        ap some (
            frame_of-Has _ (framed body) bytes
              (write_stuffing-Has _ body (write_ttx_units-Has zvbi ntsc xs _ (16 ∷ []) ok start))),
        framed_whole body,
      )
