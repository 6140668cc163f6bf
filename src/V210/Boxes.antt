-- ===== src/V210/Boxes.antt =====
-- The boxes of input/sdi/v210.c do not overlap, so the value that they write is read back.
use obe_rt.Base.{
  ℕ, zero, suc, ◌+◌, ◌-◌, ◌*◌, ◌/◌, ◌%◌, ◌^◌, ◌≤◌, ◌<◌, ◌≡◌, ◌≢◌, ◌⊎◌, inl, inr, refl, ap, ◌∙◌,
  arith, ltb, ltb-cases, if◌then◌else◌,
}
use native.Mathlib.Nat.{div-le_self}
use obe_rt.Base.Bits.{halve}
use obe_rt.V210.{
  Words, box_height, colour_word, store, draw_groups, draw_6_pixels, draw_lines, colour_luma,
  draw_box, draw_box_at, write_boxes, write_32bit_value, sample, read_boxes, read_32bit_value,
}

store_ne : (a v b : ℕ) (frame : Words) → b ≢ a → store a v frame b ≡ frame b
unfolding store
store_ne a v b frame h = ground arith

store_hit : (a v b : ℕ) (frame : Words) → b ≡ a → store a v frame b ≡ v
unfolding store
store_hit a v b frame h = ground arith

away : (addr b x : ℕ) → (b < addr) ⊎ (addr + 8 ≤ b) → addr ≤ x → x < addr + 8 → b ≢ x
away addr b x h lo hi e = ground arith

module _ (y : ℕ) where
  -- Two groups of six pixels are eight words.
  draw_6_pixels_outside :
      (addr b : ℕ) (frame : Words)
      → (b < addr) ⊎ (addr + 8 ≤ b)
      → draw_6_pixels y addr frame b ≡ frame b
  unfolding draw_6_pixels draw_groups
  draw_6_pixels_outside addr b frame h =
      store_ne _ _ b _ (away addr b (addr + 4 + 3) h (omega arith) (omega arith))
      ∙ store_ne _ _ b _ (away addr b (addr + 4 + 2) h (omega arith) (omega arith))
      ∙ store_ne _ _ b _ (away addr b (addr + 4 + 1) h (omega arith) (omega arith))
      ∙ store_ne _ _ b _ (away addr b (addr + 4) h (omega arith) (omega arith))
      ∙ store_ne _ _ b _ (away addr b (addr + 3) h (omega arith) (omega arith))
      ∙ store_ne _ _ b _ (away addr b (addr + 2) h (omega arith) (omega arith))
      ∙ store_ne _ _ b _ (away addr b (addr + 1) h (omega arith) (omega arith))
      ∙ store_ne _ _ b _ (away addr b addr h (omega arith) (omega arith))

  draw_6_pixels_luma :
      (addr b : ℕ) (frame : Words) → b ≡ addr + 5 → draw_6_pixels y addr frame b ≡ colour_word y 1
  unfolding draw_6_pixels draw_groups
  draw_6_pixels_luma addr b frame e =
      store_ne _ _ b _ (λ e'. omega (arith, e, e'))
      ∙ store_ne _ _ b _ (λ e'. omega (arith, e, e'))
      ∙ store_hit _ _ b _ (omega (arith, e))

  module _ (stride : ℕ) where
    -- Lines behind a word leave it alone.
    draw_lines_below :
        (n addr b : ℕ) (frame : Words) → b < addr → draw_lines stride y n addr frame b ≡ frame b
    unfolding draw_lines
    draw_lines_below zero addr b frame h = refl
    draw_lines_below (suc n) addr b frame h =
        draw_lines_below n (addr + stride) b _ (omega (arith, h))
        ∙ draw_6_pixels_outside addr b frame (inl h)

    -- In the third line of a box.
    box_luma :
        (addr b : ℕ) (frame : Words)
        → 8 ≤ stride
        → b ≡ addr + stride + stride + 5
        → draw_lines stride y 12 addr frame b ≡ colour_word y 1
    unfolding draw_lines
    box_luma addr b frame wide e =
        draw_lines_below 9 (addr + stride + stride + stride) b _ (omega (arith, e, wide))
        ∙ draw_6_pixels_luma (addr + stride + stride) b _ e

    -- Next to the third line of a box.
    box_outside :
        (addr b : ℕ) (frame : Words)
        → addr + stride + 8 ≤ b
        → b < addr + stride + stride + stride
        → (b < addr + stride + stride) ⊎ (addr + stride + stride + 8 ≤ b)
        → draw_lines stride y 12 addr frame b ≡ frame b
    unfolding draw_lines
    box_outside addr b frame after before beside =
        draw_lines_below 9 (addr + stride + stride + stride) b _ before
        ∙ draw_6_pixels_outside (addr + stride + stride) b _ beside
        ∙ draw_6_pixels_outside (addr + stride) b _ (inr after)
        ∙ draw_6_pixels_outside addr b frame (inr (omega (arith, after)))

lt_of_ne : (p q : ℕ) → p ≢ q → p ≤ q → p < q
lt_of_ne p q ne le = elim (ltb-cases p q) [
  | inl (_, lt) ↦ lt
  | inr (_, ge) ↦ absurd (ne (omega (arith, le, ge)))
]

module _ (stride line : ℕ) (wide : 256 ≤ stride) where
  -- The word that the reader samples for box q.
  abbrev spot : ℕ → ℕ
  spot q = (line + 2) * stride + (q * 12 + 6) / 6 * 4 + 1

  paints :
      (color q : ℕ) (frame : Words)
      → draw_box_at stride color (q * 12) line frame (spot q) ≡ colour_word (colour_luma color) 1
  unfolding draw_box_at draw_box
  paints color q frame =
      box_luma (colour_luma color) stride _ (spot q) frame (omega (arith, wide)) (omega arith)

  leaves :
      (color p q : ℕ) (frame : Words)
      → p < 32
      → q < 32
      → p ≢ q
      → draw_box_at stride color (p * 12) line frame (spot q) ≡ frame (spot q)
  unfolding draw_box_at draw_box
  leaves color p q frame hp hq ne =
      box_outside (colour_luma color) stride _ (spot q) frame (omega (arith, wide, hp, hq))
        (omega (arith, wide, hp, hq)) (apart p q ne)
    where
      apart :
          (p q : ℕ)
          → p ≢ q
          → (spot q < line * stride + p * 12 / 6 * 4 + stride + stride)
            ⊎ (line * stride + p * 12 / 6 * 4 + stride + stride + 8 ≤ spot q)
      apart p q ne = elim (ltb-cases q p) [
        | inl (_, lt) ↦ inl (omega (arith, lt))
        | inr (_, le) ↦ inr (omega (arith, le, lt_of_ne p q ne le))
      ]

  keeps :
      (value n sh q : ℕ) (frame : Words)
      → n ≤ q
      → q < 32
      → write_boxes stride value line n sh frame (spot q) ≡ frame (spot q)
  unfolding write_boxes
  keeps value zero sh q frame le hq = refl
  keeps value (suc p) sh q frame le hq =
      keeps value p (suc sh) q _ (omega (arith, le)) hq
      ∙ leaves (value / 2 ^ sh % 2) p q frame (omega (arith, le, hq)) hq (λ e. omega (arith, e, le))

  painted :
      (value n sh q : ℕ) (frame : Words)
      → sh + n ≡ 32
      → q < n
      → write_boxes stride value line n sh frame (spot q)
        ≡ colour_word (colour_luma (value / 2 ^ (31 - q) % 2)) 1
  unfolding write_boxes
  painted value zero sh q frame e lt = absurd (omega (arith, lt))
  painted value (suc p) sh q frame e lt = elim (ltb-cases q p) [
    | inl (_, below) ↦ painted value p (suc sh) q _ (omega (arith, e)) below
    | inr (_, above) ↦
        let same : q ≡ p = omega (arith, lt, above) in
        let shift : sh ≡ 31 - q = omega (arith, e, same) in
        ap
          (λ i.
            write_boxes stride value line p (suc sh)
              (draw_box_at stride (value / 2 ^ sh % 2) (p * box_height) line frame) (spot i))
          same
        ∙ keeps value p (suc sh) p _ (omega arith) (omega (arith, e))
        ∙ paints (value / 2 ^ sh % 2) p frame
        ∙ ap (λ i. colour_word (colour_luma (value / 2 ^ i % 2)) 1) shift
  ]

-- The threshold tells the two colours apart.
bit_of_luma :
    (c : ℕ) → c < 2 → (if ltb 0x080 (colour_word (colour_luma c) 1 % 2 ^ 10) then 1 else 0) ≡ c
bit_of_luma zero h = refl
bit_of_luma (suc zero) h = refl
bit_of_luma (suc (suc c)) h = absurd (omega (arith, h))

div_bound : (v d : ℕ) → v < 2 ^ 32 → v / d < 2 ^ 32
div_bound v d h = omega (arith, h, div-le_self v d)

-- A frame in which every sampled word shows its bit of the value.
abbrev Shows : ℕ → ℕ → ℕ → Words → Type 0
Shows stride line value frame =
    (i : ℕ)
    → i < 32
    → sample stride line i frame ≡ colour_word (colour_luma (value / 2 ^ (31 - i) % 2)) 1

read_boxes-Shows :
    (stride line value n i bits : ℕ) (frame : Words)
    → value < 2 ^ 32
    → Shows stride line value frame
    → i + n ≡ 32
    → bits ≡ value / 2 ^ n
    → read_boxes stride line n i bits frame ≡ value
unfolding read_boxes
read_boxes-Shows stride line value zero i bits frame small shows e h = omega (arith, h)
read_boxes-Shows stride line value (suc m) i bits frame small shows e h =
    read_boxes-Shows stride line value m (suc i) _ frame small shows (omega (arith, e)) (
      let bit : (if ltb 0x080 (sample stride line i frame % 2 ^ 10) then 1 else 0)
          ≡ value / 2 ^ m % 2 =
        ap (λ w. if ltb 0x080 (w % 2 ^ 10) then 1 else 0) (shows i (omega (arith, e)))
        ∙ bit_of_luma (value / 2 ^ (31 - i) % 2) (omega arith)
        ∙ (let same : 31 - i ≡ m = omega (arith, e) in ap (λ k. value / 2 ^ k % 2) same) in
      omega (arith, bit, h, halve value m, div_bound value (2 ^ m) small))

-- In a frame of at least 256 words in a line, a 32-bit value that has been written at a line is read
-- back there, whatever the frame showed before.
pub read_32bit_value-write_32bit_value :
    (stride line value : ℕ) (frame : Words)
    → 256 ≤ stride
    → value < 2 ^ 32
    → read_32bit_value stride line (write_32bit_value stride value line frame) ≡ value
unfolding read_32bit_value write_32bit_value sample
read_32bit_value-write_32bit_value stride line value frame wide small =
    read_boxes-Shows stride line value 32 0 0 _ small
      (λ i h. painted stride line wide value 32 0 i frame refl h) refl (omega (arith, small))
