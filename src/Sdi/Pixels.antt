-- ===== src/Sdi/Pixels.antt =====
-- Lines of pixels in input/sdi/sdi.c. A line is the list of its samples; `none` is a read past the
-- source. The loops run on the rounds that are left, which the callers' widths give.
pub mod Agree
use obe_rt.Base.{
  ℕ, zero, suc, ◌+◌, ◌-◌, ◌*◌, ◌/◌, ◌%◌, ◌^◌, ◌≤◌, ◌<◌, ◌≡◌, refl, sym, ap, ap₂, ◌∙◌, Bool, true,
  false, Option, none, some, List, [], ◌∷◌, ◌++◌, map, replicate, ltb, if◌then◌else◌, arith,
}

-- The three samples of a word of v210 (`READ_PIXELS`).
abbrev pub low_sample : ℕ → ℕ
low_sample val = val % 2 ^ 10

abbrev pub middle_sample : ℕ → ℕ
middle_sample val = val / 2 ^ 10 % 2 ^ 10

abbrev pub high_sample : ℕ → ℕ
high_sample val = val / 2 ^ 20 % 2 ^ 10

-- What four words add before the luma plane and the two chroma planes of the rest.
pub add_planes :
    ℕ → ℕ → ℕ → ℕ → Option (List ℕ × List ℕ × List ℕ) → Option (List ℕ × List ℕ × List ℕ)
add_planes a b c d none = none
add_planes a b c d (some (y, u, v)) = some (
  middle_sample a
      ∷ low_sample b
      ∷ high_sample b
      ∷ middle_sample c
      ∷ low_sample d
      ∷ high_sample d
      ∷ y,
  low_sample a ∷ middle_sample b ∷ high_sample c ∷ u,
  high_sample a ∷ low_sample c ∷ middle_sample d ∷ v,
)

pub unpack_rounds : ℕ → List ℕ → Option (List ℕ × List ℕ × List ℕ)
unpack_rounds zero src = some ([], [], [])
unpack_rounds (suc n) (a ∷ b ∷ c ∷ d ∷ src) = add_planes a b c d (unpack_rounds n src)
unpack_rounds (suc n) _ = none

-- `i` runs from 0 in steps of 6 while it is below `width - 5`.
pub v210_planar_unpack : List ℕ → ℕ → Option (List ℕ × List ℕ × List ℕ)
v210_planar_unpack src width = unpack_rounds (width / 6) src

-- The luma part of the line and the chroma part, which starts `width` samples behind it.
pub add_nv20 : ℕ → ℕ → ℕ → ℕ → Option (List ℕ × List ℕ) → Option (List ℕ × List ℕ)
add_nv20 a b c d none = none
add_nv20 a b c d (some (luma, chroma)) = some (
  middle_sample a
      ∷ low_sample b
      ∷ high_sample b
      ∷ middle_sample c
      ∷ low_sample d
      ∷ high_sample d
      ∷ luma,
  low_sample a
      ∷ high_sample a
      ∷ middle_sample b
      ∷ low_sample c
      ∷ high_sample c
      ∷ middle_sample d
      ∷ chroma,
)

-- What follows the loop, with the samples that are left of the width.
pub nv20_tail : ℕ → List ℕ → Option (List ℕ × List ℕ)
nv20_tail left (a ∷ b ∷ src) =
    if ltb 3 left
    then nv20_four a b src
    else if ltb 1 left
    then some (middle_sample a ∷ low_sample b ∷ [], low_sample a ∷ high_sample a ∷ [])
    else some ([], [])
  where
    nv20_four : ℕ → ℕ → List ℕ → Option (List ℕ × List ℕ)
    nv20_four a b [] = none
    nv20_four a b (c ∷ src) = some (
      middle_sample a ∷ low_sample b ∷ high_sample b ∷ middle_sample c ∷ [],
      low_sample a ∷ high_sample a ∷ middle_sample b ∷ low_sample c ∷ [],
    )
nv20_tail left _ = if ltb 1 left then none else some ([], [])

pub nv20_rounds : ℕ → ℕ → List ℕ → Option (List ℕ × List ℕ)
nv20_rounds zero left src = nv20_tail left src
nv20_rounds (suc n) left (a ∷ b ∷ c ∷ d ∷ src) = add_nv20 a b c d (nv20_rounds n left src)
nv20_rounds (suc n) left _ = none

pub v210_line_to_nv20 : List ℕ → ℕ → Option (List ℕ × List ℕ)
v210_line_to_nv20 src width = nv20_rounds (width / 6) (width % 6) src

-- Every word's samples in order.
pub add_samples : ℕ → Option (List ℕ) → Option (List ℕ)
add_samples w none = none
add_samples w (some dst) = some (low_sample w ∷ middle_sample w ∷ high_sample w ∷ dst)

pub uyvy_rounds : ℕ → List ℕ → Option (List ℕ)
uyvy_rounds zero src = some []
uyvy_rounds (suc n) (a ∷ b ∷ c ∷ d ∷ src) =
    add_samples a (add_samples b (add_samples c (add_samples d (uyvy_rounds n src))))
uyvy_rounds (suc n) _ = none

-- `i` runs in steps of 6 while it is below `width`.
pub v210_line_to_uyvy : List ℕ → ℕ → Option (List ℕ)
v210_line_to_uyvy src width = uyvy_rounds ((width + 5) / 6) src

pub add_pair_nv20 : ℕ → ℕ → ℕ → ℕ → Option (List ℕ × List ℕ) → Option (List ℕ × List ℕ)
add_pair_nv20 y₀ y₁ u v none = none
add_pair_nv20 y₀ y₁ u v (some (luma, chroma)) = some (y₀ ∷ y₁ ∷ luma, u ∷ v ∷ chroma)

pub planar_nv20_rounds : ℕ → List ℕ → List ℕ → List ℕ → Option (List ℕ × List ℕ)
planar_nv20_rounds zero y u v = some ([], [])
planar_nv20_rounds (suc n) (y₀ ∷ y₁ ∷ y) (u₀ ∷ u) (v₀ ∷ v) =
    add_pair_nv20 y₀ y₁ u₀ v₀ (planar_nv20_rounds n y u v)
planar_nv20_rounds (suc n) _ _ _ = none

-- `i` runs in steps of 2 while it is below `width`.
pub yuv422p10_line_to_nv20 : List ℕ → List ℕ → List ℕ → ℕ → Option (List ℕ × List ℕ)
yuv422p10_line_to_nv20 y u v width = planar_nv20_rounds ((width + 1) / 2) y u v

pub add_pair_uyvy : ℕ → ℕ → ℕ → ℕ → Option (List ℕ) → Option (List ℕ)
add_pair_uyvy y₀ y₁ u v none = none
add_pair_uyvy y₀ y₁ u v (some dst) = some (u ∷ y₀ ∷ v ∷ y₁ ∷ dst)

pub planar_uyvy_rounds : ℕ → List ℕ → List ℕ → List ℕ → Option (List ℕ)
planar_uyvy_rounds zero y u v = some []
planar_uyvy_rounds (suc n) (y₀ ∷ y₁ ∷ y) (u₀ ∷ u) (v₀ ∷ v) =
    add_pair_uyvy y₀ y₁ u₀ v₀ (planar_uyvy_rounds n y u v)
planar_uyvy_rounds (suc n) _ _ _ = none

pub yuv422p10_line_to_uyvy : List ℕ → List ℕ → List ℕ → ℕ → Option (List ℕ)
yuv422p10_line_to_uyvy y u v width = planar_uyvy_rounds ((width + 1) / 2) y u v

-- The first `n` samples, without their two low bits.
pub downscale : ℕ → List ℕ → Option (List ℕ)
downscale zero src = some []
downscale (suc n) [] = none
downscale (suc n) (s ∷ src) = add_byte (s / 4 % 256) (downscale n src)
  where
    add_byte : ℕ → Option (List ℕ) → Option (List ℕ)
    add_byte b none = none
    add_byte b (some dst) = some (b ∷ dst)

pub downscale_line : List ℕ → ℕ → Option (List ℕ)
downscale_line src lines = downscale (720 * 2 * lines) src

-- Luma and chroma, as in `add_nv20`.
pub blank_line_nv20 : ℕ → List ℕ × List ℕ
blank_line_nv20 width = (replicate width 0x40, replicate width 0x200)

pub blank_line_uyvy : ℕ → List ℕ
blank_line_uyvy zero = []
blank_line_uyvy (suc width) = 0x200 ∷ 0x40 ∷ blank_line_uyvy width
