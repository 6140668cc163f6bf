-- ===== src/Sdi/Pixels/Agree.antt =====
-- The direct conversions of a v210 line and those through the planar format.
use obe_rt.Base.{
  ℕ, zero, suc, ◌+◌, ◌*◌, ◌/◌, ◌%◌, ◌≤◌, ◌≡◌, refl, some, List, [], ◌∷◌, length, arith,
}
use obe_rt.Sdi.Pixels.{
  add_planes, unpack_rounds, v210_planar_unpack, add_nv20, nv20_tail, nv20_rounds,
  v210_line_to_nv20, add_samples, uyvy_rounds, v210_line_to_uyvy, add_pair_nv20, planar_nv20_rounds,
  yuv422p10_line_to_nv20, add_pair_uyvy, planar_uyvy_rounds, yuv422p10_line_to_uyvy,
}

nv20_tail_zero : (src : List ℕ) → nv20_tail 0 src ≡ some ([], [])
unfolding nv20_tail
nv20_tail_zero [] = refl
nv20_tail_zero (a ∷ []) = refl
nv20_tail_zero (a ∷ b ∷ src) = refl

-- Unpacking `n` groups, and what the four conversions make of them.
abbrev Agrees : ℕ → List ℕ → Type 0
Agrees n src =
    (y u v : List ℕ) × (luma chroma line : List ℕ) × (unpack_rounds n src ≡ some (y, u, v))
    × (nv20_rounds n 0 src ≡ some (luma, chroma))
    × (planar_nv20_rounds (3 * n) y u v ≡ some (luma, chroma))
    × (uyvy_rounds n src ≡ some line)
    × (planar_uyvy_rounds (3 * n) y u v ≡ some line)

rounds-Agrees : (n : ℕ) (src : List ℕ) → 4 * n ≤ length src → Agrees n src
unfolding unpack_rounds nv20_rounds planar_nv20_rounds uyvy_rounds planar_uyvy_rounds add_planes
    add_nv20 add_samples add_pair_nv20 add_pair_uyvy
rounds-Agrees zero src h = ([], [], [], [], [], [], refl, nv20_tail_zero src, refl, refl, refl)
rounds-Agrees (suc n) (a ∷ b ∷ c ∷ d ∷ src) h =
    let (y, u, v, luma, chroma, line, unpacked, nv20, planar_nv20, uyvy, planar_uyvy) =
      rounds-Agrees n src (omega arith) in
    let groups : 3 * suc n ≡ suc (suc (suc (3 * n))) = omega arith in
    rw (unpacked, nv20, uyvy, groups)
      (_, _, _, _, _, _, refl, refl, rw planar_nv20 refl, refl, rw planar_uyvy refl)
rounds-Agrees (suc n) [] h = absurd (omega arith)
rounds-Agrees (suc n) (a ∷ []) h = absurd (omega arith)
rounds-Agrees (suc n) (a ∷ b ∷ []) h = absurd (omega arith)
rounds-Agrees (suc n) (a ∷ b ∷ c ∷ []) h = absurd (omega arith)

-- A v210 line whose width is a multiple of six comes out the same on the direct path and through the
-- planar format: from a source with the line's four words for each six pixels, unpacking it into
-- planes and then forming the HD line gives the luma and chroma parts of the direct conversion, and
-- forming the SD line gives the samples of the direct conversion.
pub v210_planar_unpack-agrees :
    (n : ℕ) (src : List ℕ)
    → 4 * n ≤ length src
    → (y u v : List ℕ) × (luma chroma line : List ℕ) × (v210_planar_unpack src (6 * n)
        ≡ some (y, u, v))
      × (v210_line_to_nv20 src (6 * n) ≡ some (luma, chroma))
      × (yuv422p10_line_to_nv20 y u v (6 * n) ≡ some (luma, chroma))
      × (v210_line_to_uyvy src (6 * n) ≡ some line)
      × (yuv422p10_line_to_uyvy y u v (6 * n) ≡ some line)
unfolding v210_planar_unpack v210_line_to_nv20 yuv422p10_line_to_nv20 v210_line_to_uyvy
    yuv422p10_line_to_uyvy
v210_planar_unpack-agrees n src h =
    let whole : 6 * n / 6 ≡ n = omega arith in
    let left : 6 * n % 6 ≡ 0 = omega arith in
    let up : (6 * n + 5) / 6 ≡ n = omega arith in
    let pairs : (6 * n + 1) / 2 ≡ 3 * n = omega arith in
    rw (whole, left, up, pairs) (rounds-Agrees n src h)
