-- ===== src/Video.antt =====
-- filters/video/video.c: the rows that are dithered and the chroma rows that are downsampled. A row is
-- the list of its samples; `none` is a read past the source or the dither row.
mod Tests
use obe_rt.Base.{
  drop, ℕ, zero, suc, ◌+◌, ◌-◌, ◌*◌, ◌/◌, ◌%◌, ◌^◌, ◌≤◌, ◌<◌, ◌≡◌, refl, ap, Option, none, some,
  List, [], ◌∷◌, length, get_elem?, get_or, if◌then◌else◌, arith,
}

-- `(src + dither)*scale>>shift`, into a `uint8_t`
pub dithered : ℕ → ℕ → ℕ
dithered s d = (s + d) * 511 / 2 ^ 11 % 2 ^ 8

pub put : ℕ → Option ℕ → Option (List ℕ) → Option (List ℕ)
put s none rest = none
put s (some d) none = none
put s (some d) (some dst) = some (dithered s d ∷ dst)

-- Both loops: the first, by eights, uses the entries in turn, which are those of `k & 7`.
pub dither_from : List ℕ → ℕ → ℕ → List ℕ → Option (List ℕ)
dither_from dither k zero src = some []
dither_from dither k (suc n) [] = none
dither_from dither k (suc n) (s ∷ src) =
    put s (get_elem? dither (k % 8)) (dither_from dither (k + 1) n src)

pub dither_row_10_to_8 : List ℕ → List ℕ → ℕ → Option (List ℕ)
dither_row_10_to_8 src dither width = dither_from dither 0 width src

-- The next sample of a chroma row, from the row and the same row of the next field.
pub add_sample : ℕ → Option (List ℕ) → Option (List ℕ)
add_sample s none = none
add_sample s (some dst) = some (s % 2 ^ 16 ∷ dst)

pub top_rounds : ℕ → List ℕ → List ℕ → Option (List ℕ)
top_rounds zero src srcf = some []
top_rounds (suc n) (a ∷ src) (b ∷ srcf) = add_sample ((3 * a + b + 2) / 4) (top_rounds n src srcf)
top_rounds (suc n) _ _ = none

pub bottom_rounds : ℕ → List ℕ → List ℕ → Option (List ℕ)
bottom_rounds zero src srcf = some []
bottom_rounds (suc n) (a ∷ src) (b ∷ srcf) =
    add_sample ((a + 3 * b + 2) / 4) (bottom_rounds n src srcf)
bottom_rounds (suc n) _ _ = none

-- `srcf` is `stride` samples behind `src`.
pub downsample_chroma_row_top : List ℕ → ℕ → ℕ → Option (List ℕ)
downsample_chroma_row_top src width stride = top_rounds (width / 2) src (drop stride src)

pub downsample_chroma_row_bottom : List ℕ → ℕ → ℕ → Option (List ℕ)
downsample_chroma_row_bottom src width stride = bottom_rounds (width / 2) src (drop stride src)

-- The bottom row's weights are the top row's, the other way round.
pub bottom_rounds_swapped :
    (n : ℕ) (src srcf : List ℕ) → bottom_rounds n src srcf ≡ top_rounds n srcf src
unfolding bottom_rounds top_rounds
bottom_rounds_swapped zero src srcf = refl
bottom_rounds_swapped (suc n) [] [] = refl
bottom_rounds_swapped (suc n) [] (b ∷ srcf) = refl
bottom_rounds_swapped (suc n) (a ∷ src) [] = refl
bottom_rounds_swapped (suc n) (a ∷ src) (b ∷ srcf) =
    let sum : (a + 3 * b + 2) / 4 ≡ (3 * b + a + 2) / 4 = omega arith in
    rw (sum, bottom_rounds_swapped n src srcf) refl

-- Every sample is below a bound.
unfoldable pub AllBelow : ℕ → List ℕ → Type 0
AllBelow b [] = 0 ≤ 0
AllBelow b (x ∷ xs) = (x < b) × AllBelow b xs

-- The samples of a row one by one: four times each is at most three above
-- the sample of the source and at most five below it.
unfoldable pub Quartered : List ℕ → List ℕ → ℕ → Type 0
Quartered src dst zero = dst ≡ []
Quartered [] dst (suc n) = 1 ≤ 0
Quartered (s ∷ src) [] (suc n) = 1 ≤ 0
Quartered (s ∷ src) (d ∷ dst) (suc n) = (s ≤ 4 * d + 5) × (4 * d ≤ s + 3) × Quartered src dst n

AllBelow-get_elem? :
    (b : ℕ) (xs : List ℕ) (i : ℕ)
    → AllBelow b xs
    → i < length xs
    → (x : ℕ) × (get_elem? xs i ≡ some x) × (x < b)
unfolding AllBelow
AllBelow-get_elem? b [] i all h = absurd (omega arith)
AllBelow-get_elem? b (x ∷ xs) zero (below, all) h = (x, refl, below)
AllBelow-get_elem? b (x ∷ xs) (suc i) (below, all) h = AllBelow-get_elem? b xs i all (omega arith)

dithered-bounds :
    (s d : ℕ) → s < 1024 → d < 4 → (s ≤ 4 * dithered s d + 5) × (4 * dithered s d ≤ s + 3)
unfolding dithered
dithered-bounds s d h k = (omega arith, omega arith)

dither_from-Quartered :
    (dither : List ℕ) (k n : ℕ) (src : List ℕ)
    → length dither ≡ 8
    → AllBelow 4 dither
    → AllBelow 1024 src
    → n ≤ length src
    → (dst : List ℕ) × (dither_from dither k n src ≡ some dst) × Quartered src dst n
unfolding dither_from put AllBelow Quartered
dither_from-Quartered dither k zero src eight small samples h = ([], refl, refl)
dither_from-Quartered dither k (suc n) [] eight small samples h = absurd (omega arith)
dither_from-Quartered dither k (suc n) (s ∷ src) eight small (below, samples) h =
    let (d, got, low) = AllBelow-get_elem? 4 dither (k % 8) small (omega arith) in
    let (dst, rest, near) =
      dither_from-Quartered dither (k + 1) n src eight small samples (omega arith) in
    let (up, down) = dithered-bounds s d below low in
    rw (got, rest) (dithered s d ∷ dst, refl, (up, down, near))

-- A row of 10-bit samples becomes a row of 8-bit samples that are theirs at a quarter, and no sum wraps:
-- for a dither row of eight entries below 4, as in the table, and a source of at least the width, four
-- times each result is at most three above its sample and at most five below it.
pub dither_row_10_to_8-Quartered :
    (src dither : List ℕ) (width : ℕ)
    → length dither ≡ 8
    → AllBelow 4 dither
    → AllBelow 1024 src
    → width ≤ length src
    → (dst : List ℕ) × (dither_row_10_to_8 src dither width ≡ some dst) × Quartered src dst width
unfolding dither_row_10_to_8
dither_row_10_to_8-Quartered src dither width eight small samples h =
    dither_from-Quartered dither 0 width src eight small samples h
