-- ===== src/UserData/Sar.antt =====
-- filters/video/video.c: the aspect ratio of the samples, by the size of the image.
use obe_rt.Base.{ℕ, Bool, ◌&&◌, ◌||◌, List, [], ◌∷◌, ◌==◌, if◌then◌else◌}
use obe_rt.Base.Int.{ℤ, pos, negsuc}
use obe_rt.UserData.{RawFrame}

-- `obe_sar_t`
pub record ObeSar : Type 0 where
  pub width : ℕ
  pub height : ℕ
  pub sar_width : ℕ
  pub sar_height : ℕ

abbrev sar : ℕ → ℕ → ℕ → ℕ → ObeSar
sar width height sar_width sar_height = record {
  width = width;
  height = height;
  sar_width = sar_width;
  sar_height = sar_height;
}

-- `obe_sars[0]`, for 4:3
abbrev narrow_sars : List ObeSar
narrow_sars =
    sar 720 480 10 11
    ∷ sar 640 480 1 1
    ∷ sar 528 480 40 33
    ∷ sar 544 480 40 33
    ∷ sar 480 480 15 11
    ∷ sar 352 480 20 11
    ∷ sar 720 576 12 11
    ∷ sar 544 576 16 11
    ∷ sar 480 576 18 11
    ∷ sar 352 576 24 11
    ∷ sar 1920 1080 1 1
    ∷ sar 1280 720 1 1
    ∷ []

-- `obe_sars[1]`, for 16:9
abbrev wide_sars : List ObeSar
wide_sars =
    sar 720 480 40 33
    ∷ sar 640 480 4 3
    ∷ sar 544 480 16 99
    ∷ sar 480 480 20 11
    ∷ sar 352 480 80 33
    ∷ sar 720 576 16 11
    ∷ sar 544 576 64 33
    ∷ sar 480 576 24 11
    ∷ sar 352 576 32 11
    ∷ sar 1920 1080 1 1
    ∷ sar 1440 1080 4 3
    ∷ sar 1280 1080 3 2
    ∷ sar 960 1080 2 1
    ∷ sar 1280 720 1 1
    ∷ sar 960 720 4 3
    ∷ sar 640 720 2 1
    ∷ []

-- The loop over a table
unfoldable pub set_sar_from : List ObeSar → RawFrame → ℤ × RawFrame
set_sar_from [] f = (negsuc 0, f)
set_sar_from (s ∷ sars) f =
    if (f.width == s.width) && (f.height == s.height)
    then (pos 0, record f { sar_width = s.sar_width; sar_height = s.sar_height })
    else set_sar_from sars f

-- `is_wide` is 0 or 1.
unfoldable pub set_sar : RawFrame → ℕ → ℤ × RawFrame
set_sar f is_wide = set_sar_from (if is_wide == 0 then narrow_sars else wide_sars) f

-- `IS_SD`
unfoldable pub is_sd : ℕ → Bool
is_sd format = (format == 1) || (format == 2)
