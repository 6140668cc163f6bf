-- ===== src/Sdi/Lines.antt =====
-- Line numbers of interlaced pictures: sdi_next_line, obe_convert_smpte_to_analogue and
-- obe_convert_analogue_to_smpte of input/sdi/sdi.c, with field_start_lines of input/sdi/sdi.h.
-- A video format is the value of its enumerator of obe/obe.h.
use obe_rt.Base.{
  ℕ, ◌+◌, ◌<◌, ◌≡◌, refl, Bool, true, false, not, ◌&&◌, ◌||◌, Option, none, some, List, [], ◌∷◌,
  ◌==◌, if◌then◌else◌, arith,
}
use obe_rt.Base.Int.{ℤ, pos, ◌+ℤ◌, ◌-ℤ◌, ltb_ℤ, eq_of_parts, int_laws}

abbrev pub input_video_format_pal : ℕ
input_video_format_pal = 1

abbrev pub input_video_format_ntsc : ℕ
input_video_format_ntsc = 2

abbrev pub input_video_format_1080i_50 : ℕ
input_video_format_1080i_50 = 7

abbrev pub input_video_format_1080i_5994 : ℕ
input_video_format_1080i_5994 = 8

abbrev pub input_video_format_1080i_60 : ℕ
input_video_format_1080i_60 = 9

-- `IS_INTERLACED`
unfoldable pub is_interlaced : ℕ → Bool
is_interlaced format =
    format == input_video_format_pal
    || format == input_video_format_ntsc
    || format == input_video_format_1080i_50
    || format == input_video_format_1080i_5994
    || format == input_video_format_1080i_60

-- `obe_line_number_t`
pub record LineNumber : Type 0 where
  pub format : ℕ
  pub line : ℤ
  pub field_two : ℤ

-- The rows before the one of format -1.
unfoldable pub field_start_lines : List LineNumber
field_start_lines =
    record { format = input_video_format_pal; line = pos 1; field_two = pos 314 }
    ∷ record { format = input_video_format_ntsc; line = pos 4; field_two = pos 267 }
    ∷ record { format = input_video_format_1080i_50; line = pos 1; field_two = pos 564 }
    ∷ record { format = input_video_format_1080i_5994; line = pos 1; field_two = pos 564 }
    ∷ record { format = input_video_format_1080i_60; line = pos 1; field_two = pos 564 }
    ∷ []

-- The search; without a row for the format it stops at the last, whose `field_two` is zero.
unfoldable pub row_of : List LineNumber → ℕ → LineNumber
row_of [] format = record { format = 0; line = pos 0 -ℤ pos 1; field_two = pos 0 }
row_of (r ∷ rs) format = if format == r.format then r else row_of rs format

unfoldable pub in_first_field : LineNumber → ℤ → Bool
in_first_field r line = not (ltb_ℤ line r.line) && ltb_ℤ line r.field_two

pub sdi_next_line : ℕ → ℤ → ℤ
sdi_next_line format line_smpte =
    let r = row_of field_start_lines format in
    if not (is_interlaced format)
    then line_smpte +ℤ pos 1
    else if in_first_field r line_smpte
    then r.field_two -ℤ r.line +ℤ line_smpte
    else line_smpte -ℤ r.field_two +ℤ r.line +ℤ pos 1

-- The line and the field, or `none` for -1.
unfoldable pub convert_smpte_to_analogue : ℕ → ℤ → Option (ℤ × ℕ)
convert_smpte_to_analogue format line_smpte =
    let r = row_of field_start_lines format in
    if not (is_interlaced format)
    then none
    else if in_first_field r line_smpte
    then some (line_smpte, 1)
    else some (line_smpte -ℤ r.field_two +ℤ r.line, 2)

pub convert_analogue_to_smpte : ℕ → ℤ → ℕ → Option ℤ
convert_analogue_to_smpte format line_analogue field =
    let r = row_of field_start_lines format in
    if not (is_interlaced format)
    then none
    else if field == 1
    then some line_analogue
    else some (r.field_two -ℤ r.line +ℤ line_analogue)

-- The formats of interlaced pictures, with the first line of each of the two fields.
pub data StartsAt : ℕ → ℕ → ℕ → Type 0 where
  pal : StartsAt 1 1 314
  ntsc : StartsAt 2 4 267
  hd_50 : StartsAt 7 1 564
  hd_5994 : StartsAt 8 1 564
  hd_60 : StartsAt 9 1 564

-- The search finds the row of the format.
row_of-StartsAt :
    (format first second : ℕ)
    → StartsAt format first second
    → (is_interlaced format ≡ true)
      × (row_of field_start_lines format
          ≡ record { format = format; line = pos first; field_two = pos second })
unfolding is_interlaced row_of field_start_lines
row_of-StartsAt format first second pal = (refl, refl)
row_of-StartsAt format first second ntsc = (refl, refl)
row_of-StartsAt format first second hd_50 = (refl, refl)
row_of-StartsAt format first second hd_5994 = (refl, refl)
row_of-StartsAt format first second hd_60 = (refl, refl)

in_first_field-first :
    (format first second k : ℕ)
    → first + k < second
    → in_first_field
        (record { format = format; line = pos first; field_two = pos second })
        (pos (first + k))
      ≡ true
unfolding in_first_field
in_first_field-first format first second k h = ground arith

in_first_field-second :
    (format first second k : ℕ)
    → in_first_field
        (record { format = format; line = pos first; field_two = pos second })
        (pos (second + k))
      ≡ false
unfolding in_first_field
in_first_field-second format first second k = ground arith

in_first_field-before :
    (format first second early : ℕ)
    → early < first
    → in_first_field
        (record { format = format; line = pos first; field_two = pos second })
        (pos early)
      ≡ false
unfolding in_first_field
in_first_field-before format first second early h = ground arith

across : (a b k : ℕ) → pos b -ℤ pos a +ℤ pos (a + k) ≡ pos (b + k)
across a b k = eq_of_parts _ _ (omega int_laws)

back : (a b k : ℕ) → pos (b + k) -ℤ pos b +ℤ pos a ≡ pos (a + k)
back a b k = eq_of_parts _ _ (omega int_laws)

before_start : (a b k : ℕ) → pos k -ℤ pos b +ℤ pos a ≡ pos (k + a) -ℤ pos b
before_start a b k = eq_of_parts _ _ (omega int_laws)

onward : (a b k : ℕ) → pos (b + k) -ℤ pos b +ℤ pos a +ℤ pos 1 ≡ pos (a + k + 1)
onward a b k = eq_of_parts _ _ (omega int_laws)

-- Lines are walked field by field: where the fields of a format start at the lines `first` and `second`,
-- line number k of the first field has the analogue number first + k and is followed by line second + k,
-- which is line number k of the second field with the same analogue number and is followed by line
-- first + k + 1; and the two pairs of analogue number and field convert back to these lines. This holds
-- while first + k is before the second field. A line before the first field counts as one of the second,
-- with the analogue number early + first - second, which is below zero.
pub sdi_next_line-StartsAt :
    (format first second k early : ℕ)
    → StartsAt format first second
    → first + k < second
    → early < first
    → (convert_smpte_to_analogue format (pos (first + k)) ≡ some (pos (first + k), 1))
      × (sdi_next_line format (pos (first + k)) ≡ pos (second + k))
      × (convert_smpte_to_analogue format (pos (second + k)) ≡ some (pos (first + k), 2))
      × (sdi_next_line format (pos (second + k)) ≡ pos (first + k + 1))
      × (convert_analogue_to_smpte format (pos (first + k)) 1 ≡ some (pos (first + k)))
      × (convert_analogue_to_smpte format (pos (first + k)) 2 ≡ some (pos (second + k)))
      × (convert_smpte_to_analogue format (pos early) ≡ some (pos (early + first) -ℤ pos second, 2))
unfolding convert_smpte_to_analogue sdi_next_line convert_analogue_to_smpte
sdi_next_line-StartsAt format first second k early starts h before =
    let (interlaced, row) = row_of-StartsAt format first second starts in
    rw
      (
        interlaced,
        row,
        in_first_field-first format first second k h,
        in_first_field-second format first second k,
        in_first_field-before format first second early before,
        before_start first second early,
        across first second k,
        onward first second k,
        back first second k,
      )
      (refl, refl, refl, refl, refl, refl, refl)
