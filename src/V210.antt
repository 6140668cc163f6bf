-- ===== src/V210.antt =====
-- input/sdi/v210.c: the boxes that carry a 32-bit value in the picture.
-- A frame is the function from the index of a 32-bit word to the word. The scale factor of the reader
-- is one, so its arithmetic in doubles is exact; a stride is given in words.
pub mod Boxes
mod Tests
use obe_rt.Base.{ℕ, zero, suc, ◌+◌, ◌-◌, ◌*◌, ◌/◌, ◌%◌, ◌^◌, Bool, ltb, ◌==◌, if◌then◌else◌}

abbrev pub Words : Type 0
Words = ℕ → ℕ

-- `V210_BOX_HEIGHT`
abbrev pub box_height : ℕ
box_height = 12

abbrev pub y_white : ℕ
y_white = 0x3ff

abbrev pub y_black : ℕ
y_black = 0

abbrev pub chroma : ℕ
chroma = 0x200

-- `V210_white` and `V210_black`: even words hold one luma sample, odd words two.
abbrev pub colour_word : ℕ → ℕ → ℕ
colour_word y zero = chroma * 2 ^ 20 + y * 2 ^ 10 + chroma
colour_word y (suc zero) = y * 2 ^ 20 + chroma * 2 ^ 10 + y
colour_word y (suc (suc zero)) = chroma * 2 ^ 20 + y * 2 ^ 10 + chroma
colour_word y (suc (suc (suc _))) = y * 2 ^ 20 + chroma * 2 ^ 10 + y

pub store : ℕ → ℕ → Words → Words
store a v frame b = if b == a then v else frame b

-- The loop of `V210_draw_6_pixels` for a number of rounds.
pub draw_groups : ℕ → ℕ → ℕ → Words → Words
draw_groups y zero addr frame = frame
draw_groups y (suc n) addr frame = draw_groups y n (addr + 4) (
    store (addr + 3) (colour_word y 3) (
      store (addr + 2) (colour_word y 2)
        (store (addr + 1) (colour_word y 1) (store addr (colour_word y 0) frame))))

pub draw_6_pixels : ℕ → ℕ → Words → Words
draw_6_pixels y addr frame = draw_groups y (box_height / 6) addr frame

-- The loop over l of `V210_draw_box`, from the line at an address on.
pub draw_lines : ℕ → ℕ → ℕ → ℕ → Words → Words
draw_lines stride y zero addr frame = frame
draw_lines stride y (suc n) addr frame =
    draw_lines stride y n (addr + stride) (draw_6_pixels y addr frame)

-- The colour is white for one and black for any other number.
abbrev pub colour_luma : ℕ → ℕ
colour_luma color = if color == 1 then y_white else y_black

pub draw_box : ℕ → ℕ → ℕ → Words → Words
draw_box stride color addr frame = draw_lines stride (colour_luma color) box_height addr frame

pub draw_box_at : ℕ → ℕ → ℕ → ℕ → Words → Words
draw_box_at stride color x y frame = draw_box stride color (y * stride + x / 6 * 4) frame

-- The loop of `V210_write_32bit_value`: p falls to zero while sh grows.
pub write_boxes : ℕ → ℕ → ℕ → ℕ → ℕ → Words → Words
write_boxes stride value line zero sh frame = frame
write_boxes stride value line (suc p) sh frame =
    write_boxes stride value line p (suc sh)
      (draw_box_at stride (value / 2 ^ sh % 2) (p * box_height) line frame)

pub write_32bit_value : ℕ → ℕ → ℕ → Words → Words
write_32bit_value stride value line frame = write_boxes stride value line 32 0 frame

-- The word that round i of `V210_read_32bit_value` samples.
pub sample : ℕ → ℕ → ℕ → Words → ℕ
sample stride line i frame =
    frame ((line + 2) * stride + (i * box_height + box_height / 2) / 6 * 4 + 1)

-- The loop for a number of rounds from i on.
pub read_boxes : ℕ → ℕ → ℕ → ℕ → ℕ → Words → ℕ
read_boxes stride line zero i bits frame = bits
read_boxes stride line (suc n) i bits frame =
    read_boxes stride line n (suc i)
      (bits * 2 % 2 ^ 32 + (if ltb 0x080 (sample stride line i frame % 2 ^ 10) then 1 else 0)) frame

pub read_32bit_value : ℕ → ℕ → Words → ℕ
read_32bit_value stride line frame = read_boxes stride line 32 0 0 frame
