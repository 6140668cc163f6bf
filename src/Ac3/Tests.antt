-- ===== src/Ac3/Tests.antt =====
-- Tests of the model of ac3bitstream.c, and its theorems at concrete frames.
use obe_rt.Base.{ℕ, ◌*◌, ◌≡◌, refl, true, some, List, [], ◌∷◌, arith}
use obe_rt.Base.Int.{pos, negsuc, ◌+ℤ◌, scale}
use obe_rt.Ac3.Table.{crc_entry, divide_bits, crc_entry-divide_bits}
use obe_rt.Ac3.{
  crc_byte, crc_word, crc_from, crc_calc, swap_buffer_16b, words_of, Encoder, queues,
  detector_callback,
}
use obe_rt.Ac3.Frame.{detector_callback_forwards}

-- A frame of four words: the sync word, an empty first part, a word and its checksum.
abbrev frame : List ℕ
frame = 0x0b ∷ 0x77 ∷ 0 ∷ 0 ∷ 0x12 ∷ 0x34 ∷ 0xec ∷ 0xbb ∷ []

abbrev encoder : Encoder
encoder = record { stream_id = 3; ac3_offset_ms = pos 2; audio_offset_ms = negsuc 0 }

checksum : crc_calc (0 ∷ 0x1234 ∷ []) 2 ≡ some 0xecbb
unfolding crc_calc crc_from crc_word crc_byte crc_entry
checksum = refl

crc_entry-divide_bits_example : crc_entry 200 ≡ divide_bits 8 (200 * 256)
crc_entry-divide_bits_example = crc_entry-divide_bits 200 (omega arith)

detector_callback_forwards_example :
    detector_callback encoder true (pos 900) 1 64 frame
    ≡ queues (record {
      output_stream_id = 3;
      len = 8;
      frame_data = frame;
      pts = pos 900 +ℤ scale 27000 (pos 2) +ℤ scale 27000 (negsuc 0);
      avfm_pts_corrected = pos 900;
      random_access = true;
    })
unfolding crc_calc crc_from crc_word crc_byte crc_entry swap_buffer_16b words_of
detector_callback_forwards_example =
    detector_callback_forwards encoder (pos 900) 64 frame (omega arith) (omega arith) refl refl
