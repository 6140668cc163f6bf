-- ===== src/Metadata/Tests.antt =====
-- The theorems on common/metadata.c at a concrete item.
use obe_rt.Base.{ℕ, arith, replicate, length-replicate}
use obe_rt.Base.Int.{pos}
use obe_rt.Metadata.{Item}
use obe_rt.Metadata.Items.{IsValid}

abbrev section : Item
section = record {
  item_type = 1;
  data_length_alloc = 40;
  data_length_bytes = 3;
  bytes = replicate 40 0xfc;
  output_stream_id = pos 7;
  line_nr = pos 10;
}

section-IsValid : IsValid section
section-IsValid = record { sized = length-replicate {A = ℕ} 40 0xfc; used = omega arith }
