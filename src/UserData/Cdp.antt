-- ===== src/UserData/Cdp.antt =====
-- filters/video/cc.c: read_cdp, which takes the captions out of a caption distribution packet. `none` is a
-- read outside the data. The loop over the sections runs on fuel: each round reads a byte at least, so
-- that the bytes of the packet and one more are enough.
pub mod Packet
pub mod Sections
pub mod Read
pub mod Ends
pub mod Told
use obe_rt.Base.{
  ℕ, zero, suc, ◌+◌, ◌-◌, ◌*◌, ◌/◌, ◌%◌, Bool, true, false, ◌&&◌, Option, none, some, List, [], ◌∷◌,
  length, get_elem?, take, drop, leb, ltb, ◌==◌, not, if◌then◌else◌,
}
use obe_rt.Base.Int.{ℤ, pos, negsuc}
use obe_rt.UserData.{UserItem, BitWriter, BitReader, byte_at}
use obe_rt.UserData.Caption.{write_708_cc}

-- The sum of the bytes but the last, in a `uint8_t`
pub sum_bytes : List ℕ → ℕ
sum_bytes [] = 0
sum_bytes (b ∷ []) = 0
sum_bytes (b ∷ c ∷ bytes) = (b + sum_bytes (c ∷ bytes)) % 256

pub last_byte : List ℕ → Option ℕ
last_byte [] = none
last_byte (b ∷ []) = some b
last_byte (b ∷ c ∷ bytes) = last_byte (c ∷ bytes)

-- `calc_cs ? 256 - calc_cs : 0`
pub negated : ℕ → ℕ
negated calc_cs = if calc_cs == 0 then 0 else 256 - calc_cs

pub same_byte : ℕ → Option ℕ → Bool
same_byte calc_cs none = false
same_byte calc_cs (some b) = calc_cs == b

-- Whether the checksum is right.
pub checks : List ℕ → Bool
checks bytes = same_byte (negated (sum_bytes bytes)) (last_byte bytes)

-- Where the captions start, and how many they are: `start` and `cc_count`.
pub record Captions : Type 0 where
  pub start : ℕ
  pub cc_count : ℕ

module _ {R : Type 0} (reader : BitReader R) where
  pub skip_all : List ℕ → R → R
  skip_all [] s = s
  skip_all (w ∷ widths) s = skip_all widths (reader.bs_skip s w)

  -- A loop whose rounds skip fields of these widths.
  pub skip_times : ℕ → List ℕ → R → R
  skip_times zero widths s = s
  skip_times (suc n) widths s = skip_times n widths (skip_all widths s)

  -- The branches of the loop over the sections, from the section's identifier on, but for the footer
  pub read_tc : Captions × R → Captions × R
  read_tc (c, s) = (c, skip_all (2 ∷ 2 ∷ 4 ∷ 1 ∷ 3 ∷ 4 ∷ 1 ∷ 3 ∷ 4 ∷ 1 ∷ 1 ∷ 2 ∷ 4 ∷ []) s)

  pub read_cc_data : Captions × R → Captions × R
  read_cc_data (c, s) =
      let (count, after) = reader.bs_read s 8 in
      let cc_count = count % 32 in
      (
        record { start = reader.bs_read_pos after / 8; cc_count = cc_count },
        skip_times cc_count (5 ∷ 1 ∷ 2 ∷ 8 ∷ 8 ∷ []) after,
      )

  pub read_svc_info : Captions × R → Captions × R
  read_svc_info (c, s) =
      let (svc_count, after) = reader.bs_read (skip_all (1 ∷ 1 ∷ 1 ∷ 1 ∷ []) s) 4 in
      (c, skip_times svc_count (1 ∷ 1 ∷ 6 ∷ 8 ∷ 8 ∷ 8 ∷ 8 ∷ 8 ∷ 8 ∷ []) after)

  pub read_future : Captions × R → Captions × R
  read_future (c, s) =
      let (future_len, after) = reader.bs_read s 8 in (c, skip_times future_len (8 ∷ []) after)

  -- What a section other than the footer does.
  pub read_section : ℕ → Captions × R → Captions × R
  read_section section_id at =
      if section_id == 113
      then read_tc at
      else if section_id == 114
      then read_cc_data at
      else if section_id == 115
      then read_svc_info at
      else read_future at

  -- The loop: what `start` and `cc_count` are after it.
  pub read_sections : ℕ → Captions → R → Option Captions
  read_sections zero c s = none
  read_sections (suc fuel) c s =
      let (section_id, after) = reader.bs_read s 8 in
      let (c', s') = read_section section_id (c, after) in
      let rest = read_sections fuel c' s' in
      if reader.bs_read_eof s then some c else if section_id == 116 then some c else rest

  abbrev pub cdp_header : List ℕ
  cdp_header = 8 ∷ 4 ∷ 4 ∷ 1 ∷ 1 ∷ 1 ∷ 1 ∷ 1 ∷ 1 ∷ 1 ∷ 1 ∷ 16 ∷ []

  -- Past the identifier and the checksum
  pub read_captions : List ℕ → R → Option Captions
  read_captions bytes s =
      read_sections (suc (length bytes)) (record { start = 0; cc_count = 0 })
        (skip_all cdp_header s)

  module _ {S : Type 0} (lib : BitWriter S) (grants : ℕ → Bool) where
    -- What is done with the captions that were found.
    pub with_captions : UserItem → List ℕ → Option Captions → Option (ℤ × UserItem)
    with_captions u bytes none = none
    with_captions u bytes (some c) =
        if c.cc_count == 0
        then some (pos 1, u)
        else if leb (c.start + c.cc_count * 3) (length bytes)
        then some
            (write_708_cc lib grants u (take (c.cc_count * 3) (drop c.start bytes)) c.cc_count)
        else none

    pub read_bytes : UserItem → List ℕ → Option (ℤ × UserItem)
    read_bytes u bytes =
        let (identifier, s) = reader.bs_read (reader.bs_read_init bytes) 16 in
        if not (identifier == 38505)
        then some (pos 1, u)
        else if not (checks bytes)
        then some (pos 1, u)
        else with_captions u bytes (read_captions bytes s)

    -- Through the pointer of the item
    pub read_pointer : UserItem → Option (List ℕ) → Option (ℤ × UserItem)
    read_pointer u none = none
    read_pointer u (some bytes) = read_bytes u bytes

    pub read_cdp : UserItem → Option (ℤ × UserItem)
    read_cdp u = read_pointer u u.bytes
