-- ===== src/UserData/Caption.antt =====
-- filters/video/cc.c: what is written of CEA-608 and CEA-708 captions. `none` is a read outside the
-- data.
pub mod Places
pub mod Entries
pub mod Write
pub mod Told
use obe_rt.Base.{
  ℕ, zero, suc, ◌+◌, ◌-◌, ◌*◌, ◌/◌, ◌%◌, Bool, true, false, ◌&&◌, Option, none, some, List, [], ◌∷◌,
  length, get_elem?, take, drop, leb, ltb, ◌==◌, not, if◌then◌else◌,
}
use obe_rt.Base.Int.{ℤ, pos, negsuc}
use obe_rt.UserData.{
  UserItem, RawFrame, BitWriter, BitReader, byte_at, replace_data, write_identifier,
  write_itu_t_codes,
}

-- `obe_cc_timecode_t`, of which `timebase_den`, `timebase_num` and `cc_count` are used
pub record CcTimecode : Type 0 where
  pub timebase_den : ℕ
  pub timebase_num : ℕ
  pub cc_count : ℕ

abbrev timecode : ℕ → ℕ → ℕ → CcTimecode
timecode den num count = record { timebase_den = den; timebase_num = num; cc_count = count }

abbrev pub cc_timecode : List CcTimecode
cc_timecode =
    timecode 24 1 25
    ∷ timecode 24000 1001 25
    ∷ timecode 25 1 24
    ∷ timecode 30000 1001 20
    ∷ timecode 30 1 20
    ∷ timecode 50 1 12
    ∷ timecode 60000 1001 10
    ∷ timecode 60 1 10
    ∷ []

-- The loop over the table
pub find_cc_count : RawFrame → ℕ → List CcTimecode → ℕ
find_cc_count f cc_count [] = cc_count
find_cc_count f cc_count (t ∷ table) =
    find_cc_count f
      (if (f.timebase_num == t.timebase_num) && (f.timebase_den == t.timebase_den)
        then t.cc_count
        else cc_count)
      table

-- "GA94"
abbrev pub ga94 : List ℕ
ga94 = 71 ∷ 65 ∷ 57 ∷ 52 ∷ []

module _ {S : Type 0} (lib : BitWriter S) where
  -- `memcpy` to where the writer stands
  pub write_bytes : S → List ℕ → S
  write_bytes s bytes = lib.put (lib.bs_flush s) bytes

  pub write_invalid : S → S
  write_invalid s = lib.bs_write (lib.bs_write (lib.bs_write (lib.bs_write1 s 0) 2 2) 8 0) 8 0

  -- The flags, the count and the reserved byte in front of the captions
  pub write_cc_head : ℕ → S → S
  write_cc_head cc_count s =
      lib.bs_write (lib.bs_write (lib.bs_write1 (lib.bs_write1 (lib.bs_write1 s 1) 1) 0) 5 cc_count)
        8 255

  pub write_pair : ℕ → S → Option ℕ → Option ℕ → Option S
  write_pair i s (some c_data_1) (some c_data_2) =
      some
        (lib.bs_write (lib.bs_write (lib.bs_write (lib.bs_write1 s 1) 2 i) 8 c_data_1) 8 c_data_2)
  write_pair i s _ _ = none

  -- A round of the loop over the captions
  pub write_entry : UserItem → ℕ → S → Option S
  write_entry u i s =
      let started = lib.bs_write (lib.bs_write1 s 1) 4 15 in
      if leb i 1 && leb ((i + 1) * 2) u.len
      then write_pair i started (byte_at u.bytes (2 * i)) (byte_at u.bytes (2 * i + 1))
      else some (write_invalid started)

  -- The loop, from `i` on for the given number of rounds
  pub write_entries : UserItem → ℕ → ℕ → Option S → Option S
  write_entries u i n none = none
  write_entries u i zero (some s) = some s
  write_entries u i (suc n) (some s) = write_entries u (suc i) n (write_entry u i s)

  abbrev user_head : S
  user_head = lib.bs_write (write_identifier lib ga94 (write_itu_t_codes lib lib.bs_init)) 8 3

  -- From the end of the loop on
  pub end_608 : (ℕ → Bool) → UserItem → Option S → Option (ℤ × UserItem)
  end_608 grants u none = none
  end_608 grants u (some q) =
      let done = lib.bs_flush (lib.bs_write q 8 255) in
      some
        (replace_data grants (lib.bytes (lib.bs_flush (write_bytes user_head (lib.bytes done)))) u)

  pub write_608_cc : (ℕ → Bool) → UserItem → RawFrame → Option (ℤ × UserItem)
  write_608_cc grants u f =
      let cc_count = find_cc_count f 0 cc_timecode in
      if cc_count == 0
      then some (negsuc 0, u)
      else end_608 grants u (write_entries u 0 cc_count (some (write_cc_head cc_count lib.bs_init)))

  -- `start` is what `memcpy` reads.
  pub write_708_cc : (ℕ → Bool) → UserItem → List ℕ → ℕ → ℤ × UserItem
  write_708_cc grants u start cc_count =
      let s = write_bytes (write_cc_head cc_count user_head) start in
      replace_data grants (lib.bytes (lib.bs_flush (lib.bs_write s 8 255))) u
