-- ===== src/Sei.antt =====
-- encoders/video/sei-timestamp.c: the user-data SEI payload that carries times through the encoder.
-- A buffer is the list of the bytes that the caller owns; `lengthBytes` is a separate argument, as in
-- the source, where it is an `int` that the callers never make negative.
pub mod Fields
pub mod Find
pub mod Latency
mod Tests
use obe_rt.Base.{
  ℕ, zero, suc, ◌+◌, ◌-◌, ◌*◌, ◌/◌, ◌%◌, ◌^◌, Bool, true, false, ◌&&◌, ◌||◌, Option, none, some,
  List, [], ◌∷◌, ltb, ◌==◌, if◌then◌else◌, length, get_elem?, drop, replicate,
}
use obe_rt.Base.Int.{ℤ, pos, negsuc}
use obe_rt.Base.Copy.{splice}
use obe_rt.Timeval.{Timeval, timeval_subtract, timediff_to_msecs, timediff_to_usecs}

abbrev pub ltn_uuid_sei_timestamp : List ℕ
ltn_uuid_sei_timestamp =
    0x59 ∷ 0x96 ∷ 0xff ∷ 0x28 ∷ 0x17 ∷ 0xca ∷ 0x41 ∷ 0x96 ∷ 0x8d ∷ 0xe3 ∷ 0xe5 ∷ 0x3f ∷ 0xe2 ∷ 0xf9
    ∷ 0x92 ∷ 0xae ∷ []

abbrev pub sei_bit_delimiter : ℕ
sei_bit_delimiter = 0x81

abbrev pub sei_timestamp_field_count : ℕ
sei_timestamp_field_count = 9

abbrev pub sei_timestamp_payload_length : ℕ
sei_timestamp_payload_length = 16 + sei_timestamp_field_count * 6

-- `calloc` may fail.
pub alloc : Bool → Option (List ℕ)
alloc false = none
alloc true = some (splice 0 ltn_uuid_sei_timestamp (replicate sei_timestamp_payload_length 0))

pub init : List ℕ → ℕ → ℤ × List ℕ
init buf length_bytes =
    if ltb length_bytes sei_timestamp_payload_length
    then (negsuc 0, buf)
    else (pos 0, splice 0 ltn_uuid_sei_timestamp (splice 0 (replicate length_bytes 0) buf))

-- Where field `nr`, counted from 1, starts.
abbrev pub field_offset : ℕ → ℕ
field_offset nr = 16 + (nr - 1) * 6

-- The six bytes that are written for a value.
abbrev pub field_bytes : ℕ → List ℕ
field_bytes value =
    value / 2 ^ 24 % 256
    ∷ value / 2 ^ 16 % 256
    ∷ sei_bit_delimiter
    ∷ value / 2 ^ 8 % 256
    ∷ value % 256
    ∷ sei_bit_delimiter
    ∷ []

pub field_set : List ℕ → ℕ → ℕ → ℕ → ℤ × List ℕ
field_set buffer length_bytes nr value =
    if ltb nr 1 || ltb sei_timestamp_field_count nr
    then (negsuc 0, buffer)
    else if ltb length_bytes (field_offset nr + 6)
    then (negsuc 0, buffer)
    else (pos 0, splice (field_offset nr) (field_bytes value) buffer)

-- `-1`, a read outside the buffer, or `*value`
pub data Reading : Type 0 where
  refused : Reading
  out_of_bounds : Reading
  reads : ℕ → Reading

-- The shifted bytes do not overlap, so `|` adds them.
pub from_bytes : Option ℕ → Option ℕ → Option ℕ → Option ℕ → Reading
from_bytes (some a) (some b) (some c) (some d) = reads (a * 2 ^ 24 + b * 2 ^ 16 + c * 2 ^ 8 + d)
from_bytes _ _ _ _ = out_of_bounds

-- `lengthBytes` is an argument of the source's function too, which does not read it.
pub field_get : List ℕ → ℕ → Reading
field_get buffer nr =
    let p = field_offset nr in
    if ltb nr 1 || ltb sei_timestamp_field_count nr
    then refused
    else from_bytes (get_elem? buffer p) (get_elem? buffer (p + 1)) (get_elem? buffer (p + 3))
        (get_elem? buffer (p + 4))

-- `memcmp(buf, uuid, n) == 0` for the n bytes of the second list
pub starts_with : List ℕ → List ℕ → Bool
starts_with bs [] = true
starts_with [] (u ∷ us) = false
starts_with (b ∷ bs) (u ∷ us) = b == u && starts_with bs us

-- The loop over `i`, with `rounds` of it left; the list is the buffer from `i` on.
pub find_from : ℕ → ℕ → List ℕ → Option ℕ
find_from zero i buf = none
find_from (suc rounds) i buf =
    let rest = find_from rounds (i + 1) (drop 1 buf) in
    if starts_with buf ltn_uuid_sei_timestamp then some i else rest

-- The index of the UUID, or `none` for -1.
pub uuid_find : List ℕ → ℕ → Option ℕ
uuid_find buf length_bytes =
    if ltb length_bytes sei_timestamp_payload_length
    then none
    else find_from (length_bytes - sei_timestamp_payload_length + 1) 0 buf

-- `(uint32_t)` of a signed value
pub to_u32 : ℤ → ℕ
to_u32 (pos n) = n % 2 ^ 32
to_u32 (negsuc n) = 2 ^ 32 - 1 - n % 2 ^ 32

-- `now` is what `gettimeofday` gives where no time is passed. The results of the two calls are not
-- looked at.
pub value_timeval_set : List ℕ → ℕ → ℕ → Option Timeval → Timeval → List ℕ
value_timeval_set buffer length_bytes nr none now =
    (field_set (field_set buffer length_bytes nr (to_u32 now.tv_sec)).1 length_bytes (nr + 1)
      (to_u32 now.tv_usec)).1
value_timeval_set buffer length_bytes nr (some t) now =
    (field_set (field_set buffer length_bytes nr (to_u32 t.tv_sec)).1 length_bytes (nr + 1)
      (to_u32 t.tv_usec)).1

-- `sei_timeval_subtract` and its conversions are those of obe/obe.c under other names.
abbrev pub sei_timeval_subtract : Timeval → Timeval → Timeval × Bool
sei_timeval_subtract = timeval_subtract

abbrev pub sei_timediff_to_msecs : Timeval → ℤ
sei_timediff_to_msecs = timediff_to_msecs

abbrev pub sei_timediff_to_usecs : Timeval → ℤ
sei_timediff_to_usecs = timediff_to_usecs

-- A store of 32 bits to a 64-bit field, on a little-endian host: the upper half stays.
pub set_low : ℕ → Reading → Option ℕ
set_low old refused = some old
set_low old out_of_bounds = none
set_low old (reads v) = some (old / 2 ^ 32 * 2 ^ 32 + v)

pub both_fields : Option ℕ → Option ℕ → Option (ℕ × ℕ)
both_fields (some tv_sec) (some tv_usec) = some (tv_sec, tv_usec)
both_fields _ _ = none

-- `*t`, as two bit patterns, before and after.
pub value_timeval_query : List ℕ → ℕ → ℕ × ℕ → Option (ℕ × ℕ)
value_timeval_query buffer nr (tv_sec, tv_usec) =
    both_fields (set_low tv_sec (field_get buffer nr)) (set_low tv_usec (field_get buffer (nr + 1)))

pub latency_of : Reading → Reading → Reading → Reading → Option ℤ
latency_of (reads bs) (reads bu) (reads es) (reads eu) = some (
    sei_timediff_to_msecs
      (sei_timeval_subtract (record { tv_sec = pos es; tv_usec = pos eu })
        (record { tv_sec = pos bs; tv_usec = pos bu })).0)
latency_of _ _ _ _ = none

-- `none` stands for a read outside the buffer.
pub query_codec_latency_ms : List ℕ → Option ℤ
query_codec_latency_ms buffer =
    latency_of (field_get buffer 4) (field_get buffer 5) (field_get buffer 6) (field_get buffer 7)
