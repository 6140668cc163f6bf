-- ===== src/Smpte337.antt =====
-- input/sdi/smpte337_detector2.c: the byte stream of one audio pair, kept as a list of buffers, and the
-- search for SMPTE 337 bursts in it. The mutex is held around each access to the list.
-- `none` is the end of the program (a failed assertion, an access outside a buffer) or, in the loop of
-- the detector, the end of the fuel.
pub mod Stream
pub mod Scan
pub mod Delivery
pub mod Write
mod Tests
use obe_rt.Base.{
  ℕ, zero, suc, ◌+◌, ◌-◌, ◌*◌, ◌/◌, ◌%◌, Bool, true, false, ◌&&◌, ◌||◌, Option, none, some, List,
  [], ◌∷◌, ◌++◌, ltb, leb, ◌==◌, if◌then◌else◌, length, get_elem?, get_or, take, drop,
}
use obe_rt.Base.Int.{ℤ, ◌+ℤ◌}

-- The two fields of `struct avfm_s` that the detector reads and writes.
pub record Avfm : Type 0 where
  pub audio_pts : ℤ
  pub audio_pts_corrected : ℤ

-- `struct smpte337_detector2_item_s`; `ptr` is the used part of the buffer, so `usedlen` is its length.
pub record Item : Type 0 where
  pub avfm : Avfm
  pub ptr : List ℕ
  pub maxlen : ℕ
  pub readpos : ℕ

-- `struct smpte337_detector2_s`
pub record Detector : Type 0 where
  pub item_list : List Item
  pub item_list_total_bytes : ℕ

-- What a call of the callback gets about the burst.
pub record Burst : Type 0 where
  pub datamode : ℕ
  pub datatype : ℕ
  pub payload_bit_count : ℕ
  pub payload : List ℕ

pub record Delivered : Type 0 where
  pub burst : Burst
  pub avfm : Avfm

abbrev pub peek_len : ℕ
peek_len = 16

pub alloc : Detector
alloc = record { item_list = []; item_list_total_bytes = 0 }

-- `_list_empty` does not touch the count of bytes.
pub list_empty : Detector → Detector
list_empty ctx = record ctx { item_list = [] }

-- `e->usedlen - e->readpos`
pub unread : Item → ℕ
unread e = length e.ptr - e.readpos

-- The list from an item on, after `n` bytes of the item are read.
pub consume : Bool → Item → ℕ → List Item → List Item
consume false e n rest = e ∷ rest
consume true e n rest =
    if e.readpos + n == length e.ptr then rest else record e { readpos = e.readpos + n } ∷ rest

-- The count of bytes after a read, and whether the assertion on it fails.
pub spent : Bool → ℕ → ℕ → ℕ
spent false total n = total
spent true total n = total - n

pub overspent : Bool → ℕ → ℕ → Bool
overspent false total n = false
overspent true total n = ltb total n

-- A whole item is copied, and the loop goes on with the next.
pub copy_all : Bool → Item → Option (List ℕ × List Item × ℕ) → Option (List ℕ × List Item × ℕ)
copy_all update_counters e none = none
copy_all update_counters e (some (buf, items, total)) =
    some (drop e.readpos e.ptr ++ buf, consume update_counters e (unread e) items, total)

-- The loop of `_list_peek`: `rem` is `byteCount - len`. The result is what is copied, the list and the
-- count of bytes.
pub peek_items : Bool → ℕ → List Item → ℕ → Option (List ℕ × List Item × ℕ)
peek_items update_counters rem [] total = some ([], [], total)
peek_items update_counters rem (e ∷ es) total =
    let n = unread e in
    let rest = peek_items update_counters (rem - n) es (spent update_counters total n) in
    if leb rem n
    then (if overspent update_counters total rem
        then none
        else some (
          take rem (drop e.readpos e.ptr),
          consume update_counters e rem es,
          spent update_counters total rem,
        ))
    else if overspent update_counters total n
    then none
    else copy_all update_counters e rest

pub from_items : Option (List ℕ × List Item × ℕ) → Option (List ℕ × Detector)
from_items none = none
from_items (some (buf, items, total)) =
    some (buf, record { item_list = items; item_list_total_bytes = total })

pub list_peek : Detector → ℕ → Bool → Option (List ℕ × Detector)
list_peek ctx byte_count update_counters =
    from_items (peek_items update_counters byte_count ctx.item_list ctx.item_list_total_bytes)

-- What `_list_peek` reports of the first item.
pub timing : List Item → Option (Avfm × ℕ)
timing [] = none
timing (e ∷ es) = some (e.avfm, e.readpos)

-- One round of the loop of `run_detector`.
pub data Round : Type 0 where
  aborts : Round
  stops : Round
  goes : List Delivered → Detector → Round

-- `Pa` and `Pb`, and the burst information that is accepted.
pub is_sync : List ℕ → Bool
is_sync dat =
    get_or dat 0 0 == 0xf8
    && get_or dat 1 0 == 0x72
    && get_or dat 2 0 == 0x4e
    && get_or dat 3 0 == 0x1f

pub is_ac3 : List ℕ → Bool
is_ac3 dat = get_or dat 5 0 % 32 == 1

pub payload_bits : List ℕ → ℕ
payload_bits dat = get_or dat 6 0 * 256 + get_or dat 7 0

pub list_discard : Option (List ℕ × Detector) → Round
list_discard none = aborts
list_discard (some (buf, ctx)) = goes [] ctx

pub burst_of : List ℕ → List ℕ → Burst
burst_of dat buf = record {
  datamode = get_or dat 5 0 / 32 % 4;
  datatype = get_or dat 5 0 % 32;
  payload_bit_count = payload_bits dat;
  payload = drop 8 buf;
}

-- `rescale` is libavutil's `av_rescale_q` from 48 kHz samples to the encoder's clock, `grants` whether
-- `malloc` answers for a number of bytes.
module _ (rescale : ℕ → ℤ) (grants : ℕ → Bool) where
  pub corrected : Avfm → ℕ → Avfm
  corrected avfm readpos = record avfm {
    audio_pts_corrected = avfm.audio_pts +ℤ rescale (readpos / 4);
  }

  -- After `_list_read_alloc`. With no item there is no timing, and then the read is short.
  pub deliver : List ℕ → Option (Avfm × ℕ) → Option (List ℕ × Detector) → Round
  deliver dat t none = aborts
  deliver dat none (some (buf, ctx)) = goes [] (list_empty ctx)
  deliver dat (some (avfm, readpos)) (some (buf, ctx)) =
      if length buf == 8 + payload_bits dat / 8
      then goes (record { burst = burst_of dat buf; avfm = corrected avfm readpos } ∷ []) ctx
      else goes [] (list_empty ctx)

  pub read_burst : List ℕ → Detector → Round
  read_burst dat ctx =
      let byte_count = 8 + payload_bits dat / 8 in
      if leb byte_count ctx.item_list_total_bytes
      then (if grants byte_count
          then deliver dat (timing ctx.item_list) (list_peek ctx byte_count true)
          else goes [] (list_empty ctx))
      else stops

  pub look : Detector → Option (List ℕ × Detector) → Round
  look ctx none = aborts
  look ctx (some (dat, _)) =
      if ltb (length dat) peek_len
      then stops
      else if is_sync dat
      then (if is_ac3 dat then read_burst dat ctx else list_discard (list_peek ctx 1 true))
      else list_discard (list_peek ctx 1 true)

  pub detect_round : Detector → Round
  detect_round ctx =
      if ltb ctx.item_list_total_bytes peek_len
      then stops
      else look ctx (list_peek ctx peek_len false)

  pub prepend :
      List Delivered → Option (List Delivered × Detector) → Option (List Delivered × Detector)
  prepend ds none = none
  prepend ds (some (rest, ctx)) = some (ds ++ rest, ctx)

  pub follow :
      Detector
      → Round
      → (Detector → Option (List Delivered × Detector))
      → Option (List Delivered × Detector)
  follow ctx aborts loop = none
  follow ctx stops loop = some ([], ctx)
  follow ctx (goes ds ctx') loop = prepend ds (loop ctx')

  -- `while(1)`
  pub detect : ℕ → Detector → Option (List Delivered × Detector)
  detect zero ctx = none
  detect (suc fuel) ctx = follow ctx (detect_round ctx) (detect fuel)

  -- The test before the loop.
  pub enter : Detector → Option (List ℕ × Detector) → Option (List Delivered × Detector)
  enter ctx none = none
  enter ctx (some (dat, _)) =
      if ltb (length dat) peek_len
      then some ([], ctx)
      else detect (suc ctx.item_list_total_bytes) ctx

  pub run_detector : Detector → Option (List Delivered × Detector)
  run_detector ctx = enter ctx (list_peek ctx peek_len false)
