-- ===== src/UserData.antt =====
-- The user data that travels with a raw frame: filters/video/cc.c makes captions of it, and
-- filters/video/video.c the active format and the bars, for the encoder. The writer of common/bitstream.h
-- and the reader of common/bs_read.h are parameters; UserData.Bits states what the code relies on.
pub mod Bits
pub mod Told
pub mod Sar
pub mod Caption
pub mod Cdp
pub mod Items
pub mod Tests
use obe_rt.Base.{ℕ, Bool, Option, none, some, List, [], ◌∷◌, length, get_elem?, if◌then◌else◌}
use obe_rt.Base.Int.{ℤ, pos, negsuc}

-- `obe_user_data_t`, without `field`, which none of this code reads or writes. The pointer is `none` where
-- it is null; the items that this code is given have `len` bytes behind it.
pub record UserItem : Type 0 where
  pub type : ℕ
  pub source : ℕ
  pub len : ℕ
  pub bytes : Option (List ℕ)

-- `USER_DATA_AVC_REGISTERED_ITU_T35` and the raw types
abbrev pub user_data_avc_registered_itu_t35 : ℕ
user_data_avc_registered_itu_t35 = 4

abbrev pub user_data_cea_608 : ℕ
user_data_cea_608 = 64

abbrev pub user_data_cea_708_cdp : ℕ
user_data_cea_708_cdp = 65

abbrev pub user_data_afd : ℕ
user_data_afd = 66

abbrev pub user_data_bar_data : ℕ
user_data_bar_data = 67

abbrev pub user_data_wss : ℕ
user_data_wss = 68

-- The part of `obe_raw_frame_t` and of its image that these functions use.
pub record RawFrame : Type 0 where
  pub timebase_num : ℕ
  pub timebase_den : ℕ
  pub format : ℕ
  pub width : ℕ
  pub height : ℕ
  pub sar_width : ℕ
  pub sar_height : ℕ
  pub user_data : List UserItem

-- `bs_t` with its operations: `bytes` are those from the start of the buffer to `bs_pos >> 3`, and `put`
-- copies bytes behind them and starts again there.
pub record BitWriter (S : Type 0) : Type 0 where
  pub bs_init : S
  pub bs_write : S → ℕ → ℕ → S
  pub bs_write1 : S → ℕ → S
  pub bs_write32 : S → ℕ → S
  pub bs_flush : S → S
  pub bs_pos : S → ℕ
  pub bytes : S → List ℕ
  pub put : S → List ℕ → S

-- `bs_read_t` with its operations
pub record BitReader (R : Type 0) : Type 0 where
  pub bs_read_init : List ℕ → R
  pub bs_read : R → ℕ → ℕ × R
  pub bs_skip : R → ℕ → R
  pub bs_read_eof : R → Bool
  pub bs_read_pos : R → ℕ

-- `data[i]`
pub byte_at : Option (List ℕ) → ℕ → Option ℕ
byte_at none i = none
byte_at (some d) i = get_elem? d i

-- How the writers end: the new bytes take the place of the old in memory of their size.
unfoldable pub replace_data : (ℕ → Bool) → List ℕ → UserItem → ℤ × UserItem
replace_data grants bytes u =
    if grants (length bytes)
    then (
      pos 0,
      record u { type = user_data_avc_registered_itu_t35; len = length bytes; bytes = some bytes },
    )
    else (
      negsuc 0,
      record u { type = user_data_avc_registered_itu_t35; len = length bytes; bytes = none },
    )

module _ {S : Type 0} (lib : BitWriter S) where
  -- The loop over the characters of an identifier
  pub write_identifier : List ℕ → S → S
  write_identifier [] s = s
  write_identifier (c ∷ user_identifier) s = write_identifier user_identifier (lib.bs_write s 8 c)

  pub write_itu_t_codes : S → S
  write_itu_t_codes s = lib.bs_write (lib.bs_write s 8 181) 16 49
