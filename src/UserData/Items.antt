-- ===== src/UserData/Items.antt =====
-- filters/video/video.c: the active format, the bars and the user data of a frame. `none` is a read
-- outside the data or a table.
pub mod Afd
pub mod Bars
pub mod Loop
use obe_rt.Base.{
  ℕ, zero, suc, ◌+◌, ◌-◌, ◌*◌, ◌/◌, ◌%◌, Bool, true, false, Option, none, some, List, [], ◌∷◌,
  length, get_elem?, ◌==◌, if◌then◌else◌, set,
}
use obe_rt.Base.Int.{ℤ, pos, negsuc, ltb_ℤ, eqb_ℤ}
use obe_rt.UserData.{
  UserItem, RawFrame, BitWriter, BitReader, byte_at, replace_data, write_identifier,
  write_itu_t_codes, user_data_cea_608, user_data_cea_708_cdp, user_data_afd, user_data_bar_data,
  user_data_wss,
}
use obe_rt.UserData.Sar.{set_sar, is_sd}
use obe_rt.UserData.Caption.{ga94, write_608_cc}
use obe_rt.UserData.Cdp.{read_cdp}

-- `wss_to_afd`: a code and whether the picture is wide.
abbrev wss_to_afd_table : List (ℕ × ℕ)
wss_to_afd_table = (9, 0) ∷ (11, 0) ∷ (3, 0) ∷ (10, 1) ∷ (2, 1) ∷ (4, 1) ∷ (13, 0) ∷ (10, 1) ∷ []

-- "DTG1"
abbrev pub dtg1 : List ℕ
dtg1 = 68 ∷ 84 ∷ 71 ∷ 49 ∷ []

-- What a call returns, with the item and the frame after it.
pub record Result : Type 0 where
  pub ret : ℤ
  pub item : UserItem
  pub frame : RawFrame

unfoldable pub with_frame : RawFrame → ℤ × UserItem → Result
with_frame f (ret, u) = record { ret = ret; item = u; frame = f }

-- A call that leaves the frame alone.
unfoldable pub on_frame : RawFrame → Option (ℤ × UserItem) → Option Result
on_frame f none = none
on_frame f (some p) = some (with_frame f p)

module _ {S : Type 0} (lib : BitWriter S) (grants : ℕ → Bool) where
  -- With the first byte of the data
  unfoldable pub write_afd_of : UserItem → RawFrame → ℕ → Result
  write_afd_of u f b =
      let is_wide = b / 4 % 2 in
      let head = write_identifier lib dtg1 (write_itu_t_codes lib lib.bs_init) in
      let flags = lib.bs_write (lib.bs_write1 (lib.bs_write1 head 0) 1) 6 1 in
      let r = lib.bs_write (lib.bs_write flags 4 15) 4 (b / 8 % 16) in
      with_frame (if is_sd f.format then (set_sar f is_wide).1 else f)
        (replace_data grants (lib.bytes (lib.bs_flush r)) u)

  unfoldable pub afd_byte : UserItem → RawFrame → Option ℕ → Option Result
  afd_byte u f none = none
  afd_byte u f (some b) = some (write_afd_of u f b)

  unfoldable pub write_afd : UserItem → RawFrame → Option Result
  write_afd u f = afd_byte u f (byte_at u.bytes 0)

  -- `WRITE_ELEMENT`: what is written and the rest of the bytes
  unfoldable pub write_element : ℕ → Option (S × List ℕ) → Option (S × List ℕ)
  write_element zero at = at
  write_element (suc x) (some (r, a ∷ b ∷ position)) =
      some (lib.bs_write (lib.bs_write r 8 a) 8 b, position)
  write_element (suc x) _ = none

  unfoldable pub end_bars : UserItem → Option (S × List ℕ) → Option (ℤ × UserItem)
  end_bars u none = none
  end_bars u (some (r, position)) = some (replace_data grants (lib.bytes (lib.bs_flush r)) u)

  unfoldable pub bars_of : UserItem → Option (List ℕ) → Option (ℤ × UserItem)
  bars_of u (some (b ∷ position)) =
      let top = b / 128 in
      let bottom = b / 64 % 2 in
      let left = b / 32 % 2 in
      let right = b / 16 % 2 in
      let head = lib.bs_write (write_identifier lib ga94 (write_itu_t_codes lib lib.bs_init)) 8 6 in
      let flags =
        lib.bs_write1 (lib.bs_write1 (lib.bs_write1 (lib.bs_write1 head top) bottom) left) right in
      end_bars u (
        write_element right (
          write_element left
            (write_element bottom (write_element top (some (lib.bs_write flags 4 15, position))))))
  bars_of u _ = none

  unfoldable pub write_bar_data : UserItem → Option (ℤ × UserItem)
  write_bar_data u = bars_of u u.bytes

  -- With the entry of the table for the first byte
  unfoldable pub wss_entry : UserItem → RawFrame → List ℕ → Option (ℕ × ℕ) → Option Result
  wss_entry u f bytes none = none
  wss_entry u f bytes (some (afd_code, is_wide)) =
      write_afd (record u { bytes = some (set bytes 0 ((afd_code * 8 + is_wide * 4) % 256)) }) f

  unfoldable pub wss_of : UserItem → RawFrame → Option (List ℕ) → Option Result
  wss_of u f (some (b ∷ bytes)) = wss_entry u f (b ∷ bytes) (get_elem? wss_to_afd_table b)
  wss_of u f _ = none

  unfoldable pub convert_wss_to_afd : UserItem → RawFrame → Option Result
  convert_wss_to_afd u f = wss_of u f u.bytes

  module _ {R : Type 0} (reader : BitReader R) where
    -- The chain of tests on the type; an item of another type leaves `ret` as it is.
    unfoldable pub encapsulate : ℤ → UserItem → RawFrame → Option Result
    encapsulate ret u f =
        if u.type == user_data_cea_608
        then on_frame f (write_608_cc lib grants u f)
        else if u.type == user_data_cea_708_cdp
        then on_frame f (read_cdp reader lib grants u)
        else if u.type == user_data_afd
        then write_afd u f
        else if u.type == user_data_bar_data
        then on_frame f (write_bar_data u)
        else if u.type == user_data_wss
        then convert_wss_to_afd u f
        else some (record { ret = ret; item = u; frame = f })

    -- How the loop ends: the return value, the items that are left and the frame.
    pub record Encapsulated : Type 0 where
      pub status : ℤ
      pub items : List UserItem
      pub frame : RawFrame

    abbrev pub keep_item : UserItem → Option Encapsulated → Option Encapsulated
    keep_item u none = none
    keep_item u (some e) = some (record e { items = u ∷ e.items })

    -- What follows the chain: a failure ends the loop, and 1 removes the item. `rest` is the loop from the next
    -- item on.
    unfoldable pub after_item :
        List UserItem → (ℤ → RawFrame → Option Encapsulated) → Option Result → Option Encapsulated
    after_item us rest none = none
    after_item us rest (some r) =
        if ltb_ℤ r.ret (pos 0)
        then some (record { status = r.ret; items = r.item ∷ us; frame = r.frame })
        else if eqb_ℤ r.ret (pos 1)
        then rest r.ret r.frame
        else keep_item r.item (rest r.ret r.frame)

    -- The loop over the items, with the value of `ret`
    unfoldable pub encapsulate_items : ℤ → List UserItem → RawFrame → Option Encapsulated
    encapsulate_items ret [] f = some (record { status = ret; items = []; frame = f })
    encapsulate_items ret (u ∷ us) f =
        after_item us (λ ret' f'. encapsulate_items ret' us f') (encapsulate ret u f)

    unfoldable pub encapsulate_user_data : RawFrame → Option Encapsulated
    encapsulate_user_data f = encapsulate_items (pos 0) f.user_data f
