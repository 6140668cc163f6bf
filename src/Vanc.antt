-- ===== src/Vanc.antt =====
-- input/sdi/ancillary.c: the packets in a vertical ancillary line, and what they put into the tables of
-- the input or into the user data of a frame. `none` is a read outside the line. The answers of the
-- allocator, the options of the streams and what fresh memory holds are parameters.
pub mod Line
mod Bounds
mod Receive
pub mod Deliver
mod Keeps
pub mod Counts
mod Once
pub mod Captions
mod Tests
pub mod Packets
use obe_rt.Base.{
  ℕ, zero, suc, ◌+◌, ◌*◌, ◌%◌, ◌&&◌, Bool, true, false, Option, none, some, List, [], ◌∷◌, ◌++◌,
  map, length, drop, ◌==◌, if◌then◌else◌,
}
use obe_rt.Base.Int.{ℤ, pos, negsuc}
use obe_rt.Obe.Streams.{OutputStream}
use obe_rt.Sdi.Services.{IntFrameData, check_probed_non_display_data, check_active_non_display_data}
use obe_rt.Sdi.Selected.{Options, check_user_selected_non_display_data}
use obe_rt.UserData.{UserItem, user_data_cea_708_cdp, user_data_afd, user_data_bar_data}

-- Values of `stream_formats_e`
abbrev pub captions_cea_708 : ℕ
captions_cea_708 = 15

abbrev pub misc_afd : ℕ
misc_afd = 16

abbrev pub misc_bar_data : ℕ
misc_bar_data = 17

abbrev pub vanc_generic : ℕ
vanc_generic = 27

abbrev pub vanc_dvb_scte_vbi : ℕ
vanc_dvb_scte_vbi = 28

-- `vanc_identifiers`: DID, SDID and type; the entry of zeros behind them is the end of the list.
abbrev vanc_identifiers : List (ℕ × ℕ × ℕ)
vanc_identifiers =
    (65, 5, 16)
    ∷ (65, 6, 18)
    ∷ (65, 7, 35)
    ∷ (65, 8, 28)
    ∷ (67, 1, 29)
    ∷ (67, 2, 30)
    ∷ (96, 96, 31)
    ∷ (97, 1, 15)
    ∷ (97, 2, 14)
    ∷ (98, 1, 32)
    ∷ (98, 2, 33)
    ∷ (98, 3, 34)
    ∷ []

-- The loop over the table
unfoldable pub type_in : List (ℕ × ℕ × ℕ) → ℕ → ℕ → ℤ
type_in [] did sdid = negsuc 0
type_in ((d, s, type) ∷ identifiers) did sdid =
    if (did == d) && (sdid == s) then pos type else type_in identifiers did sdid

unfoldable pub get_vanc_type : ℕ → ℕ → ℤ
get_vanc_type did sdid = type_in vanc_identifiers did sdid

-- What the functions read and write of `obe_sdi_non_display_data_t` and of `obe_raw_frame_t`.
pub record Vanc : Type 0 where
  pub probe : Bool
  pub has_probed : Bool
  pub frame_data : List IntFrameData
  pub user_data : List UserItem

-- A byte before the others that were read
abbrev pub read_on : ℕ → Option (List ℕ) → Option (List ℕ)
read_on b none = none
read_on b (some bs) = some (b ∷ bs)

-- `READ_8` of each of the next words
unfoldable pub read_words : ℕ → List ℕ → Option (List ℕ)
read_words zero line = some []
read_words (suc n) [] = none
read_words (suc n) (w ∷ line) = read_on (w % 256) (read_words n line)

unfoldable pub add_items : Vanc → List UserItem → Vanc
add_items v items = record v { user_data = v.user_data ++ items }

unfoldable pub add_services : Vanc → List IntFrameData → Vanc
add_services v services = record v { frame_data = v.frame_data ++ services }

-- `user_data` of a type and a length, with its pointer
unfoldable pub item_of : ℕ → ℕ → Option (List ℕ) → UserItem
item_of type len bytes = record { type = type; source = vanc_generic; len = len; bytes = bytes }

-- An item is added with the bytes that were read.
unfoldable pub store_words : Vanc → ℕ → ℕ → Option (List ℕ) → Option (ℤ × Vanc)
store_words v type len none = none
store_words v type len (some bytes) = some (pos 0, add_items v (item_of type len (some bytes) ∷ []))

unfoldable pub store_bars : Vanc → ℕ → Option (List ℕ) → Option (ℤ × Vanc)
store_bars v afd none = none
store_bars v afd (some bars) = some (
  pos 0,
  add_items v
      (item_of user_data_afd 1 (some (afd ∷ [])) ∷ item_of user_data_bar_data 5 (some bars) ∷ []),
)

-- The unit is read and the function returns, whatever it is.
unfoldable pub parse_dvb_scte_vbi : Vanc → List ℕ → Option (ℤ × Vanc)
parse_dvb_scte_vbi v (dc ∷ identifier ∷ unit ∷ line) = some (pos 0, v)
parse_dvb_scte_vbi v _ = none

-- The sizes of `obe_user_data_t` and `obe_int_frame_data_t`
abbrev pub size_of_item : ℕ
size_of_item = 24

abbrev pub size_of_service : ℕ
size_of_service = 416

-- With the line number and the type
unfoldable pub service_of : ℕ → ℕ → IntFrameData
service_of line_number type = record {
  type = type;
  source = vanc_generic;
  num_lines = 1;
  lines = line_number ∷ [];
  location = 0;
}

module _ (grants : ℕ → Bool) where
  -- `none` is for a line that ends before the data.
  unfoldable pub read_cdp_words : Vanc → List ℕ → ℕ → Option (ℤ × Vanc)
  read_cdp_words v line len =
      if grants ((length v.user_data + 1) * size_of_item)
      then (if grants len
          then store_words v user_data_cea_708_cdp len (read_words len line)
          else some (negsuc 0, add_items v (item_of user_data_cea_708_cdp len none ∷ [])))
      else some (negsuc 0, v)

  -- `stale` is what fresh memory holds, and the line is from the word of the format on. Both items are
  -- counted before the memory for their data is asked for.
  unfoldable pub read_afd : UserItem → Vanc → List ℕ → Option (ℤ × Vanc)
  read_afd stale v [] =
      if grants 1
      then none
      else some (negsuc 0, add_items v (item_of user_data_afd 1 none ∷ stale ∷ []))
  read_afd stale v (w ∷ line) =
      let afd = w % 256 in
      if grants 1
      then (if grants 5
          then store_bars v afd (read_words 5 (drop 1 line))
          else some (
            negsuc 0,
            add_items v (
                item_of user_data_afd 1 (some (afd ∷ [])) ∷ item_of user_data_bar_data 5 none ∷ []),
          ))
      else some (negsuc 0, add_items v (item_of user_data_afd 1 none ∷ stale ∷ []))

  -- With the services of a packet that has not been met before
  unfoldable pub probe_services : ℕ → Vanc → List ℕ → ℤ × Vanc
  probe_services line_number v types =
      if grants ((length v.frame_data + length types) * size_of_service)
      then (pos 0, add_services v (map (service_of line_number) types))
      else (negsuc 0, v)

  unfoldable pub probed : ℕ → Vanc → ℕ → List ℕ → ℤ × Vanc
  probed line_number v type types =
      if check_probed_non_display_data v.frame_data type == 0
      then probe_services line_number v types
      else (pos 0, v)

module _ (options : OutputStream → Options) (streams : List OutputStream) where
  -- The two tests before a packet is read: true where the frame shall get an item of the type
  unfoldable pub is_wanted : Vanc → ℕ → ℕ → Bool
  is_wanted v service type =
      if check_user_selected_non_display_data options streams service 0 == 0
      then false
      else check_active_non_display_data (map (λ u. u.type) v.user_data) type == 0

  module _ (grants : ℕ → Bool) where
    unfoldable pub inject_708_cdp : Vanc → List ℕ → ℤ × Vanc
    inject_708_cdp v cdp =
        let add = item_of user_data_cea_708_cdp (length cdp) in
        if is_wanted v captions_cea_708 user_data_cea_708_cdp
        then (if grants ((length v.user_data + 1) * size_of_item)
            then (if grants (length cdp)
                then (pos 0, add_items v (add (some cdp) ∷ []))
                else (negsuc 0, add_items v (add none ∷ [])))
            else (negsuc 0, v))
        else (pos 0, v)

    module _ (line_number : ℕ) where
      -- The first word is DC.
      unfoldable pub parse_cdp : Vanc → List ℕ → ℕ → Option (ℤ × Vanc)
      parse_cdp v line len =
          if v.probe
          then some (probed grants line_number v captions_cea_708 (captions_cea_708 ∷ []))
          else if is_wanted v captions_cea_708 user_data_cea_708_cdp
          then read_cdp_words grants v (drop 1 line) len
          else some (pos 0, v)

      unfoldable pub parse_afd : UserItem → Vanc → List ℕ → Option (ℤ × Vanc)
      parse_afd stale v [] = none
      parse_afd stale v (dc ∷ line) =
          if dc % 256 == 8
          then (if v.probe
              then some (probed grants line_number v misc_afd (misc_afd ∷ misc_bar_data ∷ []))
              else if is_wanted v misc_afd user_data_afd
              then (if grants ((length v.user_data + 2) * size_of_item)
                  then read_afd grants stale v line
                  else some (negsuc 0, v))
              else some (pos 0, v))
          else some (negsuc 0, v)
