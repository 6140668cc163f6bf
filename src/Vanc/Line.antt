-- ===== src/Vanc/Line.antt =====
-- `parse_vanc_line` of input/sdi/ancillary.c. A pointer into the line is the words from there on, beside
-- the index of the first.
use obe_rt.Base.{
  ℕ, zero, suc, ◌+◌, ◌-◌, ◌*◌, ◌/◌, ◌%◌, Bool, true, false, Option, none, some, List, [], ◌∷◌,
  get_elem?, drop, ◌==◌, ltb, leb, if◌then◌else◌,
}
use obe_rt.Base.Int.{ℤ, pos, eqb_ℤ}
use obe_rt.Obe.Streams.{OutputStream}
use obe_rt.Sdi.Selected.{Options}
use obe_rt.UserData.{UserItem}
use obe_rt.Vanc.{
  Vanc, get_vanc_type, misc_afd, captions_cea_708, vanc_dvb_scte_vbi, parse_afd, parse_dvb_scte_vbi,
  parse_cdp,
}

-- The next words of the flag have the bits 2 to 9 set.
unfoldable pub all_full : ℕ → List ℕ → Option Bool
all_full zero line = some true
all_full (suc n) [] = none
all_full (suc n) (w ∷ line) = if w / 4 % 256 == 255 then all_full n line else some false

-- The ancillary data flag
unfoldable pub starts_packet : List ℕ → Option Bool
starts_packet [] = none
starts_packet (w ∷ line) = if leb w 3 then all_full 2 line else some false

-- The sum over the words from DID on, and the words behind them
unfoldable pub add_words : ℕ → ℕ → List ℕ → Option (ℕ × List ℕ)
add_words zero sum pkt = some (sum, pkt)
add_words (suc n) sum [] = none
add_words (suc n) sum (w ∷ pkt) = add_words n ((sum + w % 512) % 512) pkt

-- Bit 9 is the opposite of bit 8.
unfoldable pub closing : ℕ → ℕ
closing sum = sum + (1 - sum / 256 % 2) * 512

unfoldable pub compare_sum : Option (ℕ × List ℕ) → Option Bool
compare_sum (some (sum, w ∷ pkt)) = some (w == closing sum)
compare_sum _ = none

unfoldable pub has_checksum : ℕ → List ℕ → Option Bool
has_checksum len pkt = compare_sum (add_words (len + 3) 0 pkt)

unfoldable pub state_of : Option (ℤ × Vanc) → Option Vanc
state_of none = none
state_of (some (ret, v)) = some v

unfoldable pub go_on_with : (Vanc → Option Vanc) → Option Vanc → Option Vanc
go_on_with next none = none
go_on_with next (some v) = next v

unfoldable pub set_probed : Option Vanc → Option Vanc
set_probed none = none
set_probed (some v) = if v.probe then some (record v { has_probed = true }) else some v

module _ (options : OutputStream → Options) (streams : List OutputStream) (grants : ℕ → Bool)
    (line_number : ℕ) (stale : UserItem) (disable_captions : ℕ) where
  -- The switch on the type; the line is from DC on.
  unfoldable pub dispatch : Vanc → ℤ → List ℕ → ℕ → Option Vanc
  dispatch v type line len =
      if eqb_ℤ type (pos misc_afd)
      then state_of (parse_afd options streams grants line_number stale v line)
      else if eqb_ℤ type (pos vanc_dvb_scte_vbi)
      then (if disable_captions == 0 then state_of (parse_dvb_scte_vbi v line) else some v)
      else if eqb_ℤ type (pos captions_cea_708)
      then (if disable_captions == 0
          then state_of (parse_cdp options streams grants line_number v line len)
          else some v)
      else some v

  -- A packet with its data; one with a wrong checksum changes nothing.
  unfoldable pub take_packet : Vanc → List ℕ → ℕ → Option Bool → Option Vanc
  take_packet v (did ∷ sdid ∷ line) len (some true) =
      dispatch v (get_vanc_type (did % 256) (sdid % 256)) line len
  take_packet v pkt len (some false) = some v
  take_packet v pkt len _ = none

  -- With the word of DC; `next` is the loop from an index on. A length that is too large ends the loop.
  unfoldable pub with_len :
      ℕ → ℕ → List ℕ → Vanc → (ℕ → List ℕ → Vanc → Option Vanc) → Option ℕ → Option Vanc
  with_len width i pkt v next none = none
  with_len width i pkt v next (some dc) =
      let len = dc % 256 in
      if ltb width (len + 2 + i + 1)
      then some v
      else go_on_with (next (i + (2 + len + 1)) (drop (2 + len + 1) pkt))
          (take_packet v pkt len (has_checksum len pkt))

  unfoldable pub at_word :
      ℕ → ℕ → List ℕ → Vanc → (ℕ → List ℕ → Vanc → Option Vanc) → Option Bool → Option Vanc
  at_word width i line v next none = none
  at_word width i line v next (some false) = next (i + 1) (drop 1 line) v
  at_word width i line v next (some true) =
      with_len width (i + 3) (drop 3 line) v next (get_elem? (drop 3 line) 2)

  -- The loop, with fuel
  unfoldable pub scan : ℕ → ℕ → ℕ → List ℕ → Vanc → Option Vanc
  scan zero width i line v = none
  scan (suc fuel) width i line v =
      if ltb (i + 7) width
      then at_word width i line v (λ j rest w. scan fuel width j rest w) (starts_packet line)
      else some v

  -- Each round goes on by a word or more.
  unfoldable pub parse_vanc_line : Vanc → List ℕ → ℕ → Option Vanc
  parse_vanc_line v line width = set_probed (scan (2 * width + 1) (2 * width) 0 line v)
