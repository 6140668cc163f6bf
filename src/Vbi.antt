-- ===== src/Vbi.antt =====
-- input/sdi/vbi.c: the data units of teletext and other VBI services for the multiplexer. The slicers of
-- libzvbi, and so the tests on the identifiers of its services, are parameters, as is the bit writer.
mod Reversed
pub mod Stuffing
pub mod Units
mod Tests
use obe_rt.Base.{
  ℕ, zero, suc, ◌+◌, ◌-◌, ◌*◌, ◌/◌, ◌%◌, ◌^◌, Bool, true, false, not, ◌&&◌, ◌||◌, Option, none,
  some, List, [], ◌∷◌, get_or, ◌==◌, if◌then◌else◌,
}
use obe_rt.Base.Int.{ℤ, pos, negsuc, eqb_ℤ}
use obe_rt.Obe.Streams.{OutputStream}
use obe_rt.Sdi.Lines.{input_video_format_pal, input_video_format_ntsc, convert_smpte_to_analogue}
use obe_rt.Sdi.Selected.{Options, check_user_selected_non_display_data}
use obe_rt.UserData.{BitWriter}

unfoldable pub reverse_tab : List ℕ
reverse_tab =
    0 ∷ 128 ∷ 64 ∷ 192 ∷ 32 ∷ 160 ∷ 96 ∷ 224 ∷ 16 ∷ 144 ∷ 80 ∷ 208 ∷ 48 ∷ 176 ∷ 112 ∷ 240 ∷ 8 ∷ 136
    ∷ 72 ∷ 200 ∷ 40 ∷ 168 ∷ 104 ∷ 232 ∷ 24 ∷ 152 ∷ 88 ∷ 216 ∷ 56 ∷ 184 ∷ 120 ∷ 248 ∷ 4 ∷ 132 ∷ 68
    ∷ 196 ∷ 36 ∷ 164 ∷ 100 ∷ 228 ∷ 20 ∷ 148 ∷ 84 ∷ 212 ∷ 52 ∷ 180 ∷ 116 ∷ 244 ∷ 12 ∷ 140 ∷ 76 ∷ 204
    ∷ 44 ∷ 172 ∷ 108 ∷ 236 ∷ 28 ∷ 156 ∷ 92 ∷ 220 ∷ 60 ∷ 188 ∷ 124 ∷ 252 ∷ 2 ∷ 130 ∷ 66 ∷ 194 ∷ 34
    ∷ 162 ∷ 98 ∷ 226 ∷ 18 ∷ 146 ∷ 82 ∷ 210 ∷ 50 ∷ 178 ∷ 114 ∷ 242 ∷ 10 ∷ 138 ∷ 74 ∷ 202 ∷ 42 ∷ 170
    ∷ 106 ∷ 234 ∷ 26 ∷ 154 ∷ 90 ∷ 218 ∷ 58 ∷ 186 ∷ 122 ∷ 250 ∷ 6 ∷ 134 ∷ 70 ∷ 198 ∷ 38 ∷ 166 ∷ 102
    ∷ 230 ∷ 22 ∷ 150 ∷ 86 ∷ 214 ∷ 54 ∷ 182 ∷ 118 ∷ 246 ∷ 14 ∷ 142 ∷ 78 ∷ 206 ∷ 46 ∷ 174 ∷ 110 ∷ 238
    ∷ 30 ∷ 158 ∷ 94 ∷ 222 ∷ 62 ∷ 190 ∷ 126 ∷ 254 ∷ 1 ∷ 129 ∷ 65 ∷ 193 ∷ 33 ∷ 161 ∷ 97 ∷ 225 ∷ 17
    ∷ 145 ∷ 81 ∷ 209 ∷ 49 ∷ 177 ∷ 113 ∷ 241 ∷ 9 ∷ 137 ∷ 73 ∷ 201 ∷ 41 ∷ 169 ∷ 105 ∷ 233 ∷ 25 ∷ 153
    ∷ 89 ∷ 217 ∷ 57 ∷ 185 ∷ 121 ∷ 249 ∷ 5 ∷ 133 ∷ 69 ∷ 197 ∷ 37 ∷ 165 ∷ 101 ∷ 229 ∷ 21 ∷ 149 ∷ 85
    ∷ 213 ∷ 53 ∷ 181 ∷ 117 ∷ 245 ∷ 13 ∷ 141 ∷ 77 ∷ 205 ∷ 45 ∷ 173 ∷ 109 ∷ 237 ∷ 29 ∷ 157 ∷ 93 ∷ 221
    ∷ 61 ∷ 189 ∷ 125 ∷ 253 ∷ 3 ∷ 131 ∷ 67 ∷ 195 ∷ 35 ∷ 163 ∷ 99 ∷ 227 ∷ 19 ∷ 147 ∷ 83 ∷ 211 ∷ 51
    ∷ 179 ∷ 115 ∷ 243 ∷ 11 ∷ 139 ∷ 75 ∷ 203 ∷ 43 ∷ 171 ∷ 107 ∷ 235 ∷ 27 ∷ 155 ∷ 91 ∷ 219 ∷ 59 ∷ 187
    ∷ 123 ∷ 251 ∷ 7 ∷ 135 ∷ 71 ∷ 199 ∷ 39 ∷ 167 ∷ 103 ∷ 231 ∷ 23 ∷ 151 ∷ 87 ∷ 215 ∷ 55 ∷ 183 ∷ 119
    ∷ 247 ∷ 15 ∷ 143 ∷ 79 ∷ 207 ∷ 47 ∷ 175 ∷ 111 ∷ 239 ∷ 31 ∷ 159 ∷ 95 ∷ 223 ∷ 63 ∷ 191 ∷ 127 ∷ 255
    ∷ []

-- `REVERSE`
unfoldable pub reversed : ℕ → ℕ
reversed x = get_or reverse_tab x 0

-- The fields of libzvbi's `vbi_sliced` that the code reads; `payload` is the array of 56 bytes.
pub record Sliced : Type 0 where
  pub id : ℕ
  pub line : ℕ
  pub payload : List ℕ

-- `id & VBI_SLICED_...` for the services of the table, in its order; a library without inverted teletext
-- has no such identifier.
pub record Services : Type 0 where
  pub teletext_b : ℕ → Bool
  pub teletext_c_625 : ℕ → Bool
  pub teletext_inverted : ℕ → Bool
  pub wss_625 : ℕ → Bool
  pub vps : ℕ → Bool
  pub caption_525 : ℕ → Bool
  pub nabts : ℕ → Bool

-- `vbi_type_tab` with its loop: teletext 10, NABTS 22, inverted 11, WSS 12, VPS 13, CEA-608 14
pub get_vbi_type : Services → ℕ → ℤ
get_vbi_type zvbi id =
    if zvbi.teletext_b id
    then pos 10
    else if zvbi.teletext_c_625 id
    then pos 22
    else if zvbi.teletext_inverted id
    then pos 11
    else if zvbi.wss_625 id
    then pos 12
    else if zvbi.vps id
    then pos 13
    else if zvbi.caption_525 id
    then pos 14
    else if zvbi.nabts id
    then pos 22
    else negsuc 0

-- `data_indentifier_table`, as pairs of a unit and a type
abbrev data_indentifier_table : List (ℕ × ℕ)
data_indentifier_table =
    (2, 10)
    ∷ (3, 10)
    ∷ (192, 11)
    ∷ (195, 13)
    ∷ (196, 12)
    ∷ (197, 14)
    ∷ (208, 20)
    ∷ (209, 21)
    ∷ (213, 22)
    ∷ (214, 23)
    ∷ (215, 24)
    ∷ (217, 25)
    ∷ []

-- The loop goes on behind a match, and without one the variable keeps its value.
pub unit_in : List (ℕ × ℕ) → ℤ → ℕ → ℕ
unit_in [] type data_unit_id = data_unit_id
unit_in ((unit, t) ∷ table) type data_unit_id =
    unit_in table type (if eqb_ℤ type (pos t) then unit else data_unit_id)

-- An `int` as the writer takes it
unfoldable pub to_uint32 : ℤ → ℕ
to_uint32 (pos n) = n % 2 ^ 32
to_uint32 (negsuc n) = (2 ^ 32 - 1 - n) % 2 ^ 32

module _ {S : Type 0} (lib : BitWriter S) where
  -- PAL and NTSC are interlaced, so that there is always a line.
  unfoldable pub write_line : S → Option (ℤ × ℕ) → S
  write_line s none = s
  write_line s (some (analogue_line, field)) =
      lib.bs_write (lib.bs_write (lib.bs_write s 2 3) 1 (if field == 1 then 1 else 0)) 5
        (to_uint32 analogue_line)

  unfoldable pub write_header_byte : S → ℕ → Bool → S
  write_header_byte s smpte_line ntsc = write_line s (
      convert_smpte_to_analogue (if ntsc then input_video_format_ntsc else input_video_format_pal)
        (pos smpte_line))

  -- The loops over the first bytes of the array, which is longer than they go.
  unfoldable pub write_reversed : ℕ → List ℕ → S → S
  write_reversed zero bytes s = s
  write_reversed (suc n) [] s = s
  write_reversed (suc n) (b ∷ bytes) s = write_reversed n bytes (lib.bs_write s 8 (reversed b))

  unfoldable pub write_generic_field : S → List ℕ → ℤ → S
  write_generic_field s bytes type = write_reversed (if eqb_ℤ type (pos 13) then 13 else 0) bytes s

  unfoldable pub write_ttx_field : S → List ℕ → ℤ → S
  write_ttx_field s bytes type =
      if eqb_ℤ type (pos 22)
      then write_reversed 33 bytes (lib.bs_write s 8 231)
      else write_reversed 42 bytes (lib.bs_write s 8 (if eqb_ℤ type (pos 10) then 228 else 27))

  unfoldable pub write_wss_field : S → List ℕ → S
  write_wss_field s bytes =
      lib.bs_write
        (lib.bs_write (lib.bs_write s 8 (reversed (get_or bytes 0 0))) 6
          (reversed (get_or bytes 1 0) / 4))
        2 3

  unfoldable pub write_fill : ℕ → S → S
  write_fill zero s = s
  write_fill (suc n) s = write_fill n (lib.bs_write s 8 255)

  -- With the count of the bytes up to the next packet
  unfoldable pub stuff : S → ℕ → S
  stuff s over =
      let count = if over == 0 then 0 else 184 - over in write_fill count (lib.bs_write s 8 count)

  unfoldable pub write_stuffing : S → S
  write_stuffing s =
      let t = lib.bs_write s 8 255 in
      if (lib.bs_pos s / 8 + 45) % 184 == 0 then s else stuff t ((lib.bs_pos t / 8 + 45 + 1) % 184)

  -- The bytes and the length of a frame
  unfoldable pub frame_of : S → List ℕ × ℕ
  frame_of s = let t = lib.bs_flush s in (lib.bytes t, lib.bs_pos t / 8)

  module _ (zvbi : Services) (ntsc : Bool) where
    -- A round of the loop of the teletext frame
    unfoldable pub write_ttx_unit : Sliced → S → S
    write_ttx_unit x s =
        if zvbi.teletext_b x.id
        then write_ttx_field
            (write_header_byte (lib.bs_write (lib.bs_write s 8 2) 8 44) x.line ntsc) x.payload
            (pos 10)
        else s

    unfoldable pub write_ttx_units : List Sliced → S → S
    write_ttx_units [] s = s
    write_ttx_units (x ∷ xs) s = write_ttx_units xs (write_ttx_unit x s)

    -- `granted` is whether there is memory for the frame; `none` is -1.
    unfoldable pub encapsulate_dvb_ttx : Bool → List Sliced → Option (List ℕ × ℕ)
    encapsulate_dvb_ttx granted slices =
        if granted
        then some
            (frame_of (write_stuffing (write_ttx_units slices (lib.bs_write lib.bs_init 8 16))))
        else none

    -- The field of a unit, in a writer of its own; `identifier` is always 0, so that nothing is stuffed.
    pub write_unit_field : Sliced → ℤ → S → S
    write_unit_field x type t =
        if eqb_ℤ type (pos 10) || eqb_ℤ type (pos 11) || eqb_ℤ type (pos 22)
        then write_ttx_field t x.payload type
        else if eqb_ℤ type (pos 13)
        then write_generic_field t x.payload type
        else if eqb_ℤ type (pos 12)
        then write_wss_field t x.payload
        else t

    -- From the unit's identifier on
    pub write_vbi_unit : Sliced → ℤ → ℕ → S → S
    write_vbi_unit x type data_unit_id s =
        let t =
          lib.bs_flush (write_unit_field x type (write_header_byte lib.bs_init x.line ntsc)) in
        let head = lib.bs_flush (lib.bs_write s 8 data_unit_id) in
        lib.put (lib.bs_flush (lib.bs_write head 8 (lib.bs_pos t / 8))) (lib.bytes t)

    -- Whether the type is among the identifiers of the ancillary packets
    pub from_vanc : List ℕ → ℤ → Bool
    from_vanc [] type = false
    from_vanc (identifier ∷ anc_vbi) type = eqb_ℤ (pos identifier) type || from_vanc anc_vbi type

    module _ (options : OutputStream → Options) (streams : List OutputStream)
        (anc_vbi : List ℕ) where
      -- The loop over the slices, with the identifier of the last unit
      pub write_vbi_units : List Sliced → ℕ → S → S
      write_vbi_units [] data_unit_id s = s
      write_vbi_units (x ∷ xs) data_unit_id s =
          let type = get_vbi_type zvbi x.id in
          let unit = unit_in data_indentifier_table type data_unit_id in
          if from_vanc anc_vbi type
            || check_user_selected_non_display_data options streams 10 1 == 0
          then write_vbi_units xs data_unit_id s
          else write_vbi_units xs unit (write_vbi_unit x type unit s)

      pub encapsulate_dvb_vbi : Bool → List Sliced → Option (List ℕ × ℕ)
      encapsulate_dvb_vbi granted slices =
          if granted
          then some
              (frame_of (write_stuffing (write_vbi_units slices 0 (lib.bs_write lib.bs_init 8 16))))
          else none
