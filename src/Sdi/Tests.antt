-- ===== src/Sdi/Tests.antt =====
-- The theorems on input/sdi/sdi.c at concrete lines and tables.
use obe_rt.Base.{ℕ, ◌+◌, ◌≡◌, ◌≢◌, true, some, List, [], ◌∷◌, arith, replicate, length}
use obe_rt.Base.Int.{pos, ◌-ℤ◌}
use obe_rt.Sdi.Lines.{
  sdi_next_line, convert_smpte_to_analogue, convert_analogue_to_smpte, pal, sdi_next_line-StartsAt,
}
use obe_rt.Sdi.Pixels.{
  v210_planar_unpack, v210_line_to_nv20, yuv422p10_line_to_nv20, v210_line_to_uyvy,
  yuv422p10_line_to_uyvy,
}
use obe_rt.Sdi.Pixels.Agree.{v210_planar_unpack-agrees}
use obe_rt.Obe.Streams.{OutputStream}
use obe_rt.Sdi.Selected.{Options}
use obe_rt.Sdi.Services.{
  IntFrameData, add_non_display_services, services_at, table_of,
  add_non_display_services-services_at,
}

sdi_next_line-StartsAt_example :
    (convert_smpte_to_analogue 1 (pos (1 + 22)) ≡ some (pos (1 + 22), 1))
    × (sdi_next_line 1 (pos (1 + 22)) ≡ pos (314 + 22))
    × (convert_smpte_to_analogue 1 (pos (314 + 22)) ≡ some (pos (1 + 22), 2))
    × (sdi_next_line 1 (pos (314 + 22)) ≡ pos (1 + 22 + 1))
    × (convert_analogue_to_smpte 1 (pos (1 + 22)) 1 ≡ some (pos (1 + 22)))
    × (convert_analogue_to_smpte 1 (pos (1 + 22)) 2 ≡ some (pos (314 + 22)))
    × (convert_smpte_to_analogue 1 (pos 0) ≡ some (pos (0 + 1) -ℤ pos 314, 2))
sdi_next_line-StartsAt_example = sdi_next_line-StartsAt 1 1 314 22 0 pal (omega arith) (omega arith)

v210_planar_unpack-agrees_example :
    (y u v : List ℕ) × (luma chroma line : List ℕ) × (v210_planar_unpack (replicate 4 0x3ff00040) 6
      ≡ some (y, u, v))
    × (v210_line_to_nv20 (replicate 4 0x3ff00040) 6 ≡ some (luma, chroma))
    × (yuv422p10_line_to_nv20 y u v 6 ≡ some (luma, chroma))
    × (v210_line_to_uyvy (replicate 4 0x3ff00040) 6 ≡ some line)
    × (yuv422p10_line_to_uyvy y u v 6 ≡ some line)
v210_planar_unpack-agrees_example =
    v210_planar_unpack-agrees 1 (replicate 4 0x3ff00040) (omega arith)

-- A WSS service on line 23 and a teletext service on lines 7 and 8, both in the DVB stream.
abbrev wss : IntFrameData
wss = record { type = 12; source = 19; num_lines = 1; lines = 23 ∷ 0 ∷ []; location = 1 }

abbrev teletext : IntFrameData
teletext = record { type = 10; source = 19; num_lines = 2; lines = 7 ∷ 8 ∷ []; location = 1 }

add_non_display_services-services_at_example :
    add_non_display_services true (wss ∷ teletext ∷ []) 1
    ≡ some (
      pos 0,
      length (services_at 1 (wss ∷ teletext ∷ [])),
      table_of (services_at 1 (wss ∷ teletext ∷ [])),
    )
add_non_display_services-services_at_example =
    add_non_display_services-services_at (wss ∷ teletext ∷ []) 1

-- A DVB-VBI stream, and options that ask for everything.
abbrev vbi : OutputStream
vbi = record { input_stream_id = pos 2; output_stream_id = pos 2; stream_format = 19; pid = 300 }

abbrev all_on : Options
all_on = record {
  ttx = 1;
  inverted_ttx = 1;
  vps = 1;
  wss = 1;
  cea_608 = 1;
  cea_708 = 1;
  afd = 1;
  wss_to_afd = 1;
}

not_nineteen : pos 2 ≢ pos 19
not_nineteen e = ground (arith, e)
