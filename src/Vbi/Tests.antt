-- ===== src/Vbi/Tests.antt =====
-- Slices of teletext, and the theorems on them.
use obe_rt.Base.{
  ◌+◌, ◌%◌, ◌≡◌, refl, true, false, some, List, [], ◌∷◌, length, replicate, ◌==◌, arith,
}
use obe_rt.Sdi.Lines.{
  is_interlaced, field_start_lines, row_of, in_first_field, convert_smpte_to_analogue,
}
use obe_rt.UserData.Bits.{all_bytes-AllBytes}
use obe_rt.UserData.Tests.{lib, laws}
use obe_rt.Vbi.{Sliced, Services, encapsulate_dvb_ttx}
use obe_rt.Vbi.Stuffing.{framed}
use obe_rt.Vbi.Units.{units_of, Fits, AllFit, encapsulate_dvb_ttx-units_of}

abbrev zvbi : Services
zvbi = record {
  teletext_b = λ id. id == 3;
  teletext_c_625 = λ id. false;
  teletext_inverted = λ id. false;
  wss_625 = λ id. id == 1024;
  vps = λ id. id == 4;
  caption_525 = λ id. id == 96;
  nabts = λ id. false;
}

-- Teletext on the lines 7 and 8, and a wide-screen signal on line 23.
abbrev slices : List Sliced
slices =
    record { id = 3; line = 7; payload = 2 ∷ 21 ∷ replicate 54 32 }
    ∷ record { id = 1024; line = 23; payload = replicate 56 0 }
    ∷ record { id = 3; line = 8; payload = replicate 56 193 }
    ∷ []

slices-AllFit : AllFit false slices
unfolding AllFit Fits convert_smpte_to_analogue row_of field_start_lines in_first_field
    is_interlaced
slices-AllFit = (
  (refl, all_bytes-AllBytes (2 ∷ 21 ∷ replicate 54 32) refl, (7, 1, refl, omega arith)),
  (
    (refl, all_bytes-AllBytes (replicate 56 0) refl, (23, 1, refl, omega arith)),
    ((refl, all_bytes-AllBytes (replicate 56 193) refl, (8, 1, refl, omega arith)), tt),
  ),
)

encapsulate_dvb_ttx-units_of_example :
    (encapsulate_dvb_ttx lib zvbi false true slices
      ≡ some (
        framed (16 ∷ units_of zvbi false slices),
        length (framed (16 ∷ units_of zvbi false slices)),
      ))
    × ((45 + length (framed (16 ∷ units_of zvbi false slices))) % 184 ≡ 0)
encapsulate_dvb_ttx-units_of_example =
    encapsulate_dvb_ttx-units_of lib laws zvbi false slices slices-AllFit
