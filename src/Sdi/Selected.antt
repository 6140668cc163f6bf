-- ===== src/Sdi/Selected.antt =====
-- check_user_selected_non_display_data of input/sdi/sdi.c: which services the user asked for.
use obe_rt.Base.{ℕ, ◌≡◌, refl, Option, none, some, List, ◌==◌, if◌then◌else◌}
use obe_rt.Base.Int.{pos}
use obe_rt.Obe.Streams.{OutputStream, get_output_stream_by_id, NoneHas, NoneHas-none}

-- The options of `obe_dvb_vbi_opts_t` and `obe_frame_anc_opts_t`, each one bit.
pub record Options : Type 0 where
  pub ttx : ℕ
  pub inverted_ttx : ℕ
  pub vps : ℕ
  pub wss : ℕ
  pub cea_608 : ℕ
  pub cea_708 : ℕ
  pub afd : ℕ
  pub wss_to_afd : ℕ

-- The two switches on the values of `stream_formats_e`.
pub dvb_option : Options → ℕ → ℕ
dvb_option o type =
    if type == 10
    then o.ttx
    else if type == 11
    then o.inverted_ttx
    else if type == 13
    then o.vps
    else if type == 12
    then o.wss
    else 0

unfoldable pub frame_option : Options → ℕ → ℕ
frame_option o type =
    if type == 14
    then o.cea_608
    else if type == 15
    then o.cea_708
    else if type == 16
    then o.afd
    else if type == 12
    then o.wss_to_afd
    else 0

-- Without a stream the answer is 0. `options` are those that a stream carries.
unfoldable pub from_stream :
    (OutputStream → Options) → (Options → ℕ → ℕ) → ℕ → Option OutputStream → ℕ
from_stream options option type none = 0
from_stream options option type (some s) = option (options s) type

-- The locations are 1 for USER_DATA_LOCATION_DVB_STREAM and 0 for USER_DATA_LOCATION_FRAME; the
-- identifier 19 is the value of VBI_RAW.
unfoldable pub check_user_selected_non_display_data :
    (OutputStream → Options) → List OutputStream → ℕ → ℕ → ℕ
check_user_selected_non_display_data options streams type location =
    if location == 1
    then from_stream options dvb_option type (get_output_stream_by_id streams (pos 19))
    else if location == 0
    then from_stream options frame_option type (get_output_stream_by_id streams (pos 0))
    else 0

-- A defect: the DVB-VBI stream is looked for by an identifier that is the number of its format, so as
-- long as no output stream has the identifier 19, no service is selected for a DVB stream, whatever
-- formats and options the streams have.
pub check_user_selected_non_display_data_dvb :
    (options : OutputStream → Options) (streams : List OutputStream) (type : ℕ)
    → NoneHas streams (pos 19)
    → check_user_selected_non_display_data options streams type 1 ≡ 0
unfolding check_user_selected_non_display_data from_stream
check_user_selected_non_display_data_dvb options streams type h =
    rw (NoneHas-none streams (pos 19) h) refl
