-- ===== src/Vanc/Tests.antt =====
-- Lines of ancillary data, and the theorems on them.
use obe_rt.Base.{
  ℕ, ◌≡◌, refl, Bool, true, false, Option, none, some, List, [], ◌∷◌, ◌++◌, length, ◌==◌, arith,
}
use obe_rt.Base.Int.{pos}
use obe_rt.Obe.Streams.{OutputStream, get_output_stream_by_id}
use obe_rt.Sdi.Services.{check_active_non_display_data}
use obe_rt.Sdi.Selected.{Options, check_user_selected_non_display_data, from_stream, frame_option}
use obe_rt.UserData.{UserItem}
use obe_rt.Vanc.{
  Vanc, get_vanc_type, type_in, read_words, store_words, add_items, item_of, is_wanted,
  inject_708_cdp, read_cdp_words, parse_cdp, store_bars, read_afd, parse_afd, parse_dvb_scte_vbi,
}
use obe_rt.Vanc.Line.{
  all_full, starts_packet, add_words, closing, compare_sum, has_checksum, state_of, dispatch,
  take_packet, go_on_with, with_len, at_word, scan, set_probed, parse_vanc_line,
}
use obe_rt.Vanc.Packets.{
  Packet, Chunk, blank, packet, encode, encode_all, total, Valid, AllValid, low, deliver_packets,
}
use obe_rt.Vanc.Bounds.{parse_vanc_line_bounds}
use obe_rt.Vanc.Receive.{parse_cdp-inject_708_cdp}
use obe_rt.Vanc.Deliver.{parse_vanc_line-deliver_packets}
use obe_rt.Vanc.Counts.{count, Once}
use obe_rt.UserData.Items.{encapsulate_user_data}
use obe_rt.UserData.Caption.Entries.{cc_user_data}
use obe_rt.UserData.Cdp.Packet.{triples, services}
use obe_rt.UserData.Cdp.Packet
use obe_rt.UserData.Cdp.Sections.{last_triples}
use obe_rt.UserData.Tests.{
  lib, laws, reader, reader_laws, frame, sections, bytes, bytes-sum, sections-AllFit,
}
use obe_rt.Vanc.Captions.{fresh, line_of, registered, parse_vanc_line-encapsulate_user_data}
use obe_rt.Vanc.Once.{parse_vanc_line-Once}

abbrev stream : OutputStream
stream = record { input_stream_id = pos 0; output_stream_id = pos 0; stream_format = 1; pid = 49 }

abbrev all_on : OutputStream → Options
all_on s = record {
  ttx = 0;
  inverted_ttx = 0;
  vps = 0;
  wss = 0;
  cea_608 = 1;
  cea_708 = 1;
  afd = 1;
  wss_to_afd = 0;
}

abbrev stale : UserItem
stale = record { type = 0; source = 0; len = 0; bytes = none }

abbrev idle : Bool → List UserItem → Vanc
idle probe items = record { probe = probe; has_probed = false; frame_data = []; user_data = items }

-- The active format 1000b with bars, and three words of captions.
abbrev afd : Packet
afd = record {
  did = 577;
  sdid = 517;
  dc = 264;
  words = 580 ∷ 512 ∷ 512 ∷ 704 ∷ 256 ∷ 257 ∷ 258 ∷ 259 ∷ [];
}

abbrev captions : Packet
captions = record { did = 353; sdid = 257; dc = 515; words = 406 ∷ 617 ∷ 259 ∷ [] }

abbrev chunks : List Chunk
chunks = blank 64 ∷ packet afd ∷ blank 512 ∷ packet captions ∷ packet captions ∷ []

abbrev tail : List ℕ
tail = 64 ∷ 64 ∷ 64 ∷ 64 ∷ 64 ∷ 64 ∷ 64 ∷ []

-- What the frame gets: the bars start one byte before those of the packet.
abbrev item : ℕ → List ℕ → UserItem
item type bytes = record { type = type; source = 27; len = length bytes; bytes = some bytes }

abbrev items : List UserItem
items = item 66 (68 ∷ []) ∷ item 67 (0 ∷ 192 ∷ 0 ∷ 1 ∷ 2 ∷ []) ∷ item 65 (150 ∷ 105 ∷ 3 ∷ []) ∷ []

abbrev words : List ℕ
words = encode_all chunks ++ tail

-- No memory is refused, and the captions are not disabled.
abbrev parse : Vanc → List ℕ → ℕ → Option Vanc
parse = parse_vanc_line all_on (stream ∷ []) (λ n. true) 9 stale 0

runs : parse (idle false []) words 22 ≡ some (idle false items)
unfolding parse_vanc_line scan at_word with_len take_packet go_on_with set_probed dispatch state_of
    starts_packet all_full has_checksum add_words compare_sum closing get_vanc_type type_in
    parse_afd parse_cdp parse_dvb_scte_vbi read_afd store_bars read_cdp_words store_words read_words
    is_wanted add_items item_of encode_all encode total check_user_selected_non_display_data
    from_stream frame_option get_output_stream_by_id check_active_non_display_data
runs = refl

parse_vanc_line_bounds_example : (w : Vanc) × (parse (idle true []) words 21 ≡ some w)
unfolding encode_all encode
parse_vanc_line_bounds_example =
    parse_vanc_line_bounds all_on (stream ∷ []) (λ n. true) 9 stale 0 (idle true []) words 21
      (omega arith)

chunks-AllValid : AllValid chunks
unfolding AllValid Valid
chunks-AllValid = (omega arith, (refl, (omega arith, (refl, (refl, tt)))))

parse_vanc_line-deliver_example :
    parse (idle false []) words 22
    ≡ set_probed (some (deliver_packets all_on (stream ∷ []) 9 0 (idle false []) chunks))
unfolding encode_all encode
parse_vanc_line-deliver_example =
    parse_vanc_line-deliver_packets all_on (stream ∷ []) (λ n. true) 9 (λ n. refl) stale 0
      (idle false []) chunks tail 22 chunks-AllValid refl refl

parse_cdp-inject_708_cdp_example :
    parse_cdp all_on
      (stream ∷ [])
      (λ n. true)
      9
      (idle false [])
      (captions.dc ∷ captions.words ++ 600 ∷ [])
      (length (low captions.words))
    ≡ some (inject_708_cdp all_on (stream ∷ []) (λ n. true) (idle false []) (low captions.words))
parse_cdp-inject_708_cdp_example =
    parse_cdp-inject_708_cdp all_on (stream ∷ []) (λ n. true) 9 (idle false []) captions.dc
      captions.words (600 ∷ []) refl

idle-Once : Once (idle false [])
unfolding Once count
idle-Once = (omega arith, omega arith, omega arith, omega arith)

parse_vanc_line-Once_example : Once (idle false items)
parse_vanc_line-Once_example =
    parse_vanc_line-Once all_on (stream ∷ []) (λ n. true) 9 stale (λ e. absurd (omega (arith, e)))
      (λ e. absurd (omega (arith, e))) 0 (idle false []) words 22 (idle false items) idle-Once runs

-- The packet of UserData.Tests in a line.
abbrev whole : Packet
whole = record { did = 353; sdid = 257; dc = 293; words = bytes }

selected : (check_user_selected_non_display_data all_on (stream ∷ []) 15 0 == 0) ≡ false
unfolding check_user_selected_non_display_data from_stream frame_option get_output_stream_by_id
selected = refl

parse_vanc_line-encapsulate_user_data_example :
    (w : Vanc) × (parse_vanc_line all_on
        (stream ∷ [])
        (λ n. true)
        9
        stale
        0
        (fresh true [] [])
        (encode_all (line_of (64 ∷ []) whole) ++ tail)
        26
      ≡ some w)
    × (encapsulate_user_data lib (λ n. true) reader (record (frame []) { user_data = w.user_data })
        ≡ some (record {
          status = pos 0;
          items =
              registered
                (cc_user_data
                  (length (last_triples [] sections))
                  (triples (last_triples [] sections)))
                (item_of 65 (length (low whole.words)) (some (low whole.words)))
              ∷ [];
          frame = record (frame []) { user_data = w.user_data };
        }))
unfolding Packet.encode_all Packet.encode triples services encode_all encode last_triples
parse_vanc_line-encapsulate_user_data_example =
    parse_vanc_line-encapsulate_user_data lib laws reader reader_laws (λ n. true) (λ n. refl) all_on
      (stream ∷ []) 9 selected stale whole (64 ∷ []) tail 26 true [] (frame []) 37 79 67 0 1
      sections 0 1 157 refl refl refl (omega arith, tt) refl refl refl sections-AllFit bytes-sum
      (omega arith)
