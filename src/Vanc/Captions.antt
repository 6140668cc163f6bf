-- ===== src/Vanc/Captions.antt =====
-- From a line of the input to the encoder: `parse_vanc_line` of input/sdi/ancillary.c, then
-- `encapsulate_user_data` of filters/video/video.c with `read_cdp` of filters/video/cc.c.
use obe_rt.Base.{
  ℕ, ◌+◌, ◌*◌, ◌%◌, ◌<◌, ◌≡◌, refl, ap, subst, ◌∙◌, inl, inr, Bool, true, false, some, List, [],
  ◌∷◌, ◌++◌, map, length, ◌==◌, if_true, arith,
}
use obe_rt.Base.Int.{pos}
use obe_rt.Obe.Streams.{OutputStream}
use obe_rt.Sdi.Services.{IntFrameData, check_active_non_display_data}
use obe_rt.Sdi.Selected.{Options, check_user_selected_non_display_data}
use obe_rt.UserData.{UserItem, RawFrame, BitWriter, BitReader, replace_data}
use obe_rt.UserData.Bits.{AllBytes, WriterLaws, ReaderLaws}
use obe_rt.UserData.Caption.Entries.{cc_user_data}
use obe_rt.UserData.Cdp.{read_cdp}
use obe_rt.UserData.Cdp.Packet.{Section, triples}
use obe_rt.UserData.Cdp.Sections
use obe_rt.UserData.Cdp.Sections.{AllFit, last_triples, sum}
use obe_rt.UserData.Cdp.Read.{read_cdp-packet}
use obe_rt.UserData.Items.{
  with_frame, on_frame, encapsulate, after_item, encapsulate_items, encapsulate_user_data,
}
use obe_rt.Vanc.{Vanc, get_vanc_type, type_in, add_items, item_of, is_wanted}
use obe_rt.Vanc.Line.{set_probed, parse_vanc_line}
use obe_rt.Vanc.Packets.{
  Packet, Chunk, blank, packet, encode_all, Valid, AllValid, low, receive, receive_cdp,
  deliver_packets,
}
use obe_rt.Vanc.Deliver.{parse_vanc_line-deliver_packets}

low-AllBytes : (ws : List ℕ) → AllBytes (low ws)
low-AllBytes [] = tt
low-AllBytes (w ∷ ws) = (omega arith, low-AllBytes ws)

-- The state of an input that is past probing, with a frame that has no user data yet
abbrev pub fresh : Bool → List IntFrameData → List UserItem → Vanc
fresh has_probed services items = record {
  probe = false;
  has_probed = has_probed;
  frame_data = services;
  user_data = items;
}

-- A line with one packet, behind words that start none
abbrev pub line_of : List ℕ → Packet → List Chunk
line_of ws p = map blank ws ++ packet p ∷ []

abbrev pub AllHigh : List ℕ → Type 0
AllHigh [] = Unit
AllHigh (w ∷ ws) = (3 < w) × AllHigh ws

line_of-AllValid :
    (ws : List ℕ) (p : Packet) → AllHigh ws → p.dc % 256 ≡ length p.words → AllValid (line_of ws p)
unfolding AllValid Valid
line_of-AllValid [] p high h = (h, tt)
line_of-AllValid (w ∷ ws) p (lt, high) h = (lt, line_of-AllValid ws p high h)

module _ (options : OutputStream → Options) (streams : List OutputStream) (line_number : ℕ)
    (selected : (check_user_selected_non_display_data options streams 15 0 == 0) ≡ false)
    (p : Packet) (did : p.did % 256 ≡ 97) (sdid : p.sdid % 256 ≡ 1) where
  abbrev item : UserItem
  item = item_of 65 (length (low p.words)) (some (low p.words))

  receive_item :
      (has_probed : Bool) (services : List IntFrameData)
      → receive options streams line_number 0 (fresh has_probed services []) p
        ≡ fresh has_probed services (item ∷ [])
  unfolding receive receive_cdp get_vanc_type type_in is_wanted add_items
      check_active_non_display_data
  receive_item has_probed services = rw (did, sdid, selected) refl

  deliver_packets_item :
      (ws : List ℕ) (has_probed : Bool) (services : List IntFrameData)
      → deliver_packets options streams line_number 0 (fresh has_probed services []) (line_of ws p)
        ≡ fresh has_probed services (item ∷ [])
  unfolding deliver_packets
  deliver_packets_item [] has_probed services = receive_item has_probed services
  deliver_packets_item (w ∷ ws) has_probed services = deliver_packets_item ws has_probed services

-- The item for the encoder that takes the place of another.
abbrev pub registered : List ℕ → UserItem → UserItem
registered bytes u = record u { type = 4; len = length bytes; bytes = some bytes }

module _ {S : Type 0} (lib : BitWriter S) (wlaws : WriterLaws lib) {R : Type 0}
    (reader : BitReader R) (rlaws : ReaderLaws reader) (grants : ℕ → Bool)
    (memory : (n : ℕ) → grants n ≡ true) where
  given :
      (after : List ℕ) (u : UserItem) → replace_data grants after u ≡ (pos 0, registered after u)
  unfolding replace_data
  given after u = if_true (grants (length after)) _ _ (memory _)

  one_caption :
      (f : RawFrame) (bytes after : List ℕ)
      → read_cdp reader lib grants (item_of 65 (length bytes) (some bytes))
        ≡ some (replace_data grants after (item_of 65 (length bytes) (some bytes)))
      → f.user_data ≡ item_of 65 (length bytes) (some bytes) ∷ []
      → encapsulate_user_data lib grants reader f
        ≡ some (record {
          status = pos 0;
          items = registered after (item_of 65 (length bytes) (some bytes)) ∷ [];
          frame = f;
        })
  unfolding encapsulate_user_data encapsulate_items encapsulate after_item on_frame with_frame
      item_of
  one_caption f bytes after e items =
      ap (λ us. encapsulate_items lib grants reader (pos 0) us f) items
      ∙ ap
          (λ r.
            after_item lib grants reader [] (λ ret g. encapsulate_items lib grants reader ret [] g)
              (on_frame f r))
          (e ∙ ap some (given after (item_of 65 (length bytes) (some bytes))))

  module _ (options : OutputStream → Options) (streams : List OutputStream) (line_number : ℕ)
      (selected : (check_user_selected_non_display_data options streams 15 0 == 0) ≡ false)
      (stale : UserItem) where
    -- Past probing, when captions are selected and not disabled and memory is at hand, a line with a caption
    -- packet of the right length word and checksum behind words above 3 and with seven words behind it,
    -- whose data are a caption distribution packet with captions, gives a frame without user data one item,
    -- of which encapsulate_user_data makes exactly the ATSC A/53 user data with the triples of the last
    -- caption section.
    pub parse_vanc_line-encapsulate_user_data :
        (p : Packet) (ws tail : List ℕ) (width : ℕ) (has_probed : Bool)
        (services : List IntFrameData) (f : RawFrame) (len rate flags c₁ c₂ : ℕ) (ss : List Section)
        (f₁ f₂ cs : ℕ)
        → p.did % 256 ≡ 97
        → p.sdid % 256 ≡ 1
        → p.dc % 256 ≡ length p.words
        → AllHigh ws
        → length tail ≡ 7
        → 2 * width ≡ length (encode_all (line_of ws p)) + 7
        → low p.words ≡ Sections.packet len rate flags c₁ c₂ ss f₁ f₂ cs
        → AllFit ss
        → sum (low p.words) % 256 ≡ 0
        → 0 < length (last_triples [] ss)
        → (w : Vanc) × (parse_vanc_line options streams grants line_number stale 0
              (fresh has_probed services [])
              (encode_all (line_of ws p) ++ tail)
              width
            ≡ some w)
          × (encapsulate_user_data lib grants reader (record f { user_data = w.user_data })
              ≡ some (record {
                status = pos 0;
                items =
                    registered
                      (cc_user_data (length (last_triples [] ss)) (triples (last_triples [] ss)))
                      (item_of 65 (length (low p.words)) (some (low p.words)))
                    ∷ [];
                frame = record f { user_data = w.user_data };
              }))
    unfolding set_probed item_of
    parse_vanc_line-encapsulate_user_data p ws tail width has_probed services f len rate flags c₁ c₂
          ss f₁ f₂ cs did sdid dc high seven w bytes fit good some_there =
        let u = item_of 65 (length (low p.words)) (some (low p.words)) in
        let state = fresh has_probed services (u ∷ []) in
        let line =
          parse_vanc_line-deliver_packets options streams grants line_number memory stale 0
            (fresh has_probed services []) (line_of ws p) tail width (line_of-AllValid ws p high dc)
            seven w
          ∙ ap (λ v. set_probed (some v))
              (deliver_packets_item options streams line_number selected p did sdid ws has_probed
                services) in
        let read : read_cdp reader lib grants u
            ≡ some (
                replace_data grants
                  (cc_user_data (length (last_triples [] ss)) (triples (last_triples [] ss))) u) =
          elim (read_cdp-packet reader rlaws lib wlaws grants u len rate flags c₁ c₂ ss f₁ f₂ cs
            (ap some bytes) fit (subst AllBytes bytes (low-AllBytes p.words))
            (subst (λ l. sum l % 256 ≡ 0) bytes good)) [
              | inl (nothing, e) ↦ absurd (omega (arith, nothing))
              | inr (there, e) ↦ e
            ] in
        (state, line, one_caption (record f { user_data = u ∷ [] }) (low p.words) _ read refl)
