-- ===== src/Vanc/Packets.antt =====
-- Lines that are made of packets and of words between them, and what their packets are to do with
-- memory at hand.
use obe_rt.Base.{
  ℕ, zero, suc, ◌+◌, ◌%◌, ◌<◌, ◌≡◌, refl, ap, ◌∙◌, true, some, List, [], ◌∷◌, ◌++◌, map, length,
  length-append, take, drop, ◌==◌, ==_iff, if◌then◌else◌, arith,
}
use obe_rt.Base.Int.{pos, eqb_ℤ}
use obe_rt.Obe.Streams.{OutputStream}
use obe_rt.Sdi.Services.{check_probed_non_display_data}
use obe_rt.Sdi.Selected.{Options}
use obe_rt.UserData.{UserItem, user_data_cea_708_cdp, user_data_afd, user_data_bar_data}
use obe_rt.Vanc.{
  Vanc, get_vanc_type, misc_afd, misc_bar_data, captions_cea_708, read_words, add_items,
  add_services, item_of, is_wanted, service_of,
}
use obe_rt.Vanc.Line.{add_words, closing, compare_sum, has_checksum}

-- The words of a packet from DID to the last of its data.
pub record Packet : Type 0 where
  pub did : ℕ
  pub sdid : ℕ
  pub dc : ℕ
  pub words : List ℕ

-- What a line is made of: a word that no packet starts with, or a packet.
pub data Chunk : Type 0 where
  blank : ℕ → Chunk
  packet : Packet → Chunk

unfoldable pub total : List ℕ → ℕ
total [] = 0
total (w ∷ ws) = w % 512 + total ws

-- With the flag in front and the checksum behind.
unfoldable pub encode : Chunk → List ℕ
encode (blank w) = w ∷ []
encode (packet p) =
    0 ∷ 1023 ∷ 1023 ∷ p.did ∷ p.sdid ∷ p.dc ∷ p.words
    ++ closing (total (p.did ∷ p.sdid ∷ p.dc ∷ p.words) % 512) ∷ []

unfoldable pub encode_all : List Chunk → List ℕ
encode_all [] = []
encode_all (c ∷ cs) = encode c ++ encode_all cs

unfoldable pub Valid : Chunk → Type 0
Valid (blank w) = 3 < w
Valid (packet p) = p.dc % 256 ≡ length p.words

unfoldable pub AllValid : List Chunk → Type 0
AllValid [] = Unit
AllValid (c ∷ cs) = Valid c × AllValid cs

abbrev pub low : List ℕ → List ℕ
low ws = map (λ w. w % 256) ws

-- While services are looked for: those of a type that is new
unfoldable pub announce : ℕ → Vanc → ℕ → List ℕ → Vanc
announce line_number v type types =
    if check_probed_non_display_data v.frame_data type == 0
    then add_services v (map (service_of line_number) types)
    else v

-- The active format, and the bars as the code finds them: from the third byte on.
unfoldable pub afd_items : List ℕ → List UserItem
afd_items bytes =
    item_of user_data_afd 1 (some (take 1 bytes))
    ∷ item_of user_data_bar_data 5 (some (take 5 (drop 2 bytes)))
    ∷ []

module _ (options : OutputStream → Options) (streams : List OutputStream) (line_number : ℕ) where
  unfoldable pub receive_afd : Vanc → List ℕ → Vanc
  receive_afd v bytes =
      if length bytes == 8
      then (if v.probe
          then announce line_number v misc_afd (misc_afd ∷ misc_bar_data ∷ [])
          else if is_wanted options streams v misc_afd user_data_afd
          then add_items v (afd_items bytes)
          else v)
      else v

  unfoldable pub receive_cdp : Vanc → List ℕ → Vanc
  receive_cdp v bytes =
      if v.probe
      then announce line_number v captions_cea_708 (captions_cea_708 ∷ [])
      else if is_wanted options streams v captions_cea_708 user_data_cea_708_cdp
      then add_items v (item_of user_data_cea_708_cdp (length bytes) (some bytes) ∷ [])
      else v

  module _ (disable_captions : ℕ) where
    unfoldable pub receive : Vanc → Packet → Vanc
    receive v p =
        let type = get_vanc_type (p.did % 256) (p.sdid % 256) in
        if eqb_ℤ type (pos misc_afd)
        then receive_afd v (low p.words)
        else if eqb_ℤ type (pos captions_cea_708)
        then (if disable_captions == 0 then receive_cdp v (low p.words) else v)
        else v

    unfoldable pub deliver_packets : Vanc → List Chunk → Vanc
    deliver_packets v [] = v
    deliver_packets v (blank w ∷ cs) = deliver_packets v cs
    deliver_packets v (packet p ∷ cs) = deliver_packets (receive v p) cs

pub length-blank :
    (w : ℕ) (cs : List Chunk) → length (encode_all (blank w ∷ cs)) ≡ suc (length (encode_all cs))
unfolding encode_all encode
length-blank w cs = refl

pub length-packet :
    (p : Packet) (cs : List Chunk)
    → length (encode_all (packet p ∷ cs)) ≡ length p.words + 7 + length (encode_all cs)
unfolding encode_all encode
length-packet p cs =
    let c = closing (total (p.did ∷ p.sdid ∷ p.dc ∷ p.words) % 512) in
    omega (arith, length-append (p.words ++ c ∷ []) (encode_all cs), length-append p.words (c ∷ []))

pub read_words-low :
    (n : ℕ) (ws rest : List ℕ) → n ≡ length ws → read_words n (ws ++ rest) ≡ some (low ws)
unfolding read_words
read_words-low zero [] rest h = refl
read_words-low (suc n) [] rest h = absurd (omega arith)
read_words-low zero (w ∷ ws) rest h = absurd (omega arith)
read_words-low (suc n) (w ∷ ws) rest h = rw (read_words-low n ws rest (omega arith)) refl

add_words-total :
    (n sum : ℕ) (ws rest : List ℕ)
    → n ≡ length ws
    → sum < 512
    → add_words n sum (ws ++ rest) ≡ some ((sum + total ws) % 512, rest)
unfolding add_words total
add_words-total zero sum [] rest h lt = ap (λ s. some (s, rest)) {x = sum} (omega arith)
add_words-total (suc n) sum [] rest h lt = absurd (omega arith)
add_words-total zero sum (w ∷ ws) rest h lt = absurd (omega arith)
add_words-total (suc n) sum (w ∷ ws) rest h lt =
    add_words-total n ((sum + w % 512) % 512) ws rest (omega arith) (omega arith)
    ∙ ap (λ s. some (s, rest)) {x = ((sum + w % 512) % 512 + total ws) % 512} (omega arith)

compare_sum-closing :
    (s t : ℕ) (rest : List ℕ) → s ≡ t → compare_sum (some (s, closing t ∷ rest)) ≡ some true
unfolding compare_sum
compare_sum-closing s t rest h = rw h (ap some ((==_iff (closing t) (closing t)).1 refl))

pub has_checksum-true :
    (n did sdid dc : ℕ) (ws rest : List ℕ)
    → n ≡ length ws
    → has_checksum n (did ∷ sdid ∷ dc ∷ ws ++ closing (total (did ∷ sdid ∷ dc ∷ ws) % 512) ∷ rest)
      ≡ some true
unfolding has_checksum
has_checksum-true n did sdid dc ws rest h =
    ap compare_sum (add_words-total (n + 3) 0 (did ∷ sdid ∷ dc ∷ ws) _ (omega arith) (omega arith))
    ∙ compare_sum-closing _ _ rest (omega arith)
