-- ===== src/Vanc/Bounds.antt =====
-- Where `parse_vanc_line` reads, and that its loop ends.
use obe_rt.Base.{
  ℕ, zero, suc, ◌+◌, ◌*◌, ◌/◌, ◌%◌, ◌<◌, ◌≤◌, ◌≡◌, refl, inl, inr, Bool, true, false, Option, some,
  List, [], ◌∷◌, length, drop, length-drop, get_elem?, ◌==◌, ==_iff, leb, ltb-cases, if◌then◌else◌,
  if_elim, arith,
}
use obe_rt.Base.Int.{ℤ, pos, eqb_ℤ}
use obe_rt.Obe.Streams.{OutputStream}
use obe_rt.Sdi.Selected.{Options}
use obe_rt.UserData.{UserItem, user_data_cea_708_cdp, user_data_afd}
use obe_rt.Vanc.{
  Vanc, get_vanc_type, size_of_item, misc_afd, captions_cea_708, vanc_dvb_scte_vbi, read_words,
  store_words, is_wanted, read_cdp_words, parse_cdp, store_bars, read_afd, parse_afd,
  parse_dvb_scte_vbi,
}
use obe_rt.Vanc.Line.{
  all_full, starts_packet, add_words, compare_sum, has_checksum, state_of, dispatch, take_packet,
  go_on_with, with_len, at_word, scan, set_probed, parse_vanc_line,
}

-- There is a result: no read was outside the line.
abbrev Gives {ℓ} : {A : Type ℓ} → Option A → Type ℓ
Gives {A = A} o = (a : A) × (o ≡ some a)

branch {ℓ} :
    {A : Type ℓ} (b : Bool) {x y : Option A} → Gives x → Gives y → Gives (if b then x else y)
branch b p q = if_elim Gives b (λ h. p) (λ h. q)

read_words-Gives : (n : ℕ) (line : List ℕ) → n ≤ length line → Gives (read_words n line)
unfolding read_words
read_words-Gives zero line h = (_, refl)
read_words-Gives (suc n) [] h = absurd (omega arith)
read_words-Gives (suc n) (w ∷ line) h =
    let (bs, e) = read_words-Gives n line (omega arith) in rw e (_, refl)

all_full-Gives : (n : ℕ) (line : List ℕ) → n ≤ length line → Gives (all_full n line)
unfolding all_full
all_full-Gives zero line h = (_, refl)
all_full-Gives (suc n) [] h = absurd (omega arith)
all_full-Gives (suc n) (w ∷ line) h =
    if_elim Gives (w / 4 % 256 == 255) (λ full. all_full-Gives n line (omega arith))
      (λ other. (_, refl))

starts_packet-Gives : (line : List ℕ) → 3 ≤ length line → Gives (starts_packet line)
unfolding starts_packet
starts_packet-Gives [] h = absurd (omega arith)
starts_packet-Gives (w ∷ line) h =
    if_elim Gives (leb w 3) (λ low. all_full-Gives 2 line (omega arith)) (λ high. (_, refl))

get_elem?-Gives : (i : ℕ) (line : List ℕ) → i < length line → Gives (get_elem? line i)
get_elem?-Gives i [] h = absurd (omega arith)
get_elem?-Gives zero (w ∷ line) h = (_, refl)
get_elem?-Gives (suc i) (w ∷ line) h = get_elem?-Gives i line (omega arith)

sum-Gives : (n sum : ℕ) (pkt : List ℕ) → n < length pkt → Gives (compare_sum (add_words n sum pkt))
unfolding add_words compare_sum
sum-Gives n sum [] h = absurd (omega arith)
sum-Gives zero sum (w ∷ pkt) h = (_, refl)
sum-Gives (suc n) sum (w ∷ pkt) h = sum-Gives n ((sum + w % 512) % 512) pkt (omega arith)

store_words-Gives :
    (v : Vanc) (type len : ℕ) (o : Option (List ℕ)) → Gives o → Gives (store_words v type len o)
unfolding store_words
store_words-Gives v type len o (bs, e) = rw e (_, refl)

store_bars-Gives : (v : Vanc) (afd : ℕ) (o : Option (List ℕ)) → Gives o → Gives (store_bars v afd o)
unfolding store_bars
store_bars-Gives v afd o (bs, e) = rw e (_, refl)

state_of-Gives : (o : Option (ℤ × Vanc)) → Gives o → Gives (state_of o)
unfolding state_of
state_of-Gives o (r, e) = rw e (_, refl)

parse_dvb-Gives :
    (v : Vanc) (dc a b : ℕ) (line : List ℕ) → Gives (parse_dvb_scte_vbi v (dc ∷ a ∷ b ∷ line))
unfolding parse_dvb_scte_vbi
parse_dvb-Gives v dc a b line = (_, refl)

go_on_with-Gives :
    (next : Vanc → Option Vanc) (o : Option Vanc)
    → ((w : Vanc) → Gives (next w))
    → Gives o
    → Gives (go_on_with next o)
unfolding go_on_with
go_on_with-Gives next o h (w, e) = rw e (h w)

set_probed-Gives : (o : Option Vanc) → Gives o → Gives (set_probed o)
unfolding set_probed
set_probed-Gives o (v, e) = rw e (branch v.probe (_, refl) (_, refl))

module _ (options : OutputStream → Options) (streams : List OutputStream) (grants : ℕ → Bool)
    (line_number : ℕ) (stale : UserItem) (disable_captions : ℕ) where
  parse_cdp-Gives :
      (v : Vanc) (line : List ℕ) (len : ℕ)
      → len < length line
      → Gives (parse_cdp options streams grants line_number v line len)
  unfolding parse_cdp read_cdp_words
  parse_cdp-Gives v line len h =
      let words : Gives (read_words len (drop 1 line)) =
        read_words-Gives len (drop 1 line) (omega (arith, length-drop 1 line)) in
      branch v.probe (_, refl)
        (branch (is_wanted options streams v captions_cea_708 user_data_cea_708_cdp)
          (branch (grants ((length v.user_data + 1) * size_of_item))
            (branch (grants len) (store_words-Gives v user_data_cea_708_cdp len _ words) (_, refl))
            (_, refl))
          (_, refl))

  read_afd-Gives :
      (v : Vanc) (line : List ℕ) → 7 ≤ length line → Gives (read_afd grants stale v line)
  unfolding read_afd
  read_afd-Gives v [] h = absurd (omega arith)
  read_afd-Gives v (w ∷ line) h =
      let words : Gives (read_words 5 (drop 1 line)) =
        read_words-Gives 5 (drop 1 line) (omega (arith, length-drop 1 line)) in
      branch (grants 1) (branch (grants 5) (store_bars-Gives v (w % 256) _ words) (_, refl))
        (_, refl)

  parse_afd-Gives :
      (v : Vanc) (dc : ℕ) (line : List ℕ)
      → dc % 256 ≤ length line
      → Gives (parse_afd options streams grants line_number stale v (dc ∷ line))
  unfolding parse_afd
  parse_afd-Gives v dc line h =
      if_elim Gives (dc % 256 == 8)
        (λ eight.
          branch v.probe (_, refl)
            (branch (is_wanted options streams v misc_afd user_data_afd)
              (branch (grants ((length v.user_data + 2) * size_of_item))
                (read_afd-Gives v line (omega (arith, (==_iff (dc % 256) 8).0 eight))) (_, refl))
              (_, refl)))
        (λ other. (_, refl))

  dispatch-Gives :
      (v : Vanc) (type : ℤ) (dc a b : ℕ) (line : List ℕ)
      → dc % 256 ≤ suc (length line)
      → Gives (
          dispatch options streams grants line_number stale disable_captions v type
            (dc ∷ a ∷ b ∷ line)
            (dc % 256))
  unfolding dispatch
  dispatch-Gives v type dc a b line h =
      branch (eqb_ℤ type (pos misc_afd))
        (state_of-Gives _ (parse_afd-Gives v dc (a ∷ b ∷ line) (omega arith)))
        (branch (eqb_ℤ type (pos vanc_dvb_scte_vbi))
          (branch (disable_captions == 0) (state_of-Gives _ (parse_dvb-Gives v dc a b line))
            (_, refl))
          (branch (eqb_ℤ type (pos captions_cea_708))
            (branch (disable_captions == 0)
              (state_of-Gives _ (parse_cdp-Gives v (dc ∷ a ∷ b ∷ line) (dc % 256) (omega arith)))
              (_, refl))
            (_, refl)))

  -- A packet of a length that the test of the loop lets pass, with a word behind it.
  take_packet-Gives :
      (v : Vanc) (did sdid dc a b : ℕ) (line : List ℕ) (o : Option Bool)
      → dc % 256 ≤ suc (length line)
      → Gives o
      → Gives (
          take_packet options streams grants line_number stale disable_captions v
            (did ∷ sdid ∷ dc ∷ a ∷ b ∷ line)
            (dc % 256)
            o)
  unfolding take_packet
  take_packet-Gives v did sdid dc a b line o h (true, e) =
      rw e (dispatch-Gives v (get_vanc_type (did % 256) (sdid % 256)) dc a b line h)
  take_packet-Gives v did sdid dc a b line o h (false, e) = rw e (_, refl)

  -- What the loop needs to go on from an index: the words up to the width and one more.
  abbrev Room : ℕ → (ℕ → List ℕ → Vanc → Option Vanc) → ℕ → Type 0
  Room width next i =
      (j : ℕ) (rest : List ℕ) (w : Vanc)
      → i < j
      → j ≤ width
      → width < length rest + j
      → Gives (next j rest w)

  with_len-Gives :
      (width i : ℕ) (did sdid dc a b : ℕ) (line : List ℕ) (v : Vanc)
      (next : ℕ → List ℕ → Vanc → Option Vanc)
      → width < length line + 5 + i
      → Room width next i
      → Gives (
          with_len options streams grants line_number stale disable_captions width i
            (did ∷ sdid ∷ dc ∷ a ∷ b ∷ line)
            v
            next
            (some dc))
  unfolding with_len has_checksum
  with_len-Gives width i did sdid dc a b line v next h room =
      let pkt = did ∷ sdid ∷ dc ∷ a ∷ b ∷ line in
      elim (ltb-cases width (dc % 256 + 2 + i + 1)) [
        | inl (long, over) ↦ rw long (_, refl)
        | inr (fits, inside) ↦ rw fits (
            go_on_with-Gives _ _
              (λ w.
                room (i + (2 + dc % 256 + 1)) (drop (2 + dc % 256 + 1) pkt) w (omega arith)
                  (omega arith) (omega (arith, length-drop (2 + dc % 256 + 1) pkt)))
              (take_packet-Gives v did sdid dc a b line _ (omega arith)
                (sum-Gives (dc % 256 + 3) 0 pkt (omega arith))))
      ]

  at_word-Gives :
      (width i : ℕ) (line : List ℕ) (v : Vanc) (next : ℕ → List ℕ → Vanc → Option Vanc) (b : Bool)
      → i + 7 < width
      → width < length line + i
      → Room width next i
      → Gives (
          at_word options streams grants line_number stale disable_captions width i line v next
            (some b))
  unfolding at_word
  at_word-Gives width i line v next false far h room =
      room (i + 1) (drop 1 line) v (omega arith) (omega arith) (omega (arith, length-drop 1 line))
  at_word-Gives width i (a ∷ b ∷ c ∷ did ∷ sdid ∷ dc ∷ x ∷ y ∷ line) v next true far h room =
      with_len-Gives width (i + 3) did sdid dc x y line v next (omega arith)
        (λ j rest w more in_it enough. room j rest w (omega arith) in_it enough)
  at_word-Gives width i line v next true far h room = absurd (omega arith)

  scan-Gives :
      (fuel width i : ℕ) (line : List ℕ) (v : Vanc)
      → width < fuel + i
      → i ≤ width
      → width < length line + i
      → Gives (scan options streams grants line_number stale disable_captions fuel width i line v)
  unfolding scan
  scan-Gives zero width i line v f l h = absurd (omega arith)
  scan-Gives (suc fuel) width i line v f l h = elim (ltb-cases (i + 7) width) [
    | inl (inside, far) ↦
        let (b, e) = starts_packet-Gives line (omega arith) in
        rw (inside, e)
          (at_word-Gives width i line v _ b far h (λ j rest w more in_it enough.
            scan-Gives fuel width j rest w (omega arith) in_it enough))
    | inr (outside, near) ↦ rw outside (_, refl)
  ]

  -- With one word more in memory than the 2 * width words of the line, parse_vanc_line reads nothing
  -- outside of it, whatever the words are, and its loop ends within one round more than there are words.
  pub parse_vanc_line_bounds :
      (v : Vanc) (line : List ℕ) (width : ℕ)
      → 2 * width < length line
      → (w : Vanc) × (parse_vanc_line options streams grants line_number stale disable_captions v
            line width
          ≡ some w)
  unfolding parse_vanc_line
  parse_vanc_line_bounds v line width h =
      set_probed-Gives _
        (scan-Gives (2 * width + 1) (2 * width) 0 line v (omega arith) (omega arith) (omega arith))
