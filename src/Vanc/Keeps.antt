-- ===== src/Vanc/Keeps.antt =====
-- What every handler of `parse_vanc_line` keeps, the whole line keeps.
use obe_rt.Base.{
  ℕ, zero, suc, ◌+◌, ◌%◌, Bool, true, false, Option, none, some, List, [], ◌∷◌, drop, ltb, if_elim,
}
use obe_rt.Base.Int.{ℤ}
use obe_rt.Obe.Streams.{OutputStream}
use obe_rt.Sdi.Selected.{Options}
use obe_rt.UserData.{UserItem}
use obe_rt.Vanc.{Vanc}
use obe_rt.Vanc.Line.{starts_packet, dispatch, take_packet, go_on_with, with_len, at_word, scan}

-- Where there is a state, it has the property.
abbrev pub Holds : (Vanc → Type 0) → Option Vanc → Type 0
Holds P none = Unit
Holds P (some v) = P v

module _ (P : Vanc → Type 0) (options : OutputStream → Options) (streams : List OutputStream)
    (grants : ℕ → Bool) (line_number : ℕ) (stale : UserItem) (disable_captions : ℕ)
    (keeps : (v : Vanc) (type : ℤ) (line : List ℕ) (len : ℕ)
      → P v
      → Holds P (
          dispatch options streams grants line_number stale disable_captions v type line len)) where
  take_packet-Holds :
      (v : Vanc) (pkt : List ℕ) (len : ℕ) (o : Option Bool)
      → P v
      → Holds P (take_packet options streams grants line_number stale disable_captions v pkt len o)
  unfolding take_packet
  take_packet-Holds v (did ∷ sdid ∷ line) len (some true) h = keeps v _ line len h
  take_packet-Holds v [] len (some true) h = tt
  take_packet-Holds v (did ∷ []) len (some true) h = tt
  take_packet-Holds v [] len (some false) h = h
  take_packet-Holds v (did ∷ []) len (some false) h = h
  take_packet-Holds v (did ∷ sdid ∷ line) len (some false) h = h
  take_packet-Holds v [] len none h = tt
  take_packet-Holds v (did ∷ []) len none h = tt
  take_packet-Holds v (did ∷ sdid ∷ line) len none h = tt

  go_on_with-Holds :
      (next : Vanc → Option Vanc) (o : Option Vanc)
      → ((w : Vanc) → P w → Holds P (next w))
      → Holds P o
      → Holds P (go_on_with next o)
  unfolding go_on_with
  go_on_with-Holds next none next_holds h = tt
  go_on_with-Holds next (some w) next_holds h = next_holds w h

  with_len-Holds :
      (width i : ℕ) (pkt : List ℕ) (v : Vanc) (next : ℕ → List ℕ → Vanc → Option Vanc)
      (o : Option ℕ)
      → ((j : ℕ) (rest : List ℕ) (w : Vanc) → P w → Holds P (next j rest w))
      → P v
      → Holds P
          (with_len options streams grants line_number stale disable_captions width i pkt v next o)
  unfolding with_len
  with_len-Holds width i pkt v next none next_holds h = tt
  with_len-Holds width i pkt v next (some dc) next_holds h =
      if_elim (Holds P) (ltb width (dc % 256 + 2 + i + 1)) (λ long. h)
        (λ fits.
          go_on_with-Holds _ _ (λ w. next_holds _ _ w) (take_packet-Holds v pkt (dc % 256) _ h))

  at_word-Holds :
      (width i : ℕ) (line : List ℕ) (v : Vanc) (next : ℕ → List ℕ → Vanc → Option Vanc)
      (o : Option Bool)
      → ((j : ℕ) (rest : List ℕ) (w : Vanc) → P w → Holds P (next j rest w))
      → P v
      → Holds P
          (at_word options streams grants line_number stale disable_captions width i line v next o)
  unfolding at_word
  at_word-Holds width i line v next none next_holds h = tt
  at_word-Holds width i line v next (some false) next_holds h = next_holds _ _ v h
  at_word-Holds width i line v next (some true) next_holds h =
      with_len-Holds width (i + 3) (drop 3 line) v next _ next_holds h

  pub scan-Holds :
      (fuel width i : ℕ) (line : List ℕ) (v : Vanc)
      → P v
      → Holds P (scan options streams grants line_number stale disable_captions fuel width i line v)
  unfolding scan
  scan-Holds zero width i line v h = tt
  scan-Holds (suc fuel) width i line v h =
      if_elim (Holds P) (ltb (i + 7) width)
        (λ inside.
          at_word-Holds width i line v _ (starts_packet line)
            (λ j rest w. scan-Holds fuel width j rest w) h)
        (λ outside. h)
