-- ===== src/Vanc/Deliver.antt =====
-- `parse_vanc_line` on the lines that Vanc.Packets describes.
use obe_rt.Base.{
  ℕ, zero, suc, ◌+◌, ◌*◌, ◌%◌, ◌<◌, ◌≤◌, ◌≡◌, refl, ap, ◌∙◌, drop-append_exact, append_assoc, Bool,
  true, false, Option, some, List, [], ◌∷◌, ◌++◌, length, length-append, drop, ltb, leb, lt→ltb,
  if_false, arith,
}
use obe_rt.Obe.Streams.{OutputStream}
use obe_rt.Sdi.Selected.{Options}
use obe_rt.UserData.{UserItem}
use obe_rt.Vanc.{Vanc}
use obe_rt.Vanc.Line.{
  all_full, starts_packet, closing, take_packet, go_on_with, with_len, at_word, scan, set_probed,
  parse_vanc_line,
}
use obe_rt.Vanc.Packets.{
  Packet, Chunk, blank, packet, encode, encode_all, total, Valid, AllValid, receive,
  deliver_packets, has_checksum-true, length-blank, length-packet,
}
use obe_rt.Vanc.Receive.{dispatch-receive}

closing_high : (t : ℕ) → 3 < closing (t % 512)
unfolding closing
closing_high t = omega arith

-- The checksum of a packet
abbrev sum_word : Packet → ℕ
sum_word p = closing (total (p.did ∷ p.sdid ∷ p.dc ∷ p.words) % 512)

module _ (options : OutputStream → Options) (streams : List OutputStream) (grants : ℕ → Bool)
    (line_number : ℕ) (memory : (n : ℕ) → grants n ≡ true) (stale : UserItem)
    (disable_captions : ℕ) where
  abbrev run : ℕ → ℕ → ℕ → List ℕ → Vanc → Option Vanc
  run = scan options streams grants line_number stale disable_captions

  scan_end :
      (fuel width i : ℕ) (rest : List ℕ) (v : Vanc)
      → width ≤ i + 7
      → run (suc fuel) width i rest v ≡ some v
  unfolding scan
  scan_end fuel width i rest v near = if_false (ltb (i + 7) width) _ _ (ground arith)

  scan_blank :
      (fuel width i w : ℕ) (rest : List ℕ) (v : Vanc)
      → i + 7 < width
      → 3 < w
      → run (suc fuel) width i (w ∷ rest) v ≡ run fuel width (i + 1) rest v
  unfolding scan starts_packet at_word
  scan_blank fuel width i w rest v far high =
      let inside : ltb (i + 7) width ≡ true = lt→ltb _ _ far in
      let other : leb w 3 ≡ false = ground arith in rw (inside, other) refl

  scan_raw :
      (fuel width i : ℕ) (p : Packet) (rest : List ℕ) (v : Vanc)
      → p.dc % 256 ≡ length p.words
      → 0 < length rest
      → i + length p.words + 7 < width
      → run
          (suc fuel)
          width
          i
          (0 ∷ 1023 ∷ 1023 ∷ p.did ∷ p.sdid ∷ p.dc ∷ p.words ++ sum_word p ∷ rest)
          v
        ≡ run fuel width
            (i + 3 + (2 + length p.words + 1))
            (sum_word p ∷ rest)
            (receive options streams line_number disable_captions v p)
  unfolding scan starts_packet all_full at_word with_len take_packet go_on_with
  scan_raw fuel width i p rest v h more far =
      let pkt = p.did ∷ p.sdid ∷ p.dc ∷ p.words in
      let inside : ltb (i + 7) width ≡ true = lt→ltb _ _ (omega arith) in
      let fits : ltb width (p.dc % 256 + 2 + (i + 3) + 1) ≡ false = ground arith in
      let ok = has_checksum-true (p.dc % 256) p.did p.sdid p.dc p.words rest h in
      let behind : drop (2 + p.dc % 256 + 1) (pkt ++ sum_word p ∷ rest) ≡ sum_word p ∷ rest =
        drop-append_exact _ pkt (sum_word p ∷ rest) (omega arith) in
      rw
        (
          inside,
          fits,
          ok,
          dispatch-receive options streams grants line_number memory stale disable_captions v p
              (sum_word p) rest h more,
          behind,
          h,
        )
        refl

  encode-append :
      (p : Packet) (rest : List ℕ)
      → encode (packet p) ++ rest
        ≡ 0 ∷ 1023 ∷ 1023 ∷ p.did ∷ p.sdid ∷ p.dc ∷ p.words ++ sum_word p ∷ rest
  unfolding encode
  encode-append p rest =
      ap (λ l. 0 ∷ 1023 ∷ 1023 ∷ p.did ∷ p.sdid ∷ p.dc ∷ l)
        (append_assoc p.words (sum_word p ∷ []) rest)

  -- A packet takes two rounds: the loop goes on at its checksum, which starts no packet.
  scan_packet :
      (fuel width i : ℕ) (p : Packet) (rest : List ℕ) (v : Vanc)
      → p.dc % 256 ≡ length p.words
      → 0 < length rest
      → i + length p.words + 13 < width
      → run (suc (suc fuel)) width i (encode (packet p) ++ rest) v
        ≡ run fuel width
            (i + length p.words + 7)
            rest
            (receive options streams line_number disable_captions v p)
  scan_packet fuel width i p rest v h more far =
      ap (λ l. run (suc (suc fuel)) width i l v) (encode-append p rest)
      ∙ scan_raw (suc fuel) width i p rest v h more (omega arith)
      ∙ scan_blank fuel width _ (sum_word p) rest _ (omega arith) (closing_high _)
      ∙ ap (λ j. run fuel width j rest (receive options streams line_number disable_captions v p))
          {x = i + 3 + (2 + length p.words + 1) + 1} (omega arith)

  scan-deliver_packets :
      (fuel width i : ℕ) (cs : List Chunk) (tail : List ℕ) (v : Vanc)
      → AllValid cs
      → 0 < length tail
      → length (encode_all cs) < fuel
      → width ≡ i + length (encode_all cs) + 7
      → run fuel width i (encode_all cs ++ tail) v
        ≡ some (deliver_packets options streams line_number disable_captions v cs)
  unfolding encode_all encode AllValid Valid deliver_packets
  scan-deliver_packets zero width i cs tail v ok more f w = absurd (omega arith)
  scan-deliver_packets (suc fuel) width i [] tail v ok more f w =
      scan_end fuel width i tail v (omega arith)
  scan-deliver_packets (suc fuel) width i (blank x ∷ cs) tail v (high, ok) more f w =
      let l = length-blank x cs in
      scan_blank fuel width i x (encode_all cs ++ tail) v (omega arith) high
      ∙ scan-deliver_packets fuel width (i + 1) cs tail v ok more (omega arith) (omega arith)
  scan-deliver_packets (suc zero) width i (packet p ∷ cs) tail v (h, ok) more f w =
      absurd (omega (arith, length-packet p cs))
  scan-deliver_packets (suc (suc fuel)) width i (packet p ∷ cs) tail v (h, ok) more f w =
      let l = length-packet p cs in
      ap (λ line. run (suc (suc fuel)) width i line v)
        (append_assoc (encode (packet p)) (encode_all cs) tail)
      ∙ scan_packet fuel width i p (encode_all cs ++ tail) v h
          (omega (arith, length-append (encode_all cs) tail)) (omega arith)
      ∙ scan-deliver_packets fuel width (i + length p.words + 7) cs tail _ ok more (omega arith)
          (omega arith)

  -- With memory at hand, a line of packets whose length word is right, with the right checksums and with
  -- words above 3 before, between and behind them, and of seven words more gives what its packets give
  -- one after the other: none is missed and nothing else is taken for one.
  pub parse_vanc_line-deliver_packets :
      (v : Vanc) (cs : List Chunk) (tail : List ℕ) (width : ℕ)
      → AllValid cs
      → length tail ≡ 7
      → 2 * width ≡ length (encode_all cs) + 7
      → parse_vanc_line options streams grants line_number stale disable_captions v
          (encode_all cs ++ tail)
          width
        ≡ set_probed (some (deliver_packets options streams line_number disable_captions v cs))
  unfolding parse_vanc_line
  parse_vanc_line-deliver_packets v cs tail width ok seven w = ap set_probed (
      scan-deliver_packets (2 * width + 1) (2 * width) 0 cs tail v ok (omega arith) (omega arith)
        (omega arith))
