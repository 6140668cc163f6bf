-- ===== src/Ac3/Frame.antt =====
-- What the AC-3 callback does with the payload of a burst.
use obe_rt.Base.{
  ℕ, zero, suc, ◌+◌, ◌-◌, ◌/◌, ◌^◌, ◌≤◌, ◌<◌, ◌≡◌, refl, ap, Bool, true, false, none, some, List,
  [], ◌∷◌, arith, ◌==◌, length, take, drop, length-drop,
}
use obe_rt.Base.Int.{ℤ, ◌+ℤ◌, scale}
use obe_rt.Ac3.{
  crc_calc, swap_buffer_16b, words_of, both_zero, validate_crc, pred_u32, Encoder, out_of_bounds,
  queues, forward, detector_callback,
}
use obe_rt.Ac3.Crc.{crc_from-none}

-- Swapping the bytes of the words twice gives the buffer back.
pub swap_buffer_16b_twice : (n : ℕ) (buf : List ℕ) → swap_buffer_16b n (swap_buffer_16b n buf) ≡ buf
unfolding swap_buffer_16b
swap_buffer_16b_twice zero buf = refl
swap_buffer_16b_twice (suc n) [] = refl
swap_buffer_16b_twice (suc n) (a ∷ []) = refl
swap_buffer_16b_twice (suc n) (a ∷ b ∷ buf) = ap (λ l. a ∷ b ∷ l) (swap_buffer_16b_twice n buf)

length-words_of : (bs : List ℕ) → length (words_of bs) ≤ length bs
unfolding words_of
length-words_of [] = omega arith
length-words_of (a ∷ []) = omega arith
length-words_of (a ∷ b ∷ bs) = omega (arith, length-words_of bs)

length-swap : (n : ℕ) (buf : List ℕ) → length (swap_buffer_16b n buf) ≡ length buf
unfolding swap_buffer_16b
length-swap zero buf = refl
length-swap (suc n) [] = refl
length-swap (suc n) (a ∷ []) = refl
length-swap (suc n) (a ∷ b ∷ buf) = ap (λ l. suc (suc l)) (length-swap n buf)

-- The words of a payload that the two checksums run over: all but the first.
abbrev pub checked_words : ℕ → List ℕ → List ℕ
checked_words byte_count payload = drop 1 (words_of (swap_buffer_16b (byte_count / 2) payload))

validate_crc-true :
    (buf : List ℕ) (buflen : ℕ)
    → 4 ≤ buflen
    → buflen < 2 ^ 16
    → crc_calc (drop 1 (words_of buf)) (buflen / 2 / 2 + buflen / 2 / 8 - 1) ≡ some 0
    → crc_calc (drop 1 (words_of buf)) (buflen / 2 - 1) ≡ some 0
    → validate_crc buf buflen ≡ some true
unfolding validate_crc both_zero
validate_crc-true buf buflen long short crc1 crc2 =
    let a : pred_u32 (buflen / 2 / 2 + buflen / 2 / 8) ≡ buflen / 2 / 2 + buflen / 2 / 8 - 1 =
      omega arith in
    let b : pred_u32 (buflen / 2) ≡ buflen / 2 - 1 = omega arith in rw (a, b, crc1, crc2)

validate_crc-none :
    (buf : List ℕ) (buflen : ℕ) → buflen < 4 → length buf < 2 ^ 32 → validate_crc buf buflen ≡ none
unfolding validate_crc both_zero crc_calc
validate_crc-none buf buflen short small =
    let a : pred_u32 (buflen / 2 / 2 + buflen / 2 / 8) ≡ 2 ^ 32 - 1 = omega arith in
    rw (
      a,
      crc_from-none 0 (drop 1 (words_of buf)) (2 ^ 32 - 1)
          (omega (arith, length-drop 1 (words_of buf), length-words_of buf)),
    )

-- A payload whose two checksums are zero is forwarded byte for byte: for an AC-3 burst of at least
-- four bytes, with memory for the frame, the callback queues one frame that holds the payload's first
-- bytes in their original order, is stamped with the burst's corrected time plus both offsets at
-- 27000 ticks a millisecond, and is a random access point.
pub detector_callback_forwards :
    (e : Encoder) (pts : ℤ) (payload_bit_count : ℕ) (payload : List ℕ)
    → let n = payload_bit_count / 8 in
      4 ≤ n
      → n < 2 ^ 16
      → crc_calc (checked_words n payload) (n / 2 / 2 + n / 2 / 8 - 1) ≡ some 0
      → crc_calc (checked_words n payload) (n / 2 - 1) ≡ some 0
      → detector_callback e true pts 1 payload_bit_count payload
        ≡ queues (record {
          output_stream_id = e.stream_id;
          len = n;
          frame_data = take n payload;
          pts = pts +ℤ scale 27000 e.ac3_offset_ms +ℤ scale 27000 e.audio_offset_ms;
          avfm_pts_corrected = pts;
          random_access = true;
        })
unfolding detector_callback forward
detector_callback_forwards e pts bits payload long short crc1 crc2 =
    let some_bytes : (bits / 8 == 0) ≡ false = ground arith in
    rw (
      some_bytes,
      validate_crc-true _ (bits / 8) long short crc1 crc2,
      swap_buffer_16b_twice (bits / 8 / 2) payload,
    )

-- A defect: a burst that announces one, two or three bytes of AC-3 makes the callback read past the
-- payload, since the count of words wraps below zero; so for every payload shorter than 4 gigabytes.
pub detector_callback_short :
    (e : Encoder) (granted : Bool) (pts : ℤ) (payload_bit_count : ℕ) (payload : List ℕ)
    → 8 ≤ payload_bit_count
    → payload_bit_count < 32
    → length payload < 2 ^ 32
    → detector_callback e granted pts 1 payload_bit_count payload ≡ out_of_bounds
unfolding detector_callback forward
detector_callback_short e granted pts bits payload lo hi small =
    let some_bytes : (bits / 8 == 0) ≡ false = ground arith in
    rw (
      some_bytes,
      validate_crc-none (swap_buffer_16b (bits / 8 / 2) payload) (bits / 8) (omega arith)
          (omega (arith, length-swap (bits / 8 / 2) payload)),
    )
