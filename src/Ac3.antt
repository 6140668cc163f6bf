-- ===== src/Ac3.antt =====
-- encoders/audio/ac3bitstream/ac3bitstream.c: checking AC-3 frames that arrive in SMPTE 337 bursts and
-- handing them to the multiplexer. Words are read from the bytes low byte first, as on the x86 hosts
-- that the encoder runs on.
pub mod Table
pub mod Crc
pub mod Frame
mod Tests
use Prim.Native.Nat.{bit_xor}
use obe_rt.Base.{
  ℕ, zero, suc, ◌+◌, ◌-◌, ◌*◌, ◌/◌, ◌%◌, ◌^◌, Bool, true, false, ◌&&◌, Option, none, some, List, [],
  ◌∷◌, ltb, ◌==◌, if◌then◌else◌, take, drop,
}
use obe_rt.Base.Int.{ℤ, pos, negsuc, ◌+ℤ◌, scale}
use Table.{crc_entry}

-- `crc = (crc << 8) ^ crc_tab[((crc >> 8) & 0xFF) ^ t]`, into a `uint16_t`
pub crc_byte : ℕ → ℕ → ℕ
crc_byte crc t = bit_xor (crc * 256) (crc_entry (bit_xor (crc / 256 % 256) t)) % 2 ^ 16

-- The body of the loop of `crc_calc`.
pub crc_word : ℕ → ℕ → ℕ
crc_word crc w = crc_byte (crc_byte crc (w / 256 % 256)) (w % 256)

-- The loop of `crc_calc`, with the count of words that are left; `none` is a read past the buffer.
pub crc_from : ℕ → List ℕ → ℕ → Option ℕ
crc_from crc ws zero = some crc
crc_from crc [] (suc n) = none
crc_from crc (w ∷ ws) (suc n) = crc_from (crc_word crc w) ws n

pub crc_calc : List ℕ → ℕ → Option ℕ
crc_calc words word_count = crc_from 0 words word_count

-- The first `number_words` pairs of bytes are swapped.
pub swap_buffer_16b : ℕ → List ℕ → List ℕ
swap_buffer_16b zero buf = buf
swap_buffer_16b (suc n) [] = []
swap_buffer_16b (suc n) (a ∷ []) = a ∷ []
swap_buffer_16b (suc n) (a ∷ b ∷ buf) = b ∷ a ∷ swap_buffer_16b n buf

-- `(const uint16_t *)buf`
pub words_of : List ℕ → List ℕ
words_of [] = []
words_of (a ∷ []) = []
words_of (a ∷ b ∷ bs) = (a + b * 256) ∷ words_of bs

-- `n - 1` on a `uint32_t`
abbrev pub pred_u32 : ℕ → ℕ
pred_u32 n = (n + 2 ^ 32 - 1) % 2 ^ 32

pub both_zero : Option ℕ → Option ℕ → Option Bool
both_zero (some a) (some b) = some (a == 0 && b == 0)
both_zero _ _ = none

-- `none` is a read past the buffer.
pub validate_crc : List ℕ → ℕ → Option Bool
validate_crc buf buflen =
    let framesize = buflen / 2 in
    let framesize58 = framesize / 2 + framesize / 8 in
    let words = drop 1 (words_of buf) in
    both_zero (crc_calc words (pred_u32 framesize58)) (crc_calc words (pred_u32 framesize))

-- Part of what the callback sets of `obe_coded_frame_t`: without the frame's type, which is always
-- CF_AUDIO, and the other times of `avfm`.
pub record CodedFrame : Type 0 where
  pub output_stream_id : ℕ
  pub len : ℕ
  pub frame_data : List ℕ
  pub pts : ℤ
  pub avfm_pts_corrected : ℤ
  pub random_access : Bool

-- What the callback reads of its context.
pub record Encoder : Type 0 where
  pub stream_id : ℕ
  pub ac3_offset_ms : ℤ
  pub audio_offset_ms : ℤ

-- What the callback does besides clearing `h->audio_encoder_drop`.
pub data Action : Type 0 where
  discards : Action
  out_of_bounds : Action
  queues : CodedFrame → Action

-- After `validateCRC`, on the swapped payload; `granted` is whether `new_coded_frame` gets its memory.
pub forward : Encoder → Bool → ℤ → ℕ → List ℕ → Option Bool → Action
forward e granted pts byte_count swapped none = out_of_bounds
forward e granted pts byte_count swapped (some false) = discards
forward e false pts byte_count swapped (some true) = discards
forward e true pts byte_count swapped (some true) = queues (record {
  output_stream_id = e.stream_id;
  len = byte_count;
  frame_data = take byte_count (swap_buffer_16b (byte_count / 2) swapped);
  pts = pts +ℤ scale 27000 e.ac3_offset_ms +ℤ scale 27000 e.audio_offset_ms;
  avfm_pts_corrected = pts;
  random_access = true;
})

pub detector_callback : Encoder → Bool → ℤ → ℕ → ℕ → List ℕ → Action
detector_callback e granted pts datatype payload_bit_count payload =
    let byte_count = payload_bit_count / 8 in
    let swapped = swap_buffer_16b (byte_count / 2) payload in
    if datatype == 1
    then (if byte_count == 0
        then discards
        else forward e granted pts byte_count swapped (validate_crc swapped byte_count))
    else discards
