-- ===== src/Output/Rtp/Packet.antt =====
-- What `write_rtp_pkt` of output/ip/ip.c sends.
use obe_rt.Base.{
  ℕ, ◌+◌, ◌*◌, ◌/◌, ◌%◌, ◌^◌, ◌<◌, ◌≤◌, ◌≡◌, refl, sym, ap, ap₂, ◌∙◌, Bool, true, false, some, List,
  [], ◌∷◌, ◌++◌, append_assoc, length, take, take-append_exact, Bool-cases, ◌⊎◌, inl, inr,
  length-append, ltb, if_true, if_false, arith,
}
use obe_rt.Base.Int.{pos, negsuc}
use obe_rt.UserData.{BitWriter}
use obe_rt.UserData.Bits.{to_bits, unpack, AllBytes, WriterLaws, Holds, Adds-trans, Holds-Adds}
use obe_rt.UserData.Cdp.Sections.{halves}
use obe_rt.Output.Rtp.{RtpCtx, RtpCall, max_ts_packets_size, rtp_header, write_rtp_pkt}

-- The four bytes of a word, the highest first.
abbrev pub word : ℕ → List ℕ
word v = v / 2 ^ 24 ∷ v / 2 ^ 16 % 256 ∷ v / 256 % 256 ∷ v % 256 ∷ []

abbrev pub rtp_packet : ℕ → ℕ → ℕ → List ℕ → List ℕ
rtp_packet seq time ssrc bytes =
    (128 ∷ 33 ∷ seq / 256 ∷ seq % 256 ∷ word time ++ word ssrc) ++ bytes

header-AllBytes :
    (seq time ssrc : ℕ)
    → seq < 2 ^ 16
    → time < 2 ^ 32
    → ssrc < 2 ^ 32
    → AllBytes (128 ∷ 33 ∷ seq / 256 ∷ seq % 256 ∷ word time ++ word ssrc)
header-AllBytes seq time ssrc a b c = (
  omega arith,
  (
    omega arith,
    (
      omega arith,
      (
        omega arith,
        (
          omega arith,
          (
            omega arith,
            (
              omega arith,
              (omega arith, (omega arith, (omega arith, (omega arith, (omega arith, tt))))),
            ),
          ),
        ),
      ),
    ),
  ),
)

module _ {S : Type 0} (lib : BitWriter S) (laws : WriterLaws lib) where
  word_bits :
      (v : ℕ) → v < 2 ^ 32 → to_bits 16 (v / 2 ^ 16) ++ to_bits 16 (v % 2 ^ 16) ≡ unpack (word v)
  unfolding unpack
  word_bits v lt =
      let a = v / 2 ^ 24 in
      let b = v / 2 ^ 16 % 256 in
      let c = v / 256 % 256 in
      let d = v % 256 in
      let high : v / 2 ^ 16 ≡ a * 256 + b = omega arith in
      let low : v % 2 ^ 16 ≡ c * 256 + d = omega arith in
      ap (λ n. to_bits 16 n ++ to_bits 16 (v % 2 ^ 16)) high
      ∙ ap (λ n. to_bits 16 (a * 256 + b) ++ to_bits 16 n) low
      ∙ ap₂ (λ x y. x ++ y) (halves a b (omega arith) (omega arith))
          (halves c d (omega arith) (omega arith))

  write_word :
      (s : S) (bs : List ℕ) (v : ℕ)
      → v < 2 ^ 32
      → Holds lib laws s bs
      → Holds lib laws (lib.bs_write32 s v) (bs ++ word v)
  write_word s bs v lt h =
      Holds-Adds lib laws s (lib.bs_write32 s v) bs (word v) h
        (laws.write32 s v lt ∙ ap (λ x. laws.bits s ++ x) (word_bits v lt))

  -- The two bytes in front: the version and the payload type
  flags_of_packet :
      (p : S)
      → p ≡ lib.bs_init
      → Holds lib laws
          (lib.bs_write
            (lib.bs_write1
              (lib.bs_write (lib.bs_write1 (lib.bs_write1 (lib.bs_write p 2 2) 0) 0) 4 0)
              0)
            7
            33)
          (128 ∷ 33 ∷ [])
  unfolding unpack
  flags_of_packet p e =
      let s1 = lib.bs_write p 2 2 in
      let s2 = lib.bs_write1 s1 0 in
      let s3 = lib.bs_write1 s2 0 in
      let s4 = lib.bs_write s3 4 0 in
      let s5 = lib.bs_write1 s4 0 in
      let s6 = lib.bs_write s5 7 33 in
      let a2 =
        Adds-trans lib laws p s1 s2 _ _ (laws.write p 2 2 (omega arith))
          (laws.write1 s1 0 (omega arith)) in
      let a3 = Adds-trans lib laws p s2 s3 _ _ a2 (laws.write1 s2 0 (omega arith)) in
      let a4 = Adds-trans lib laws p s3 s4 _ _ a3 (laws.write s3 4 0 (omega arith)) in
      let a5 = Adds-trans lib laws p s4 s5 _ _ a4 (laws.write1 s4 0 (omega arith)) in
      let a6 = Adds-trans lib laws p s5 s6 _ _ a5 (laws.write s5 7 33 (omega arith)) in
      a6 ∙ ap (λ x. x ++ unpack (128 ∷ 33 ∷ [])) (ap laws.bits e ∙ laws.init)

  pub header-Holds :
      (p : RtpCtx) (timestamp : ℕ)
      → p.seq < 2 ^ 16
      → p.ssrc < 2 ^ 32
      → lib.bytes (rtp_header lib p timestamp)
        ≡ 128 ∷ 33 ∷ p.seq / 256 ∷ p.seq % 256 ∷ word (timestamp / 300 % 2 ^ 32) ++ word p.ssrc
  unfolding rtp_header unpack
  header-Holds p timestamp a b =
      let time = timestamp / 300 % 2 ^ 32 in
      let front =
        lib.bs_write
          (lib.bs_write1
            (lib.bs_write (lib.bs_write1 (lib.bs_write1 (lib.bs_write lib.bs_init 2 2) 0) 0) 4 0) 0)
          7 33 in
      let seq_bytes = p.seq / 256 ∷ p.seq % 256 ∷ [] in
      let s5 = lib.bs_write front 16 p.seq in
      let s6 = lib.bs_write32 s5 time in
      let seq_bits : to_bits 16 p.seq ≡ unpack seq_bytes =
        ap (to_bits 16) {x = p.seq} {y = p.seq / 256 * 256 + p.seq % 256} (omega arith)
        ∙ halves (p.seq / 256) (p.seq % 256) (omega arith) (omega arith) in
      let h1 : Holds lib laws s5 (128 ∷ 33 ∷ seq_bytes) =
        Holds-Adds lib laws front s5 (128 ∷ 33 ∷ []) seq_bytes (flags_of_packet lib.bs_init refl)
          (laws.write front 16 p.seq a ∙ ap (λ x. laws.bits front ++ x) seq_bits) in
      let h2 : Holds lib laws s6 (128 ∷ 33 ∷ seq_bytes ++ word time) =
        write_word s5 (128 ∷ 33 ∷ seq_bytes) time (omega arith) h1 in
      let bytes = 128 ∷ 33 ∷ seq_bytes ++ word time ++ word p.ssrc in
      let h3 : Holds lib laws (lib.bs_write32 s6 p.ssrc) bytes =
        write_word s6 (128 ∷ 33 ∷ seq_bytes ++ word time) p.ssrc b h2 in
      laws.flush (lib.bs_write32 s6 p.ssrc) bytes
        (header-AllBytes p.seq time p.ssrc a (omega arith) b) h3

  -- With a sequence number and a source of their widths and with as many data as the payload size, 16
  -- packets of 188 bytes at most, what is sent has the version, the payload type of a transport stream,
  -- the sequence number, the time in units of 300 ticks and the source in front of the data; the number
  -- goes up by one, modulo 2^16, and the count of packets goes up only when the socket takes the packet.
  pub write_rtp_pkt-rtp_packet :
      (udp_write : List ℕ → Bool) (p : RtpCtx) (bytes stale : List ℕ) (timestamp : ℕ)
      → p.seq < 2 ^ 16
      → p.ssrc < 2 ^ 32
      → length bytes ≤ max_ts_packets_size
      → (w : RtpCall) × (write_rtp_pkt lib udp_write (length bytes) stale p bytes timestamp
          ≡ some w)
        × (w.pkt ≡ rtp_packet p.seq (timestamp / 300 % 2 ^ 32) p.ssrc bytes)
        × (w.ctx.seq ≡ (p.seq + 1) % 2 ^ 16)
        × (w.ctx.ssrc ≡ p.ssrc)
        × (((udp_write w.pkt ≡ true) × (w.ret ≡ pos 0) × (w.ctx.pkt_cnt ≡ (p.pkt_cnt + 1) % 2 ^ 32))
            ⊎ ((udp_write w.pkt ≡ false) × (w.ret ≡ negsuc 0) × (w.ctx.pkt_cnt ≡ p.pkt_cnt)))
  unfolding write_rtp_pkt
  write_rtp_pkt-rtp_packet udp_write p bytes stale timestamp a b few =
      let head =
        128 ∷ 33 ∷ p.seq / 256 ∷ p.seq % 256 ∷ word (timestamp / 300 % 2 ^ 32) ++ word p.ssrc in
      let fits : ltb max_ts_packets_size (length bytes) ≡ false = ground arith in
      let sent =
        take (12 + length bytes) (lib.bytes (rtp_header lib p timestamp) ++ (bytes ++ stale)) in
      let same : sent ≡ head ++ bytes =
        ap (λ x. take (12 + length bytes) (x ++ (bytes ++ stale))) (header-Holds p timestamp a b)
        ∙ ap (take (12 + length bytes)) (sym (append_assoc head bytes stale))
        ∙ take-append_exact (12 + length bytes) (head ++ bytes) stale
            (omega (arith, length-append head bytes)) in
      elim (Bool-cases (udp_write sent)) [
        | inl taken ↦ (
          _,
          if_false _ _ _ fits ∙ if_true _ _ _ taken,
          same,
          refl,
          refl,
          inl (taken, refl, refl),
        )
        | inr refused ↦ (
          _,
          if_false _ _ _ fits ∙ if_false _ _ _ refused,
          same,
          refl,
          refl,
          inr (refused, refl, refl),
        )
      ]
