-- ===== src/Output/Rtp.antt =====
-- The packets of the RTP output, output/ip/ip.c. The bit writer of common/bitstream.h and `udp_write` are
-- parameters. Times are not negative.
pub mod Packet
use obe_rt.Base.{
  ℕ, zero, suc, ◌+◌, ◌*◌, ◌/◌, ◌%◌, ◌^◌, ◌<◌, ◌≤◌, ◌≡◌, refl, sym, ap, ap₂, ◌∙◌, Bool, true, false,
  Option, none, some, List, [], ◌∷◌, ◌++◌, append_assoc, length, take, take-append_exact,
  Bool-cases, ◌⊎◌, inl, inr, length-append, ltb, if◌then◌else◌, if_true, if_false, arith,
}
use obe_rt.Base.Int.{ℤ, pos, negsuc}
use obe_rt.UserData.{BitWriter}
use obe_rt.UserData.Bits.{
  to_bits, unpack, AllBytes, WriterLaws, Holds, Adds, Adds-trans, Holds-Adds, write_byte,
}
use obe_rt.UserData.Cdp.Sections.{halves}

-- `obe_rtp_ctx` without the socket
pub record RtpCtx : Type 0 where
  pub seq : ℕ
  pub ssrc : ℕ
  pub pkt_cnt : ℕ
  pub octet_cnt : ℕ

-- What a call returns, the packet that it hands to `udp_write`, and the context after it.
pub record RtpCall : Type 0 where
  pub ret : ℤ
  pub pkt : List ℕ
  pub ctx : RtpCtx

abbrev pub max_ts_packets_size : ℕ
max_ts_packets_size = 16 * 188

module _ {S : Type 0} (lib : BitWriter S) where
  unfoldable pub rtp_header : RtpCtx → ℕ → S
  rtp_header p timestamp =
      let s1 = lib.bs_write lib.bs_init 2 2 in
      let s2 = lib.bs_write1 (lib.bs_write1 s1 0) 0 in
      let s3 = lib.bs_write s2 4 0 in
      let s4 = lib.bs_write (lib.bs_write1 s3 0) 7 33 in
      let s5 = lib.bs_write s4 16 p.seq in
      let s6 = lib.bs_write32 s5 (timestamp / 300 % 2 ^ 32) in
      lib.bs_flush (lib.bs_write32 s6 p.ssrc)

  -- `none` is a write behind `pkt`. `stale` is what `pkt` holds behind the data: some of it is sent where the
  -- payload size is more than the length of the data.
  unfoldable pub write_rtp_pkt : (List ℕ → Bool) → ℕ → List ℕ → RtpCtx → List ℕ → ℕ → Option RtpCall
  write_rtp_pkt udp_write payload_size stale p bytes timestamp =
      let next : RtpCtx = record p { seq = (p.seq + 1) % 2 ^ 16 } in
      let pkt = take (12 + payload_size) (lib.bytes (rtp_header p timestamp) ++ (bytes ++ stale)) in
      if ltb max_ts_packets_size (length bytes)
      then none
      else if udp_write pkt
      then some (record {
        ret = pos 0;
        pkt = pkt;
        ctx = record next {
          pkt_cnt = (p.pkt_cnt + 1) % 2 ^ 32;
          octet_cnt = (p.octet_cnt + length bytes) % 2 ^ 32;
        };
      })
      else some (record { ret = negsuc 0; pkt = pkt; ctx = next })
