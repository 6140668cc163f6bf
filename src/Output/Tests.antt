-- ===== src/Output/Tests.antt =====
-- Runs of the UDP output on buffers of seven packets.
use obe_rt.Base.{
  Bool, true, false, some, ◌⊎◌, ℕ, ◌-◌, ◌<◌, ◌≡◌, refl, List, [], ◌∷◌, ◌++◌, map, arith, replicate,
}
use obe_rt.Base.Int.{pos, negsuc}
use obe_rt.Output.{drop_pid, run_counted}
use obe_rt.Output.Local.{concat}
use obe_rt.Output.Rtp.{RtpCtx, RtpCall, write_rtp_pkt}
use obe_rt.Output.Rtp.Packet.{rtp_packet, write_rtp_pkt-rtp_packet}
use obe_rt.UserData.Tests.{lib, laws}
use obe_rt.Output.Drops.{AreTs, pids, parts, relabel, occurrences, run_counted-relabel}

abbrev packet : ℕ → List ℕ
packet pid = 0x47 ∷ 0x40 ∷ pid ∷ 0x10 ∷ replicate 184 0

abbrev times : List ℕ
times = replicate 56 0

-- Two packets of the PAT among video packets.
abbrev packets : List (List ℕ)
packets =
    packet 0x31 ∷ packet 0 ∷ packet 0x31 ∷ packet 0 ∷ packet 0x31 ∷ packet 0x32 ∷ packet 0x31 ∷ []

packets-AreTs : AreTs packets
packets-AreTs =
    let video : 0x31 < 256 = omega arith in
    let pat : 0 < 256 = omega arith in
    let audio : 0x32 < 256 = omega arith in
    (
      refl,
      video,
      (refl, pat, (refl, video, (refl, pat, (refl, video, (refl, audio, (refl, video, tt)))))),
    )

run_counted-relabel_example :
    (ps' : List (List ℕ)) × (run_counted (drop_pid 0x31) (pos 2) (times ++ (concat packets ++ []))
      ≡ (pos (2 - occurrences 0x31 (pids packets)), times ++ (concat ps' ++ [])))
    × (map parts ps' ≡ relabel 0x31 2 (map parts packets))
    × AreTs ps'
run_counted-relabel_example =
    run_counted-relabel 0x31 times [] packets 2 refl refl packets-AreTs (omega arith)

-- The last number before it starts again.
abbrev ctx : RtpCtx
ctx = record { seq = 65535; ssrc = 305419896; pkt_cnt = 9; octet_cnt = 100 }

abbrev refusing : List ℕ → Bool
refusing pkt = false

write_rtp_pkt-rtp_packet_example :
    (w : RtpCall) × (write_rtp_pkt lib refusing 3 [] ctx (71 ∷ 64 ∷ 49 ∷ []) 900000 ≡ some w)
    × (w.pkt ≡ rtp_packet 65535 3000 305419896 (71 ∷ 64 ∷ 49 ∷ []))
    × (w.ctx.seq ≡ 0)
    × (w.ctx.ssrc ≡ 305419896)
    × (((refusing w.pkt ≡ true) × (w.ret ≡ pos 0) × (w.ctx.pkt_cnt ≡ 10))
        ⊎ ((refusing w.pkt ≡ false) × (w.ret ≡ negsuc 0) × (w.ctx.pkt_cnt ≡ 9)))
write_rtp_pkt-rtp_packet_example =
    write_rtp_pkt-rtp_packet lib laws refusing ctx (71 ∷ 64 ∷ 49 ∷ []) [] 900000 (omega arith)
      (omega arith) (omega arith)
