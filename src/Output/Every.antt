-- ===== src/Output/Every.antt =====
-- The drop of the PAT and the PMT from the UDP output, and the output while no test is asked for.
use obe_rt.Base.{
  ℕ, ◌+◌, ◌*◌, ◌%◌, ◌<◌, ◌≡◌, ◌≢◌, refl, sym, ap, ◌∙◌, ap₂, false, List, [], ◌∷◌, ◌++◌, map, some,
  arith, Bool-cases, inl, inr, ◌==◌, ==_iff, if◌then◌else◌, length, take, take_all,
  drop-append_exact,
}
use obe_rt.Base.Int.{ℤ, pos, ◌-ℤ◌, eqb_ℤ, eqb_ℤ_iff}
use obe_rt.Output.{
  packet_pid, drop_pid, run_counted, run_every, Counters, mangle, payload_of, payload_packets,
  send_udp,
}
use obe_rt.Output.Local.{drop_pid-IsLocal, concat, mangle_all, every_packet-packets}
use obe_rt.Output.Drops.{
  pids, AreTs, occurrences, AreTs-ArePackets, flip_pid-pid, hit_count-occurrences,
}

-- A pid after the drop of all packets of one pid.
abbrev pub moved : ℕ → ℕ → ℕ
moved pid x = if x == pid then pid + 64 else x

eqb_ℤ_ne : (a b : ℤ) → a ≢ b → eqb_ℤ a b ≡ false
eqb_ℤ_ne a b h = elim (Bool-cases (eqb_ℤ a b)) [
  | inl e ↦ absurd (h ((eqb_ℤ_iff a b).0 e))
  | inr e ↦ e
]

module _ (pid : ℕ) where
  mangle_all-pids :
      (ps : List (List ℕ))
      → pid % 128 < 64
      → AreTs ps
      → pids (mangle_all (drop_pid pid) ps) ≡ map (moved pid) (pids ps)
  unfolding mangle_all drop_pid
  mangle_all-pids [] low a = refl
  mangle_all-pids (p ∷ ps) low (len, byte, a) = elim (Bool-cases (packet_pid 0 p == pid)) [
    | inl hit ↦ rw hit (
        ap₂ (λ x xs. x ∷ xs) (flip_pid-pid pid p len byte low ((==_iff (packet_pid 0 p) pid).0 hit))
          (mangle_all-pids ps low a))
    | inr miss ↦ rw miss (ap (λ xs. packet_pid 0 p ∷ xs) (mangle_all-pids ps low a))
  ]

  module _ (times tail : List ℕ) (ps : List (List ℕ)) where
    -- The drop of the PAT and of the PMT looks at all seven packets whatever its counter is, as long as
    -- that is not zero: no packet of the pid is left, no other pid changes, and the counter falls by the
    -- number of packets changed, below zero too.
    pub run_every-moved :
        (c : ℤ)
        → c ≢ pos 0
        → length times ≡ 56
        → length ps ≡ 7
        → AreTs ps
        → pid % 128 < 64
        → (ps' : List (List ℕ)) × (run_every (drop_pid pid) c (times ++ (concat ps ++ tail))
            ≡ (c -ℤ pos (occurrences pid (pids ps)), times ++ (concat ps' ++ tail)))
          × (pids ps' ≡ map (moved pid) (pids ps))
    unfolding run_every
    run_every-moved c on front seven a low = (
      mangle_all (drop_pid pid) ps,
      rw (eqb_ℤ_ne c (pos 0) on) (
          every_packet-packets (drop_pid pid) (drop_pid-IsLocal pid) tail ps 7 56 c _ times seven
            (AreTs-ArePackets ps a) (sym front) (rw (hit_count-occurrences pid ps) refl)),
      mangle_all-pids ps low a,
    )

-- No test is asked for.
abbrev pub no_tests : Counters
no_tests = record {
  drop_next = pos 0;
  bad_sync_next = pos 0;
  tei_next = pos 0;
  drop_next_pat = pos 0;
  drop_next_pmt = pos 0;
  mangle_next_pmt = pos 0;
  scramble_next_video = pos 0;
  drop_next_video = pos 0;
  drop_next_audio = pos 0;
}

-- While no test is asked for, a buffer of a time for each packet and then the packets is written without
-- the times and without a change, for any payload size, and no counter changes.
pub send_udp-payload :
    (payload_size : ℕ) (times payload : List ℕ)
    → length times ≡ payload_packets payload_size * 8
    → length payload ≡ payload_size
    → send_udp payload_size no_tests (times ++ payload) ≡ (no_tests, some payload)
unfolding send_udp mangle run_counted run_every payload_of
send_udp-payload payload_size times payload front whole =
    ap (λ bytes. (no_tests, some bytes))
      (ap (take payload_size) (drop-append_exact _ times payload front)
        ∙ take_all payload_size payload (omega (arith, whole)))
