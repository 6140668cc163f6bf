-- ===== src/Output/Drops.antt =====
-- Packets are dropped from the UDP output by a change of their pid.
use obe_rt.Base.{
  ℕ, zero, suc, ◌+◌, ◌-◌, ◌/◌, ◌%◌, ◌<◌, ◌≡◌, refl, sym, ap, ap₂, false, List, [], ◌∷◌, ◌++◌, map,
  arith, Bool-cases, inl, inr, ◌==◌, ==_iff, if◌then◌else◌, length, get_or, drop,
}
use obe_rt.Base.Int.{pos, eqb_ℤ}
use obe_rt.Output.{update_at, or_c0, packet_pid, flip_pid, drop_pid, run_counted}
use obe_rt.Output.Local.{
  drop_pid-IsLocal, concat, ArePackets, mangle_first, hit_count, while_counted-packets,
}

abbrev pub pids : List (List ℕ) → List ℕ
pids ps = map (packet_pid 0) ps

-- All of a packet: its first byte, the three flags in front of the pid, the pid, and what follows. The
-- flags are an error (4), a start (2) and a priority (1).
abbrev pub Parts : Type 0
Parts = ℕ × ℕ × ℕ × List ℕ

abbrev pub parts : List ℕ → Parts
parts p = (get_or p 0 0, get_or p 1 0 / 32, packet_pid 0 p, drop 3 p)

-- Transport packets, as far as the manglers look: their length, and that the third item is a byte.
abbrev pub AreTs : List (List ℕ) → Type 0
AreTs [] = Unit
AreTs (p ∷ ps) = (length p ≡ 188) × (get_or p 2 0 < 256) × AreTs ps

-- The first n packets of a pid get the pid with 0x40 added, and the flags of an error and of a start.
unfoldable pub relabel : ℕ → ℕ → List Parts → List Parts
relabel pid zero xs = xs
relabel pid (suc n) [] = []
relabel pid (suc n) ((sync, flags, x, rest) ∷ xs) =
    if x == pid
    then (sync, 6 + flags % 2, pid + 64, rest) ∷ relabel pid n xs
    else (sync, flags, x, rest) ∷ relabel pid (suc n) xs

unfoldable pub occurrences : ℕ → List ℕ → ℕ
occurrences a [] = 0
occurrences a (x ∷ xs) = (if x == a then 1 else 0) + occurrences a xs

pub AreTs-ArePackets : (ps : List (List ℕ)) → AreTs ps → ArePackets ps
AreTs-ArePackets [] a = tt
AreTs-ArePackets (p ∷ ps) (len, byte, a) = (len, AreTs-ArePackets ps a)

eqb_ℤ-suc : (n : ℕ) → eqb_ℤ (pos (suc n)) (pos 0) ≡ false
eqb_ℤ-suc n = ground arith

or_c0-flags : (b : ℕ) → or_c0 b / 32 ≡ 6 + b / 32 % 2
or_c0-flags b = omega arith

module _ (pid : ℕ) where
  pub flip_pid-pid :
      (p : List ℕ)
      → length p ≡ 188
      → get_or p 2 0 < 256
      → pid % 128 < 64
      → packet_pid 0 p ≡ pid
      → packet_pid 0 (flip_pid 0 p) ≡ pid + 64
  unfolding packet_pid flip_pid update_at
  flip_pid-pid [] len byte low e = absurd (omega arith)
  flip_pid-pid (a ∷ []) len byte low e = absurd (omega arith)
  flip_pid-pid (a ∷ b ∷ []) len byte low e = absurd (omega arith)
  flip_pid-pid (a ∷ b ∷ c ∷ p) len byte low e = omega (arith, e, byte, low)

  flip_pid-parts :
      (p : List ℕ)
      → length p ≡ 188
      → get_or p 2 0 < 256
      → pid % 128 < 64
      → packet_pid 0 p ≡ pid
      → parts (flip_pid 0 p) ≡ (get_or p 0 0, 6 + get_or p 1 0 / 32 % 2, pid + 64, drop 3 p)
  unfolding flip_pid update_at
  flip_pid-parts [] len byte low e = absurd (omega arith)
  flip_pid-parts (a ∷ []) len byte low e = absurd (omega arith)
  flip_pid-parts (a ∷ b ∷ []) len byte low e = absurd (omega arith)
  flip_pid-parts (a ∷ b ∷ c ∷ p) len byte low e =
      let flags : or_c0 b / 32 ≡ 6 + b / 32 % 2 = or_c0-flags b in
      ap₂ (λ f x. (a, f, x, p)) flags (flip_pid-pid (a ∷ b ∷ c ∷ p) len byte low e)

  pub hit_count-occurrences :
      (ps : List (List ℕ)) → hit_count (drop_pid pid) ps ≡ occurrences pid (pids ps)
  unfolding hit_count occurrences drop_pid
  hit_count-occurrences [] = refl
  hit_count-occurrences (p ∷ ps) = rw (hit_count-occurrences ps) refl

  mangle_first-parts :
      (n : ℕ) (ps : List (List ℕ))
      → pid % 128 < 64
      → AreTs ps
      → map parts (mangle_first (drop_pid pid) n ps) ≡ relabel pid n (map parts ps)
  unfolding mangle_first relabel drop_pid
  mangle_first-parts zero ps low a = refl
  mangle_first-parts (suc n) [] low a = refl
  mangle_first-parts (suc n) (p ∷ ps) low (len, byte, a) =
      elim (Bool-cases (packet_pid 0 p == pid)) [
        | inl hit ↦ rw hit (
            ap₂ (λ x xs. x ∷ xs)
              (flip_pid-parts p len byte low ((==_iff (packet_pid 0 p) pid).0 hit))
              (mangle_first-parts n ps low a))
        | inr miss ↦ rw miss (ap (λ xs. parts p ∷ xs) (mangle_first-parts (suc n) ps low a))
      ]

  flip_pid-AreTs :
      (p : List ℕ)
      → length p ≡ 188
      → get_or p 2 0 < 256
      → (length (flip_pid 0 p) ≡ 188) × (get_or (flip_pid 0 p) 2 0 < 256)
  unfolding flip_pid update_at
  flip_pid-AreTs [] len byte = absurd (omega arith)
  flip_pid-AreTs (a ∷ []) len byte = absurd (omega arith)
  flip_pid-AreTs (a ∷ b ∷ []) len byte = absurd (omega arith)
  flip_pid-AreTs (a ∷ b ∷ c ∷ p) len byte = (len, omega (arith, byte))

  mangle_first-AreTs :
      (n : ℕ) (ps : List (List ℕ)) → AreTs ps → AreTs (mangle_first (drop_pid pid) n ps)
  unfolding mangle_first drop_pid
  mangle_first-AreTs zero ps a = a
  mangle_first-AreTs (suc n) [] a = tt
  mangle_first-AreTs (suc n) (p ∷ ps) (len, byte, a) =
      let (len', byte') = flip_pid-AreTs p len byte in
      elim (Bool-cases (packet_pid 0 p == pid)) [
        | inl hit ↦ rw hit (len', byte', mangle_first-AreTs n ps a)
        | inr miss ↦ rw miss (len, byte, mangle_first-AreTs (suc n) ps a)
      ]

  module _ (times tail : List ℕ) (ps : List (List ℕ)) where
    left_over : (n : ℕ) → n - occurrences pid (pids ps) ≡ n - hit_count (drop_pid pid) ps
    left_over n = rw (hit_count-occurrences ps) refl

    run_counted-packets :
        (n : ℕ)
        → length times ≡ 56
        → length ps ≡ 7
        → AreTs ps
        → run_counted (drop_pid pid) (pos n) (times ++ (concat ps ++ tail)) ≡ (
          pos (n - occurrences pid (pids ps)),
          times ++ (concat (mangle_first (drop_pid pid) n ps) ++ tail),
        )
    unfolding run_counted mangle_first
    run_counted-packets zero front seven a =
        let none_left : 0 ≡ 0 - occurrences pid (pids ps) = omega arith in
        ap (λ i. (pos i, times ++ (concat ps ++ tail))) none_left
    run_counted-packets (suc n) front seven a = rw (eqb_ℤ-suc n) (
        while_counted-packets (drop_pid pid) (drop_pid-IsLocal pid) tail ps 7 n 56 _ times seven
          (AreTs-ArePackets ps a) (sym front) (left_over (suc n)))

    -- On a buffer of 56 bytes of times and seven packets of 188 bytes, and for a pid whose bit 0x40 is clear:
    -- with the counter at n, the drop of the pid adds 0x40 to the pid of the first n packets of it and sets
    -- their flags of an error and of a start. Their other flag and bytes, the other packets, the times and
    -- what follows the packets stay as they are; the counter falls by the number of packets changed.
    pub run_counted-relabel :
        (n : ℕ)
        → length times ≡ 56
        → length ps ≡ 7
        → AreTs ps
        → pid % 128 < 64
        → (ps' : List (List ℕ)) × (run_counted (drop_pid pid) (pos n) (times ++ (concat ps ++ tail))
            ≡ (pos (n - occurrences pid (pids ps)), times ++ (concat ps' ++ tail)))
          × (map parts ps' ≡ relabel pid n (map parts ps))
          × AreTs ps'
    unfolding run_counted
    run_counted-relabel n front seven a low = (
      mangle_first (drop_pid pid) n ps,
      run_counted-packets n front seven a,
      mangle_first-parts n ps low a,
      mangle_first-AreTs n ps a,
    )
