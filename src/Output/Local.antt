-- ===== src/Output/Local.antt =====
-- The manglers of the UDP output look at one packet and change one packet, and their loops go over the
-- packets of a buffer.
use obe_rt.Base.{
  ℕ, zero, suc, ◌+◌, ◌-◌, ◌<◌, ◌≡◌, refl, sym, ap, ◌∙◌, ap₂, true, false, List, [], ◌∷◌, ◌++◌,
  arith, Bool-cases, inl, inr, if◌then◌else◌, length, set, get_or, length-set, length-append,
  append_assoc,
}
use obe_rt.Base.Int.{ℤ, pos, ◌-ℤ◌, ltb_ℤ, eq_of_parts, int_laws, parts_of_eq}
use obe_rt.Output.{
  update_at, or_c0, or_40, packet_pid, Mangler, flip_pid, drop_pid, while_counted, every_packet,
}

get_or-framed :
    (pre p rest : List ℕ) (j i : ℕ)
    → j ≡ length pre + i
    → i < length p
    → get_or (pre ++ (p ++ rest)) j 0 ≡ get_or p i 0
get_or-framed [] [] rest j i e h = absurd (omega arith)
get_or-framed [] (x ∷ p) rest zero zero e h = refl
get_or-framed [] (x ∷ p) rest zero (suc i) e h = absurd (omega arith)
get_or-framed [] (x ∷ p) rest (suc j) zero e h = absurd (omega arith)
get_or-framed [] (x ∷ p) rest (suc j) (suc i) e h =
    get_or-framed [] p rest j i (omega arith) (omega arith)
get_or-framed (y ∷ pre) p rest zero i e h = absurd (omega arith)
get_or-framed (y ∷ pre) p rest (suc j) i e h = get_or-framed pre p rest j i (omega arith) h

set-framed :
    (pre p rest : List ℕ) (j i v : ℕ)
    → j ≡ length pre + i
    → i < length p
    → set (pre ++ (p ++ rest)) j v ≡ pre ++ (set p i v ++ rest)
set-framed [] [] rest j i v e h = absurd (omega arith)
set-framed [] (x ∷ p) rest zero zero v e h = refl
set-framed [] (x ∷ p) rest zero (suc i) v e h = absurd (omega arith)
set-framed [] (x ∷ p) rest (suc j) zero v e h = absurd (omega arith)
set-framed [] (x ∷ p) rest (suc j) (suc i) v e h =
    ap (λ xs. x ∷ xs) (set-framed [] p rest j i v (omega arith) (omega arith))
set-framed (y ∷ pre) p rest zero i v e h = absurd (omega arith)
set-framed (y ∷ pre) p rest (suc j) i v e h =
    ap (λ xs. y ∷ xs) (set-framed pre p rest j i v (omega arith) h)

update_at-framed :
    (f : ℕ → ℕ) (pre p rest : List ℕ) (j i : ℕ)
    → j ≡ length pre + i
    → i < length p
    → update_at j f (pre ++ (p ++ rest)) ≡ pre ++ (update_at i f p ++ rest)
unfolding update_at
update_at-framed f pre p rest j i e h =
    rw (get_or-framed pre p rest j i e h) (set-framed pre p rest j i _ e h)

length-update_at : (j : ℕ) (f : ℕ → ℕ) (p : List ℕ) → length (update_at j f p) ≡ length p
unfolding update_at
length-update_at j f p = length-set p j _

-- A mangler that reads and writes one packet only, and keeps its length.
pub record IsLocal (m : Mangler) : Type 0 where
  pub reads :
      (pre p rest : List ℕ) (q : ℕ)
      → q ≡ length pre
      → length p ≡ 188
      → m.hits q (pre ++ (p ++ rest)) ≡ m.hits 0 p
  pub writes :
      (pre p rest : List ℕ) (q : ℕ)
      → q ≡ length pre
      → length p ≡ 188
      → m.damage q (pre ++ (p ++ rest)) ≡ pre ++ (m.damage 0 p ++ rest)
  pub keeps : (p : List ℕ) → length (m.damage 0 p) ≡ length p

packet_pid-framed :
    (pre p rest : List ℕ) (q : ℕ)
    → q ≡ length pre
    → length p ≡ 188
    → packet_pid q (pre ++ (p ++ rest)) ≡ packet_pid 0 p
unfolding packet_pid
packet_pid-framed pre p rest q e h =
    rw
      (
        get_or-framed pre p rest (q + 1) 1 (omega arith) (omega arith),
        get_or-framed pre p rest (q + 2) 2 (omega arith) (omega arith),
      )
      refl

flip_pid-framed :
    (pre p rest : List ℕ) (q : ℕ)
    → q ≡ length pre
    → length p ≡ 188
    → flip_pid q (pre ++ (p ++ rest)) ≡ pre ++ (flip_pid 0 p ++ rest)
unfolding flip_pid
flip_pid-framed pre p rest q e h =
    rw (update_at-framed or_c0 pre p rest (q + 1) 1 (omega arith) (omega arith)) (
      update_at-framed or_40 pre (update_at 1 or_c0 p) rest (q + 2) 2 (omega arith)
        (omega (arith, length-update_at 1 or_c0 p)))

flip_pid-keeps : (p : List ℕ) → length (flip_pid 0 p) ≡ length p
unfolding flip_pid
flip_pid-keeps p = length-update_at 2 or_40 _ ∙ length-update_at 1 or_c0 p

pub drop_pid-IsLocal : (pid : ℕ) → IsLocal (drop_pid pid)
unfolding drop_pid
drop_pid-IsLocal pid = record {
  reads = λ pre p rest q e h. rw (packet_pid-framed pre p rest q e h) refl;
  writes = λ pre p rest q e h. flip_pid-framed pre p rest q e h;
  keeps = λ p. flip_pid-keeps p;
}

pub concat : List (List ℕ) → List ℕ
concat [] = []
concat (p ∷ ps) = p ++ concat ps

-- A list of whole packets.
abbrev pub ArePackets : List (List ℕ) → Type 0
ArePackets [] = Unit
ArePackets (p ∷ ps) = (length p ≡ 188) × ArePackets ps

regroup : (xs p ys zs : List ℕ) → xs ++ ((p ++ ys) ++ zs) ≡ xs ++ (p ++ (ys ++ zs))
regroup xs p ys zs = ap (λ l. xs ++ l) (append_assoc p ys zs)

pred_pos : (n : ℕ) → pos (suc n) -ℤ pos 1 ≡ pos n
pred_pos n = eq_of_parts _ _ (omega int_laws)

not_low : (n : ℕ) → ltb_ℤ (pos (suc n)) (pos 1) ≡ false
not_low n = ground arith

-- One packet on: what a loop gives from the next packet is what it gives from this one.
one_packet :
    (loop : List ℕ → ℤ × List ℕ) (c : ℤ) (pre p xs ys tail : List ℕ)
    → loop ((pre ++ p) ++ xs) ≡ (c, (pre ++ p) ++ (ys ++ tail))
    → loop (pre ++ (p ++ xs)) ≡ (c, pre ++ ((p ++ ys) ++ tail))
one_packet loop c pre p xs ys tail h =
    ap loop (sym (append_assoc pre p xs))
    ∙ h
    ∙ ap (λ l. (c, l)) (append_assoc pre p (ys ++ tail) ∙ sym (regroup pre p ys tail))

module _ (m : Mangler) where
  -- The first n packets that the mangler takes are damaged.
  unfoldable pub mangle_first : ℕ → List (List ℕ) → List (List ℕ)
  mangle_first zero ps = ps
  mangle_first (suc n) [] = []
  mangle_first (suc n) (p ∷ ps) =
      if m.hits 0 p then m.damage 0 p ∷ mangle_first n ps else p ∷ mangle_first (suc n) ps

  unfoldable pub mangle_all : List (List ℕ) → List (List ℕ)
  mangle_all [] = []
  mangle_all (p ∷ ps) = (if m.hits 0 p then m.damage 0 p else p) ∷ mangle_all ps

  unfoldable pub hit_count : List (List ℕ) → ℕ
  hit_count [] = 0
  hit_count (p ∷ ps) = (if m.hits 0 p then 1 else 0) + hit_count ps

  hit_count-hit :
      (p : List ℕ) (ps : List (List ℕ)) → m.hits 0 p ≡ true → hit_count (p ∷ ps) ≡ 1 + hit_count ps
  unfolding hit_count
  hit_count-hit p ps h = rw h refl

  hit_count-miss :
      (p : List ℕ) (ps : List (List ℕ)) → m.hits 0 p ≡ false → hit_count (p ∷ ps) ≡ hit_count ps
  unfolding hit_count
  hit_count-miss p ps h = rw h (omega arith)

  module _ (local : IsLocal m) (tail : List ℕ) where
    pub while_counted-packets :
        (ps : List (List ℕ)) (k n q c : ℕ) (pre : List ℕ)
        → length ps ≡ k
        → ArePackets ps
        → q ≡ length pre
        → c ≡ suc n - hit_count ps
        → while_counted m k q (pos (suc n)) (pre ++ (concat ps ++ tail))
          ≡ (pos c, pre ++ (concat (mangle_first (suc n) ps) ++ tail))
    unfolding while_counted mangle_first hit_count concat
    while_counted-packets [] zero n q c pre h a e f =
        let same : suc n ≡ c = omega (arith, f) in ap (λ i. (pos i, pre ++ tail)) same
    while_counted-packets [] (suc k) n q c pre h a e f = absurd (omega arith)
    while_counted-packets (p ∷ ps) zero n q c pre h a e f = absurd (omega arith)
    while_counted-packets (p ∷ ps) (suc k) zero q c pre h (len, a) e f =
        rw (regroup pre p (concat ps) tail, local.reads pre p (concat ps ++ tail) q e len)
          (elim (Bool-cases (m.hits 0 p)) [
            | inl hit ↦
                rw (hit, local.writes pre p (concat ps ++ tail) q e len, pred_pos 0)
                  (ap₂ (λ i l. (pos i, l)) (omega (arith, f, hit_count-hit p ps hit))
                    (sym (regroup pre (m.damage 0 p) (concat ps) tail)))
            | inr miss ↦ rw miss (
                one_packet (while_counted m k (q + 188) (pos 1)) (pos c) pre p _ _ tail (
                  while_counted-packets ps k zero (q + 188) c (pre ++ p) (omega arith) a
                    (omega (arith, e, len, length-append pre p))
                    (omega (arith, f, hit_count-miss p ps miss))))
          ])
    while_counted-packets (p ∷ ps) (suc k) (suc n) q c pre h (len, a) e f =
        rw (regroup pre p (concat ps) tail, local.reads pre p (concat ps ++ tail) q e len)
          (elim (Bool-cases (m.hits 0 p)) [
            | inl hit ↦
                rw
                  (hit, local.writes pre p (concat ps ++ tail) q e len, pred_pos (suc n), not_low n)
                  (one_packet (while_counted m k (q + 188) (pos (suc n))) (pos c) pre (m.damage 0 p)
                    _ _ tail
                    (while_counted-packets ps k n (q + 188) c (pre ++ m.damage 0 p) (omega arith) a
                      (omega (arith, e, len, local.keeps p, length-append pre (m.damage 0 p)))
                      (omega (arith, f, hit_count-hit p ps hit))))
            | inr miss ↦ rw miss (
                one_packet (while_counted m k (q + 188) (pos (suc (suc n)))) (pos c) pre p _ _ tail
                  (while_counted-packets ps k (suc n) (q + 188) c (pre ++ p) (omega arith) a
                    (omega (arith, e, len, length-append pre p))
                    (omega (arith, f, hit_count-miss p ps miss))))
          ])

    pub every_packet-packets :
        (ps : List (List ℕ)) (k q : ℕ) (b c : ℤ) (pre : List ℕ)
        → length ps ≡ k
        → ArePackets ps
        → q ≡ length pre
        → c ≡ b -ℤ pos (hit_count ps)
        → every_packet m k q b (pre ++ (concat ps ++ tail))
          ≡ (c, pre ++ (concat (mangle_all ps) ++ tail))
    unfolding every_packet mangle_all hit_count concat
    every_packet-packets [] zero q b c pre h a e f =
        let same : b ≡ c = eq_of_parts _ _ (omega (int_laws, parts_of_eq f)) in
        ap (λ i. (i, pre ++ tail)) same
    every_packet-packets [] (suc k) q b c pre h a e f = absurd (omega arith)
    every_packet-packets (p ∷ ps) zero q b c pre h a e f = absurd (omega arith)
    every_packet-packets (p ∷ ps) (suc k) q b c pre h (len, a) e f =
        rw (regroup pre p (concat ps) tail, local.reads pre p (concat ps ++ tail) q e len)
          (elim (Bool-cases (m.hits 0 p)) [
            | inl hit ↦
                rw (hit, local.writes pre p (concat ps ++ tail) q e len)
                  (one_packet (every_packet m k (q + 188) (b -ℤ pos 1)) c pre (m.damage 0 p) _ _
                    tail
                    (every_packet-packets ps k (q + 188) (b -ℤ pos 1) c (pre ++ m.damage 0 p)
                      (omega arith) a
                      (omega (arith, e, len, local.keeps p, length-append pre (m.damage 0 p)))
                      (eq_of_parts _ _ (omega (int_laws, parts_of_eq f, hit_count-hit p ps hit)))))
            | inr miss ↦ rw miss (
                one_packet (every_packet m k (q + 188) b) c pre p _ _ tail (
                  every_packet-packets ps k (q + 188) b c (pre ++ p) (omega arith) a
                    (omega (arith, e, len, length-append pre p))
                    (eq_of_parts _ _ (omega (int_laws, parts_of_eq f, hit_count-miss p ps miss)))))
          ])
