-- ===== src/Smpte337/Delivery.antt =====
-- What a run of the detector delivers, whatever the buffers are.
use obe_rt.Base.{
  ℕ, ◌+◌, ◌*◌, ◌/◌, ◌%◌, ◌≤◌, ◌≡◌, refl, sym, ap, Bool, true, some, List, ◌∷◌, ◌++◌, arith, length,
  take, drop, length-append, take-append_exact, drop-append_exact,
}
use obe_rt.Base.Int.{ℤ}
use obe_rt.Smpte337.{
  Detector, Burst, Delivered, is_sync, is_ac3, payload_bits, burst_of, run_detector,
}
use obe_rt.Smpte337.Stream.{bytes, IsValid}
use obe_rt.Smpte337.Scan.{
  Scans, short, waits, found, skips, header, burst_length, bursts, run_detector-Scans,
}

-- A scan has one result.
pub Scans-unique :
    (bs : List ℕ) (ds ds' : List Burst) (rest rest' : List ℕ)
    → Scans bs ds rest
    → Scans bs ds' rest'
    → (ds ≡ ds') × (rest ≡ rest')
Scans-unique _ _ _ _ _ (short bs h) (short _ h') = (refl, refl)
Scans-unique _ _ _ _ _ (short bs h) (waits _ m' s' w') = absurd (omega arith)
Scans-unique _ _ _ _ _ (short bs h) (found _ rest' ds' m' s' f' r') = absurd (omega arith)
Scans-unique _ _ _ _ _ (short bs h) (skips _ rest' ds' m' s' r') = absurd (omega arith)
Scans-unique _ _ _ _ _ (waits bs m s w) (short _ h') = absurd (omega arith)
Scans-unique _ _ _ _ _ (waits bs m s w) (waits _ m' s' w') = (refl, refl)
Scans-unique _ _ _ _ _ (waits bs m s w) (found _ rest' ds' m' s' f' r') = absurd (omega arith)
Scans-unique _ _ _ _ _ (waits bs m s w) (skips _ rest' ds' m' s' r') = cc
Scans-unique _ _ _ _ _ (found bs rest ds m s f r) (short _ h') = absurd (omega arith)
Scans-unique _ _ _ _ _ (found bs rest ds m s f r) (waits _ m' s' w') = absurd (omega arith)
Scans-unique _ _ _ _ _ (found bs rest ds m s f r) (found _ rest' ds' m' s' f' r') =
    let (same, left) = Scans-unique (drop (burst_length bs) bs) ds ds' rest rest' r r' in
    (ap (◌∷◌ (burst_of (header bs) (take (burst_length bs) bs))) same, left)
Scans-unique _ _ _ _ _ (found bs rest ds m s f r) (skips _ rest' ds' m' s' r') = cc
Scans-unique _ _ _ _ _ (skips bs rest ds m s r) (short _ h') = absurd (omega arith)
Scans-unique _ _ _ _ _ (skips bs rest ds m s r) (waits _ m' s' w') = cc
Scans-unique _ _ _ _ _ (skips bs rest ds m s r) (found _ rest' ds' m' s' f' r') = cc
Scans-unique _ _ _ _ _ (skips bs rest ds m s r) (skips _ rest' ds' m' s' r') =
    Scans-unique (drop 1 bs) ds ds' rest rest' r r'

-- A burst as it stands in the stream: the preamble words and the payload.
abbrev pub encoded : ℕ → ℕ → ℕ → ℕ → List ℕ → List ℕ
encoded c₁ c₂ d₁ d₂ payload = 0xf8 ∷ 0x72 ∷ 0x4e ∷ 0x1f ∷ c₁ ∷ c₂ ∷ d₁ ∷ d₂ ∷ payload

abbrev pub burst : ℕ → ℕ → ℕ → List ℕ → Burst
burst c₂ d₁ d₂ payload = record {
  datamode = c₂ / 32 % 4;
  datatype = c₂ % 32;
  payload_bit_count = d₁ * 256 + d₂;
  payload = payload;
}

encoded-Scans :
    (c₁ c₂ d₁ d₂ : ℕ) (payload rest : List ℕ) (ds : List Burst) (left : List ℕ)
    → c₂ % 32 ≡ 1
    → length payload ≡ (d₁ * 256 + d₂) / 8
    → 8 ≤ length payload
    → Scans rest ds left
    → Scans (encoded c₁ c₂ d₁ d₂ payload ++ rest) (burst c₂ d₁ d₂ payload ∷ ds) left
unfolding payload_bits is_sync is_ac3 burst_of
encoded-Scans c₁ c₂ d₁ d₂ payload rest ds left kind size full s =
    let bs : List ℕ = encoded c₁ c₂ d₁ d₂ payload ++ rest in
    let n : burst_length bs ≡ length (encoded c₁ c₂ d₁ d₂ payload) = omega (arith, size) in
    let whole = take-append_exact (burst_length bs) (encoded c₁ c₂ d₁ d₂ payload) rest (sym n) in
    let behind = drop-append_exact (burst_length bs) (encoded c₁ c₂ d₁ d₂ payload) rest (sym n) in
    let read : burst_of (header bs) (take (burst_length bs) bs) ≡ burst c₂ d₁ d₂ payload =
      ap (burst_of (header bs)) whole in
    rw (← read) (
      found bs left ds (omega (arith, length-append payload rest)) (ground (arith, kind))
        (omega (arith, n, length-append payload rest)) (rw behind s))

module _ (rescale : ℕ → ℤ) (grants : ℕ → Bool) where
  -- What is reported and what stays in the stream depend on the waiting bytes alone: with memory at
  -- hand, runs on two valid states with the same bytes, cut into buffers in any two ways, report the
  -- same bursts and keep the same bytes.
  pub run_detector_cuts :
      (ctx₁ ctx₂ : Detector)
      → ((n : ℕ) → grants n ≡ true)
      → IsValid ctx₁
      → IsValid ctx₂
      → bytes ctx₁ ≡ bytes ctx₂
      → (ds₁ ds₂ : List Delivered) × (ctx₁' ctx₂' : Detector) × (run_detector rescale grants ctx₁
          ≡ some (ds₁, ctx₁'))
        × (run_detector rescale grants ctx₂ ≡ some (ds₂, ctx₂'))
        × (bursts ds₁ ≡ bursts ds₂)
        × (bytes ctx₁' ≡ bytes ctx₂')
  run_detector_cuts ctx₁ ctx₂ all v₁ v₂ same =
      let (ds₁, ctx₁', run₁, s₁, _) = run_detector-Scans rescale grants ctx₁ all v₁ in
      let (ds₂, ctx₂', run₂, s₂, _) = run_detector-Scans rescale grants ctx₂ all v₂ in
      let (reported, rest) =
        Scans-unique (bytes ctx₁) (bursts ds₁) (bursts ds₂) (bytes ctx₁') (bytes ctx₂') s₁
          (rw same s₂) in
      (ds₁, ds₂, ctx₁', ctx₂', run₁, run₂, reported, rest)

  -- A complete burst of AC-3 at the head of the waiting bytes, of at least eight bytes, is delivered:
  -- with memory at hand, the run reports its type, mode, length and payload first, and then what a run
  -- on the bytes behind it reports, and keeps what that run keeps.
  pub run_detector-burst :
      (ctx₁ ctx₂ : Detector) (c₁ c₂ d₁ d₂ : ℕ) (payload : List ℕ)
      → ((n : ℕ) → grants n ≡ true)
      → IsValid ctx₁
      → IsValid ctx₂
      → c₂ % 32 ≡ 1
      → length payload ≡ (d₁ * 256 + d₂) / 8
      → 8 ≤ length payload
      → bytes ctx₁ ≡ encoded c₁ c₂ d₁ d₂ payload ++ bytes ctx₂
      → (ds₁ ds₂ : List Delivered) × (ctx₁' ctx₂' : Detector) × (run_detector rescale grants ctx₁
          ≡ some (ds₁, ctx₁'))
        × (run_detector rescale grants ctx₂ ≡ some (ds₂, ctx₂'))
        × (bursts ds₁ ≡ burst c₂ d₁ d₂ payload ∷ bursts ds₂)
        × (bytes ctx₁' ≡ bytes ctx₂')
  run_detector-burst ctx₁ ctx₂ c₁ c₂ d₁ d₂ payload all v₁ v₂ kind size full same =
      let (ds₁, ctx₁', run₁, s₁, _) = run_detector-Scans rescale grants ctx₁ all v₁ in
      let (ds₂, ctx₂', run₂, s₂, _) = run_detector-Scans rescale grants ctx₂ all v₂ in
      let (reported, rest) =
        Scans-unique (bytes ctx₁) (bursts ds₁) (burst c₂ d₁ d₂ payload ∷ bursts ds₂) (bytes ctx₁')
          (bytes ctx₂') s₁
          (rw same (
            encoded-Scans c₁ c₂ d₁ d₂ payload (bytes ctx₂) (bursts ds₂) (bytes ctx₂') kind size full
              s₂)) in
      (ds₁, ds₂, ctx₁', ctx₂', run₁, run₂, reported, rest)
