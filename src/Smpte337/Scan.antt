-- ===== src/Smpte337/Scan.antt =====
-- The detector as a scan of one stream of bytes.
use obe_rt.Base.{
  ℕ, zero, suc, ◌+◌, ◌/◌, ◌≤◌, ◌<◌, ◌≡◌, refl, ap, inl, inr, Bool, true, false, Option, some, List,
  [], ◌∷◌, ◌++◌, map, arith, ltb, ◌==◌, ltb-cases, leb-cases, Bool-cases, ◌&&◌, length, take, drop,
  length-take, length-drop,
}
use obe_rt.Base.Int.{ℤ}
use mathlib.Core.List.{map-append}
use obe_rt.Smpte337.{
  Item, Avfm, Detector, Burst, Delivered, Round, aborts, stops, goes, peek_len, timing, is_sync,
  is_ac3, payload_bits, burst_of, list_discard, deliver, read_burst, look, detect_round, prepend,
  follow, detect, enter, run_detector, list_peek,
}
use obe_rt.Smpte337.Stream.{stream, bytes, IsValid, list_peek_still, list_peek_read}

-- What the detector looks at, and the length of a burst with its preamble.
abbrev pub header : List ℕ → List ℕ
header bs = take peek_len bs

abbrev pub burst_length : List ℕ → ℕ
burst_length bs = 8 + payload_bits (header bs) / 8

-- A burst of AC-3 starts here.
abbrev pub starts : List ℕ → Bool
starts bs = is_sync (header bs) && is_ac3 (header bs)

-- `Scans bs found rest`: the scan of `bs` reports the bursts `found` and keeps the bytes `rest`. It
-- waits where fewer than sixteen bytes are left or a burst is not complete, takes a complete burst off
-- whole, and else goes on one byte further.
pub data Scans : List ℕ → List Burst → List ℕ → Type 0 where
  short : (bs : List ℕ) → length bs < peek_len → Scans bs [] bs
  waits :
      (bs : List ℕ)
      → peek_len ≤ length bs
      → starts bs ≡ true
      → length bs < burst_length bs
      → Scans bs [] bs
  found :
      (bs rest : List ℕ) (ds : List Burst)
      → peek_len ≤ length bs
      → starts bs ≡ true
      → burst_length bs ≤ length bs
      → Scans (drop (burst_length bs) bs) ds rest
      → Scans bs (burst_of (header bs) (take (burst_length bs) bs) ∷ ds) rest
  skips :
      (bs rest : List ℕ) (ds : List Burst)
      → peek_len ≤ length bs
      → starts bs ≡ false
      → Scans (drop 1 bs) ds rest
      → Scans bs ds rest

abbrev pub bursts : List Delivered → List Burst
bursts ds = map (λ d. d.burst) ds

-- A round does its part of the scan, and one that goes on takes a byte off at least.
unfoldable Good : Detector → Round → Type 0
Good ctx aborts = 1 ≤ 0
Good ctx stops = Scans (bytes ctx) [] (bytes ctx)
Good ctx (goes ds ctx') =
    IsValid ctx'
    × (ctx'.item_list_total_bytes < ctx.item_list_total_bytes)
    × ((found : List Burst) (rest : List ℕ)
        → Scans (bytes ctx') found rest
        → Scans (bytes ctx) (bursts ds ++ found) rest)

timing-some :
    (items : List Item)
    → 0 < length (stream items)
    → (a : Avfm) × (n : ℕ) × (timing items ≡ some (a, n))
unfolding timing stream
timing-some [] h = absurd (omega arith)
timing-some (e ∷ es) h = (e.avfm, e.readpos, refl)

module _ (rescale : ℕ → ℤ) (grants : ℕ → Bool) where
  discard-Good :
      (ctx : Detector)
      → IsValid ctx
      → peek_len ≤ length (bytes ctx)
      → starts (bytes ctx) ≡ false
      → Good ctx (list_discard (list_peek ctx 1 true))
  unfolding Good list_discard
  discard-Good ctx v many miss =
      let (ctx', read, same, v') = list_peek_read ctx 1 v in
      rw read (
        v',
        omega (arith, v.counted, v'.counted, ap length same, length-drop 1 (bytes ctx)),
        λ ds rest s. skips (bytes ctx) rest ds many miss (rw (← same) s),
      )

  read_burst-Good :
      (ctx : Detector)
      → ((n : ℕ) → grants n ≡ true)
      → IsValid ctx
      → peek_len ≤ length (bytes ctx)
      → starts (bytes ctx) ≡ true
      → Good ctx (read_burst rescale grants (header (bytes ctx)) ctx)
  unfolding Good read_burst deliver
  read_burst-Good ctx all v many hit =
      elim (leb-cases (burst_length (bytes ctx)) ctx.item_list_total_bytes) [
        | inl (enough, le) ↦
            let (ctx', read, same, v') = list_peek_read ctx (burst_length (bytes ctx)) v in
            let (avfm, readpos, timed) = timing-some ctx.item_list (omega arith) in
            let whole : (length (take (burst_length (bytes ctx)) (bytes ctx))
                  == burst_length (bytes ctx))
                ≡ true =
              ground (arith, length-take (burst_length (bytes ctx)) (bytes ctx), v.counted) in
            rw (enough, all (burst_length (bytes ctx)), timed, read, whole)
              (
                v',
                omega (
                  arith,
                  v.counted,
                  v'.counted,
                  ap length same,
                  length-drop (burst_length (bytes ctx)) (bytes ctx),
                ),
                λ ds rest s.
                    found (bytes ctx) rest ds many hit (omega (arith, v.counted)) (rw (← same) s),
              )
        | inr (few, gt) ↦ rw few (waits (bytes ctx) many hit (omega (arith, v.counted)))
      ]

  look-Good :
      (ctx : Detector)
      → ((n : ℕ) → grants n ≡ true)
      → IsValid ctx
      → peek_len ≤ length (bytes ctx)
      → Good ctx (look rescale grants ctx (some (header (bytes ctx), ctx)))
  unfolding look
  look-Good ctx all v many =
      let full : ltb (length (header (bytes ctx))) peek_len ≡ false =
        ground (arith, length-take peek_len (bytes ctx)) in
      rw full (elim (Bool-cases (is_sync (header (bytes ctx)))) [
        | inl sync ↦ elim (Bool-cases (is_ac3 (header (bytes ctx)))) [
          | inl ac3 ↦ rw (sync, ac3) (read_burst-Good ctx all v many (rw (sync, ac3) refl))
          | inr other ↦ rw (sync, other) (discard-Good ctx v many (rw (sync, other) refl))
        ]
        | inr miss ↦ rw miss (discard-Good ctx v many (rw miss refl))
      ])

  round-Good :
      (ctx : Detector)
      → ((n : ℕ) → grants n ≡ true)
      → IsValid ctx
      → Good ctx (detect_round rescale grants ctx)
  unfolding detect_round Good
  round-Good ctx all v = elim (ltb-cases ctx.item_list_total_bytes peek_len) [
    | inl (few, lt) ↦ rw few (short (bytes ctx) (omega (arith, v.counted)))
    | inr (enough, le) ↦
        rw (enough, list_peek_still ctx peek_len) (look-Good ctx all v (omega (arith, v.counted)))
  ]

  -- What a run of the detector comes to.
  abbrev pub Scanned : Detector → Option (List Delivered × Detector) → Type 0
  Scanned ctx r =
      (ds : List Delivered) × (ctx' : Detector) × (r ≡ some (ds, ctx'))
      × Scans (bytes ctx) (bursts ds) (bytes ctx')
      × IsValid ctx'

  follow-Scanned :
      (ctx : Detector) (r : Round) (loop : Detector → Option (List Delivered × Detector))
      → IsValid ctx
      → Good ctx r
      → ((ctx' : Detector)
          → IsValid ctx'
          → ctx'.item_list_total_bytes < ctx.item_list_total_bytes
          → Scanned ctx' (loop ctx'))
      → Scanned ctx (follow rescale grants ctx r loop)
  unfolding follow Good prepend
  follow-Scanned ctx aborts loop v g ih = absurd (omega (arith, g))
  follow-Scanned ctx stops loop v g ih = ([], ctx, refl, g, v)
  follow-Scanned ctx (goes ds ctx') loop v (v', less, on) ih =
      let (ds', ctx'', run, s, v'') = ih ctx' v' less in
      rw run (
        ds ++ ds',
        ctx'',
        refl,
        rw (map-append (λ d. d.burst) ds ds') (on (bursts ds') (bytes ctx'') s),
        v'',
      )

  detect-Scanned :
      (fuel : ℕ) (ctx : Detector)
      → ((n : ℕ) → grants n ≡ true)
      → IsValid ctx
      → ctx.item_list_total_bytes < fuel
      → Scanned ctx (detect rescale grants fuel ctx)
  unfolding detect
  detect-Scanned zero ctx all v lt = absurd (omega arith)
  detect-Scanned (suc fuel) ctx all v lt =
      follow-Scanned ctx (detect_round rescale grants ctx) (detect rescale grants fuel) v
        (round-Good ctx all v) (λ ctx' v' less. detect-Scanned fuel ctx' all v' (omega arith))

  -- With memory at hand the detector runs to its end on any valid state, and what it reports and keeps
  -- is the scan of the bytes that wait, however they are cut into buffers; the state stays valid.
  pub run_detector-Scans :
      (ctx : Detector)
      → ((n : ℕ) → grants n ≡ true)
      → IsValid ctx
      → Scanned ctx (run_detector rescale grants ctx)
  unfolding run_detector enter
  run_detector-Scans ctx all v =
      rw (list_peek_still ctx peek_len) (elim (ltb-cases (length (header (bytes ctx))) peek_len) [
        | inl (few, lt) ↦
            rw few (
              [],
              ctx,
              refl,
              short (bytes ctx) (omega (arith, length-take peek_len (bytes ctx))),
              v,
            )
        | inr (enough, le) ↦
            rw enough (detect-Scanned (suc ctx.item_list_total_bytes) ctx all v (omega arith))
      ])
