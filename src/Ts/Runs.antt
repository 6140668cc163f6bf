-- ===== src/Ts/Runs.antt =====
-- Runs of the muxer: frames arrive on its queue, and passes take them from it.
use obe_rt.Base.{
  ℕ, ◌+◌, ◌≤◌, ◌≡◌, sym, ap, ap₂, ◌∙◌, subst, Bool, true, List, [], ◌++◌, append_assoc, arith,
}
use obe_rt.Base.Int.{ℤ}
use obe_rt.Obe.Routing.{MuxFrame}
use obe_rt.Obe.Streams.{OutputStream}
use obe_rt.Ts.{TsFrame, TsWriter, Muxer, passed, is_due, round}
use obe_rt.Ts.Frames.{occ, Distinct, opaques, occ-append, occ-split, occ-Thinned}
use obe_rt.Ts.Due.{due_frames, later_frames}
use obe_rt.Ts.Order.{From, From-append, videos-append, videos-due-later}
use obe_rt.Ts.Round.{videos, videos-Thinned, started, started-Thinned, Took, round-Took}

append-inner : (xs bs cs ds : List MuxFrame) → (xs ++ bs) ++ (cs ++ ds) ≡ (xs ++ (bs ++ cs)) ++ ds
append-inner xs bs cs ds =
    sym (append_assoc (xs ++ bs) cs ds) ∙ ap (λ x. x ++ ds) (append_assoc xs bs cs)

module _ {W : Type 0} (lib : TsWriter W) (streams : List OutputStream) where
  -- A muxer that runs reach, with the frames that have arrived and those that were sent. A run starts with
  -- an empty queue; obe_close cancels the thread.
  pub data MuxRun : Muxer W → List MuxFrame → List MuxFrame → Type 0 where
    starts : (m : Muxer W) → m.mux_queue ≡ [] → MuxRun m [] []
    arrives :
        (m : Muxer W) (all sent new : List MuxFrame)
        → MuxRun m all sent
        → MuxRun (record m { mux_queue = m.mux_queue ++ new }) (all ++ new) sent
    cancels :
        (m : Muxer W) (all sent : List MuxFrame)
        → MuxRun m all sent
        → MuxRun (record m { cancel = true }) all sent
    passes :
        (grants : ℕ → Bool) (m m' : Muxer W) (frames : List TsFrame) (all sent new : List MuxFrame)
        → MuxRun m all sent
        → round lib streams grants new m ≡ passed frames m'
        → MuxRun m' (all ++ new) (sent ++ opaques frames)

  -- What a run keeps.
  abbrev Kept : Muxer W → List MuxFrame → List MuxFrame → Type 0
  Kept m all sent =
      (videos sent ++ videos m.mux_queue ≡ videos all)
      × ((a : ℕ) → occ a sent + occ a m.mux_queue ≤ occ a all)

  Distinct-append : (fs gs : List MuxFrame) → Distinct (fs ++ gs) → Distinct fs
  Distinct-append fs gs d a = omega (arith, d a, occ-append a fs gs)

  queue-Distinct :
      (m : Muxer W) (all sent : List MuxFrame)
      → Kept m all sent
      → Distinct all
      → Distinct m.mux_queue
  queue-Distinct m all sent (v, o) d a = omega (arith, o a, d a)

  arrives-Kept :
      (m : Muxer W) (all sent new : List MuxFrame)
      → Kept m all sent
      → Kept (record m { mux_queue = m.mux_queue ++ new }) (all ++ new) sent
  arrives-Kept m all sent new (v, o) = (
    ap (◌++◌ (videos sent)) (videos-append m.mux_queue new)
        ∙ sym (append_assoc (videos sent) (videos m.mux_queue) (videos new))
        ∙ ap (λ x. x ++ videos new) v
        ∙ sym (videos-append all new),
    λ a. omega (arith, o a, occ-append a m.mux_queue new, occ-append a all new),
  )

  passes-Kept :
      (grants : ℕ → Bool) (m m' : Muxer W) (frames : List TsFrame) (all sent new : List MuxFrame)
      (d : ℤ)
      → Kept m all sent
      → From d (videos m.mux_queue)
      → Took lib streams grants new m frames m'
      → Kept m' (all ++ new) (sent ++ opaques frames)
  passes-Kept grants m m' frames all sent new d (v, o) from took =
      let first = took.first in
      let s = started grants took.audio_pts first m in
      let t = started-Thinned grants took.audio_pts first m in
      let thin = videos-Thinned s.mux_queue m.mux_queue t in
      let due = due_frames s first.real_dts s.mux_queue in
      let later = later_frames s first.real_dts s.mux_queue in
      let parts =
        videos-due-later s first.real_dts d s.mux_queue (subst (From d) (sym thin) from) ∙ thin in
      (
        ap₂ (λ x y. videos (sent ++ x) ++ videos y) took.sent took.left
            ∙ ap₂ ◌++◌ (videos-append sent due) (videos-append later new)
            ∙ append-inner (videos sent) (videos due) (videos later) (videos new)
            ∙ ap (λ x. (videos sent ++ x) ++ videos new) parts
            ∙ ap (λ x. x ++ videos new) v
            ∙ sym (videos-append all new),
        λ a. omega (
          arith,
          o a,
          occ-append a sent (opaques frames),
          occ-append a later new,
          occ-append a all new,
          ap (occ a) took.sent,
          ap (occ a) took.left,
          occ-split (is_due s first.real_dts) a s.mux_queue,
          occ-Thinned s.mux_queue m.mux_queue a t,
        ),
      )

  -- When no frame arrives twice and the decoding times of the video frames that arrive do not fall, the
  -- muxer sends each video frame once and in the order of arrival, none is lost, and no frame of any
  -- kind is sent twice.
  pub MuxRun-videos :
      (m : Muxer W) (all sent : List MuxFrame) (d : ℤ)
      → Distinct all
      → From d (videos all)
      → MuxRun m all sent
      → (videos sent ++ videos m.mux_queue ≡ videos all)
        × ((a : ℕ) → occ a sent + occ a m.mux_queue ≤ occ a all)
  MuxRun-videos _ _ _ d dis from (starts m e) =
      subst (λ q. (videos [] ++ videos q ≡ videos []) × ((a : ℕ) → occ a [] + occ a q ≤ occ a []))
        (sym e) (sym (videos-append [] []), λ a. omega (arith, occ-append a [] []))
  MuxRun-videos _ _ _ d dis from (arrives m all sent new r) = arrives-Kept m all sent new (
      MuxRun-videos m all sent d (Distinct-append all new dis)
        (From-append d (videos all) (videos new) (subst (From d) (videos-append all new) from)).0 r)
  MuxRun-videos _ _ _ d dis from (cancels m all sent r) = MuxRun-videos m all sent d dis from r
  MuxRun-videos _ _ _ d dis from (passes grants m m' frames all sent new r e) =
      let before =
        (From-append d (videos all) (videos new) (subst (From d) (videos-append all new) from)).0 in
      let dis' = Distinct-append all new dis in
      let kept = MuxRun-videos m all sent d dis' before r in
      let (d', left) =
        (From-append d (videos sent) (videos m.mux_queue) (subst (From d) (sym kept.0) before)).1 in
      passes-Kept grants m m' frames all sent new d' kept left
        (round-Took lib streams grants new m frames m' (queue-Distinct m all sent kept dis') e)
