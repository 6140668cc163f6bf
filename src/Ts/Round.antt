-- ===== src/Ts/Round.antt =====
-- What a pass of the muxer sends and what it leaves on its queue.
use obe_rt.Base.{
  ℕ, ◌≡◌, ◌≢◌, ◌⊎◌, arith, inl, inr, refl, sym, ap, ◌∙◌, Bool, List, [], ◌∷◌, ◌++◌, Option, none,
  some, Bool-cases, if_elim, if_true, if_false, if◌then◌else◌, ltb,
}
use obe_rt.Base.Int.{ℤ, pos, negsuc, eqb_ℤ, eqb_ℤ_iff}
use obe_rt.Obe.Routing.{
  MuxFrame, Cleared, remove_early_frames, remove_early_frames-Cleared, Thinned, same, keeps, drops,
  remove_early_frames-Thinned,
}
use obe_rt.Obe.Streams.{OutputStream}
use obe_rt.Ts.{
  TsFrame, TsWriter, Muxer, Outcome, passed, find_video, gather, remove_frames, start_timing,
  note_video, write_out, with_video, round,
}
use obe_rt.Ts.Frames.{Distinct, opaques, AllBefore, passing, Distinct-Thinned}
use obe_rt.Ts.Due.{due_frames, later_frames, gather-due, remove_frames-later}

-- The video frames of a queue.
abbrev pub videos : List MuxFrame → List MuxFrame
videos fs = passing (λ (f : MuxFrame). f.is_video) fs

pub videos-Thinned : (fs gs : List MuxFrame) → Thinned fs gs → videos fs ≡ videos gs
unfolding passing
videos-Thinned _ _ (same fs) = refl
videos-Thinned _ _ (keeps f fs gs t) =
    ap (λ vs. if f.is_video then f ∷ vs else vs) (videos-Thinned fs gs t)
videos-Thinned _ _ (drops f fs gs audio t) = rw audio (videos-Thinned fs gs t)

-- The search finds the first video frame.
pub find_video-first :
    (pts : ℤ) (queue : List MuxFrame) (pts' : ℤ) (f : MuxFrame)
    → find_video pts queue ≡ (pts', some f)
    → (vs : List MuxFrame) × (videos queue ≡ f ∷ vs)
unfolding find_video passing
find_video-first pts [] pts' f e = cc
find_video-first pts (g ∷ queue) pts' f e = elim (Bool-cases g.is_video) [
  | inl video ↦
      let same : g ≡ f = let h = sym (if_true g.is_video _ _ video) ∙ e in cc in
      (videos queue, if_true g.is_video _ _ video ∙ ap (λ x. x ∷ videos queue) same)
  | inr audio ↦
      let (vs, h) = find_video-first g.pts queue pts' f (sym (if_false g.is_video _ _ audio) ∙ e) in
      (vs, rw audio h)
]

-- The muxer that assembles frames once it has found this video frame.
abbrev pub started : {W : Type 0} → (ℕ → Bool) → ℤ → MuxFrame → Muxer W → Muxer W
started grants current_audio_pts f m = note_video current_audio_pts f (start_timing grants f m)

pub started-Thinned :
    {W : Type 0} (grants : ℕ → Bool) (current_audio_pts : ℤ) (f : MuxFrame) (m : Muxer W)
    → Thinned (started grants current_audio_pts f m).mux_queue m.mux_queue
unfolding note_video start_timing
started-Thinned grants current_audio_pts f m =
    if_elim (λ (s : Muxer _). Thinned s.mux_queue m.mux_queue) (eqb_ℤ m.first_video_pts (negsuc 0))
      (λ unset. remove_early_frames-Thinned grants m.mux_queue f.pts) (λ set. same m.mux_queue)

pub started-writer :
    {W : Type 0} (grants : ℕ → Bool) (current_audio_pts : ℤ) (f : MuxFrame) (m : Muxer W)
    → (started grants current_audio_pts f m).writer ≡ m.writer
unfolding note_video start_timing
started-writer grants current_audio_pts f m =
    if_elim (λ (s : Muxer _). s.writer ≡ m.writer) (eqb_ℤ m.first_video_pts (negsuc 0))
      (λ unset. refl) (λ set. refl)

-- The queue that a pass assembles frames from: the first pass has taken early frames out of it that are
-- not video, by `remove_early_frames`; a later pass has the queue as it is.
abbrev pub Began : {W : Type 0} → (ℕ → Bool) → ℤ → MuxFrame → Muxer W → Type 0
Began grants current_audio_pts f m =
    ((m.first_video_pts ≢ negsuc 0)
      × ((started grants current_audio_pts f m).mux_queue ≡ m.mux_queue))
    ⊎ ((m.first_video_pts ≡ negsuc 0)
        × Thinned (started grants current_audio_pts f m).mux_queue m.mux_queue
        × Cleared f.pts m.mux_queue (
          (remove_early_frames grants m.mux_queue f.pts).0,
          (started grants current_audio_pts f m).mux_queue,
        ))

started-Began :
    {W : Type 0} (grants : ℕ → Bool) (current_audio_pts : ℤ) (f : MuxFrame) (m : Muxer W)
    → Began grants current_audio_pts f m
unfolding note_video start_timing
started-Began grants current_audio_pts f m =
    elim (Bool-cases (eqb_ℤ m.first_video_pts (negsuc 0))) [
      | inl unset ↦ rw unset (
          inr (
            (eqb_ℤ_iff m.first_video_pts (negsuc 0)).0 unset,
            remove_early_frames-Thinned grants m.mux_queue f.pts,
            remove_early_frames-Cleared grants m.mux_queue f.pts,
          ))
      | inr set ↦
          rw set
            (inl ((λ e. ground (arith, set, (eqb_ℤ_iff m.first_video_pts (negsuc 0)).1 e)), refl))
    ]

module _ {W : Type 0} (lib : TsWriter W) (streams : List OutputStream) where
  -- What a pass owes a queue of distinct frames, from which the first pass has taken the early frames: it
  -- sends what is due by the time of the first video frame, and leaves the rest and what has arrived in the
  -- meantime.
  pub record Took (grants : ℕ → Bool) (arrived : List MuxFrame) (m : Muxer W)
      (frames : List TsFrame) (m' : Muxer W) : Type 0 where
    pub audio_pts : ℤ
    pub first : MuxFrame
    pub found : find_video (pos 0) m.mux_queue ≡ (audio_pts, some first)
    pub began : Began grants audio_pts first m
    pub sent :
        opaques frames
        ≡ due_frames
            (started grants audio_pts first m)
            first.real_dts
            (started grants audio_pts first m).mux_queue
    pub left :
        m'.mux_queue
        ≡ later_frames
            (started grants audio_pts first m)
            first.real_dts
            (started grants audio_pts first m).mux_queue
          ++ arrived
    pub in_time : AllBefore first.real_dts frames

  passed-queue :
      {frames frames' : List TsFrame} {m m' : Muxer W}
      → passed frames m ≡ passed frames' m'
      → m.mux_queue ≡ m'.mux_queue
  passed-queue h = ap queue_of h
    where
      queue_of : Outcome W → List MuxFrame
      queue_of (passed frames m) = m.mux_queue
      queue_of _ = []

  write_out-passed :
      (arrived : List MuxFrame) (m : Muxer W) (gathered : Option (List TsFrame))
      (frames : List TsFrame) (m' : Muxer W)
      → write_out lib streams arrived m gathered ≡ passed frames m'
      → (gathered ≡ some frames) × (m'.mux_queue ≡ remove_frames frames (m.mux_queue ++ arrived))
  unfolding write_out
  write_out-passed arrived m none frames m' e = cc
  write_out-passed arrived m (some frames') frames m' e =
      let w = lib.write_frames m.writer frames' in
      elim (Bool-cases (ltb 2200 (lib.num_buffered_frames w.writer))) [
        | inl stall ↦
            let h = sym (if_true (ltb 2200 (lib.num_buffered_frames w.writer)) _ _ stall) ∙ e in cc
        | inr go ↦
            let h = sym (if_false (ltb 2200 (lib.num_buffered_frames w.writer)) _ _ go) ∙ e in
            let same : frames' ≡ frames = cc in
            (
              ap some same,
              passed-queue (sym h) ∙ ap (λ fs. remove_frames fs (m.mux_queue ++ arrived)) same,
            )
      ]

  with_video-Took :
      (grants : ℕ → Bool) (arrived : List MuxFrame) (m : Muxer W) (p : ℤ × Option MuxFrame)
      (frames : List TsFrame) (m' : Muxer W)
      → Distinct m.mux_queue
      → find_video (pos 0) m.mux_queue ≡ p
      → with_video lib streams grants arrived m p ≡ passed frames m'
      → Took grants arrived m frames m'
  unfolding with_video
  with_video-Took grants arrived m (pts, none) frames m' d f e = cc
  with_video-Took grants arrived m (pts, some v) frames m' d f e =
      let s = started grants pts v m in
      let (g, q) =
        write_out-passed arrived s (gather streams s v.real_dts s.mux_queue) frames m' e in
      let (o, b) = gather-due s v.real_dts streams s.mux_queue frames g in
      record {
        audio_pts = pts;
        first = v;
        found = f;
        began = started-Began grants pts v m;
        sent = o;
        left =
            q
            ∙ remove_frames-later s v.real_dts frames s.mux_queue arrived
                (Distinct-Thinned s.mux_queue m.mux_queue (started-Thinned grants pts v m) d) o;
        in_time = b;
      }

  pub round-Took :
      (grants : ℕ → Bool) (arrived : List MuxFrame) (m : Muxer W) (frames : List TsFrame)
      (m' : Muxer W)
      → Distinct m.mux_queue
      → round lib streams grants arrived m ≡ passed frames m'
      → Took grants arrived m frames m'
  unfolding round
  round-Took grants arrived m frames m' d e = elim (Bool-cases m.cancel) [
    | inl stop ↦ let h = sym (if_true m.cancel _ _ stop) ∙ e in cc
    | inr go ↦
        with_video-Took grants arrived m (find_video (pos 0) m.mux_queue) frames m' d refl
          (sym (if_false m.cancel _ _ go) ∙ e)
  ]
