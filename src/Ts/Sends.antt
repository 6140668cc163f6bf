-- ===== src/Ts/Sends.antt =====
-- A pass of the muxer that finds a video frame sends it.
use obe_rt.Base.{
  ℕ, ◌+◌, ◌≤◌, ◌<◌, ◌≡◌, refl, sym, ap, ◌∙◌, Bool, true, false, not, List, inl, inr, [], ◌∷◌, ◌++◌,
  some, arith, Bool-cases, if_true, if_false, length, ltb, ltb-cases, length-append,
}
use obe_rt.Base.Int.{ℤ, pos, ◌+ℤ◌, ◌-ℤ◌, ltb_ℤ-cases}
use obe_rt.Obe.Routing.{MuxFrame, Thinned, same, keeps, drops}
use obe_rt.Obe.Streams.{OutputStream}
use obe_rt.Ts.{
  TsFrame, TsWriter, Muxer, passed, find_video, rescaled_dts, is_due, round, write_out, with_video,
}
use obe_rt.Ts.Frames.{Distinct, Known, opaques, passing, failing, Known-Thinned}
use obe_rt.Ts.Due.{due_frames, later_frames, gather-Known}
use obe_rt.Ts.Round.{
  videos, videos-Thinned, find_video-first, started, started-Thinned, started-writer, Took,
  round-Took,
}

length-Thinned : (fs gs : List MuxFrame) → Thinned fs gs → length fs ≤ length gs
length-Thinned _ _ (same fs) = omega arith
length-Thinned _ _ (keeps f fs gs t) = omega (arith, length-Thinned fs gs t)
length-Thinned _ _ (drops f fs gs audio t) = omega (arith, length-Thinned fs gs t)

length-split :
    (test : MuxFrame → Bool) (fs : List MuxFrame)
    → length (passing test fs) + length (failing test fs) ≡ length fs
unfolding passing failing
length-split test [] = refl
length-split test (f ∷ fs) = elim (Bool-cases (test f)) [
  | inl h ↦ rw h (omega (arith, length-split test fs))
  | inr h ↦ rw h (omega (arith, length-split test fs))
]

videos-length : (fs : List MuxFrame) → length (videos fs) ≤ length fs
videos-length fs = omega (arith, length-split (λ (f : MuxFrame). f.is_video) fs)

-- The first of the video frames is one.
videos-is_video :
    (fs : List MuxFrame) (f : MuxFrame) (vs : List MuxFrame)
    → videos fs ≡ f ∷ vs
    → f.is_video ≡ true
unfolding passing
videos-is_video [] f vs e = cc
videos-is_video (g ∷ fs) f vs e = elim (Bool-cases g.is_video) [
  | inl video ↦
      let same : g ≡ f = let h = sym (if_true g.is_video _ _ video) ∙ e in cc in
      ap (λ (x : MuxFrame). x.is_video) (sym same) ∙ video
  | inr audio ↦ videos-is_video fs f vs (sym (if_false g.is_video _ _ audio) ∙ e)
]

-- A first video frame that passes a test is the first that passes.
videos-passing :
    (test : MuxFrame → Bool) (fs : List MuxFrame) (f : MuxFrame) (vs : List MuxFrame)
    → test f ≡ true
    → videos fs ≡ f ∷ vs
    → (vs' : List MuxFrame) × (videos (passing test fs) ≡ f ∷ vs')
unfolding passing
videos-passing test [] f vs t e = cc
videos-passing test (g ∷ fs) f vs t e = elim (Bool-cases g.is_video) [
  | inl video ↦
      let same : g ≡ f = let h = sym (if_true g.is_video _ _ video) ∙ e in cc in
      let due : test g ≡ true = ap test same ∙ t in
      (
        videos (passing test fs),
        ap videos (if_true (test g) _ _ due)
            ∙ if_true g.is_video _ _ video
            ∙ ap (λ x. x ∷ videos (passing test fs)) same,
      )
  | inr audio ↦
      let (vs', h) = videos-passing test fs f vs t (sym (if_false g.is_video _ _ audio) ∙ e) in
      (
        vs',
        elim (Bool-cases (test g)) [
          | inl due ↦ ap videos (if_true (test g) _ _ due) ∙ if_false g.is_video _ _ audio ∙ h
          | inr later ↦ ap videos (if_false (test g) _ _ later) ∙ h
        ],
      )
]

video-is_due :
    {W : Type 0} (m : Muxer W) (f : MuxFrame) → f.is_video ≡ true → is_due m f.real_dts f ≡ true
unfolding is_due rescaled_dts
video-is_due m f video =
    rw
      (if_true f.is_video f.real_dts ((f.pts -ℤ m.first_video_pts) +ℤ m.first_video_real_pts) video)
      (elim (ltb_ℤ-cases f.real_dts f.real_dts) [
        | inl (t, lt) ↦ absurd (omega arith)
        | inr (t, le) ↦ ap not t
      ])

find_video-some :
    (pts : ℤ) (fs : List MuxFrame) (f : MuxFrame) (vs : List MuxFrame)
    → videos fs ≡ f ∷ vs
    → (pts' : ℤ) × (find_video pts fs ≡ (pts', some f))
unfolding find_video passing
find_video-some pts [] f vs e = cc
find_video-some pts (g ∷ fs) f vs e = elim (Bool-cases g.is_video) [
  | inl video ↦
      let same : g ≡ f = let h = sym (if_true g.is_video _ _ video) ∙ e in cc in
      (pts, if_true g.is_video _ _ video ∙ ap (λ x. (pts, some x)) same)
  | inr audio ↦
      let (pts', h) = find_video-some g.pts fs f vs (sym (if_false g.is_video _ _ audio) ∙ e) in
      (pts', if_false g.is_video _ _ audio ∙ h)
]

module _ {W : Type 0} (lib : TsWriter W) (streams : List OutputStream) where
  Took-sends :
      (grants : ℕ → Bool) (arrived : List MuxFrame) (m : Muxer W) (frames : List TsFrame)
      (m' : Muxer W) (f : MuxFrame) (vs : List MuxFrame)
      → videos m.mux_queue ≡ f ∷ vs
      → Took lib streams grants arrived m frames m'
      → ((vs' : List MuxFrame) × (videos (opaques frames) ≡ f ∷ vs'))
        × (length m'.mux_queue < length (m.mux_queue ++ arrived))
  Took-sends grants arrived m frames m' f vs e took =
      let v = took.first in
      let s = started grants took.audio_pts v m in
      let t = started-Thinned grants took.audio_pts v m in
      let (vs2, ev) = find_video-first (pos 0) m.mux_queue took.audio_pts v took.found in
      let same : v ≡ f = cc in
      let due = video-is_due s v (videos-is_video m.mux_queue v vs2 ev) in
      let (vs', h) =
        videos-passing (is_due s v.real_dts) s.mux_queue v vs2 due
          (videos-Thinned s.mux_queue m.mux_queue t ∙ ev) in
      (
        (vs', ap videos took.sent ∙ h ∙ ap (λ x. x ∷ vs') same),
        omega (
          arith,
          ap length took.left,
          length-append (later_frames s v.real_dts s.mux_queue) arrived,
          length-append m.mux_queue arrived,
          length-split (is_due s v.real_dts) s.mux_queue,
          videos-length (due_frames s v.real_dts s.mux_queue),
          ap length h,
          length-Thinned s.mux_queue m.mux_queue t,
        ),
      )

  write_out-Known :
      (grants : ℕ → Bool) (arrived : List MuxFrame) (m : Muxer W)
      → ((frames : List TsFrame)
          → lib.num_buffered_frames (lib.write_frames m.writer frames).writer ≤ 2200)
      → (frames : List TsFrame)
      → (m' : Muxer W) × (write_out lib streams arrived m (some frames) ≡ passed frames m')
  unfolding write_out
  write_out-Known grants arrived m room frames =
      elim (ltb-cases 2200 (lib.num_buffered_frames (lib.write_frames m.writer frames).writer)) [
        | inl (t, lt) ↦ absurd (omega (arith, room frames))
        | inr (t, le) ↦ (
          _,
          if_false (ltb 2200 (lib.num_buffered_frames (lib.write_frames m.writer frames).writer)) _
              _ t,
        )
      ]

  -- While the writer has room for what it is given and every frame has an output stream, a pass over a
  -- queue with a video frame is not held up: it sends the first video frame, and the queue gets shorter
  -- but for what arrives.
  pub round-sends :
      (grants : ℕ → Bool) (arrived : List MuxFrame) (m : Muxer W) (f : MuxFrame)
      (vs : List MuxFrame)
      → m.cancel ≡ false
      → videos m.mux_queue ≡ f ∷ vs
      → Distinct m.mux_queue
      → Known streams m.mux_queue
      → ((frames : List TsFrame)
          → lib.num_buffered_frames (lib.write_frames m.writer frames).writer ≤ 2200)
      → (frames : List TsFrame) × (m' : Muxer W) × (round lib streams grants arrived m
          ≡ passed frames m')
        × ((vs' : List MuxFrame) × (videos (opaques frames) ≡ f ∷ vs'))
        × (length m'.mux_queue < length (m.mux_queue ++ arrived))
  unfolding round with_video
  round-sends grants arrived m f vs go e d k room =
      let (pts, h) = find_video-some (pos 0) m.mux_queue f vs e in
      let s = started grants pts f m in
      let (frames, g) =
        gather-Known s f.real_dts streams s.mux_queue
          (Known-Thinned streams s.mux_queue m.mux_queue (started-Thinned grants pts f m) k) in
      let (m', w) =
        write_out-Known grants arrived s (λ fs. rw (started-writer grants pts f m) (room fs))
          frames in
      let is : round lib streams grants arrived m ≡ passed frames m' =
        if_false m.cancel _ _ go
        ∙ ap (with_video lib streams grants arrived m) h
        ∙ ap (write_out lib streams arrived s) g
        ∙ w in
      let (sends, less) =
        Took-sends grants arrived m frames m' f vs e
          (round-Took lib streams grants arrived m frames m' d is) in
      (frames, m', is, sends, less)
