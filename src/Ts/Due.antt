-- ===== src/Ts/Due.antt =====
-- The frames that a pass of the muxer takes from its queue are those that are due, and it leaves the
-- others.
use obe_rt.Base.{
  ◌≡◌, inl, inr, refl, sym, ap, ap₂, ◌∙◌, subst, true, false, List, [], ◌∷◌, ◌++◌, Option, none,
  some, arith, Bool-cases, if_elim, if_true, if_false, ◌==◌, ==_iff,
}
use obe_rt.Base.Int.{ℤ, ◌≤ℤ◌, tdiv, ltb_ℤ-cases, int_laws, parts_cases}
use obe_rt.Queue.Fifo.{erase_first}
use obe_rt.Obe.Routing.{MuxFrame}
use obe_rt.Obe.Streams.{OutputStream}
use obe_rt.Ts.{
  TsFrame, Muxer, get_output_mux_stream, rescaled_dts, is_due, fill_entry, with_entry, gather,
  same_frame, remove_frames,
}
use obe_rt.Ts.Frames.{
  ==_flip, AllBefore, Distinct, Distinct-tail, Known, failing, occ, occ-head, occ-not, occ-split,
  occ-there, opaques, passing,
}

-- An address that a list does not hold stays in front of what is removed by the list.
remove_frames-passes :
    (frames : List TsFrame) (f : MuxFrame) (fs : List MuxFrame)
    → occ f.ident (opaques frames) ≡ 0
    → remove_frames frames (f ∷ fs) ≡ f ∷ remove_frames frames fs
unfolding remove_frames same_frame occ
remove_frames-passes [] f fs h = refl
remove_frames-passes (t ∷ frames) f fs h = elim (Bool-cases (t.opaque.ident == f.ident)) [
  | inl e ↦ absurd (occ-there t.opaque f.ident (opaques frames) e h)
  | inr e ↦ rw (==_flip f.ident t.opaque.ident e) (
      remove_frames-passes frames f (erase_first same_frame t.opaque fs)
        (omega (arith, occ-not t.opaque f.ident (opaques frames) e, h)))
]

remove_frames-none :
    (frames : List TsFrame) (fs : List MuxFrame)
    → opaques frames ≡ []
    → remove_frames frames fs ≡ fs
unfolding remove_frames
remove_frames-none [] fs h = refl
remove_frames-none (t ∷ frames) fs h = cc

remove_frames-first :
    (frames : List TsFrame) (f : MuxFrame) (gs fs : List MuxFrame)
    → opaques frames ≡ f ∷ gs
    → (frames' : List TsFrame) × (opaques frames' ≡ gs)
      × (remove_frames frames (f ∷ fs) ≡ remove_frames frames' fs)
unfolding remove_frames same_frame
remove_frames-first [] f gs fs h = cc
remove_frames-first (t ∷ frames) f gs fs h =
    let same : f.ident ≡ t.opaque.ident = cc in
    (frames, cc, rw ((==_iff f.ident t.opaque.ident).1 same) refl)

tdiv_mono : (a b : ℤ) → a ≤ℤ b → tdiv a 300 ≤ℤ tdiv b 300
tdiv_mono a b h = elim (parts_cases a) [
  | inl p ↦ elim (parts_cases b) [ inl q ↦ omega int_laws | inr q ↦ omega int_laws ]
  | inr p ↦ elim (parts_cases b) [ inl q ↦ omega int_laws | inr q ↦ omega int_laws ]
]

module _ {W : Type 0} (m : Muxer W) (video_dts : ℤ) where
  -- What the pass takes, and what it leaves.
  abbrev pub due_frames : List MuxFrame → List MuxFrame
  due_frames fs = passing (is_due m video_dts) fs

  abbrev pub later_frames : List MuxFrame → List MuxFrame
  later_frames fs = failing (is_due m video_dts) fs

  taken :
      (f : MuxFrame) (fs : List MuxFrame)
      → is_due m video_dts f ≡ true
      → due_frames (f ∷ fs) ≡ f ∷ due_frames fs
  unfolding passing
  taken f fs h = rw h refl

  left :
      (f : MuxFrame) (fs : List MuxFrame)
      → is_due m video_dts f ≡ false
      → due_frames (f ∷ fs) ≡ due_frames fs
  unfolding passing
  left f fs h = rw h refl

  pub remove_frames-later :
      (frames : List TsFrame) (fs arrived : List MuxFrame)
      → Distinct fs
      → opaques frames ≡ due_frames fs
      → remove_frames frames (fs ++ arrived) ≡ later_frames fs ++ arrived
  unfolding passing failing remove_frames
  remove_frames-later frames [] arrived d e = remove_frames-none frames arrived e
  remove_frames-later frames (f ∷ fs) arrived d e = elim (Bool-cases (is_due m video_dts f)) [
    | inl h ↦
        (let (frames', e', r) =
            remove_frames-first frames f (due_frames fs) (fs ++ arrived) (e ∙ taken f fs h) in
          rw h (r ∙ remove_frames-later frames' fs arrived (Distinct-tail f fs d) e'))
    | inr h ↦ rw h (
        remove_frames-passes frames f (fs ++ arrived) (
          omega (
            arith,
            occ-head f fs,
            d f.ident,
            occ-split (is_due m video_dts) f.ident fs,
            ap (occ f.ident) (e ∙ left f fs h),
          ))
        ∙ ap (λ rest. f ∷ rest)
            (remove_frames-later frames fs arrived (Distinct-tail f fs d) (e ∙ left f fs h)))
  ]

  fill_entry-opaque : (f : MuxFrame) (s : OutputStream) → (fill_entry m f s).opaque ≡ f
  unfolding fill_entry
  fill_entry-opaque f s = if_elim (λ (t : TsFrame). t.opaque ≡ f) f.is_video (λ h. refl) (λ h. refl)

  fill_entry-dts :
      (f : MuxFrame) (s : OutputStream) → (fill_entry m f s).dts ≡ tdiv (rescaled_dts m f) 300
  unfolding fill_entry rescaled_dts
  fill_entry-dts f s = elim (Bool-cases f.is_video) [ inl h ↦ rw h refl | inr h ↦ rw h refl ]

  fill_entry-before :
      (f : MuxFrame) (s : OutputStream)
      → is_due m video_dts f ≡ true
      → (fill_entry m f s).dts ≤ℤ tdiv video_dts 300
  unfolding is_due
  fill_entry-before f s h =
      let early : rescaled_dts m f ≤ℤ video_dts = elim (ltb_ℤ-cases video_dts (rescaled_dts m f)) [
        | inl (t, lt) ↦ cc
        | inr (t, le) ↦ le
      ] in
      rw (fill_entry-dts f s) (tdiv_mono (rescaled_dts m f) video_dts early)

  with_entry-due :
      (f : MuxFrame) (fs : List MuxFrame) (stream : Option OutputStream)
      (rest : Option (List TsFrame)) (frames : List TsFrame)
      → is_due m video_dts f ≡ true
      → ((frames' : List TsFrame)
          → rest ≡ some frames'
          → (opaques frames' ≡ due_frames fs) × AllBefore video_dts frames')
      → with_entry m f stream rest ≡ some frames
      → (opaques frames ≡ due_frames (f ∷ fs)) × AllBefore video_dts frames
  with_entry-due f fs none rest frames h r e = cc
  with_entry-due f fs (some s) none frames h r e = cc
  with_entry-due f fs (some s) (some frames') frames h r e =
      let (o, b) = r frames' refl in
      let is : fill_entry m f s ∷ frames' ≡ frames = cc in
      subst (λ fs'. (opaques fs' ≡ due_frames (f ∷ fs)) × AllBefore video_dts fs') is
        (ap₂ ◌∷◌ (fill_entry-opaque f s) o ∙ sym (taken f fs h), (fill_entry-before f s h, b))

  -- The frames that are gathered are the due ones.
  pub gather-due :
      (streams : List OutputStream) (fs : List MuxFrame) (frames : List TsFrame)
      → gather streams m video_dts fs ≡ some frames
      → (opaques frames ≡ due_frames fs) × AllBefore video_dts frames
  unfolding gather passing
  gather-due streams [] frames e =
      let is : [] ≡ frames = cc in
      subst (λ fs'. (opaques fs' ≡ []) × AllBefore video_dts fs') is (refl, tt)
  gather-due streams (f ∷ fs) frames e = elim (Bool-cases (is_due m video_dts f)) [
    | inl h ↦
        with_entry-due f fs (get_output_mux_stream streams f.output_stream_id)
          (gather streams m video_dts fs) frames h (gather-due streams fs)
          (sym (if_true (is_due m video_dts f) _ _ h) ∙ e)
    | inr h ↦
        let (o, b) =
          gather-due streams fs frames (sym (if_false (is_due m video_dts f) _ _ h) ∙ e) in
        (o ∙ sym (left f fs h), b)
  ]

  pub gather-Known :
      (streams : List OutputStream) (fs : List MuxFrame)
      → Known streams fs
      → (frames : List TsFrame) × (gather streams m video_dts fs ≡ some frames)
  unfolding gather
  gather-Known streams [] k = ([], refl)
  gather-Known streams (f ∷ fs) ((s, e), k) =
      let (frames, g) = gather-Known streams fs k in
      elim (Bool-cases (is_due m video_dts f)) [
        | inl h ↦ (fill_entry m f s ∷ frames, rw (h, e, g) refl)
        | inr h ↦ (frames, rw (h, g) refl)
      ]
