-- ===== src/Ts/Order.antt =====
-- The decoding times of video frames, and the order in which a pass sends them.
use obe_rt.Base.{
  ◌≡◌, refl, sym, ap, ap₂, ◌∙◌, subst, Bool, true, false, not, List, inl, inr, [], ◌∷◌, ◌++◌, arith,
  Bool-cases, if_true, if_false,
}
use obe_rt.Base.Int.{ℤ, ltb_ℤ, ltb_ℤ-cases, ◌≤ℤ◌, ◌<ℤ◌}
use obe_rt.Obe.Routing.{MuxFrame}
use obe_rt.Ts.{Muxer, rescaled_dts, is_due}
use obe_rt.Ts.Frames.{passing, failing}
use obe_rt.Ts.Due.{due_frames, later_frames}
use obe_rt.Ts.Round.{videos}

-- The decoding times do not fall, from d on.
unfoldable pub From : ℤ → List MuxFrame → Type 0
From d [] = Unit
From d (f ∷ fs) = (d ≤ℤ f.real_dts) × From f.real_dts fs

pub From-append :
    (d : ℤ) (fs gs : List MuxFrame) → From d (fs ++ gs) → From d fs × ((d' : ℤ) × From d' gs)
unfolding From
From-append d [] gs h = (tt, (d, h))
From-append d (f ∷ fs) gs (le, h) = let (a, b) = From-append f.real_dts fs gs h in ((le, a), b)

pub videos-append : (fs gs : List MuxFrame) → videos (fs ++ gs) ≡ videos fs ++ videos gs
unfolding passing
videos-append [] gs = refl
videos-append (f ∷ fs) gs = elim (Bool-cases f.is_video) [
  | inl video ↦
      if_true f.is_video _ _ video
      ∙ ap (λ x. f ∷ x) (videos-append fs gs)
      ∙ ap (λ x. x ++ videos gs) (sym (if_true f.is_video _ _ video))
  | inr audio ↦
      if_false f.is_video _ _ audio
      ∙ videos-append fs gs
      ∙ ap (λ x. x ++ videos gs) (sym (if_false f.is_video _ _ audio))
]

videos-video :
    (f : MuxFrame) (fs : List MuxFrame) → f.is_video ≡ true → videos (f ∷ fs) ≡ f ∷ videos fs
unfolding passing
videos-video f fs h = if_true f.is_video _ _ h

videos-audio :
    (f : MuxFrame) (fs : List MuxFrame) → f.is_video ≡ false → videos (f ∷ fs) ≡ videos fs
unfolding passing
videos-audio f fs h = if_false f.is_video _ _ h

-- A frame of another kind changes neither side.
videos-passing_audio :
    (test : MuxFrame → Bool) (f : MuxFrame) (fs : List MuxFrame)
    → f.is_video ≡ false
    → (videos (passing test (f ∷ fs)) ≡ videos (passing test fs))
      × (videos (failing test (f ∷ fs)) ≡ videos (failing test fs))
unfolding failing passing
videos-passing_audio test f fs audio = elim (Bool-cases (test f)) [
  | inl h ↦ (
    ap videos (if_true (test f) _ _ h) ∙ videos-audio f (passing test fs) audio,
    ap videos (if_true (test f) _ _ h),
  )
  | inr h ↦ (
    ap videos (if_false (test f) _ _ h),
    ap videos (if_false (test f) _ _ h) ∙ videos-audio f (failing test fs) audio,
  )
]

module _ {W : Type 0} (m : Muxer W) (v : ℤ) where
  video-due : (f : MuxFrame) → f.is_video ≡ true → is_due m v f ≡ not (ltb_ℤ v f.real_dts)
  unfolding is_due rescaled_dts
  video-due f video = ap (λ d. not (ltb_ℤ v d)) (if_true f.is_video _ _ video)

  -- Past a video frame that is not due, none is.
  videos-none_due :
      (d : ℤ) (fs : List MuxFrame) → v <ℤ d → From d (videos fs) → videos (due_frames m v fs) ≡ []
  unfolding passing From
  videos-none_due d [] lt h = refl
  videos-none_due d (f ∷ fs) lt h = elim (Bool-cases f.is_video) [
    | inl video ↦
        let (le, h') = subst (From d) (videos-video f fs video) h in
        let late : is_due m v f ≡ false = elim (ltb_ℤ-cases v f.real_dts) [
          | inl (t, l) ↦ video-due f video ∙ ap not t
          | inr (t, l) ↦ absurd (omega arith)
        ] in
        ap videos (if_false (is_due m v f) _ _ late)
        ∙ videos-none_due f.real_dts fs (omega arith) h'
    | inr audio ↦
        (videos-passing_audio (is_due m v) f fs audio).0
        ∙ videos-none_due d fs lt (subst (From d) (videos-audio f fs audio) h)
  ]

  -- The due video frames stand in front of the others.
  pub videos-due-later :
      (d : ℤ) (fs : List MuxFrame)
      → From d (videos fs)
      → videos (due_frames m v fs) ++ videos (later_frames m v fs) ≡ videos fs
  unfolding passing failing From
  videos-due-later d [] h = refl
  videos-due-later d (f ∷ fs) h = elim (Bool-cases f.is_video) [
    | inl video ↦
        let (le, h') = subst (From d) (videos-video f fs video) h in
        let rest = videos-due-later f.real_dts fs h' in
        elim (ltb_ℤ-cases v f.real_dts) [
          | inl (t, l) ↦
              let late : is_due m v f ≡ false = video-due f video ∙ ap not t in
              let none = videos-none_due f.real_dts fs l h' in
              ap₂ (λ x y. videos x ++ videos y) (if_false (is_due m v f) _ _ late)
                (if_false (is_due m v f) _ _ late)
              ∙ ap (λ x. x ++ videos (f ∷ later_frames m v fs)) none
              ∙ videos-video f (later_frames m v fs) video
              ∙ ap (λ x. f ∷ x) (ap (λ x. x ++ videos (later_frames m v fs)) (sym none) ∙ rest)
              ∙ sym (videos-video f fs video)
          | inr (t, l) ↦
              let due : is_due m v f ≡ true = video-due f video ∙ ap not t in
              ap₂ (λ x y. videos x ++ videos y) (if_true (is_due m v f) _ _ due)
                (if_true (is_due m v f) _ _ due)
              ∙ ap (λ x. x ++ videos (later_frames m v fs))
                  (videos-video f (due_frames m v fs) video)
              ∙ ap (λ x. f ∷ x) rest
              ∙ sym (videos-video f fs video)
        ]
    | inr audio ↦
        let (p, q) = videos-passing_audio (is_due m v) f fs audio in
        ap₂ ◌++◌ p q
        ∙ videos-due-later d fs (subst (From d) (videos-audio f fs audio) h)
        ∙ sym (videos-audio f fs audio)
  ]
