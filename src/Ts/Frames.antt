-- ===== src/Ts/Frames.antt =====
-- Lists of coded frames: counting them by address, dividing them by a test, and thinning them out.
use obe_rt.Base.{
  ℕ, suc, ◌+◌, ◌≤◌, ◌≡◌, ◌≢◌, inl, inr, refl, Bool, true, false, List, [], ◌∷◌, ◌++◌, map, some,
  arith, Bool-cases, ◌==◌, ==_iff, if◌then◌else◌,
}
use obe_rt.Base.Int.{ℤ, ◌≤ℤ◌, tdiv}
use obe_rt.Obe.Routing.{MuxFrame, Thinned, same, keeps, drops}
use obe_rt.Obe.Streams.{OutputStream}
use obe_rt.Ts.{TsFrame, get_output_mux_stream}

-- How often an address stands in a list of frames.
unfoldable pub occ : ℕ → List MuxFrame → ℕ
occ a [] = 0
occ a (f ∷ fs) = (if f.ident == a then 1 else 0) + occ a fs

-- No frame is queued twice.
abbrev pub Distinct : List MuxFrame → Type 0
Distinct fs = (a : ℕ) → occ a fs ≤ 1

-- Every frame has an output stream.
abbrev pub Known : List OutputStream → List MuxFrame → Type 0
Known streams [] = Unit
Known streams (f ∷ fs) =
    ((s : OutputStream) × (get_output_mux_stream streams f.output_stream_id ≡ some s))
    × Known streams fs

abbrev pub opaques : List TsFrame → List MuxFrame
opaques frames = map (λ (t : TsFrame). t.opaque) frames

-- No entry is to be decoded after the time v, in ticks of 90 kHz.
abbrev pub AllBefore : ℤ → List TsFrame → Type 0
AllBefore v [] = Unit
AllBefore v (t ∷ frames) = (t.dts ≤ℤ tdiv v 300) × AllBefore v frames

module _ (test : MuxFrame → Bool) where
  -- The frames that pass the test, and the others.
  unfoldable pub passing : List MuxFrame → List MuxFrame
  passing [] = []
  passing (f ∷ fs) = if test f then f ∷ passing fs else passing fs

  unfoldable pub failing : List MuxFrame → List MuxFrame
  failing [] = []
  failing (f ∷ fs) = if test f then failing fs else f ∷ failing fs

  pub occ-split : (a : ℕ) (fs : List MuxFrame) → occ a (passing fs) + occ a (failing fs) ≡ occ a fs
  unfolding passing failing occ
  occ-split a [] = refl
  occ-split a (f ∷ fs) = elim (Bool-cases (test f)) [
    | inl h ↦ rw h (omega (arith, occ-split a fs))
    | inr h ↦ rw h (omega (arith, occ-split a fs))
  ]

pub occ-head : (f : MuxFrame) (fs : List MuxFrame) → occ f.ident (f ∷ fs) ≡ suc (occ f.ident fs)
unfolding occ
occ-head f fs = rw ((==_iff f.ident f.ident).1 refl) (omega arith)

pub ==_flip : (a b : ℕ) → b == a ≡ false → a == b ≡ false
==_flip a b e = ground arith

pub occ-there :
    (f : MuxFrame) (a : ℕ) (fs : List MuxFrame) → f.ident == a ≡ true → occ a (f ∷ fs) ≢ 0
unfolding occ
occ-there f a fs e h = ground (arith, e, h)

pub occ-not :
    (f : MuxFrame) (a : ℕ) (fs : List MuxFrame) → f.ident == a ≡ false → occ a (f ∷ fs) ≡ occ a fs
unfolding occ
occ-not f a fs e = rw e (omega arith)

pub Distinct-tail : (f : MuxFrame) (fs : List MuxFrame) → Distinct (f ∷ fs) → Distinct fs
unfolding occ
Distinct-tail f fs d a = let h = d a in omega arith

pub occ-append : (a : ℕ) (fs gs : List MuxFrame) → occ a (fs ++ gs) ≡ occ a fs + occ a gs
unfolding occ
occ-append a [] gs = omega arith
occ-append a (f ∷ fs) gs = omega (arith, occ-append a fs gs)

pub occ-Thinned : (fs gs : List MuxFrame) (a : ℕ) → Thinned fs gs → occ a fs ≤ occ a gs
unfolding occ
occ-Thinned _ _ a (same fs) = omega arith
occ-Thinned _ _ a (keeps f fs gs t) = let h = occ-Thinned fs gs a t in omega arith
occ-Thinned _ _ a (drops f fs gs audio t) = let h = occ-Thinned fs gs a t in omega arith

pub Distinct-Thinned : (fs gs : List MuxFrame) → Thinned fs gs → Distinct gs → Distinct fs
Distinct-Thinned fs gs t d a = omega (arith, occ-Thinned fs gs a t, d a)

pub Known-Thinned :
    (streams : List OutputStream) (fs gs : List MuxFrame)
    → Thinned fs gs
    → Known streams gs
    → Known streams fs
Known-Thinned streams _ _ (same fs) k = k
Known-Thinned streams _ _ (keeps f fs gs t) (s, k) = (s, Known-Thinned streams fs gs t k)
Known-Thinned streams _ _ (drops f fs gs audio t) (s, k) = Known-Thinned streams fs gs t k
