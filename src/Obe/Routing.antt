-- ===== src/Obe/Routing.antt =====
-- Frames on their way through obe/obe.c: add_to_filter_queue, add_to_encode_queue and
-- remove_early_frames. The queues are those of common/queue.c.
pub mod Deliver
use obe_rt.Base.{
  ℕ, zero, suc, ◌+◌, ◌*◌, ◌^◌, ◌≤◌, ◌<◌, ◌≡◌, refl, sym, ap, ◌∙◌, inl, inr, ◌⊎◌, Bool, true, false,
  not, ◌&&◌, ◌||◌, Bool-cases, Option, none, some, List, [], ◌∷◌, ◌++◌, ◌==◌, if◌then◌else◌, length,
  arith, set, get_elem?, if_elim,
}
use obe_rt.Base.Int.{ℤ, pos, negsuc, eqb_ℤ, ltb_ℤ}
use obe_rt.Queue.{Queue, Call, blocked, returned, add_to_queue}

-- `obe_filter_t`
pub record Filter {ℓ} (A : Type ℓ) : Type ℓ where
  pub stream_id_list : List ℤ
  pub queue : Queue A

-- `obe_encoder_t`
pub record Encoder {ℓ} (A : Type ℓ) : Type ℓ where
  pub output_stream_id : ℤ
  pub queue : Queue A

-- The inner loop: whether the filter lists the stream.
unfoldable pub lists : List ℤ → ℤ → Bool
lists [] id = false
lists (j ∷ js) id = if eqb_ℤ j id then true else lists js id

module _ {ℓ} {A : Type ℓ} where
  -- The index that `filter` points to after the loop: `break` leaves only the inner loop, so each filter
  -- that lists the stream takes the place of one found before.
  pub filter_of : List (Filter A) → ℤ → ℕ → Option ℕ → Option ℕ
  filter_of [] id i found = found
  filter_of (f ∷ fs) id i found =
      if lists f.stream_id_list id
      then filter_of fs id (suc i) (some i)
      else filter_of fs id (suc i) found

  pub encoder_of : List (Encoder A) → ℤ → ℕ → Option ℕ
  encoder_of [] id i = none
  encoder_of (e ∷ es) id i =
      if eqb_ℤ e.output_stream_id id then some i else encoder_of es id (suc i)

  -- The queue of the chosen filter after the call.
  pub put_back : Call A → Filter A → ℕ → List (Filter A) → Option (ℤ × List (Filter A))
  put_back blocked f i fs = none
  put_back (returned r q) f i fs = some (r, set fs i (record f { queue = q }))

  pub add_at :
      (ℕ → Bool) → A → List (Filter A) → ℕ → Option (Filter A) → Option (ℤ × List (Filter A))
  add_at grants item fs i none = none
  add_at grants item fs i (some f) = put_back (add_to_queue grants f.queue item) f i fs

  pub add_found : (ℕ → Bool) → A → List (Filter A) → Option ℕ → Option (ℤ × List (Filter A))
  add_found grants item fs none = some (negsuc 0, fs)
  add_found grants item fs (some i) = add_at grants item fs i (get_elem? fs i)

  -- The return value and the filters; `none` where the call blocks.
  pub add_to_filter_queue : (ℕ → Bool) → List (Filter A) → A → ℤ → Option (ℤ × List (Filter A))
  add_to_filter_queue grants fs raw_frame input_stream_id =
      add_found grants raw_frame fs (filter_of fs input_stream_id 0 none)

  pub put_back_encoder : Call A → Encoder A → ℕ → List (Encoder A) → Option (ℤ × List (Encoder A))
  put_back_encoder blocked e i es = none
  put_back_encoder (returned r q) e i es = some (r, set es i (record e { queue = q }))

  pub add_at_encoder :
      (ℕ → Bool) → A → List (Encoder A) → ℕ → Option (Encoder A) → Option (ℤ × List (Encoder A))
  add_at_encoder grants item es i none = none
  add_at_encoder grants item es i (some e) =
      put_back_encoder (add_to_queue grants e.queue item) e i es

  pub add_found_encoder :
      (ℕ → Bool) → A → List (Encoder A) → Option ℕ → Option (ℤ × List (Encoder A))
  add_found_encoder grants item es none = some (negsuc 0, es)
  add_found_encoder grants item es (some i) = add_at_encoder grants item es i (get_elem? es i)

  pub add_to_encode_queue : (ℕ → Bool) → List (Encoder A) → A → ℤ → Option (ℤ × List (Encoder A))
  add_to_encode_queue grants es raw_frame output_stream_id =
      add_found_encoder grants raw_frame es (encoder_of es output_stream_id 0)

-- `obe_coded_frame_t`: the frame's identity stands for its address, `bytes` for its data and length; the
-- type is either video or not. Left out is what no code of this library reads.
pub record MuxFrame : Type 0 where
  pub ident : ℕ
  pub output_stream_id : ℤ
  pub is_video : Bool
  pub pts : ℤ
  pub cpb_initial_arrival_time : ℤ
  pub cpb_final_arrival_time : ℤ
  pub real_dts : ℤ
  pub real_pts : ℤ
  pub random_access : ℤ
  pub priority : ℤ
  pub bytes : List ℕ

unfoldable pub is_early : ℤ → MuxFrame → Bool
is_early pts frame = not frame.is_video && ltb_ℤ frame.pts pts

unfoldable pub keep : MuxFrame → ℤ × List MuxFrame → ℤ × List MuxFrame
keep f (r, fs) = (r, f ∷ fs)

-- The loop, with the number of frames that it has passed: the return value and what is left of the queue
-- from there on. `realloc` is asked for 8 bytes for each frame that is left.
unfoldable pub early_loop : (ℕ → Bool) → ℤ → ℕ → List MuxFrame → ℤ × List MuxFrame
early_loop grants pts passed [] = (pos 0, [])
early_loop grants pts passed (f ∷ fs) =
    let size = passed + length fs in
    let go_on = early_loop grants pts passed fs in
    let kept = keep f (early_loop grants pts (suc passed) fs) in
    if is_early pts f
    then (if not (grants (8 * size)) && not (size == 0) then (negsuc 0, fs) else go_on)
    else kept

unfoldable pub remove_early_frames : (ℕ → Bool) → List MuxFrame → ℤ → ℤ × List MuxFrame
remove_early_frames grants queue pts = early_loop grants pts 0 queue

-- A video frame stays, and a frame of the given time or later.
pub stays : ℤ → MuxFrame → Bool
stays pts f = if f.is_video then true else not (ltb_ℤ f.pts pts)

stays-is_early : (pts : ℤ) (f : MuxFrame) (b : Bool) → is_early pts f ≡ b → stays pts f ≡ not b
unfolding stays is_early
stays-is_early pts f b h = elim (Bool-cases f.is_video) [
  | inl video ↦ ground (arith, video, h)
  | inr other ↦ ground (arith, other, h)
]

-- The frames that stay, in order.
pub on_time : ℤ → List MuxFrame → List MuxFrame
on_time pts [] = []
on_time pts (f ∷ fs) = if stays pts f then f ∷ on_time pts fs else on_time pts fs

-- What the loop owes the queue: no frame that is on time is lost, and without an error only those stay.
abbrev pub Cleared : ℤ → List MuxFrame → ℤ × List MuxFrame → Type 0
Cleared pts queue (r, left) =
    (on_time pts left ≡ on_time pts queue)
    × (((r ≡ pos 0) × (left ≡ on_time pts queue)) ⊎ (r ≡ negsuc 0))

kept-Cleared :
    (pts : ℤ) (f : MuxFrame) (fs : List MuxFrame) (p : ℤ × List MuxFrame)
    → is_early pts f ≡ false
    → Cleared pts fs p
    → (on_time pts (keep f p).1 ≡ f ∷ on_time pts fs)
      × ((((keep f p).0 ≡ pos 0) × ((keep f p).1 ≡ f ∷ on_time pts fs)) ⊎ ((keep f p).0 ≡ negsuc 0))
unfolding keep on_time
kept-Cleared pts f fs (r, left) late (same, inl (ok, all)) =
    (rw (stays-is_early pts f false late) (ap (◌∷◌ f) same), inl (ok, ap (◌∷◌ f) all))
kept-Cleared pts f fs (r, left) late (same, inr failed) =
    (rw (stays-is_early pts f false late) (ap (◌∷◌ f) same), inr failed)

early_loop-Cleared :
    (grants : ℕ → Bool) (pts : ℤ) (passed : ℕ) (queue : List MuxFrame)
    → Cleared pts queue (early_loop grants pts passed queue)
unfolding early_loop on_time
early_loop-Cleared grants pts passed [] = (refl, inl (refl, refl))
early_loop-Cleared grants pts passed (f ∷ fs) = elim (Bool-cases (is_early pts f)) [
  | inl early ↦
      elim (Bool-cases (not (grants (8 * (passed + length fs))) && not (passed + length fs == 0))) [
        | inl refused ↦ rw (early, refused, stays-is_early pts f true early) (refl, inr refl)
        | inr granted ↦
            rw (early, granted, stays-is_early pts f true early)
              (early_loop-Cleared grants pts passed fs)
      ]
  | inr late ↦
      rw (late, stays-is_early pts f false late)
        (kept-Cleared pts f fs (early_loop grants pts (suc passed) fs) late
          (early_loop-Cleared grants pts (suc passed) fs))
]

-- A queue with some frames taken out, none of them a video frame.
pub data Thinned : List MuxFrame → List MuxFrame → Type 0 where
  same : (fs : List MuxFrame) → Thinned fs fs
  keeps : (f : MuxFrame) (fs gs : List MuxFrame) → Thinned fs gs → Thinned (f ∷ fs) (f ∷ gs)
  drops :
      (f : MuxFrame) (fs gs : List MuxFrame)
      → f.is_video ≡ false
      → Thinned fs gs
      → Thinned fs (f ∷ gs)

kept-Thinned :
    (f : MuxFrame) (fs : List MuxFrame) (p : ℤ × List MuxFrame)
    → Thinned p.1 fs
    → Thinned (keep f p).1 (f ∷ fs)
unfolding keep
kept-Thinned f fs (r, gs) t = keeps f gs fs t

early-audio : (pts : ℤ) (f : MuxFrame) → is_early pts f ≡ true → f.is_video ≡ false
unfolding is_early
early-audio pts f h = ground (arith, h)

early_loop-Thinned :
    (grants : ℕ → Bool) (pts : ℤ) (passed : ℕ) (queue : List MuxFrame)
    → Thinned (early_loop grants pts passed queue).1 queue
unfolding early_loop
early_loop-Thinned grants pts passed [] = same []
early_loop-Thinned grants pts passed (f ∷ fs) =
    if_elim (λ (p : ℤ × List MuxFrame). Thinned p.1 (f ∷ fs)) (is_early pts f)
      (λ early.
        if_elim (λ (p : ℤ × List MuxFrame). Thinned p.1 (f ∷ fs)) _
          (λ refused. drops f fs fs (early-audio pts f early) (same fs))
          (λ granted.
            drops f _ fs (early-audio pts f early) (early_loop-Thinned grants pts passed fs)))
      (λ late. kept-Thinned f fs _ (early_loop-Thinned grants pts (suc passed) fs))

pub remove_early_frames-Thinned :
    (grants : ℕ → Bool) (queue : List MuxFrame) (pts : ℤ)
    → Thinned (remove_early_frames grants queue pts).1 queue
unfolding remove_early_frames
remove_early_frames-Thinned grants queue pts = early_loop-Thinned grants pts 0 queue

-- `remove_early_frames` loses no video frame and no frame of the given time or later, and keeps the order
-- of those, whatever `realloc` answers; where it returns 0 they are all that is left, and else it
-- returns -1.
pub remove_early_frames-Cleared :
    (grants : ℕ → Bool) (queue : List MuxFrame) (pts : ℤ)
    → Cleared pts queue (remove_early_frames grants queue pts)
unfolding remove_early_frames
remove_early_frames-Cleared grants queue pts = early_loop-Cleared grants pts 0 queue
