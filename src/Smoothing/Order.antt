-- ===== src/Smoothing/Order.antt =====
-- What holds in every reachable state of the smoothing thread: no frame is lost, repeated or reordered,
-- and none is sent before the buffer has filled.
use obe_rt.Base.{
  ℕ, ◌≤◌, ◌<◌, ◌≡◌, ◌≢◌, ◌⊎◌, inl, inr, refl, sym, ap, ◌∙◌, subst, Bool, true, false, List, [], ◌∷◌,
  ◌++◌, Option, none, some, arith, leb, ◌==◌, length, length-append, append_assoc, if_elim, leb→le,
}
use obe_rt.Base.Int.{ℤ, negsuc, eqb_ℤ, ltb_ℤ, ◌-ℤ◌}
use obe_rt.Smoothing.{
  Frame, Place, at_top, holding, first_wait, pace_wait, sending, removing, leaving, stopped,
  faulted, State, init, first_of, rest_of, take_first, fill, pace, waits_for_tick, step_at,
  thread_step, arrive, refill, tick, close,
}
use obe_rt.Smoothing.Reach.{Reach, start, run, arrival, refilling, ticking, closing}

-- The frames that have not been handed on. A frame that is being removed has been.
abbrev pub pending : Place → List Frame → List Frame
pending (removing f) fs = rest_of fs
pending _ fs = fs

-- The frame that the thread works on is the oldest of its queue.
abbrev pub Holds : Place → List Frame → Type 0
Holds (holding f) fs = (rest : List Frame) × (fs ≡ f ∷ rest)
Holds (first_wait f) fs = (rest : List Frame) × (fs ≡ f ∷ rest)
Holds (pace_wait f) fs = (rest : List Frame) × (fs ≡ f ∷ rest)
Holds (sending f) fs = (rest : List Frame) × (fs ≡ f ∷ rest)
Holds (removing f) fs = (rest : List Frame) × (fs ≡ f ∷ rest)
Holds faulted fs = ⊥
Holds _ fs = Unit

-- Before it has taken a frame.
abbrev pub Idle : Place → Type 0
Idle at_top = Unit
Idle stopped = Unit
Idle _ = ⊥

-- What the count is compared with is out of date only while the buffer fills.
abbrev pub Counted : ℕ → ℕ → Bool → Place → Type 0
Counted n num complete at_top = (num ≡ 0) ⊎ ((complete ≡ false) × (num < n))
Counted n num complete _ = Unit

pub record Inv (n : ℕ) (fs : List Frame) (s : State) (p : Place) : Type 0 where
  pub order : fs ≡ s.mux_queue ++ pending p s.enc_smoothing_queue
  pub holds : Holds p s.enc_smoothing_queue
  pub filled : ((s.buffer_complete ≡ false) × (s.mux_queue ≡ []) × Idle p) ⊎ (n ≤ length fs)
  pub counted : Counted n s.num_frames s.buffer_complete p

-- The property holds of what a step gives, if it gives anything.
abbrev pub All : (State → Type 0) → Option State → Type 0
All P none = Unit
All P (some s) = P s

first_of-Holds : (q : List Frame) → 0 < length q → Holds (first_of q) q
unfolding first_of
first_of-Holds [] h = absurd (omega arith)
first_of-Holds (f ∷ fs) h = (fs, refl)

pending-first_of : (q : List Frame) → pending (first_of q) q ≡ q
unfolding first_of
pending-first_of [] = refl
pending-first_of (f ∷ fs) = refl

first_of-Counted :
    (n num : ℕ) (complete : Bool) (q : List Frame) → Counted n num complete (first_of q)
unfolding first_of
first_of-Counted n num complete [] = tt
first_of-Counted n num complete (f ∷ fs) = tt

module _ (n : ℕ) (fs : List Frame) where
  take_first-Inv :
      (s : State)
      → fs ≡ s.mux_queue ++ s.enc_smoothing_queue
      → 0 < length s.enc_smoothing_queue
      → n ≤ length fs
      → Inv n fs (take_first s) (take_first s).place
  unfolding take_first
  take_first-Inv s order some_wait enough = record {
    order = order ∙ ap (λ q. s.mux_queue ++ q) (sym (pending-first_of s.enc_smoothing_queue));
    holds = first_of-Holds s.enc_smoothing_queue some_wait;
    filled = inr enough;
    counted = first_of-Counted n s.num_frames s.buffer_complete s.enc_smoothing_queue;
  }

  -- The test of the buffer, after the frames that wait have been counted.
  fill-Inv :
      (s : State)
      → fs ≡ s.mux_queue ++ s.enc_smoothing_queue
      → ((s.buffer_complete ≡ false) × (s.mux_queue ≡ [])) ⊎ (n ≤ length fs)
      → s.num_frames ≡ length s.enc_smoothing_queue
      → (0 < s.num_frames) ⊎ ((s.buffer_complete ≡ false) × (s.num_frames < n))
      → Inv n fs (fill n s) (fill n s).place
  unfolding fill
  fill-Inv s order filled count fresh =
      if_elim (λ t. Inv n fs t t.place) s.buffer_complete
        (λ done. take_first-Inv s order (ground arith) (ground arith))
        (λ more.
          if_elim (λ t. Inv n fs t t.place) (leb n s.num_frames)
            (λ t.
              take_first-Inv (record s { buffer_complete = true; start_dts = negsuc 0 }) order
                (ground (arith, leb→le _ _ t)) (enough (leb→le _ _ t)))
            (λ t. record {
              order = order;
              holds = tt;
              filled = ground arith;
              counted = inr (more, ground arith);
            }))
    where
      enough : n ≤ s.num_frames → n ≤ length fs
      enough le = rw order (omega (arith, length-append s.mux_queue s.enc_smoothing_queue))

  pace-Inv : (f : Frame) (s : State) → Inv n fs s (holding f) → Inv n fs (pace f s) (pace f s).place
  unfolding pace
  pace-Inv f s inv =
      if_elim (λ t. Inv n fs t t.place) (eqb_ℤ s.start_dts (negsuc 0))
        (λ _. record { order = order; holds = holds; filled = filled; counted = tt })
        (λ _.
          if_elim (λ t. Inv n fs t t.place)
            (ltb_ℤ (s.clock -ℤ s.start_pts) (f.real_dts -ℤ s.start_dts))
            (λ _. record { order = order; holds = holds; filled = filled; counted = tt })
            (λ _. record { order = order; holds = holds; filled = filled; counted = tt }))
    where
      open inv use {order, holds, filled}

  step_at-Inv :
      (now : ℤ) (s : State) (p : Place)
      → Inv n fs s p
      → All (λ t. Inv n fs t t.place) (step_at n now s p)
  unfolding step_at rest_of
  step_at-Inv now s at_top inv =
      if_elim (All (λ t. Inv n fs t t.place)) s.cancel
        (λ _. record { order = inv.order; holds = tt; filled = inv.filled; counted = tt })
        (λ _.
          if_elim (All (λ t. Inv n fs t t.place)) (length s.enc_smoothing_queue == s.num_frames)
            (λ _. tt)
            (λ new.
              fill-Inv (record s { num_frames = length s.enc_smoothing_queue }) inv.order
                (ground arith) refl (ground arith)))
  step_at-Inv now s (holding f) inv = pace-Inv f s inv
  step_at-Inv now s (first_wait f) inv =
      if_elim (All (λ t. Inv n fs t t.place)) (waits_for_tick s) (λ _. tt)
        (λ _. record { order = inv.order; holds = inv.holds; filled = inv.filled; counted = tt })
  step_at-Inv now s (pace_wait f) inv =
      if_elim (All (λ t. Inv n fs t t.place)) (waits_for_tick s) (λ _. tt)
        (λ _. record { order = inv.order; holds = inv.holds; filled = inv.filled; counted = tt })
  step_at-Inv now s (sending f) inv =
      let (rest, e) = inv.holds in
      record {
        order =
            inv.order
            ∙ ap (λ q. s.mux_queue ++ q) e
            ∙ sym (append_assoc s.mux_queue (f ∷ []) rest)
            ∙ ap (λ q. (s.mux_queue ++ f ∷ []) ++ rest_of q) (sym e);
        holds = inv.holds;
        filled = ground arith;
        counted = tt;
      }
  step_at-Inv now s (removing f) inv = record {
    order = inv.order;
    holds = tt;
    filled = inv.filled;
    counted = tt;
  }
  step_at-Inv now s leaving inv = record {
    order = inv.order;
    holds = tt;
    filled = ground arith;
    counted = inl refl;
  }
  step_at-Inv now s stopped inv = tt
  step_at-Inv now s faulted inv = tt

Holds-arrive : (p : Place) (q : List Frame) (f : Frame) → Holds p q → Holds p (q ++ f ∷ [])
Holds-arrive at_top q f h = tt
Holds-arrive (holding g) q f (rest, e) = (rest ++ f ∷ [], ap (λ fs. fs ++ f ∷ []) e)
Holds-arrive (first_wait g) q f (rest, e) = (rest ++ f ∷ [], ap (λ fs. fs ++ f ∷ []) e)
Holds-arrive (pace_wait g) q f (rest, e) = (rest ++ f ∷ [], ap (λ fs. fs ++ f ∷ []) e)
Holds-arrive (sending g) q f (rest, e) = (rest ++ f ∷ [], ap (λ fs. fs ++ f ∷ []) e)
Holds-arrive (removing g) q f (rest, e) = (rest ++ f ∷ [], ap (λ fs. fs ++ f ∷ []) e)
Holds-arrive leaving q f h = tt
Holds-arrive stopped q f h = tt
Holds-arrive faulted q f h = elim h [ ]

pending-arrive :
    (p : Place) (q : List Frame) (f : Frame)
    → Holds p q
    → pending p (q ++ f ∷ []) ≡ pending p q ++ f ∷ []
unfolding rest_of
pending-arrive at_top q f h = refl
pending-arrive (holding g) q f h = refl
pending-arrive (first_wait g) q f h = refl
pending-arrive (pace_wait g) q f h = refl
pending-arrive (sending g) q f h = refl
pending-arrive (removing g) [] f (rest, e) = ground arith
pending-arrive (removing g) (x ∷ q) f h = refl
pending-arrive leaving q f h = refl
pending-arrive stopped q f h = refl
pending-arrive faulted q f h = elim h [ ]

Counted-refill :
    (n num : ℕ) (complete : Bool) (p : Place) → Counted n num complete p → Counted n num false p
Counted-refill n num complete at_top h = ground arith
Counted-refill n num complete (holding f) h = tt
Counted-refill n num complete (first_wait f) h = tt
Counted-refill n num complete (pace_wait f) h = tt
Counted-refill n num complete (sending f) h = tt
Counted-refill n num complete (removing f) h = tt
Counted-refill n num complete leaving h = tt
Counted-refill n num complete stopped h = tt
Counted-refill n num complete faulted h = tt

arrive-Inv :
    (n : ℕ) (fs : List Frame) (f : Frame) (s : State)
    → Inv n fs s s.place
    → Inv n (fs ++ f ∷ []) (arrive f s) s.place
unfolding arrive
arrive-Inv n fs f s inv = record {
  order =
      ap (λ q. q ++ f ∷ []) inv.order
      ∙ append_assoc s.mux_queue (pending s.place s.enc_smoothing_queue) (f ∷ [])
      ∙ ap (λ q. s.mux_queue ++ q) (sym (pending-arrive s.place s.enc_smoothing_queue f inv.holds));
  holds = Holds-arrive s.place s.enc_smoothing_queue f inv.holds;
  filled = ground (arith, length-append fs (f ∷ []));
  counted = inv.counted;
}

pub Reach-Inv : {n : ℕ} {fs : List Frame} {s : State} → Reach n fs s → Inv n fs s s.place
unfolding init refill tick close thread_step arrive
Reach-Inv (start clock) = record {
  order = refl;
  holds = tt;
  filled = inl (refl, refl, tt);
  counted = inl refl;
}
Reach-Inv {n} {fs} (run {s = s} now e r) =
    subst (All (λ t. Inv n fs t t.place)) e (step_at-Inv n fs now s s.place (Reach-Inv r))
Reach-Inv (arrival f r) = arrive-Inv _ _ f _ (Reach-Inv r)
Reach-Inv (refilling {s = s} r) =
    let inv = Reach-Inv r in
    record {
      order = inv.order;
      holds = inv.holds;
      filled = ground arith;
      counted = Counted-refill _ s.num_frames s.buffer_complete s.place inv.counted;
    }
Reach-Inv (ticking value r) =
    let inv = Reach-Inv r in
    record { order = inv.order; holds = inv.holds; filled = inv.filled; counted = inv.counted }
Reach-Inv (closing r) =
    let inv = Reach-Inv r in
    record { order = inv.order; holds = inv.holds; filled = inv.filled; counted = inv.counted }

-- In every reachable state the frames handed to the multiplexer, followed by those still pending, are
-- exactly the frames that have arrived, in their order; nothing has been handed on before a buffer of
-- frames has arrived; and the thread has not read from an empty queue.
pub Reach-order :
    {n : ℕ} {fs : List Frame} {s : State}
    → Reach n fs s
    → (fs ≡ s.mux_queue ++ pending s.place s.enc_smoothing_queue)
      × ((s.mux_queue ≡ []) ⊎ (n ≤ length fs))
      × (s.place ≢ faulted)
Reach-order {s} r =
    let inv = Reach-Inv r in
    (inv.order, ground arith, λ e. subst (λ p. Holds p s.enc_smoothing_queue) e inv.holds)
