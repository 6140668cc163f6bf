-- ===== src/Smoothing/Progress.antt =====
-- The smoothing thread never waits in vain: where it can wait, and that it stops when it is cancelled.
use obe_rt.Base.{
  ℕ, zero, suc, ◌≢◌, ◌≤◌, ◌<◌, ◌≡◌, ◌⊎◌, inl, inr, refl, Bool, true, false, List, [], ◌∷◌, Option,
  none, some, arith, ◌==◌, length, if_elim,
}
use obe_rt.Base.Int.{ℤ, negsuc, eqb_ℤ, eqb_ℤ_iff, ltb_ℤ, ◌-ℤ◌}
use obe_rt.Smoothing.{
  Frame, Place, at_top, holding, first_wait, pace_wait, sending, removing, leaving, stopped,
  faulted, State, pace, waits_for_tick, step_at, thread_step,
}
use obe_rt.Smoothing.Reach.{Reach}
use obe_rt.Smoothing.Order.{Inv, Reach-Inv, Reach-order}

-- It waits for frames, and there are none or the buffer still fills.
abbrev pub Starved : ℕ → State → Type 0
Starved n s =
    (s.cancel ≡ false)
    × (s.place ≡ at_top)
    × ((s.enc_smoothing_queue ≡ [])
        ⊎ ((s.buffer_complete ≡ false) × (length s.enc_smoothing_queue < n)))

-- It waits for the clock, which has not changed since it read it.
abbrev pub Unticked : State → Type 0
Unticked s =
    (s.cancel ≡ false)
    × (s.last_clock ≡ s.clock)
    × ((f : Frame) × ((s.place ≡ first_wait f) ⊎ (s.place ≡ pace_wait f)))

-- What the thread may be found doing: it can step, it has ended, or it waits for a reason.
abbrev Progress : ℕ → State → Place → Option State → Type 0
Progress n s p o = ((t : State) × (o ≡ some t)) ⊎ ((p ≡ stopped) ⊎ (Starved n s ⊎ Unticked s))

waits_for_tick-Unticked :
    (s : State) (f : Frame)
    → (s.place ≡ first_wait f) ⊎ (s.place ≡ pace_wait f)
    → waits_for_tick s ≡ true
    → Unticked s
unfolding waits_for_tick
waits_for_tick-Unticked s f e h =
    (ground arith, (eqb_ℤ_iff s.last_clock s.clock).0 (ground arith), (f, e))

empty_of_length : (q : List Frame) → length q ≡ 0 → q ≡ []
empty_of_length [] h = refl
empty_of_length (f ∷ q) h = absurd (omega (arith, h))

waits_at_top-Starved :
    {n num : ℕ} {complete : Bool} (q : List Frame)
    → (num ≡ 0) ⊎ ((complete ≡ false) × (num < n))
    → length q ≡ num
    → (q ≡ []) ⊎ ((complete ≡ false) × (length q < n))
waits_at_top-Starved q (inl h) same = inl (empty_of_length q (omega (arith, h, same)))
waits_at_top-Starved q (inr (more, few)) same = inr (more, omega (arith, few, same))

module _ {n : ℕ} {fs : List Frame} (now : ℤ) (s : State) where
  -- The same, with the place named.
  step_at-Progress : (p : Place) → Inv n fs s p → s.place ≡ p → Progress n s p (step_at n now s p)
  unfolding step_at
  step_at-Progress at_top inv e =
      if_elim (Progress n s at_top) s.cancel (λ _. inl (record s { place = stopped }, refl))
        (λ go.
          if_elim (Progress n s at_top) (length s.enc_smoothing_queue == s.num_frames)
            (λ same. inr (
              inr (
                inl
                  (go, e, waits_at_top-Starved s.enc_smoothing_queue inv.counted (ground arith)))))
            (λ _. inl (_, refl)))
  step_at-Progress (holding f) inv e = inl (_, refl)
  step_at-Progress (first_wait f) inv e =
      if_elim (Progress n s (first_wait f)) (waits_for_tick s)
        (λ h. inr (inr (inr (waits_for_tick-Unticked s f (inl e) h)))) (λ _. inl (_, refl))
  step_at-Progress (pace_wait f) inv e =
      if_elim (Progress n s (pace_wait f)) (waits_for_tick s)
        (λ h. inr (inr (inr (waits_for_tick-Unticked s f (inr e) h)))) (λ _. inl (_, refl))
  step_at-Progress (sending f) inv e = inl (_, refl)
  step_at-Progress (removing f) inv e = inl (_, refl)
  step_at-Progress leaving inv e = inl (_, refl)
  step_at-Progress stopped inv e = inr (inl refl)
  step_at-Progress faulted inv e = elim inv.holds [ ]

-- In every reachable state that has not ended, the thread can take a step, unless it is not cancelled
-- and either waits at the top of its loop, where no frame is queued or the buffer still fills, or waits
-- for a clock that has not changed since it read it.
pub Reach-progress :
    {n : ℕ} {fs : List Frame} {s : State} (now : ℤ)
    → Reach n fs s
    → s.place ≢ stopped
    → ((t : State) × (thread_step n now s ≡ some t)) ⊎ (Starved n s ⊎ Unticked s)
unfolding thread_step
Reach-progress {s} now r alive = elim (step_at-Progress now s s.place (Reach-Inv r) refl) [
  | inl moves ↦ inl moves
  | inr (inl ended) ↦ absurd (alive ended)
  | inr (inr waits) ↦ inr waits
]

abbrev pub or_else : State → Option State → State
or_else s none = s
or_else s (some t) = t

-- Up to a number of steps of the thread, while it can take them.
unfoldable pub steps : ℕ → ℤ → ℕ → State → State
steps n now zero s = s
steps n now (suc k) s = steps n now k (or_else s (thread_step n now s))

-- How many steps a cancelled thread takes to its end.
abbrev rank : Place → ℕ
rank at_top = 1
rank (holding f) = 6
rank (first_wait f) = 5
rank (pace_wait f) = 5
rank (sending f) = 4
rank (removing f) = 3
rank leaving = 2
rank stopped = 0
rank faulted = 7

abbrev Closing : ℕ → State → Type 0
Closing k s = (s.cancel ≡ true) × (rank s.place ≤ k)

step_at-Closing :
    (n k : ℕ) (now : ℤ) (s : State) (p : Place)
    → k ≤ 5
    → s.cancel ≡ true
    → s.place ≡ p
    → rank p ≤ suc k
    → Closing k (or_else s (step_at n now s p))
unfolding step_at waits_for_tick pace
step_at-Closing n k now s at_top le stop e h =
    if_elim (λ o. Closing k (or_else s o)) s.cancel (λ _. (stop, omega arith)) (λ go. ground arith)
step_at-Closing n k now s (holding f) le stop e h =
    if_elim (Closing k) (eqb_ℤ s.start_dts (negsuc 0)) (λ _. (stop, omega (arith, h)))
      (λ _.
        if_elim (Closing k) (ltb_ℤ (s.clock -ℤ s.start_pts) (f.real_dts -ℤ s.start_dts))
          (λ _. (stop, omega (arith, h))) (λ _. (stop, omega (arith, h))))
step_at-Closing n k now s (first_wait f) le stop e h = simp (stop) (refl, omega (arith, h))
step_at-Closing n k now s (pace_wait f) le stop e h = simp (stop) (refl, omega (arith, h))
step_at-Closing n k now s (sending f) le stop e h = (stop, omega (arith, h))
step_at-Closing n k now s (removing f) le stop e h = (stop, omega (arith, h))
step_at-Closing n k now s leaving le stop e h = (stop, omega (arith, h))
step_at-Closing n k now s stopped le stop e h = (stop, rw e (omega arith))
step_at-Closing n k now s faulted le stop e h = absurd (omega (arith, h, le))

steps-Closing : (n k : ℕ) (now : ℤ) (s : State) → k ≤ 6 → Closing k s → Closing 0 (steps n now k s)
unfolding steps thread_step
steps-Closing n zero now s le h = h
steps-Closing n (suc k) now s le (stop, few) =
    steps-Closing n k now _ (omega (arith, le))
      (step_at-Closing n k now s s.place (omega (arith, le)) stop refl few)

rank_zero : (p : Place) → rank p ≤ 0 → p ≡ stopped
rank_zero p h = ground arith

rank_max : (p : Place) → p ≢ faulted → rank p ≤ 6
rank_max p h = ground arith

-- Once it is cancelled, the thread has ended after at most six steps, from every reachable state and
-- whatever it waited for.
pub cancel-stops :
    {n : ℕ} {fs : List Frame} {s : State} (now : ℤ)
    → Reach n fs s
    → s.cancel ≡ true
    → (steps n now 6 s).place ≡ stopped
cancel-stops {n} {s = s} now r stop =
    rank_zero _ (steps-Closing n 6 now s (omega arith) (stop, rank_max s.place (Reach-order r).2)).1
