-- ===== src/Smoothing/Drain.antt =====
-- While the input ticks, the smoothing thread hands on every frame that waits.
use obe_rt.Base.{
  ℕ, zero, suc, ◌+◌, ◌*◌, ◌≤◌, ◌≡◌, ◌≢◌, refl, true, false, List, [], ◌∷◌, ◌++◌, Option, none, some,
  arith, Bool-cases, sym, ap, ◌∙◌, inl, inr, length, if_elim, append-nil, append_assoc, ◌==◌,
}
use obe_rt.Base.Int.{ℤ, negsuc, eqb_ℤ, eqb_ℤ_iff, ltb_ℤ, ◌-ℤ◌}
use obe_rt.Smoothing.{
  Frame, Place, at_top, holding, first_wait, pace_wait, sending, State, first_of, rest_of,
  take_first, fill, pace, waits_for_tick, step_at, thread_step, tick,
}

-- What the thread keeps from one frame to the next.
pub record Times : Type 0 where
  pub clock : ℤ
  pub last_clock : ℤ
  pub start_pts : ℤ
  pub start_dts : ℤ
  pub last_exit_time : ℤ

-- The thread at a place, with a full buffer.
abbrev pub working : Place → ℕ → List Frame → List Frame → Times → State
working p num waiting sent v = record {
  enc_smoothing_queue = waiting;
  mux_queue = sent;
  buffer_complete = true;
  cancel = false;
  clock = v.clock;
  last_clock = v.last_clock;
  start_pts = v.start_pts;
  start_dts = v.start_dts;
  num_frames = num;
  last_exit_time = v.last_exit_time;
  place = p;
}

-- At the top of the loop, with the count reset.
abbrev pub ready : List Frame → List Frame → Times → State
ready = working at_top 0

eqb_ℤ_self : (c : ℤ) → eqb_ℤ c c ≡ true
eqb_ℤ_self c = (eqb_ℤ_iff c c).1 refl

eqb_ℤ_ne : (a b : ℤ) → b ≢ a → eqb_ℤ a b ≡ false
eqb_ℤ_ne a b h = elim (Bool-cases (eqb_ℤ a b)) [
  | inl e ↦ absurd (h (sym ((eqb_ℤ_iff a b).0 e)))
  | inr e ↦ e
]

abbrev pub step_or_tick : (ℤ → ℤ) → State → Option State → State
step_or_tick next s none = tick (next s.clock) s
step_or_tick next s (some t) = t

module _ (n : ℕ) (now : ℤ) (next : ℤ → ℤ) where
  -- The thread steps where it can; where it waits, the input ticks to the next value.
  unfoldable pub turns : ℕ → State → State
  turns zero s = s
  turns (suc k) s = turns k (step_or_tick next s (thread_step n now s))

  turns-add : (j k m : ℕ) (s : State) → m ≡ j + k → turns m s ≡ turns k (turns j s)
  unfolding turns
  turns-add zero k m s e = let same : m ≡ k = omega (arith, e) in ap (λ i. turns i s) same
  turns-add (suc j) k zero s e = absurd (omega (arith, e))
  turns-add (suc j) k (suc m) s e = turns-add j k m _ (omega (arith, e))

  module _ (ticks : (c : ℤ) → next c ≢ c) where
    -- A number of turns, at most m, leads to the top with these queues.
    abbrev Leads : ℕ → List Frame → List Frame → State → Type 0
    Leads m waiting sent s = (k : ℕ) × (k ≤ m) × (v : Times) × (turns k s ≡ ready waiting sent v)

    one_turn :
        {m : ℕ} {waiting sent : List Frame} (s : State)
        → Leads m waiting sent (step_or_tick next s (thread_step n now s))
        → Leads (suc m) waiting sent s
    unfolding turns
    one_turn s (k, le, v, e) = (suc k, omega (arith, le), v, e)

    sooner :
        {j m : ℕ} {waiting sent : List Frame} (s : State)
        → j ≤ m
        → Leads j waiting sent s
        → Leads m waiting sent s
    sooner s few (k, le, v, e) = (k, omega (arith, le, few), v, e)

    from_sending :
        (f : Frame) (rest sent : List Frame) (v : Times) (num : ℕ)
        → Leads 3 rest (sent ++ f ∷ []) (working (sending f) num (f ∷ rest) sent v)
    unfolding turns thread_step step_at rest_of
    from_sending f rest sent v num = (3, omega arith, record v { last_exit_time = now }, refl)

    same_clock : (a b : ℤ) → a ≡ b → eqb_ℤ a b ≡ true
    same_clock a b h = (eqb_ℤ_iff a b).1 h

    new_clock : (a b : ℤ) → a ≡ b → eqb_ℤ a (next b) ≡ false
    new_clock a b h = eqb_ℤ_ne a (next b) (λ e. ticks b (e ∙ h))

    module _ (f : Frame) (rest sent : List Frame) (num : ℕ) where
      from_first_wait :
          (v : Times)
          → v.last_clock ≡ v.clock
          → Leads 5 rest (sent ++ f ∷ []) (working (first_wait f) num (f ∷ rest) sent v)
      unfolding thread_step step_at waits_for_tick tick
      from_first_wait v same = one_turn _ (
          rw (same_clock v.last_clock v.clock same) (
            one_turn _ (rw (new_clock v.last_clock v.clock same) (from_sending f rest sent _ num))))

      from_pace_wait :
          (v : Times)
          → v.last_clock ≡ v.clock
          → Leads 5 rest (sent ++ f ∷ []) (working (pace_wait f) num (f ∷ rest) sent v)
      unfolding thread_step step_at waits_for_tick tick
      from_pace_wait v same = one_turn _ (
          rw (same_clock v.last_clock v.clock same) (
            one_turn _ (rw (new_clock v.last_clock v.clock same) (from_sending f rest sent _ num))))

      from_holding :
          (v : Times) → Leads 6 rest (sent ++ f ∷ []) (working (holding f) num (f ∷ rest) sent v)
      unfolding thread_step step_at pace
      from_holding v = one_turn _ (
          if_elim (Leads 5 rest (sent ++ f ∷ [])) (eqb_ℤ v.start_dts (negsuc 0))
            (λ _. from_first_wait _ refl)
            (λ _.
              if_elim (Leads 5 rest (sent ++ f ∷ []))
                (ltb_ℤ (v.clock -ℤ v.start_pts) (f.real_dts -ℤ v.start_dts))
                (λ _. from_pace_wait _ refl)
                (λ _. sooner _ (omega arith) (from_sending f rest sent _ num))))

    send_first :
        (f : Frame) (rest sent : List Frame) (v : Times)
        → Leads 7 rest (sent ++ f ∷ []) (ready (f ∷ rest) sent v)
    unfolding thread_step step_at fill take_first first_of
    send_first f rest sent v = one_turn _ (
        if_elim (λ o. Leads 6 rest (sent ++ f ∷ []) (step_or_tick next (ready (f ∷ rest) sent v) o))
          (length (f ∷ rest) == 0) (λ none_wait. ground arith)
          (λ _. from_holding f rest sent (length (f ∷ rest)) v))

    -- From the top of the loop with a full buffer and no cancellation, while the input ticks to a new
    -- value whenever the thread waits and no frame arrives, at most seven turns for each frame hand every
    -- frame that waits to the multiplexer, in order, and leave the queue empty.
    pub turns-drain :
        (waiting sent : List Frame) (v : Times)
        → (k : ℕ) × (k ≤ 7 * length waiting)
          × (w : Times) × (turns k (ready waiting sent v) ≡ ready [] (sent ++ waiting) w)
    unfolding turns
    turns-drain [] sent v = (0, omega arith, v, ap (λ xs. ready [] xs v) (sym (append-nil sent)))
    turns-drain (f ∷ rest) sent v =
        let (j, few, w, e) = send_first f rest sent v in
        let (k, le, u, e') = turns-drain rest (sent ++ f ∷ []) w in
        (
          j + k,
          omega (arith, few, le),
          u,
          turns-add j k _ _ refl
              ∙ ap (turns k) e
              ∙ e'
              ∙ ap (λ xs. ready [] xs u) (append_assoc sent (f ∷ []) rest),
        )
