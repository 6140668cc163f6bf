-- ===== src/Scte104/Route.antt =====
-- What the SCTE-104 filters route, against the rule that the header states.
use obe_rt.Base.{
  ℕ, ◌+◌, ◌≤◌, ◌≡◌, refl, sym, ap, ap₂, ◌∙◌, ◌⊎◌, inl, inr, Bool, true, false, ◌&&◌, ◌||◌, some,
  List, [], ◌∷◌, ◌++◌, append_assoc, append-nil, leb, Bool-cases, if◌then◌else◌, arith, length,
  length-append, take_all,
}
use obe_rt.Base.Int.{ℤ, pos, negsuc, eqb_ℤ}
use obe_rt.Scte104.{
  max_scte104_filters, Filter, Filters, Message, add_filter, appends, collect, narrow,
  lookup_scte35_pids,
}

-- "-1: all, else a single index value"
abbrev selects : ℤ → ℤ → Bool
selects index value = eqb_ℤ index (negsuc 0) || eqb_ℤ index value

-- A filter takes the messages that both of its indices select.
unfoldable pub takes : Filter → Message → Bool
takes f msg = selects f.as_index msg.as_index && selects f.dpi_pid_index msg.dpi_pid_index

appends-takes : (f : Filter) (msg : Message) → appends f msg ≡ takes f msg
unfolding appends takes
appends-takes f msg =
    by_tests (eqb_ℤ f.as_index (negsuc 0)) (eqb_ℤ f.as_index msg.as_index)
      (eqb_ℤ f.dpi_pid_index (negsuc 0)) (eqb_ℤ f.dpi_pid_index msg.dpi_pid_index)
  where
    by_tests :
        (a b c d : Bool)
        → (if a
            then (if c then true else if d then true else false)
            else if b
            then (if c then true else if d then true else false)
            else false)
          ≡ ((a || b) && (c || d))
    by_tests true b true d = refl
    by_tests true b false true = refl
    by_tests true b false false = refl
    by_tests false true true d = refl
    by_tests false true false true = refl
    by_tests false true false false = refl
    by_tests false false c d = refl

-- The streams of the filters that take the message, in the order of the filters.
abbrev pub routes : Message → List Filter → List ℕ
routes msg [] = []
routes msg (f ∷ fs) = if takes f msg then f.pid ∷ routes msg fs else routes msg fs

pub record IsValid (ctx : Filters) : Type 0 where
  pub stored : ctx.count ≡ length ctx.array
  pub bounded : ctx.count ≤ max_scte104_filters

collect-routes :
    (grants : ℕ → Bool) (msg : Message) (fs : List Filter) (arr : List ℕ) (cnt : ℕ)
    → ((n : ℕ) → grants n ≡ true)
    → collect grants msg fs arr cnt ≡ some (arr ++ routes msg fs, cnt + length (routes msg fs))
unfolding collect
collect-routes grants msg [] arr cnt all =
    ap some (ap₂ {C = List ℕ × ℕ} (λ a n. (a, n)) (sym (append-nil arr)) (omega arith))
collect-routes grants msg (f ∷ fs) arr cnt all = elim (Bool-cases (takes f msg)) [
  | inl h ↦
      rw (appends-takes f msg, h, all (cnt + 1))
        (collect-routes grants msg fs (arr ++ f.pid ∷ []) (cnt + 1) all
          ∙ ap some (
              ap₂ {C = List ℕ × ℕ} (λ a n. (a, n)) (append_assoc arr (f.pid ∷ []) _) (omega arith)))
  | inr h ↦ rw (appends-takes f msg, h) (collect-routes grants msg fs arr cnt all)
]

length-routes : (msg : Message) (fs : List Filter) → length (routes msg fs) ≤ length fs
length-routes msg [] = omega arith
length-routes msg (f ∷ fs) = ground (arith, length-routes msg fs)

-- With memory at hand a lookup in a valid context returns the streams of exactly the filters that
-- take the message, in the order in which the filters were added, and their number: the 8-bit count
-- does not wrap.
pub lookup_scte35_pids-routes :
    (grants : ℕ → Bool) (ctx : Filters) (msg : Message)
    → ((n : ℕ) → grants n ≡ true)
    → IsValid ctx
    → lookup_scte35_pids grants ctx msg ≡ some (routes msg ctx.array, length (routes msg ctx.array))
unfolding lookup_scte35_pids narrow
lookup_scte35_pids-routes grants ctx msg all v =
    rw (take_all ctx.count ctx.array (omega arith), collect-routes grants msg ctx.array [] 0 all)
      (ap some
        (ap₂ {C = List ℕ × ℕ} (λ a n. (a, n)) refl (omega (arith, length-routes msg ctx.array))))

routes-append :
    (msg : Message) (fs gs : List Filter) → routes msg (fs ++ gs) ≡ routes msg fs ++ routes msg gs
routes-append msg [] gs = refl
routes-append msg (f ∷ fs) gs = ground (arith, routes-append msg fs gs)

-- Adding a filter to a valid context that has room succeeds and keeps it valid; from then on every
-- message is routed as before and, if the new filter takes it, to the new stream last. A full context
-- refuses the filter and stays as it is.
pub add_filter-routes :
    (ctx : Filters) (pid : ℕ) (as_index dpi_pid_index : ℤ) (msg : Message)
    → IsValid ctx
    → let new : Filter = record {
      pid = pid;
      as_index = as_index;
      dpi_pid_index = dpi_pid_index;
      message_count = 0;
    } in
      ((ctx' : Filters) × (add_filter (some ctx) pid as_index dpi_pid_index ≡ (pos 0, some ctx'))
        × IsValid ctx'
        × (ctx'.count ≡ ctx.count + 1)
        × (routes msg ctx'.array
            ≡ routes msg ctx.array ++ (if takes new msg then pid ∷ [] else [])))
      ⊎ ((ctx.count ≡ max_scte104_filters)
          × (add_filter (some ctx) pid as_index dpi_pid_index ≡ (negsuc 0, some ctx)))
unfolding add_filter
add_filter-routes ctx pid as_index dpi_pid_index msg v =
    let all = take_all ctx.count ctx.array (omega arith) in
    let new : Filter = record {
      pid = pid;
      as_index = as_index;
      dpi_pid_index = dpi_pid_index;
      message_count = 0;
    } in
    elim (Bool-cases (leb max_scte104_filters ctx.count)) [
      | inl full ↦ inr (ground arith, rw full)
      | inr room ↦ inl (
        record { count = ctx.count + 1; array = ctx.array ++ new ∷ [] },
        rw (room, all),
        record {
          stored = omega (arith, length-append ctx.array (new ∷ []));
          bounded = ground arith;
        },
        refl,
        routes-append msg ctx.array (new ∷ []),
      )
    ]
