-- ===== src/Timeval/Laws.antt =====
-- The subtraction of times is exact where the carry fits its `int`.
use obe_rt.Base.{◌≡◌, refl, inl, inr, ◌≤◌, ◌^◌, arith}
use obe_rt.Base.Int.{
  ℤ, pos, negsuc, pos_part, neg_part, ◌+ℤ◌, ◌-ℤ◌, ◌≤ℤ◌, ◌<ℤ◌, scale, tdiv, int_laws, parts_of_eq,
  parts_cases, ltb_ℤ-cases,
}
use obe_rt.Timeval.{
  Timeval, to_int32, carry_up, carry_down, carry, timeval_subtract, timediff_to_msecs,
  timediff_to_usecs,
}

-- The seconds and the microseconds are at most 2 ^ 42 in size, about 139000 years of seconds: a million
-- times that and the sums of the code stay below 2 ^ 63.
abbrev pub InRange : Timeval → Type 0
InRange t =
    (pos_part t.tv_sec ≤ 2 ^ 42)
    × (neg_part t.tv_sec ≤ 2 ^ 42)
    × (pos_part t.tv_usec ≤ 2 ^ 42)
    × (neg_part t.tv_usec ≤ 2 ^ 42)

-- The microseconds differ by at most 2 ^ 31 - 1 - 1000000, so that the carry fits an `int`.
abbrev pub Near : Timeval → Timeval → Type 0
Near x y = (y.tv_usec -ℤ x.tv_usec ≤ℤ pos 2146483647) × (x.tv_usec -ℤ y.tv_usec ≤ℤ pos 2146483647)

to_int32_small : (a : ℤ) → pos 0 ≤ℤ a → a <ℤ pos 2147483648 → to_int32 a ≡ a
unfolding to_int32
to_int32_small (pos n) p q = ground arith
to_int32_small (negsuc n) p q = absurd (omega arith)

-- A difference of microseconds that is carried down, and one that is carried up.
nsec_down :
    (d : ℤ)
    → pos 0 ≤ℤ d
    → d ≤ℤ pos 2146483647
    → (to_int32 (tdiv d 1000000) ≡ tdiv d 1000000)
      × (to_int32 (scale 1000000 (tdiv d 1000000)) ≡ scale 1000000 (tdiv d 1000000))
nsec_down d p q =
    let one = parts_cases d in
    (
      to_int32_small _ (omega (int_laws, one)) (omega (int_laws, one)),
      to_int32_small _ (omega (int_laws, one)) (omega (int_laws, one)),
    )

nsec_up :
    (d : ℤ)
    → pos 0 ≤ℤ d
    → d ≤ℤ pos 2146483647
    → let n = tdiv d 1000000 +ℤ pos 1 in
      (to_int32 n ≡ n) × (to_int32 (scale 1000000 n) ≡ scale 1000000 n)
nsec_up d p q =
    let one = parts_cases d in
    (
      to_int32_small _ (omega (int_laws, one)) (omega (int_laws, one)),
      to_int32_small _ (omega (int_laws, one)) (omega (int_laws, one)),
    )

usecs-carry_up : (x y : Timeval) → Near x y → timediff_to_usecs (carry_up x y) ≡ timediff_to_usecs y
unfolding carry_up timediff_to_usecs
usecs-carry_up x y near = elim (ltb_ℤ-cases x.tv_usec y.tv_usec) [
  | inl (h, lt) ↦
      let (n, m) = nsec_up (y.tv_usec -ℤ x.tv_usec) (omega int_laws) near.0 in
      rw (h, n, m) (omega int_laws)
  | inr (h, le) ↦ rw h
]

usec-carry_up :
    (x y : Timeval)
    → Near x y
    → ((carry_up x y).tv_usec ≤ℤ x.tv_usec)
      × (x.tv_usec <ℤ y.tv_usec → x.tv_usec ≤ℤ (carry_up x y).tv_usec +ℤ pos 1000000)
      × (x.tv_usec -ℤ (carry_up x y).tv_usec ≤ℤ pos 2146483647)
unfolding carry_up
usec-carry_up x y near = elim (ltb_ℤ-cases x.tv_usec y.tv_usec) [
  | inl (h, lt) ↦
      let (n, m) = nsec_up (y.tv_usec -ℤ x.tv_usec) (omega int_laws) near.0 in
      rw (h, n, m) (omega (int_laws, parts_cases (y.tv_usec -ℤ x.tv_usec)))
  | inr (h, le) ↦ rw h (omega (int_laws, near))
]

usecs-carry_down :
    (x y : Timeval)
    → x.tv_usec -ℤ y.tv_usec ≤ℤ pos 2146483647
    → timediff_to_usecs (carry_down x y) ≡ timediff_to_usecs y
unfolding carry_down timediff_to_usecs
usecs-carry_down x y near = elim (ltb_ℤ-cases (pos 1000000) (x.tv_usec -ℤ y.tv_usec)) [
  | inl (h, lt) ↦
      let (n, m) = nsec_down (x.tv_usec -ℤ y.tv_usec) (omega int_laws) near in
      rw (h, n, m) (omega int_laws)
  | inr (h, le) ↦ rw h
]

usecs_lem : (t : Timeval) → timediff_to_usecs t ≡ scale 1000000 t.tv_sec +ℤ t.tv_usec
unfolding timediff_to_usecs
usecs_lem t = refl

-- The difference that is returned, in microseconds, is the difference of the two times in
-- microseconds, normalised or not, in either order: for times whose seconds and microseconds are at most
-- 2 ^ 42 in size and whose microseconds differ by at most 2146483647.
pub usecs-timeval_subtract :
    (x y : Timeval)
    → InRange x
    → InRange y
    → Near x y
    → timediff_to_usecs (timeval_subtract x y).0 ≡ timediff_to_usecs x -ℤ timediff_to_usecs y
unfolding timeval_subtract carry
usecs-timeval_subtract x y rx ry near = omega (
  int_laws,
  parts_of_eq (usecs-carry_down x (carry_up x y) (usec-carry_up x y near).2),
  parts_of_eq (usecs-carry_up x y near),
  parts_of_eq (usecs_lem (timeval_subtract x y).0),
  parts_of_eq (usecs_lem x),
  parts_of_eq (usecs_lem (carry x y)),
)

-- The microseconds of the difference are within a second, also of times that are not normalised.
usec-timeval_subtract :
    (x y : Timeval)
    → Near x y
    → (pos 0 ≤ℤ (timeval_subtract x y).0.tv_usec)
      × ((timeval_subtract x y).0.tv_usec ≤ℤ pos 1000000)
unfolding timeval_subtract carry carry_down
usec-timeval_subtract x y near =
    let d = x.tv_usec -ℤ (carry_up x y).tv_usec in
    let (below, up, close) = usec-carry_up x y near in
    elim (ltb_ℤ-cases (pos 1000000) d) [
      | inl (h, lt) ↦
          let (n, m) = nsec_down d (omega int_laws) close in
          rw (h, n, m) (omega (int_laws, below, parts_cases d))
      | inr (h, le) ↦ rw h (omega (int_laws, below))
    ]

-- In milliseconds the difference is rounded down: it is at most the true one, and less than a
-- millisecond below it. This holds for times, normalised or not and in either order, whose seconds and
-- microseconds are at most 2 ^ 42 in size and whose microseconds differ by at most 2146483647.
pub msecs-timeval_subtract :
    (x y : Timeval)
    → InRange x
    → InRange y
    → Near x y
    → let ms = timediff_to_msecs (timeval_subtract x y).0 in
      (scale 1000 ms ≤ℤ timediff_to_usecs x -ℤ timediff_to_usecs y)
      × (timediff_to_usecs x -ℤ timediff_to_usecs y <ℤ scale 1000 ms +ℤ pos 1000)
unfolding timediff_to_msecs
msecs-timeval_subtract x y rx ry near =
    let r = (timeval_subtract x y).0 in
    omega (
      int_laws,
      parts_of_eq (usecs-timeval_subtract x y rx ry near),
      parts_of_eq (usecs_lem r),
      usec-timeval_subtract x y near,
      parts_cases r.tv_usec,
    )
