-- ===== src/Timeval.antt =====
-- Differences of wall-clock times: obe_timeval_subtract, obe_timediff_to_msecs and
-- obe_timediff_to_usecs of obe/obe.c, which encoders/video/sei-timestamp.c repeats word for word.
-- `int nsec` and the product `1000000 * nsec` wrap at 32 bits, as gcc compiles them. The fields have 64
-- bits and are integers without a width here: between the bounds of `InRange` no sum of them overflows.
pub mod Laws
mod Tests
use obe_rt.Base.{ℕ, ◌+◌, ◌-◌, ◌%◌, ◌^◌, Bool, if◌then◌else◌}
use obe_rt.Base.Int.{ℤ, pos, pos_part, neg_part, sub_ℕ, ◌+ℤ◌, ◌-ℤ◌, scale, tdiv, ltb_ℤ}

-- `struct timeval`
pub record Timeval : Type 0 where
  pub tv_sec : ℤ
  pub tv_usec : ℤ

-- An integer that is stored in an `int`: 32 bits in two's complement.
pub to_int32 : ℤ → ℤ
to_int32 a = sub_ℕ ((pos_part a + 2 ^ 31 + (2 ^ 32 - neg_part a % 2 ^ 32)) % 2 ^ 32) (2 ^ 31)

-- "Perform the carry for the later subtraction by updating y": the first test.
pub carry_up : Timeval → Timeval → Timeval
carry_up x y =
    let nsec = to_int32 (tdiv (y.tv_usec -ℤ x.tv_usec) 1000000 +ℤ pos 1) in
    if ltb_ℤ x.tv_usec y.tv_usec
    then record { tv_sec = y.tv_sec +ℤ nsec; tv_usec = y.tv_usec -ℤ to_int32 (scale 1000000 nsec) }
    else y

-- The second test.
pub carry_down : Timeval → Timeval → Timeval
carry_down x y =
    let nsec = to_int32 (tdiv (x.tv_usec -ℤ y.tv_usec) 1000000) in
    if ltb_ℤ (pos 1000000) (x.tv_usec -ℤ y.tv_usec)
    then record { tv_sec = y.tv_sec -ℤ nsec; tv_usec = y.tv_usec +ℤ to_int32 (scale 1000000 nsec) }
    else y

pub carry : Timeval → Timeval → Timeval
carry x y = carry_down x (carry_up x y)

-- `*result`, and whether the function returns 1.
pub timeval_subtract : Timeval → Timeval → Timeval × Bool
timeval_subtract x y =
    let y' = carry x y in
    (
      record { tv_sec = x.tv_sec -ℤ y'.tv_sec; tv_usec = x.tv_usec -ℤ y'.tv_usec },
      ltb_ℤ x.tv_sec y'.tv_sec,
    )

pub timediff_to_msecs : Timeval → ℤ
timediff_to_msecs t = scale 1000 t.tv_sec +ℤ tdiv t.tv_usec 1000

pub timediff_to_usecs : Timeval → ℤ
timediff_to_usecs t = scale 1000000 t.tv_sec +ℤ t.tv_usec
