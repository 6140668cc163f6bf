-- ===== src/Timeval/Tests.antt =====
-- Tests of the model of obe_timeval_subtract, and its theorems at concrete times.
use obe_rt.Base.{◌≡◌, refl, false, true, arith}
use obe_rt.Base.Int.{pos, negsuc, int_laws, ◌+ℤ◌, ◌-ℤ◌, scale, tdiv}
use obe_rt.Timeval.{
  Timeval, to_int32, carry_up, carry_down, carry, timeval_subtract, timediff_to_usecs,
}
use obe_rt.Timeval.Laws.{usecs-timeval_subtract}

abbrev before : Timeval
before = record { tv_sec = pos 10; tv_usec = pos 900000 }

abbrev after : Timeval
after = record { tv_sec = pos 12; tv_usec = pos 100000 }

difference :
    timeval_subtract after before ≡ (record { tv_sec = pos 1; tv_usec = pos 200000 }, false)
unfolding timeval_subtract carry carry_down carry_up to_int32 ◌+ℤ◌ ◌-ℤ◌ scale tdiv
difference = refl

-- The second test of the carry is strict, so a difference of a million microseconds stays one.
full_second :
    (timeval_subtract
      (record { tv_sec = pos 1; tv_usec = pos 1000000 })
      (record { tv_sec = pos 1; tv_usec = pos 0 })).0
    ≡ record { tv_sec = pos 0; tv_usec = pos 1000000 }
unfolding timeval_subtract carry carry_down carry_up to_int32 ◌+ℤ◌ ◌-ℤ◌ scale tdiv
full_second = refl

-- Without the bound on the microseconds the difference is wrong: 4000 seconds of them make the product
-- wrap, and the difference is -8294967296 microseconds where it should be -4000000000.
product_wraps :
    timeval_subtract
      (record { tv_sec = pos 0; tv_usec = pos 0 })
      (record { tv_sec = pos 0; tv_usec = pos 4000000000 })
    ≡ (record { tv_sec = negsuc 4000; tv_usec = negsuc 4293967295 }, true)
unfolding timeval_subtract carry carry_down carry_up to_int32 ◌+ℤ◌ ◌-ℤ◌ scale tdiv
product_wraps = refl

usecs-timeval_subtract_example :
    timediff_to_usecs (timeval_subtract after before).0
    ≡ timediff_to_usecs after -ℤ timediff_to_usecs before
usecs-timeval_subtract_example =
    usecs-timeval_subtract after before (omega arith) (omega arith) (omega int_laws)
