-- ===== src/Obe/Clock.antt =====
-- The input clock of obe/obe.c, in ticks of 27 MHz. Times of the host are `struct timespec`s since its
-- start, so never negative.
use obe_rt.Base.{ℕ, ◌+◌, ◌-◌, ◌*◌, ◌/◌, ◌%◌, ◌≤◌, ◌<◌, ◌≡◌, arith}
use obe_rt.Base.Int.{ℤ, pos, ◌+ℤ◌, ◌-ℤ◌, eq_of_parts, parts_of_eq, int_laws}

-- `struct timespec`
pub record Timespec : Type 0 where
  pub tv_sec : ℕ
  pub tv_nsec : ℕ

-- `get_wallclock_in_mpeg_ticks`, of the time that `clock_gettime` gives.
pub wallclock_in_mpeg_ticks : Timespec → ℕ
wallclock_in_mpeg_ticks ts = ts.tv_sec * 27000000 + ts.tv_nsec * 27 / 1000

-- The time that `sleep_mpeg_ticks` sleeps until.
pub sleep_mpeg_ticks : ℕ → Timespec
sleep_mpeg_ticks i_time = record {
  tv_sec = i_time / 27000000;
  tv_nsec = i_time % 27000000 * 1000 / 27;
}

-- The fields of `obe_t` behind `obe_clock_mutex`.
pub record InputClock : Type 0 where
  pub last_pts : ℤ
  pub last_wallclock : ℤ

pub obe_clock_tick : InputClock → ℤ → Timespec → InputClock
obe_clock_tick h value now = record {
  last_pts = value;
  last_wallclock = pos (wallclock_in_mpeg_ticks now);
}

pub get_input_clock_in_mpeg_ticks : InputClock → Timespec → ℤ
get_input_clock_in_mpeg_ticks h now =
    h.last_pts +ℤ (pos (wallclock_in_mpeg_ticks now) -ℤ h.last_wallclock)

-- The argument that `sleep_input_clock` passes to `sleep_mpeg_ticks`.
unfoldable pub sleep_input_clock : InputClock → ℤ → ℤ
sleep_input_clock h i_time = (i_time -ℤ h.last_pts) +ℤ h.last_wallclock

-- The time that a sleep ends at is a proper one, and on the clock of ticks it is the time that was asked
-- for or one tick before it.
pub wallclock_in_mpeg_ticks-sleep_mpeg_ticks :
    (t : ℕ)
    → ((sleep_mpeg_ticks t).tv_nsec < 1000000000)
      × (wallclock_in_mpeg_ticks (sleep_mpeg_ticks t) ≤ t)
      × (t ≤ wallclock_in_mpeg_ticks (sleep_mpeg_ticks t) + 1)
unfolding wallclock_in_mpeg_ticks sleep_mpeg_ticks
wallclock_in_mpeg_ticks-sleep_mpeg_ticks t = (omega arith, omega arith, omega arith)

-- The input clock goes on from the last tick at the pace of the host's clock: at the tick it reads the
-- tick's value, whatever it was before, and between two readings with no tick it gains the ticks that
-- the host's clock gains.
pub get_input_clock_in_mpeg_ticks-obe_clock_tick :
    (h : InputClock) (value : ℤ) (now later : Timespec)
    → (get_input_clock_in_mpeg_ticks (obe_clock_tick h value now) now ≡ value)
      × (get_input_clock_in_mpeg_ticks (obe_clock_tick h value now) later
          ≡ value +ℤ (pos (wallclock_in_mpeg_ticks later) -ℤ pos (wallclock_in_mpeg_ticks now)))
unfolding get_input_clock_in_mpeg_ticks obe_clock_tick
get_input_clock_in_mpeg_ticks-obe_clock_tick h value now later =
    (eq_of_parts _ _ (omega int_laws), eq_of_parts _ _ (omega int_laws))

-- A sleep on the input clock ends when that clock reads the time asked for, or one tick before it, if no
-- tick comes meanwhile: for every time whose place on the host's clock is not negative.
pub sleep_input_clock_wakes :
    (h : InputClock) (i_time : ℤ) (t : ℕ)
    → sleep_input_clock h i_time ≡ pos t
    → (late : ℕ) × (late ≤ 1)
      × (get_input_clock_in_mpeg_ticks h (sleep_mpeg_ticks t) +ℤ pos late ≡ i_time)
unfolding sleep_input_clock get_input_clock_in_mpeg_ticks
sleep_input_clock_wakes h i_time t e =
    let w : ℕ = wallclock_in_mpeg_ticks (sleep_mpeg_ticks t) in
    let (_, before, near) = wallclock_in_mpeg_ticks-sleep_mpeg_ticks t in
    (t - w, omega arith, eq_of_parts _ _ (omega (int_laws, before, near, parts_of_eq e)))
