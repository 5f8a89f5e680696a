-- ===== src/Timer.antt =====
-- lab02-performance-thread/performance.c: the timer of the performance labs.
mod Laws
mod Tests
use c_teaching.Prelude.{ℕ, ◌+◌, ◌-◌, ◌*◌, ◌/◌, ◌%◌, ◌^◌, ltb, Option, none, some, if◌then◌else◌}

-- `struct timespec`. The clock is monotonic and starts at 0, so both fields are at least 0.
pub record Timespec : Type 0 where
  pub tv_sec : ℕ
  pub tv_nsec : ℕ

-- `timer`
pub record Timer : Type 0 where
  pub begin_time : Timespec
  pub end_time : Timespec
  pub elapsed : Timespec

abbrev pub nanos_per_sec : ℕ
nanos_per_sec = 1000000000

-- `end.tv_nsec - start.tv_nsec < 0` is tested without a subtraction. The seconds are subtracted
-- first to last, as in the source; `Laws` shows that none of the results is negative.
unfoldable pub diff : Timespec → Timespec → Timespec
diff start end =
    if ltb end.tv_nsec start.tv_nsec
    then record {
      tv_sec = end.tv_sec - start.tv_sec - 1;
      tv_nsec = nanos_per_sec + end.tv_nsec - start.tv_nsec;
    }
    else record { tv_sec = end.tv_sec - start.tv_sec; tv_nsec = end.tv_nsec - start.tv_nsec }

-- What `clock_gettime` reads is the argument `now`.
unfoldable pub begin : Timespec → Timer → Timer
begin now t = record t { begin_time = now }

unfoldable pub end : Timespec → Timer → Timer
unfolding diff
end now t =
    let e = diff t.begin_time now in
    record { begin_time = t.begin_time; end_time = now; elapsed = e }

-- The sum is one of `long`, and becomes an `unsigned long int` when it is returned; C leaves it
-- undefined where it overflows, from 2^63 on, and then there is no result here.
unfoldable pub get_nanoseconds : Timer → Option ℕ
get_nanoseconds t =
    let nanoseconds = t.elapsed.tv_sec * nanos_per_sec + t.elapsed.tv_nsec in
    if ltb nanoseconds (2 ^ 63) then some nanoseconds else none

-- A getter has no result where get_nanoseconds() has none.
abbrev pub map_option : (ℕ → ℕ) → Option ℕ → Option ℕ
map_option f none = none
map_option f (some n) = some (f n)

-- The quotient is a whole number and `round` leaves it alone; the cast is to `unsigned int`.
unfoldable pub in_unsigned_int : ℕ → ℕ → ℕ
in_unsigned_int unit nanoseconds = nanoseconds / unit % 2 ^ 32

unfoldable pub get_microseconds : Timer → Option ℕ
unfolding get_nanoseconds in_unsigned_int
get_microseconds t = map_option (in_unsigned_int 1000) (get_nanoseconds t)

unfoldable pub get_milliseconds : Timer → Option ℕ
unfolding get_nanoseconds in_unsigned_int
get_milliseconds t = map_option (in_unsigned_int 1000000) (get_nanoseconds t)

unfoldable pub get_seconds : Timer → Option ℕ
unfolding get_nanoseconds in_unsigned_int
get_seconds t = map_option (in_unsigned_int 1000000000) (get_nanoseconds t)
