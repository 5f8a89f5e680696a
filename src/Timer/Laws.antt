-- ===== src/Timer/Laws.antt =====
-- What the timer of performance.c measures.
use c_teaching.Prelude.{refl, ℕ, ◌+◌, ◌-◌, ◌*◌, ◌^◌, ◌≤◌, ◌<◌, ◌≡◌, some, ltb, true, arith}
use c_teaching.Timer.{Timespec, Timer, nanos_per_sec, diff, begin, end, get_nanoseconds}

-- The point in time that a `struct timespec` stands for, in nanoseconds.
abbrev pub nanos : Timespec → ℕ
nanos t = t.tv_sec * nanos_per_sec + t.tv_nsec

-- What `clock_gettime` promises of each reading.
abbrev pub IsNormal : Timespec → Type 0
IsNormal t = t.tv_nsec < nanos_per_sec

-- For two normal readings in order, `diff` is normal and is the exact distance between them.
pub diff_exact :
    (s e : Timespec)
    → IsNormal s
    → IsNormal e
    → nanos s ≤ nanos e
    → IsNormal (diff s e) × (nanos s + nanos (diff s e) ≡ nanos e)
unfolding diff
diff_exact s e hs he h = ground arith

-- A timer that is started at one normal reading and stopped at a later one reports, in
-- nanoseconds, the exact time between the readings, if that is below 2^63 nanoseconds.
pub get_nanoseconds-end-begin :
    (s e : Timespec) (t : Timer)
    → IsNormal s
    → IsNormal e
    → nanos s ≤ nanos e
    → nanos e - nanos s < 2 ^ 63
    → get_nanoseconds (end e (begin s t)) ≡ some (nanos e - nanos s)
unfolding get_nanoseconds end begin
get_nanoseconds-end-begin s e t hs he h small = rw (exact, fits) refl
  where
    exact : (diff s e).tv_sec * nanos_per_sec + (diff s e).tv_nsec ≡ nanos e - nanos s
    exact = omega (arith, diff_exact s e hs he h)

    fits : ltb (nanos e - nanos s) (2 ^ 63) ≡ true
    fits = ground (arith, small)
