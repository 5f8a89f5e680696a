-- ===== src/Timer/Tests.antt =====
-- The timer's theorems at concrete readings.
use c_teaching.Prelude.{◌-◌, ◌≡◌, some, refl, arith}
use c_teaching.Timer.{Timespec, Timer, diff, begin, end, get_nanoseconds}
use c_teaching.Timer.Laws.{nanos, get_nanoseconds-end-begin}

abbrev first : Timespec
first = record { tv_sec = 4; tv_nsec = 999999000 }

abbrev second : Timespec
second = record { tv_sec = 5; tv_nsec = 500 }

abbrev idle : Timer
idle = record { begin_time = first; end_time = first; elapsed = first }

-- The nanoseconds are borrowed from the seconds.
diff_borrows : diff first second ≡ record { tv_sec = 0; tv_nsec = 1500 }
unfolding diff
diff_borrows = refl

get_nanoseconds_example :
    get_nanoseconds (end second (begin first idle)) ≡ some (nanos second - nanos first)
get_nanoseconds_example =
    get_nanoseconds-end-begin first second idle (omega arith) (omega arith) (omega arith)
      (omega arith)
