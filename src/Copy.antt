-- ===== src/Copy.antt =====
-- lab06-cpoy+timeserver/copy/copy.c: a file is copied block by block.
pub mod Run
mod Correct
mod Terminates
mod Main
mod Tests
use c_teaching.Prelude.{
  ℕ, ◌+◌, ◌-◌, ltb, ◌==◌, ◌||◌, if◌then◌else◌, length, take, drop, Bool, true, false, List, [],
  ◌++◌,
}
use c_teaching.Prelude.Int.{ℤ, pos, negsuc, ltb_ℤ}
use c_teaching.Sys.{eintr, eexist, Answer, ok, fail, Opened, opened, refused}

-- Where performCopyBetweenDescriptors stands: before its read() or its write(), with the locals of
-- the loop, or after it. `failed` is the exit() of ERROR_HELPER. The call of FD_ERROR_HELPER, which
-- no header defines, is read as ERROR_HELPER.
pub data Pc : Type 0 where
  reading : (bytes_left : ℕ) → Pc
  writing : (written_bytes bytes_left : ℕ) → Pc
  finished : Pc
  failed : Pc

pub record State : Type 0 where
  pub block_size : ℕ
  pub source : List ℕ  -- what is left to read of the source file
  pub buf : List ℕ  -- the first read_bytes bytes of the buffer
  pub dest : List ℕ  -- what has been written to the destination
  pub old : List ℕ  -- what the destination held when it was opened

-- `while (1)`: a new block.
abbrev pub start_block : State → State × Pc
start_block s = (record s { buf = [] }, reading s.block_size)

-- The inner loop over read() has ended.
abbrev pub end_reading : State → State × Pc
end_reading s = if length s.buf == 0 then (s, finished) else (s, writing 0 (length s.buf))

abbrev pub read_bytes : State → ℕ → State
read_bytes s n = record s { source = drop n s.source; buf = s.buf ++ take n s.source }

abbrev pub write_bytes : State → ℕ → ℕ → State
write_bytes s written n = record s { dest = s.dest ++ take n (drop written s.buf) }

-- From a call, with its answer, to the next call.
pub step : State → Pc → Answer → State × Pc
step s (reading left) (fail eintr) = (s, reading left)
step s (reading left) (fail e) = (s, failed)
step s (reading left) (ok n) =
    let more = read_bytes s n in
    if n == 0
    then end_reading s
    else if ltb n left
    then (more, reading (left - n))
    else end_reading more
step s (writing written left) (fail eintr) = (s, writing written left)
step s (writing written left) (fail e) = (s, failed)
step s (writing written left) (ok n) =
    let more = write_bytes s written n in
    if ltb n left then (more, writing (written + n) (left - n)) else start_block more
step s finished a = (s, finished)
step s failed a = (s, failed)

-- How main() ends before the copy: the syntax message, a failed open(), or the copy itself, which
-- begins before a read() of a whole block.
pub data Start : Type 0 where
  syntax : Start
  cannot_open : Start
  copy : (warned : Bool) → State → Start

abbrev pub to_size : ℤ → ℕ
to_size (pos n) = n
to_size (negsuc n) = 0

-- The copy about to begin: block size, content of the source, what the destination holds.
abbrev pub fresh : ℕ → List ℕ → List ℕ → State
fresh size content held = record {
  block_size = size;
  source = content;
  buf = [];
  dest = [];
  old = held;
}

-- main() up to the call of performCopyBetweenDescriptors. `block` is what atoi() makes of argv[3];
-- `first` and `second` answer the two open() calls on the destination, the second one being made
-- only if the first has found the file; `content` and `old` are what the two files hold.
pub main_start : ℕ → ℤ → Opened → Opened → Opened → List ℕ → List ℕ → Start
main_start argc block src first second content old =
    let size = if argc == 4 then block else pos 128 in
    if ltb argc 3 || ltb 4 argc || ltb_ℤ size (pos 1) then syntax else elim src [
      | refused _ ↦ cannot_open
      | opened ↦ elim first [
        | opened ↦ copy false (fresh (to_size size) content [])
        | refused eexist ↦ elim second [
          | opened ↦ copy true (fresh (to_size size) content old)
          | refused _ ↦ cannot_open
        ]
        | refused _ ↦ cannot_open
      ]
    ]

-- The destination file: the bytes that have been written stand over the first ones that it held,
-- since neither open() truncates it.
abbrev pub file_after : State → List ℕ
file_after s = s.dest ++ drop (length s.dest) s.old
