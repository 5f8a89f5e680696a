-- ===== src/EchoLog.antt =====
-- lab11-echoserver-process-thread/ES-MT-Logger/echo_server_mt_logger.c: the threads that call
-- my_log, and the thread that writes their lines to the log file.
pub mod Run
pub mod Handler
pub mod Server
mod Inv
mod Safety
mod Progress
mod Tests
use c_teaching.Prelude.{
  ℕ, ◌+◌, ◌-◌, ◌%◌, ◌<◌, ◌≤◌, ltb, if◌then◌else◌, length, get_or, set, take, drop, replicate, List,
  [], ◌∷◌, ◌++◌, Bool, false,
}

abbrev pub log_buffer_size : ℕ
log_buffer_size = 128

-- The globals of the program. A semaphore is its value, a C string its bytes before the
-- terminator. `log` is what has been appended to the log file.
pub record Shared : Type 0 where
  pub log_buffer : List (List ℕ)
  pub fill_count : ℕ
  pub empty_count : ℕ
  pub write_mutex : ℕ
  pub read_index : ℕ
  pub write_index : ℕ
  pub log : List ℕ

-- What main() leaves in them before it creates the logger; a null pointer is [].
abbrev pub init_shared : Shared
init_shared = record {
  log_buffer = replicate log_buffer_size [];
  fill_count = 0;
  empty_count = log_buffer_size;
  write_mutex = 1;
  read_index = 0;
  write_index = 0;
  log = [];
}

-- `sprintf(tmp, "%s\n", msg)`
abbrev pub line : List ℕ → List ℕ
line msg = msg ++ 10 ∷ []

-- Where a thread stands in my_log, with the locals that are live there.
pub data Caller : Type 0 where
  outside : Caller
  wait_empty : (tmp : List ℕ) → Caller
  wait_write : (tmp : List ℕ) → Caller
  storing : (tmp : List ℕ) → Caller
  loading_write : Caller
  storing_write : (w : ℕ) → Caller
  post_write : Caller
  post_fill : Caller

-- Where the logger stands.
pub data Logger : Type 0 where
  wait_fill : Logger
  taking : Logger
  loading_read : (log_msg : List ℕ) → Logger
  storing_read : (log_msg : List ℕ) (r : ℕ) → Logger
  writing : (log_msg : List ℕ) (written_bytes bytes_left : ℕ) → Logger
  post_empty : Logger

-- What a move does, for the record of a run.
pub data Event : Type 0 where
  silent : Event
  called : (me : ℕ) (msg : List ℕ) → Event
  stored : (me : ℕ) (tmp : List ℕ) → Event
  took : List ℕ → Event

-- my_log in the thread `me`: a call with the message `msg` is a way from `outside` back to it.
pub data CallerMove (me : ℕ) (m : Shared) : Caller → Event → Shared → Caller → Type 0 where
  call : (msg : List ℕ) → CallerMove me m outside (called me msg) m (wait_empty (line msg))
  got_empty :
      {tmp : List ℕ}
      → 0 < m.empty_count
      → CallerMove me m
          (wait_empty tmp)
          silent
          (record m { empty_count = m.empty_count - 1 })
          (wait_write tmp)
  got_write :
      {tmp : List ℕ}
      → 0 < m.write_mutex
      → CallerMove me m
          (wait_write tmp)
          silent
          (record m { write_mutex = m.write_mutex - 1 })
          (storing tmp)
  store :
      {tmp : List ℕ}
      → CallerMove me m
          (storing tmp)
          (stored me tmp)
          (record m { log_buffer = set m.log_buffer m.write_index tmp })
          loading_write
  load_write : CallerMove me m loading_write silent m (storing_write m.write_index)
  store_write :
      {w : ℕ}
      → CallerMove me m
          (storing_write w)
          silent
          (record m { write_index = (w + 1) % log_buffer_size })
          post_write
  put_write :
      CallerMove me m post_write silent (record m { write_mutex = m.write_mutex + 1 }) post_fill
  put_fill : CallerMove me m post_fill silent (record m { fill_count = m.fill_count + 1 }) outside

-- `while (bytes_left > 0)`
abbrev pub write_loop : List ℕ → ℕ → ℕ → Logger
write_loop log_msg written left = if ltb 0 left then writing log_msg written left else post_empty

-- logger: one round of its loop is a way from `wait_fill` back to it.
pub data LoggerMove (m : Shared) : Logger → Event → Shared → Logger → Type 0 where
  got_fill :
      0 < m.fill_count
      → LoggerMove m wait_fill silent (record m { fill_count = m.fill_count - 1 }) taking
  take_line :
      LoggerMove m taking
        (took (get_or m.log_buffer m.read_index []))
        m
        (loading_read (get_or m.log_buffer m.read_index []))
  load_read : {l : List ℕ} → LoggerMove m (loading_read l) silent m (storing_read l m.read_index)
  store_read :
      {l : List ℕ} {r : ℕ}
      → LoggerMove m
          (storing_read l r)
          silent
          (record m { read_index = (r + 1) % log_buffer_size })
          (write_loop l 0 (length l))
  wrote :
      {l : List ℕ} {written left : ℕ} (n : ℕ)
      → n ≤ left
      → LoggerMove m
          (writing l written left)
          silent
          (record m { log = m.log ++ take n (drop written l) })
          (write_loop l (written + n) (left - n))
  write_interrupted :
      {l : List ℕ} {written left : ℕ}
      → LoggerMove m (writing l written left) silent m (writing l written left)
  put_empty :
      LoggerMove m post_empty silent (record m { empty_count = m.empty_count + 1 }) wait_fill

-- The process: what its threads share, where each stands, and whether exit() has ended it.
pub record System : Type 0 where
  pub mem : Shared
  pub callers : ℕ → Caller
  pub logger : Logger
  pub exited : Bool

abbrev pub init : System
init = record { mem = init_shared; callers = λ _. outside; logger = wait_fill; exited = false }
