-- ===== src/EchoLog/Progress.antt =====
-- The threads of echo_server_mt_logger.c never block each other for good.
use c_teaching.Prelude.{ℕ, ◌<◌, ◌≡◌, ◌⊎◌, inl, inr, refl, List, arith, dec_lt, ◌≢◌, ap}
use c_teaching.Threads.{total, total_pos, le-total}
use c_teaching.EchoLog.{
  Shared, Caller, outside, wait_empty, wait_write, storing, loading_write, storing_write,
  post_write, post_fill, Logger, wait_fill, taking, loading_read, storing_read, writing, post_empty,
  Event, CallerMove, LoggerMove, System,
}
use c_teaching.EchoLog.Run.{Reach}
use c_teaching.EchoLog.Inv.{
  Inv, Reach-Inv, in_write, before_store, after_store, before_take, after_take,
}

-- The thread is in my_log and not blocked.
abbrev pub CallerReady : ℕ → Shared → Caller → Type 0
CallerReady me m c =
    (c ≢ outside) × (e : Event) × (m' : Shared) × (c' : Caller) × CallerMove me m c e m' c'

abbrev pub LoggerReady : Shared → Logger → Type 0
LoggerReady m c = (e : Event) × (m' : Shared) × (c' : Logger) × LoggerMove m c e m' c'

ready_in_write : (me : ℕ) (m : Shared) (c : Caller) → 0 < in_write c → CallerReady me m c
ready_in_write me m (storing tmp) h = (λ e. cc, _, _, _, CallerMove.store)
ready_in_write me m loading_write h = (λ e. cc, _, _, _, CallerMove.load_write)
ready_in_write me m (storing_write w) h = (λ e. cc, _, _, _, CallerMove.store_write)
ready_in_write me m post_write h = (λ e. cc, _, _, _, CallerMove.put_write)
ready_in_write me m c h = absurd (omega arith)

ready_after_store : (me : ℕ) (m : Shared) (c : Caller) → 0 < after_store c → CallerReady me m c
ready_after_store me m post_fill h = (λ e. cc, _, _, _, CallerMove.put_fill)
ready_after_store me m loading_write h = (λ e. cc, _, _, _, CallerMove.load_write)
ready_after_store me m (storing_write w) h = (λ e. cc, _, _, _, CallerMove.store_write)
ready_after_store me m post_write h = (λ e. cc, _, _, _, CallerMove.put_write)
ready_after_store me m c h = absurd (omega arith)

ready_before_store :
    (me : ℕ) (m : Shared) (c : Caller) → 0 < before_store c → 0 < m.write_mutex → CallerReady me m c
ready_before_store me m (wait_write tmp) h free = (λ e. cc, _, _, _, CallerMove.got_write free)
ready_before_store me m (storing tmp) h free = (λ e. cc, _, _, _, CallerMove.store)
ready_before_store me m c h free = absurd (omega arith)

-- In my_log, before its semaphore has given a slot.
abbrev waits_empty : Caller → ℕ
waits_empty (wait_empty tmp) = 1
waits_empty _ = 0

ready_waits_empty :
    (me : ℕ) (m : Shared) (c : Caller) → 0 < waits_empty c → 0 < m.empty_count → CallerReady me m c
ready_waits_empty me m (wait_empty tmp) h free = (λ e. cc, _, _, _, CallerMove.got_empty free)
ready_waits_empty me m c h free = absurd (omega arith)

-- The logger moves, or waits for a line.
logger-cases : (m : Shared) (c : Logger) → LoggerReady m c ⊎ ((c ≡ wait_fill) × (m.fill_count ≡ 0))
logger-cases m wait_fill = elim (dec_lt 0 m.fill_count) [
  | yes p ↦ inl (_, _, _, LoggerMove.got_fill p)
  | no p ↦ inr (refl, omega arith)
]
logger-cases m taking = inl (_, _, _, LoggerMove.take_line)
logger-cases m (loading_read l) = inl (_, _, _, LoggerMove.load_read)
logger-cases m (storing_read l r) = inl (_, _, _, LoggerMove.store_read)
logger-cases m (writing l w left) = inl (_, _, _, LoggerMove.wrote 0 (omega arith))
logger-cases m post_empty = inl (_, _, _, LoggerMove.put_empty)

-- Outside my_log, if it is at none of the places that count.
is_outside : (c : Caller) → before_store c ≡ 0 → after_store c ≡ 0 → waits_empty c ≡ 0 → c ≡ outside
is_outside outside b a w = refl
is_outside c b a w = absurd (omega arith)

abbrev pub SomeReady : ℕ → System → Type 0
SomeReady n s = ((i : ℕ) × (i < n) × CallerReady i s.mem (s.callers i)) ⊎ LoggerReady s.mem s.logger

-- Nobody has anything to do: the logger waits for the next call of my_log.
abbrev pub Idle : ℕ → System → Type 0
Idle n s =
    ((i : ℕ) → i < n → s.callers i ≡ outside) × (s.logger ≡ wait_fill) × (s.mem.fill_count ≡ 0)

module _ {n : ℕ} (s : System) {h : List Event} (inv : Inv n s.mem s.callers s.logger h) where
  open inv use {write_lock, filled, emptied}

  caller_with :
      (w : Caller → ℕ)
      → ((i : ℕ) (c : Caller) → 0 < w c → CallerReady i s.mem c)
      → 0 < total w n s.callers
      → SomeReady n s
  caller_with w ready some_one =
      let (i, lt, at) = total_pos w n s.callers some_one in inl (i, lt, ready i (s.callers i) at)

  -- While the logger waits, a thread in my_log moves, or there is none.
  callers_progress : s.logger ≡ wait_fill → s.mem.fill_count ≡ 0 → SomeReady n s ⊎ Idle n s
  callers_progress waits none = elim (dec_lt 0 (total after_store n s.callers)) [
    | yes a ↦ inl (caller_with after_store (λ i c. ready_after_store i s.mem c) a)
    | no a ↦ elim (dec_lt 0 (total in_write n s.callers)) [
      | yes w ↦ inl (caller_with in_write (λ i c. ready_in_write i s.mem c) w)
      | no w ↦ elim (dec_lt 0 (total before_store n s.callers)) [
        | yes b ↦ inl (
            caller_with before_store
              (λ i c at. ready_before_store i s.mem c at (omega (arith, write_lock))) b)
        | no b ↦ elim (dec_lt 0 (total waits_empty n s.callers)) [
          | yes t ↦ inl (
              caller_with waits_empty
                (λ i c at.
                  ready_waits_empty i s.mem c at
                    (omega (arith, emptied, filled, ap before_take waits, ap after_take waits)))
                t)
          | no t ↦ inr (
            λ i lt.
                is_outside (s.callers i) (omega (arith, le-total before_store n s.callers i lt))
                  (omega (arith, le-total after_store n s.callers i lt))
                  (omega (arith, le-total waits_empty n s.callers i lt)),
            waits,
            none,
          )
        ]
      ]
    ]
  ]

-- In every reachable state some thread in my_log or the logger is not blocked on a semaphore, or
-- no thread is in my_log and the logger waits for a call with nothing left to write.
pub log_progress : {n : ℕ} {s : System} {h : List Event} → Reach n s h → SomeReady n s ⊎ Idle n s
log_progress {s} r = elim (logger-cases s.mem s.logger) [
  | inl ready ↦ inl (inr ready)
  | inr stuck ↦ callers_progress s (Reach-Inv r) stuck.0 stuck.1
]
