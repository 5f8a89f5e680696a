-- ===== src/EchoLog/Inv/Callers.antt =====
-- A move of a thread in my_log keeps the invariant.
use c_teaching.Prelude.{
  ℕ, ◌+◌, ◌%◌, ◌≤◌, ◌<◌, ◌≡◌, refl, ap, ◌∙◌, sym, ◌≢◌, length, take, length-set, length-append,
  List, [], ◌∷◌, ◌++◌, arith, append-nil, ◌==◌, true, false,
}
use c_teaching.Threads.{
  update, update-cases, total, total-update, le-total, pair-le-total, total-add-le,
}
use c_teaching.Ring.{Holds, Holds-store, take-append_left}
use c_teaching.EchoLog.{
  line, storing_read, Shared, Caller, outside, storing, post_write, storing_write, Logger, Event,
  CallerMove, call, got_empty, got_write, store, load_write, store_write,
}
use c_teaching.EchoLog.Run.{lines, taken, to_log, lines_of, pending}
use c_teaching.EchoLog.Inv.Defs.{
  Inv, in_write, before_store, after_store, behind_write, before_take, after_take, Fits,
}

-- What a thread's semaphore call has found.
abbrev Guard :
    {me : ℕ} {m m' : Shared} {c c' : Caller} {e : Event} → CallerMove me m c e m' c' → Type 0
Guard {m} (got_empty h) = 0 < m.empty_count
Guard {m} (got_write h) = 0 < m.write_mutex
Guard _ = Unit

guard :
    {me : ℕ} {m m' : Shared} {c c' : Caller} {e : Event} (mv : CallerMove me m c e m' c') → Guard mv
guard (got_empty h) = h
guard (got_write h) = h
guard _ = tt

-- Inside write_mutex, with write_index up to date.
abbrev at_store : Caller → ℕ
at_store (storing _) = 1
at_store post_write = 1
at_store _ = 0

split : (c : Caller) → behind_write c + at_store c ≤ in_write c
split outside = omega arith
split c = omega arith

-- A move of another thread.
other-calls :
    {me : ℕ} {m m' : Shared} {c c' : Caller} {e : Event} (h : List Event)
    → CallerMove me m c e m' c'
    → (j : ℕ) → (j == me) ≡ false
    → (to_log j (e ∷ h) ≡ to_log j h) × (lines_of j (e ∷ h) ≡ lines_of j h)
other-calls h (call msg) j ne = rw ne (refl, refl)
other-calls h store j ne = rw ne (refl, refl)
other-calls h mv j ne = (refl, refl)

-- A move of this one.
own-calls :
    {me : ℕ} {m m' : Shared} {c c' : Caller} {e : Event} (h : List Event)
    → CallerMove me m c e m' c'
    → (me == me) ≡ true
    → to_log me h ≡ lines_of me h ++ pending c
    → to_log me (e ∷ h) ≡ lines_of me (e ∷ h) ++ pending c'
own-calls {me} h (call msg) e q =
    rw e (ap (λ l. l ++ line msg ∷ []) (q ∙ append-nil (lines_of me h)))
own-calls {me} h (store {tmp}) e q = rw e (q ∙ sym (append-nil (lines_of me h ++ tmp ∷ [])))
own-calls h mv e q = q

-- The logger's locals are about none of what a caller changes.
move-Fits :
    {me : ℕ} {m m' : Shared} {c c' : Caller} {e : Event} (lg : Logger)
    → CallerMove me m c e m' c'
    → Fits m lg
    → Fits m' lg
move-Fits (storing_read l r) (call msg) fits = fits
move-Fits (storing_read l r) store fits = fits
move-Fits (storing_read l r) mv fits = fits
move-Fits lg mv fits = fits

module _ {n : ℕ} {m : Shared} {cs : ℕ → Caller} {lg : Logger} {h : List Event}
    (inv : Inv n m cs lg h) (i : ℕ) (lt : i < n) where
  record Mover (c c' : Caller) : Type 0 where
    here : cs i ≡ c
    writers : total in_write n (update cs i c') + in_write c ≡ total in_write n cs + in_write c'
    befores :
        total before_store n (update cs i c') + before_store c
        ≡ total before_store n cs + before_store c'
    afters :
        total after_store n (update cs i c') + after_store c
        ≡ total after_store n cs + after_store c'
    behinds :
        total behind_write n (update cs i c') + behind_write c
        ≡ total behind_write n cs + behind_write c'
    own :
        (in_write c ≤ total in_write n cs)
        × (before_store c ≤ total before_store n cs)
        × (after_store c ≤ total after_store n cs)
        × (behind_write c ≤ total behind_write n cs)

  mover : (c' : Caller) → Mover (cs i) c'
  mover c' = record {
    here = refl;
    writers = total-update in_write n cs i c' lt;
    befores = total-update before_store n cs i c' lt;
    afters = total-update after_store n cs i c' lt;
    behinds = total-update behind_write n cs i c' lt;
    own = (
      le-total in_write n cs i lt,
      le-total before_store n cs i lt,
      le-total after_store n cs i lt,
      le-total behind_write n cs i lt,
    );
  }

  -- Another thread is not inside write_mutex while this one is.
  alone : (j : ℕ) → j < n → i ≢ j → in_write (cs i) ≡ 1 → in_write (cs j) ≡ 0
  alone j lj ne one = omega (arith, pair-le-total in_write n cs i j lt lj ne, inv.write_lock)

  -- The lock, the semaphores' counts, and the size of the buffer.
  move-counts :
      {c c' : Caller} {m' : Shared} {e : Event} → CallerMove i m c e m' c' → Mover c c' → record {
        write_lock : m'.write_mutex + total in_write n (update cs i c') ≡ 1;
        filled :
            m'.fill_count
              + before_take lg
              + length (taken (e ∷ h))
              + total after_store n (update cs i c')
            ≡ length (lines (e ∷ h));
        emptied :
            m'.empty_count
              + total before_store n (update cs i c')
              + length (lines (e ∷ h))
              + after_take lg
            ≡ 128 + length (taken (e ∷ h));
        size : length m'.log_buffer ≡ 128;
      }
  move-counts (store {tmp}) f = ground (
    arith,
    length-set m.log_buffer m.write_index tmp,
    length-append {A = List ℕ} (lines h) (tmp ∷ []),
  )
  move-counts mv f = ground (arith, guard mv)

  move-write_at :
      {c c' : Caller} {m' : Shared} {e : Event}
      → CallerMove i m c e m' c'
      → Mover c c'
      → (m'.write_index < 128)
        × ((m'.write_index + total behind_write n (update cs i c')) % 128
            ≡ length (lines (e ∷ h)) % 128)
  move-write_at (store {tmp}) f =
      omega (arith, inv.write_at, length-append {A = List ℕ} (lines h) (tmp ∷ []), inv.write_lock)
  move-write_at (store_write {w}) f =
      omega (arith, inv.write_at, inv.write_local i w lt f.here, f.behinds)
  move-write_at mv f = ground (arith, guard mv)

  move-write_local :
      {c c' : Caller} {m' : Shared} {e : Event}
      → CallerMove i m c e m' c'
      → Mover c c'
      → (j w : ℕ) → j < n
      → update cs i c' j ≡ storing_write w
      → w ≡ m'.write_index
  move-write_local load_write f j w lj q = ground (arith, inv.write_local j w)
  move-write_local (store_write {w = w'}) f j w lj q =
      ground (arith, inv.write_local j w, alone j lj)
  move-write_local mv f j w lj q = ground (arith, inv.write_local j w)

  move-data :
      {c c' : Caller} {m' : Shared} {e : Event}
      → CallerMove i m c e m' c'
      → Mover c c'
      → Holds [] m'.log_buffer (lines (e ∷ h)) (length (taken (e ∷ h)))
        × (taken (e ∷ h) ≡ take (length (taken (e ∷ h))) (lines (e ∷ h)))
  move-data (store {tmp}) f = (
    Holds-store [] m.log_buffer (lines h) (length (taken h)) m.write_index tmp inv.size
        (omega (arith, inv.write_at, alone_behind f.here)) (omega (arith, inv.emptied, f.own))
        inv.window,
    inv.fifo
        ∙ sym
            (take-append_left (length (taken h)) (lines h) (tmp ∷ []) (omega (arith, inv.filled))),
  )
    where
      alone_behind : cs i ≡ storing tmp → total behind_write n cs ≡ 0
      alone_behind e = omega (
        arith,
        le-total at_store n cs i lt,
        ap at_store e,
        total-add-le behind_write at_store in_write split n cs,
        inv.write_lock,
      )
  move-data mv f = (inv.window, inv.fifo)

  move-calls :
      {c c' : Caller} {m' : Shared} {e : Event}
      → CallerMove i m c e m' c'
      → Mover c c'
      → (j : ℕ) → j < n
      → to_log j (e ∷ h) ≡ lines_of j (e ∷ h) ++ pending (update cs i c' j)
  move-calls {c} {c'} {e} mv f =
      update-cases (λ j d. j < n → to_log j (e ∷ h) ≡ lines_of j (e ∷ h) ++ pending d) cs i c'
        (λ lj.
          own-calls h mv (ground arith)
            (inv.calls i lt ∙ ap (λ d. lines_of i h ++ pending d) f.here))
        (λ j ne lj.
          (other-calls h mv j ne).0
          ∙ inv.calls j lj
          ∙ ap (λ l. l ++ pending (cs j)) (sym (other-calls h mv j ne).1))

  -- The logger's side is as it was.
  move-rest :
      {c c' : Caller} {m' : Shared} {e : Event}
      → CallerMove i m c e m' c'
      → (m'.read_index ≡ m.read_index) × (m'.log ≡ m.log) × (taken (e ∷ h) ≡ taken h)
  move-rest (call msg) = (refl, refl, refl)
  move-rest store = (refl, refl, refl)
  move-rest mv = (refl, refl, refl)

  pub caller-Inv :
      {c' : Caller} {m' : Shared} {e : Event}
      → CallerMove i m (cs i) e m' c'
      → Inv n m' (update cs i c') lg (e ∷ h)
  caller-Inv {c'} {m'} {e} mv = record {
    write_lock = write_lock;
    filled = filled;
    emptied = emptied;
    size = size;
    write_at = move-write_at mv f;
    read_at = rw (rest.0, rest.2) inv.read_at;
    window = (move-data mv f).0;
    fifo = (move-data mv f).1;
    write_local = move-write_local mv f;
    fits = move-Fits lg mv inv.fits;
    file = rw (rest.1, rest.2) inv.file;
    calls = move-calls mv f;
  }
    where
      f : Mover (cs i) c'
      f = mover c'

      rest : (m'.read_index ≡ m.read_index) × (m'.log ≡ m.log) × (taken (e ∷ h) ≡ taken h)
      rest = move-rest mv

      open (move-counts mv f) use {write_lock, filled, emptied, size}
