-- ===== src/EchoLog/Inv/Logger.antt =====
-- A move of the logger keeps the invariant.
use c_teaching.Prelude.{
  join, join-snoc, ℕ, suc, ◌+◌, ◌-◌, ◌%◌, ◌<◌, ◌≡◌, refl, ap, subst, ◌∙◌, sym, length, get_or, take,
  drop, length-append, List, [], ◌∷◌, ◌++◌, arith, append-nil, append_assoc, Bool-cases, inl, inr,
  ltb, take-append-drop, drop-add, drop-all, drop-zero,
}
use c_teaching.Threads.{total}
use c_teaching.Ring.{Holds, Holds-take, take-suc}
use c_teaching.EchoLog.{
  Shared, Caller, Logger, taking, writing, Event, LoggerMove, got_fill, take_line, load_read,
  store_read, wrote, write_interrupted, put_empty, write_loop,
}
use c_teaching.EchoLog.Run.{lines, taken, to_log, lines_of, pending, rest}
use c_teaching.EchoLog.Inv.Defs.{
  Inv, before_store, after_store, before_take, after_take, behind_read, Fits,
}

-- What the logger's semaphore call has found.
abbrev Guard : {m m' : Shared} {c c' : Logger} {e : Event} → LoggerMove m c e m' c' → Type 0
Guard {m} (got_fill h) = 0 < m.fill_count
Guard _ = Unit

guard : {m m' : Shared} {c c' : Logger} {e : Event} (mv : LoggerMove m c e m' c') → Guard mv
guard (got_fill h) = h
guard _ = tt

-- The write loop goes on exactly with what is left.
record Loop (m : Shared) (l : List ℕ) (written : ℕ) (lg : Logger) : Type 0 where
  counts : (before_take lg ≡ 0) × (after_take lg ≡ 1) × (behind_read lg ≡ 0)
  fits : Fits m lg
  left : rest lg ≡ drop written l

loop :
    (m : Shared) (l : List ℕ) (written left : ℕ)
    → written + left ≡ length l
    → Loop m l written (write_loop l written left)
loop m l written left h = elim (Bool-cases (ltb 0 left)) [
  | inl more ↦ rw more (record { counts = (refl, refl, refl); fits = h; left = refl })
  | inr done ↦ rw done (record {
    counts = (refl, refl, refl);
    fits = tt;
    left = sym (drop-all written l (ground arith));
  })
]

module _ {n : ℕ} {m : Shared} {cs : ℕ → Caller} {lg : Logger} {h : List Event}
    (inv : Inv n m cs lg h) where
  -- The line that is read is the oldest one that is not taken.
  item :
      lg ≡ taking
      → (length (taken h) < length (lines h))
        × (get_or m.log_buffer m.read_index [] ≡ get_or (lines h) (length (taken h)) [])
  item e = (
    more,
    ap (λ r. get_or m.log_buffer r []) at ∙ inv.window (length (taken h)) (omega arith) more,
  )
    where
      more : length (taken h) < length (lines h)
      more = omega (arith, inv.filled, ap before_take e)

      at : m.read_index ≡ length (taken h) % 128
      at = omega (arith, inv.read_at, ap behind_read e)

  -- A write() appends to the file what it takes from the line.
  written-file :
      {l : List ℕ} {w left : ℕ} (k : ℕ)
      → lg ≡ writing l w left
      → (m.log ++ take k (drop w l)) ++ drop (w + k) l ≡ join (taken h)
  written-file {l} {w} {left} k e =
      append_assoc m.log (take k (drop w l)) (drop (w + k) l)
      ∙ ap (λ r. m.log ++ r)
          (ap (λ r. take k (drop w l) ++ r) (sym (drop-add w k l)) ∙ take-append-drop k (drop w l))
      ∙ ap (λ c. m.log ++ rest c) (sym e)
      ∙ inv.file

  record Moved (m' : Shared) (lg' : Logger) (e : Event) : Type 0 where
    filled :
        m'.fill_count + before_take lg' + length (taken (e ∷ h)) + total after_store n cs
        ≡ length (lines (e ∷ h))
    emptied :
        m'.empty_count + total before_store n cs + length (lines (e ∷ h)) + after_take lg'
        ≡ 128 + length (taken (e ∷ h))
    read_at :
        (m'.read_index < 128)
        × ((m'.read_index + behind_read lg') % 128 ≡ length (taken (e ∷ h)) % 128)
    window : Holds [] m'.log_buffer (lines (e ∷ h)) (length (taken (e ∷ h)))
    fifo : taken (e ∷ h) ≡ take (length (taken (e ∷ h))) (lines (e ∷ h))
    fits : Fits m' lg'
    file : m'.log ++ rest lg' ≡ join (taken (e ∷ h))

  moved :
      {c c' : Logger} {m' : Shared} {e : Event} → LoggerMove m c e m' c' → lg ≡ c → Moved m' c' e
  moved (got_fill some) e = record {
    filled = omega (arith, inv.filled, ap before_take e, some);
    emptied = omega (arith, inv.emptied, ap after_take e);
    read_at = omega (arith, inv.read_at, ap behind_read e);
    window = inv.window;
    fifo = inv.fifo;
    fits = tt;
    file = ap (λ c. m.log ++ rest c) (sym e) ∙ inv.file;
  }
  moved take_line e = record {
    filled = omega (arith, inv.filled, ap before_take e, grown);
    emptied = omega (arith, inv.emptied, ap after_take e, grown);
    read_at = omega (arith, inv.read_at, ap behind_read e, grown);
    window =
        Holds-take [] m.log_buffer (lines h) (length (taken h)) _ (omega (arith, grown)) inv.window;
    fifo =
        rw (grown, (item e).1)
          (ap (λ l. l ++ get_or (lines h) (length (taken h)) [] ∷ []) inv.fifo
            ∙ sym (take-suc (length (taken h)) (lines h) [] (item e).0));
    fits = tt;
    file =
        ap (λ l. l ++ top) (sym (append-nil m.log) ∙ ap (λ c. m.log ++ rest c) (sym e) ∙ inv.file)
        ∙ sym (join-snoc (taken h) top);
  }
    where
      top : List ℕ
      top = get_or m.log_buffer m.read_index []

      grown : length (taken h ++ get_or m.log_buffer m.read_index [] ∷ []) ≡ suc (length (taken h))
      grown =
          omega
            (arith, length-append {A = List ℕ} (taken h) (get_or m.log_buffer m.read_index [] ∷ []))
  moved load_read e = record {
    filled = omega (arith, inv.filled, ap before_take e);
    emptied = omega (arith, inv.emptied, ap after_take e);
    read_at = omega (arith, inv.read_at, ap behind_read e);
    window = inv.window;
    fifo = inv.fifo;
    fits = refl;
    file = ap (λ c. m.log ++ rest c) (sym e) ∙ inv.file;
  }
  moved (store_read {l} {r}) e = record {
    filled = omega (arith, inv.filled, ap before_take e, on.counts);
    emptied = omega (arith, inv.emptied, ap after_take e, on.counts);
    read_at = omega (arith, inv.read_at, ap behind_read e, on.counts, subst (Fits m) e inv.fits);
    window = inv.window;
    fifo = inv.fifo;
    fits = on.fits;
    file =
        ap (λ r. m.log ++ r) (on.left ∙ drop-zero l) ∙ ap (λ c. m.log ++ rest c) (sym e) ∙ inv.file;
  }
    where
      on : Loop (record m { read_index = (r + 1) % 128 }) l 0 (write_loop l 0 (length l))
      on = loop _ l 0 (length l) (omega arith)
  moved (wrote {l} {written = w} {left} k le) e = record {
    filled = omega (arith, inv.filled, ap before_take e, on.counts);
    emptied = omega (arith, inv.emptied, ap after_take e, on.counts);
    read_at = omega (arith, inv.read_at, ap behind_read e, on.counts);
    window = inv.window;
    fifo = inv.fifo;
    fits = on.fits;
    file = ap (λ r. (m.log ++ take k (drop w l)) ++ r) on.left ∙ written-file k e;
  }
    where
      at : w + left ≡ length l
      at = subst (Fits m) e inv.fits

      on :
          Loop
            (record m { log = m.log ++ take k (drop w l) })
            l
            (w + k)
            (write_loop l (w + k) (left - k))
      on = loop _ l (w + k) (left - k) (omega (arith, at, le))
  moved write_interrupted e = record {
    filled = omega (arith, inv.filled, ap before_take e);
    emptied = omega (arith, inv.emptied, ap after_take e);
    read_at = omega (arith, inv.read_at, ap behind_read e);
    window = inv.window;
    fifo = inv.fifo;
    fits = subst (Fits m) e inv.fits;
    file = ap (λ c. m.log ++ rest c) (sym e) ∙ inv.file;
  }
  moved put_empty e = record {
    filled = omega (arith, inv.filled, ap before_take e);
    emptied = omega (arith, inv.emptied, ap after_take e);
    read_at = omega (arith, inv.read_at, ap behind_read e);
    window = inv.window;
    fifo = inv.fifo;
    fits = tt;
    file = ap (λ c. m.log ++ rest c) (sym e) ∙ inv.file;
  }

  -- The callers' side is as it was.
  move-others :
      {c c' : Logger} {m' : Shared} {e : Event}
      → LoggerMove m c e m' c'
      → (m'.write_mutex ≡ m.write_mutex)
        × (m'.write_index ≡ m.write_index)
        × (m'.log_buffer ≡ m.log_buffer)
        × (lines (e ∷ h) ≡ lines h)
        × ((i : ℕ) → (to_log i (e ∷ h) ≡ to_log i h) × (lines_of i (e ∷ h) ≡ lines_of i h))
  move-others take_line = (refl, refl, refl, refl, λ i. (refl, refl))
  move-others mv = (refl, refl, refl, refl, λ i. (refl, refl))

  pub logger-Inv :
      {lg' : Logger} {m' : Shared} {e : Event} → LoggerMove m lg e m' lg' → Inv n m' cs lg' (e ∷ h)
  logger-Inv {lg'} {m'} {e} mv = record {
    write_lock = rw (others.0) inv.write_lock;
    filled = on.filled;
    emptied = on.emptied;
    size = rw (others.2) inv.size;
    write_at = rw (others.1, others.3) inv.write_at;
    read_at = on.read_at;
    window = on.window;
    fifo = on.fifo;
    write_local = λ i w li q. inv.write_local i w li q ∙ sym others.1;
    fits = on.fits;
    file = on.file;
    calls = λ i li.
        (others.4 i).0 ∙ inv.calls i li ∙ ap (λ l. l ++ pending (cs i)) (sym (others.4 i).1);
  }
    where
      on : Moved m' lg' e
      on = moved mv refl

      others :
          (m'.write_mutex ≡ m.write_mutex)
          × (m'.write_index ≡ m.write_index)
          × (m'.log_buffer ≡ m.log_buffer)
          × (lines (e ∷ h) ≡ lines h)
          × ((i : ℕ) → (to_log i (e ∷ h) ≡ to_log i h) × (lines_of i (e ∷ h) ≡ lines_of i h))
      others = move-others mv
