-- ===== src/ProdCons/Many/Invariant/Consumers.antt =====
-- A move of a consumer keeps the invariant.
use c_teaching.Prelude.{
  ℕ, suc, ◌+◌, ◌%◌, ◌≤◌, ◌<◌, ◌≡◌, refl, ap, ◌∙◌, sym, ◌≢◌, length, get_or, take, length-append,
  List, [], ◌∷◌, ◌++◌, arith,
}
use c_teaching.Prelude.Int.{ℤ, pos, add_int}
use c_teaching.Threads.{update, total, total-update, le-total, pair-le-total, total-add-le}
use c_teaching.ProdCons.Many.{
  Shared, Producer, Consumer, wait_fill, taking, adding, storing_deposit, storing_read, post_read,
  loading_read, Event, ConsumerMove, got_fill, got_read, take_item, load_deposit, store_deposit,
  load_read, store_read,
}
use c_teaching.ProdCons.Many.Run.{written, taken, int_sum, int_sum-snoc}
use c_teaching.Ring.{Holds, Holds-take, take-suc}
use c_teaching.ProdCons.Many.Invariant.Defs.{
  Inv, in_write, before_store, after_store, in_read, before_take, after_take, behind_read, owes,
}

-- What a thread's semaphore call has found.
abbrev Guard : {m m' : Shared} {c c' : Consumer} {e : Event} → ConsumerMove m c e m' c' → Type 0
Guard {m} (got_fill h) = 0 < m.fill_count
Guard {m} (got_read h) = 0 < m.read_mutex
Guard _ = Unit

guard : {m m' : Shared} {c c' : Consumer} {e : Event} (mv : ConsumerMove m c e m' c') → Guard mv
guard (got_fill h) = h
guard (got_read h) = h
guard _ = tt

-- Inside read_mutex, with read_index up to date.
abbrev at_take : Consumer → ℕ
at_take taking = 1
at_take post_read = 1
at_take _ = 0

split : (c : Consumer) → behind_read c + at_take c ≤ in_read c
split wait_fill = omega arith
split c = omega arith

-- Inside read_mutex, owing nothing to the deposit.
abbrev paid : Consumer → ℕ
paid taking = 1
paid loading_read = 1
paid (storing_read _) = 1
paid post_read = 1
paid _ = 0

split_paid : (c : Consumer) → owes c + paid c ≤ in_read c
split_paid wait_fill = omega arith
split_paid c = omega arith

module _ {n k : ℕ} {m : Shared} {ps : ℕ → Producer} {cs : ℕ → Consumer} {h : List Event}
    (inv : Inv n k m ps cs h) (i : ℕ) (lt : i < k) where
  record Mover (c c' : Consumer) : Type 0 where
    here : cs i ≡ c
    readers : total in_read k (update cs i c') + in_read c ≡ total in_read k cs + in_read c'
    befores :
        total before_take k (update cs i c') + before_take c
        ≡ total before_take k cs + before_take c'
    afters :
        total after_take k (update cs i c') + after_take c ≡ total after_take k cs + after_take c'
    behinds :
        total behind_read k (update cs i c') + behind_read c
        ≡ total behind_read k cs + behind_read c'
    debts : total owes k (update cs i c') + owes c ≡ total owes k cs + owes c'
    own :
        (in_read c ≤ total in_read k cs)
        × (before_take c ≤ total before_take k cs)
        × (after_take c ≤ total after_take k cs)
        × (behind_read c ≤ total behind_read k cs)
        × (owes c ≤ total owes k cs)
    exact : (total behind_read k cs + at_take c ≤ 1) × (total owes k cs + paid c ≤ 1)

  mover : (c' : Consumer) → Mover (cs i) c'
  mover c' = record {
    here = refl;
    readers = total-update in_read k cs i c' lt;
    befores = total-update before_take k cs i c' lt;
    afters = total-update after_take k cs i c' lt;
    behinds = total-update behind_read k cs i c' lt;
    debts = total-update owes k cs i c' lt;
    own = (
      le-total in_read k cs i lt,
      le-total before_take k cs i lt,
      le-total after_take k cs i lt,
      le-total behind_read k cs i lt,
      le-total owes k cs i lt,
    );
    exact = (
      omega (
        arith,
        le-total at_take k cs i lt,
        total-add-le behind_read at_take in_read split k cs,
        inv.read_lock,
      ),
      omega (
        arith,
        le-total paid k cs i lt,
        total-add-le owes paid in_read split_paid k cs,
        inv.read_lock,
      ),
    );
  }

  -- Another consumer is not inside read_mutex while this one is.
  alone : (j : ℕ) → j < k → i ≢ j → in_read (cs i) ≡ 1 → in_read (cs j) ≡ 0
  alone j lj ne one = omega (arith, pair-le-total in_read k cs i j lt lj ne, inv.read_lock)

  -- The item that is read is the oldest one that nobody has taken.
  item :
      Mover taking (adding (get_or m.transactions m.read_index (pos 0)))
      → (length (taken h) < length (written h))
        × (get_or m.transactions m.read_index (pos 0)
            ≡ get_or (written h) (length (taken h)) (pos 0))
  item f = (
    more,
    ap (λ r. get_or m.transactions r (pos 0)) at ∙ inv.window (length (taken h)) (omega arith) more,
  )
    where
      more : length (taken h) < length (written h)
      more = omega (arith, inv.filled, f.own)

      at : m.read_index ≡ length (taken h) % 128
      at = omega (arith, inv.read_at, f.exact)

  -- The locks, the semaphores' counts, and the index of the next item.
  move-counts :
      {c c' : Consumer} {m' : Shared} {e : Event} → ConsumerMove m c e m' c' → Mover c c' → record {
        write_lock : m'.write_mutex + total in_write n ps ≡ 1;
        read_lock : m'.read_mutex + total in_read k (update cs i c') ≡ 1;
        filled :
            m'.fill_count
              + total before_take k (update cs i c')
              + length (taken (e ∷ h))
              + total after_store n ps
            ≡ length (written (e ∷ h));
        emptied :
            m'.empty_count
              + total before_store n ps
              + length (written (e ∷ h))
              + total after_take k (update cs i c')
            ≡ 128 + length (taken (e ∷ h));
        size : length m'.transactions ≡ 128;
      }
  move-counts take_item f =
      ground
        (arith, length-append {A = ℤ} (taken h) (get_or m.transactions m.read_index (pos 0) ∷ []))
  move-counts mv f = ground (arith, guard mv)

  move-read_at :
      {c c' : Consumer} {m' : Shared} {e : Event}
      → ConsumerMove m c e m' c'
      → Mover c c'
      → (m'.read_index < 128)
        × ((m'.read_index + total behind_read k (update cs i c')) % 128
            ≡ length (taken (e ∷ h)) % 128)
  move-read_at take_item f = omega (
    arith,
    inv.read_at,
    length-append {A = ℤ} (taken h) (get_or m.transactions m.read_index (pos 0) ∷ []),
  )
  move-read_at (store_read {r}) f =
      omega (arith, inv.read_at, inv.read_local i r lt f.here, f.behinds)
  move-read_at mv f = ground (arith, guard mv)

  move-read_local :
      {c c' : Consumer} {m' : Shared} {e : Event}
      → ConsumerMove m c e m' c'
      → Mover c c'
      → (j r : ℕ) → j < k
      → update cs i c' j ≡ storing_read r
      → r ≡ m'.read_index
  move-read_local load_read f j r lj q = ground (arith, inv.read_local j r)
  move-read_local (store_read {r = r'}) f j r lj q = ground (arith, inv.read_local j r, alone j lj)
  move-read_local mv f j r lj q = ground (arith, inv.read_local j r)

  move-data :
      {c c' : Consumer} {m' : Shared} {e : Event}
      → ConsumerMove m c e m' c'
      → Mover c c'
      → Holds (pos 0) m'.transactions (written (e ∷ h)) (length (taken (e ∷ h)))
        × (taken (e ∷ h) ≡ take (length (taken (e ∷ h))) (written (e ∷ h)))
  move-data take_item f = (
    Holds-take (pos 0) m.transactions (written h) (length (taken h)) _ (omega (arith, grown))
        inv.window,
    rw (grown, (item f).1)
        (ap (λ l. l ++ get_or (written h) (length (taken h)) (pos 0) ∷ []) inv.fifo
          ∙ sym (take-suc (length (taken h)) (written h) (pos 0) (item f).0)),
  )
    where
      grown :
          length (taken h ++ get_or m.transactions m.read_index (pos 0) ∷ [])
          ≡ suc (length (taken h))
      grown =
          omega (
            arith,
            length-append {A = ℤ} (taken h) (get_or m.transactions m.read_index (pos 0) ∷ []),
          )
  move-data mv f = (inv.window, inv.fifo)

  move-balance :
      {c c' : Consumer} {m' : Shared} {e : Event}
      → ConsumerMove m c e m' c'
      → Mover c c'
      → total owes k (update cs i c') ≡ 0
      → m'.deposit ≡ int_sum (taken (e ∷ h))
  move-balance take_item f q = absurd (omega (arith, f.debts, f.exact))
  move-balance (load_deposit {v}) f q = absurd (omega (arith, f.debts, f.own))
  move-balance (store_deposit {v} {d}) f q = inv.storing_local i v d lt f.here
  move-balance mv f q = inv.balance (omega (arith, f.debts))

  move-adding_local :
      {c c' : Consumer} {m' : Shared} {e : Event}
      → ConsumerMove m c e m' c'
      → Mover c c'
      → (j : ℕ) (v : ℤ) → j < k
      → update cs i c' j ≡ adding v
      → add_int m'.deposit v ≡ int_sum (taken (e ∷ h))
  move-adding_local take_item f j v lj q = ground (
    arith,
    alone j lj,
    paid_up,
    int_sum-snoc (taken h) (get_or m.transactions m.read_index (pos 0)),
  )
    where
      paid_up : m.deposit ≡ int_sum (taken h)
      paid_up = inv.balance (omega (arith, f.exact))
  move-adding_local (store_deposit {v = v'} {d}) f j v lj q =
      ground (arith, inv.adding_local j v, alone j lj)
  move-adding_local mv f j v lj q = ground (arith, inv.adding_local j v)

  move-storing_local :
      {c c' : Consumer} {m' : Shared} {e : Event}
      → ConsumerMove m c e m' c'
      → Mover c c'
      → (j : ℕ) (v d : ℤ) → j < k
      → update cs i c' j ≡ storing_deposit v d
      → add_int d v ≡ int_sum (taken (e ∷ h))
  move-storing_local take_item f j v d lj q = ground (arith, alone j lj)
  move-storing_local (load_deposit {v = v'}) f j v d lj q =
      ground (arith, inv.storing_local j v d, inv.adding_local i v')
  move-storing_local mv f j v d lj q = ground (arith, inv.storing_local j v d)

  -- The producers' side is as it was.
  move-rest :
      {c c' : Consumer} {m' : Shared} {e : Event}
      → ConsumerMove m c e m' c'
      → (m'.write_index ≡ m.write_index) × (written (e ∷ h) ≡ written h)
  move-rest take_item = (refl, refl)
  move-rest mv = (refl, refl)

  pub consumer-Inv :
      {c' : Consumer} {m' : Shared} {e : Event}
      → ConsumerMove m (cs i) e m' c'
      → Inv n k m' ps (update cs i c') (e ∷ h)
  consumer-Inv {c'} {m'} {e} mv = record {
    write_lock = write_lock;
    read_lock = read_lock;
    filled = filled;
    emptied = emptied;
    size = size;
    write_at = rw (rest.0, rest.1) inv.write_at;
    read_at = move-read_at mv f;
    window = (move-data mv f).0;
    fifo = (move-data mv f).1;
    write_local = λ j w lj q. inv.write_local j w lj q ∙ sym rest.0;
    read_local = move-read_local mv f;
    balance = move-balance mv f;
    adding_local = move-adding_local mv f;
    storing_local = move-storing_local mv f;
  }
    where
      f : Mover (cs i) c'
      f = mover c'

      rest : (m'.write_index ≡ m.write_index) × (written (e ∷ h) ≡ written h)
      rest = move-rest mv

      open (move-counts mv f) use {write_lock, read_lock, filled, emptied, size}
