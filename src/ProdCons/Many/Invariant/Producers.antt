-- ===== src/ProdCons/Many/Invariant/Producers.antt =====
-- A move of a producer keeps the invariant.
use c_teaching.Prelude.{
  ℕ, ◌+◌, ◌%◌, ◌≤◌, ◌<◌, ◌≡◌, refl, ap, ◌∙◌, sym, ◌≢◌, length, take, length-set, length-append,
  List, [], ◌∷◌, arith,
}
use c_teaching.Prelude.Int.{ℤ, pos}
use c_teaching.Threads.{update, total, total-update, le-total, pair-le-total, total-add-le}
use c_teaching.ProdCons.Many.{
  Shared, Producer, producing, storing, post_write, storing_write, Consumer, Event, ProducerMove,
  got_empty, got_write, store, load_write, store_write,
}
use c_teaching.ProdCons.Many.Run.{written, taken, int_sum}
use c_teaching.Ring.{Holds, Holds-store, take-append_left}
use c_teaching.ProdCons.Many.Invariant.Defs.{
  Inv, in_write, before_store, after_store, behind_write, in_read, before_take, after_take,
}

-- What a thread's semaphore call has found.
abbrev Guard : {m m' : Shared} {p p' : Producer} {e : Event} → ProducerMove m p e m' p' → Type 0
Guard {m} (got_empty h) = 0 < m.empty_count
Guard {m} (got_write h) = 0 < m.write_mutex
Guard _ = Unit

guard : {m m' : Shared} {p p' : Producer} {e : Event} (mv : ProducerMove m p e m' p') → Guard mv
guard (got_empty h) = h
guard (got_write h) = h
guard _ = tt

-- Inside write_mutex, with write_index up to date.
abbrev at_store : Producer → ℕ
at_store (storing _) = 1
at_store post_write = 1
at_store _ = 0

split : (p : Producer) → behind_write p + at_store p ≤ in_write p
split producing = omega arith
split p = omega arith

module _ {n k : ℕ} {m : Shared} {ps : ℕ → Producer} {cs : ℕ → Consumer} {h : List Event}
    (inv : Inv n k m ps cs h) (i : ℕ) (lt : i < n) where
  record Mover (p p' : Producer) : Type 0 where
    here : ps i ≡ p
    writers : total in_write n (update ps i p') + in_write p ≡ total in_write n ps + in_write p'
    befores :
        total before_store n (update ps i p') + before_store p
        ≡ total before_store n ps + before_store p'
    afters :
        total after_store n (update ps i p') + after_store p
        ≡ total after_store n ps + after_store p'
    behinds :
        total behind_write n (update ps i p') + behind_write p
        ≡ total behind_write n ps + behind_write p'
    own :
        (in_write p ≤ total in_write n ps)
        × (before_store p ≤ total before_store n ps)
        × (after_store p ≤ total after_store n ps)
        × (behind_write p ≤ total behind_write n ps)

  mover : (p' : Producer) → Mover (ps i) p'
  mover p' = record {
    here = refl;
    writers = total-update in_write n ps i p' lt;
    befores = total-update before_store n ps i p' lt;
    afters = total-update after_store n ps i p' lt;
    behinds = total-update behind_write n ps i p' lt;
    own = (
      le-total in_write n ps i lt,
      le-total before_store n ps i lt,
      le-total after_store n ps i lt,
      le-total behind_write n ps i lt,
    );
  }

  -- Another producer is not inside write_mutex while this one is.
  alone : (j : ℕ) → j < n → i ≢ j → in_write (ps i) ≡ 1 → in_write (ps j) ≡ 0
  alone j lj ne one = omega (arith, pair-le-total in_write n ps i j lt lj ne, inv.write_lock)

  -- The locks, the semaphores' counts, and the index of the next store.
  move-counts :
      {p p' : Producer} {m' : Shared} {e : Event} → ProducerMove m p e m' p' → Mover p p' → record {
        write_lock : m'.write_mutex + total in_write n (update ps i p') ≡ 1;
        read_lock : m'.read_mutex + total in_read k cs ≡ 1;
        filled :
            m'.fill_count
              + total before_take k cs
              + length (taken (e ∷ h))
              + total after_store n (update ps i p')
            ≡ length (written (e ∷ h));
        emptied :
            m'.empty_count
              + total before_store n (update ps i p')
              + length (written (e ∷ h))
              + total after_take k cs
            ≡ 128 + length (taken (e ∷ h));
        size : length m'.transactions ≡ 128;
      }
  move-counts (store {v}) f =
      ground (
        arith,
        length-set m.transactions m.write_index v,
        length-append {A = ℤ} (written h) (v ∷ []),
      )
  move-counts mv f = ground (arith, guard mv)

  move-write_at :
      {p p' : Producer} {m' : Shared} {e : Event}
      → ProducerMove m p e m' p'
      → Mover p p'
      → (m'.write_index < 128)
        × ((m'.write_index + total behind_write n (update ps i p')) % 128
            ≡ length (written (e ∷ h)) % 128)
  move-write_at (store {v}) f =
      omega (arith, inv.write_at, length-append {A = ℤ} (written h) (v ∷ []), inv.write_lock)
  move-write_at (store_write {w}) f =
      omega (arith, inv.write_at, inv.write_local i w lt f.here, f.behinds)
  move-write_at mv f = ground (arith, guard mv)

  move-write_local :
      {p p' : Producer} {m' : Shared} {e : Event}
      → ProducerMove m p e m' p'
      → Mover p p'
      → (j w : ℕ) → j < n
      → update ps i p' j ≡ storing_write w
      → w ≡ m'.write_index
  move-write_local load_write f j w lj q = ground (arith, inv.write_local j w)
  move-write_local (store_write {w = w'}) f j w lj q =
      ground (arith, inv.write_local j w, alone j lj)
  move-write_local mv f j w lj q = ground (arith, inv.write_local j w)

  move-data :
      {p p' : Producer} {m' : Shared} {e : Event}
      → ProducerMove m p e m' p'
      → Mover p p'
      → Holds (pos 0) m'.transactions (written (e ∷ h)) (length (taken (e ∷ h)))
        × (taken (e ∷ h) ≡ take (length (taken (e ∷ h))) (written (e ∷ h)))
  move-data (store {v}) f = (
    Holds-store (pos 0) m.transactions (written h) (length (taken h)) m.write_index v inv.size
        (omega (arith, inv.write_at, alone_behind f.here)) (omega (arith, inv.emptied, f.own))
        inv.window,
    inv.fifo
        ∙ sym
            (take-append_left (length (taken h)) (written h) (v ∷ []) (omega (arith, inv.filled))),
  )
    where
      alone_behind : ps i ≡ storing v → total behind_write n ps ≡ 0
      alone_behind e = omega (
        arith,
        le-total at_store n ps i lt,
        ap at_store e,
        total-add-le behind_write at_store in_write split n ps,
        inv.write_lock,
      )
  move-data mv f = (inv.window, inv.fifo)

  -- The consumers' side is as it was.
  move-rest :
      {p p' : Producer} {m' : Shared} {e : Event}
      → ProducerMove m p e m' p'
      → (m'.read_index ≡ m.read_index) × (m'.deposit ≡ m.deposit) × (taken (e ∷ h) ≡ taken h)
  move-rest (store {v}) = (refl, refl, refl)
  move-rest mv = (refl, refl, refl)

  pub producer-Inv :
      {p' : Producer} {m' : Shared} {e : Event}
      → ProducerMove m (ps i) e m' p'
      → Inv n k m' (update ps i p') cs (e ∷ h)
  producer-Inv {p'} {m'} {e} mv = record {
    write_lock = write_lock;
    read_lock = read_lock;
    filled = filled;
    emptied = emptied;
    size = size;
    write_at = move-write_at mv f;
    read_at = rw (rest.0, rest.2) inv.read_at;
    window = (move-data mv f).0;
    fifo = (move-data mv f).1;
    write_local = move-write_local mv f;
    read_local = λ j r lj q. inv.read_local j r lj q ∙ sym rest.0;
    balance = λ q. rest.1 ∙ inv.balance q ∙ sym (ap int_sum rest.2);
    adding_local = λ j v lj q. rw (rest.1, rest.2) (inv.adding_local j v lj q);
    storing_local = λ j v d lj q. rw rest.2 (inv.storing_local j v d lj q);
  }
    where
      f : Mover (ps i) p'
      f = mover p'

      rest : (m'.read_index ≡ m.read_index) × (m'.deposit ≡ m.deposit) × (taken (e ∷ h) ≡ taken h)
      rest = move-rest mv

      open (move-counts mv f) use {write_lock, read_lock, filled, emptied, size}
