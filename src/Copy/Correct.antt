-- ===== src/Copy/Correct.antt =====
-- The copy is right: where every byte of the source is, at every call.
use c_teaching.Prelude.{
  write_moves, length-zero, ℕ, ◌+◌, ◌<◌, ◌≡◌, refl, sym, ap, ◌∙◌, length, take, drop,
  take-append-drop, append_assoc, append-nil, drop-all, length-append, length-take, List, [], ◌++◌,
  arith, Bool-cases, ltb, ◌==◌, inl, inr,
}
use c_teaching.Sys.{eintr, Answer, ok, fail}
use c_teaching.Copy.{
  Pc, reading, writing, finished, failed, State, step, end_reading, read_bytes, file_after,
}
use c_teaching.Copy.Run.{Possible, Reach, start, stalled, moved}

-- The bytes of the buffer that are still to be written.
abbrev pub pending : State → Pc → List ℕ
pending s (reading left) = s.buf
pending s (writing written left) = drop written s.buf
pending s finished = []
pending s failed = []

-- Written, pending and unread bytes make up the source; the locals fit the buffer.
abbrev pub Fits : State → Pc → Type 0
Fits s (reading left) = (0 < left) × (length s.buf + left ≡ s.block_size)
Fits s (writing written left) = (0 < left) × (written + left ≡ length s.buf)
Fits s finished = (s.source ≡ []) × (s.buf ≡ [])
Fits s failed = Unit {0}

-- On failure the bytes in the buffer are lost, and what is written is a prefix of the source.
abbrev pub Accounts : List ℕ → State → Pc → Type 0
Accounts content s failed = (rest : List ℕ) × (s.dest ++ rest ≡ content)
Accounts content s pc = (s.dest ++ (pending s pc ++ s.source) ≡ content) × Fits s pc

pub record Inv (block : ℕ) (content held : List ℕ) (s : State) (pc : Pc) : Type 0 where
  pub block_kept : (s.block_size ≡ block) × (0 < block)
  pub old_kept : s.old ≡ held
  pub accounts : Accounts content s pc

-- Reading `n` more bytes moves them from the source to the buffer.
read_moves :
    (dest buf source content : List ℕ) (n : ℕ)
    → dest ++ (buf ++ source) ≡ content
    → dest ++ ((buf ++ take n source) ++ drop n source) ≡ content
read_moves dest buf source content n h =
    rw (append_assoc buf (take n source) (drop n source), take-append-drop n source) h

module _ {block : ℕ} {content held : List ℕ} where
  end_reading-Inv :
      (s : State)
      → (s.block_size ≡ block) × (0 < block)
      → s.old ≡ held
      → s.dest ++ (s.buf ++ s.source) ≡ content
      → (length s.buf ≡ 0 → length s.source ≡ 0)
      → Inv block content held (end_reading s).0 (end_reading s).1
  end_reading-Inv s bk kept acc empty = elim (Bool-cases (length s.buf == 0)) [
    | inl bare ↦
        let e : length s.buf ≡ 0 = ground arith in
        rw bare (record {
          block_kept = bk;
          old_kept = kept;
          accounts = (
            rw (length-zero s.buf e) at acc,
            (length-zero s.source (empty e), length-zero s.buf e),
          );
        })
    | inr full ↦
        rw full (record {
          block_kept = bk;
          old_kept = kept;
          accounts = (acc, (ground arith, omega arith));
        })
  ]

  pub step-Inv :
      (s : State) (pc : Pc) (a : Answer)
      → Inv block content held s pc
      → Possible s pc a
      → Inv block content held (step s pc a).0 (step s pc a).1
  unfolding step
  step-Inv s (reading left) (fail eintr) inv p = inv
  step-Inv s (reading left) (fail e) inv p = record {
    block_kept = inv.block_kept;
    old_kept = inv.old_kept;
    accounts = (s.buf ++ s.source, inv.accounts.0);
  }
  step-Inv s (reading left) (ok n) inv p = elim (Bool-cases (n == 0)) [
    | inl eof ↦
        rw eof
          (end_reading-Inv s inv.block_kept inv.old_kept inv.accounts.0 (λ e. p.2 (ground arith)))
    | inr got ↦ rw got (elim (Bool-cases (ltb n left)) [
      | inl short ↦ rw short (record {
        block_kept = inv.block_kept;
        old_kept = inv.old_kept;
        accounts = (moves, (ground arith, ground (arith, grown)));
      })
      | inr full ↦ rw full (
          end_reading-Inv (read_bytes s n) inv.block_kept inv.old_kept moves
            (λ e. absurd (ground (arith, grown))))
    ])
  ]
    where
      moves : s.dest ++ ((s.buf ++ take n s.source) ++ drop n s.source) ≡ content
      moves = read_moves s.dest s.buf s.source content n inv.accounts.0

      grown : length (s.buf ++ take n s.source) ≡ length s.buf + n
      grown = omega (arith, length-append s.buf (take n s.source), length-take n s.source, p.1)
  step-Inv s (writing w left) (fail eintr) inv p = inv
  step-Inv s (writing w left) (fail e) inv p = record {
    block_kept = inv.block_kept;
    old_kept = inv.old_kept;
    accounts = (drop w s.buf ++ s.source, inv.accounts.0);
  }
  step-Inv s (writing w left) (ok n) inv p = elim (Bool-cases (ltb n left)) [
    | inl short ↦ rw short (record {
      block_kept = inv.block_kept;
      old_kept = inv.old_kept;
      accounts = (moves, (ground arith, ground arith));
    })
    | inr full ↦ rw full (record {
      block_kept = inv.block_kept;
      old_kept = inv.old_kept;
      accounts = (rw (drop-all (w + n) s.buf (ground arith)) at moves, (omega arith, omega arith));
    })
  ]
    where
      moves : (s.dest ++ take n (drop w s.buf)) ++ (drop (w + n) s.buf ++ s.source) ≡ content
      moves = write_moves s.dest s.buf s.source content w n inv.accounts.0
  step-Inv s finished a inv p = elim p [ ]
  step-Inv s failed a inv p = elim p [ ]

  pub Reach-Inv :
      {s : State} {pc : Pc} {k : ℕ}
      → 0 < block
      → Reach block content held s pc k
      → Inv block content held s pc
  Reach-Inv positive start = record {
    block_kept = (refl, positive);
    old_kept = refl;
    accounts = (refl, (positive, omega arith));
  }
  Reach-Inv positive (stalled {s} {pc} a r p e) = step-Inv s pc a (Reach-Inv positive r) p
  Reach-Inv positive (moved {s} {pc} a r p e) = step-Inv s pc a (Reach-Inv positive r) p

-- When the copy ends, however its calls were cut short or interrupted, the destination holds the
-- whole source, and after it the part of its old content that was longer than the source.
pub file_after-finished :
    {block k : ℕ} {content held : List ℕ} {s : State}
    → 0 < block
    → Reach block content held s finished k
    → file_after s ≡ content ++ drop (length content) held
file_after-finished {content} {held} {s} positive r =
    ap (λ l. l ++ drop (length l) s.old) whole
    ∙ ap (λ l. content ++ drop (length content) l) old_kept
  where
    open (Reach-Inv positive r) use {accounts, old_kept}

    whole : s.dest ≡ content
    whole = sym (append-nil s.dest) ∙ rw accounts.1.0 at accounts.0

-- At any moment, also when a call has failed, what has been written is a prefix of the source.
pub dest-IsPrefix :
    {block k : ℕ} {content held : List ℕ} {s : State} {pc : Pc}
    → 0 < block
    → Reach block content held s pc k
    → (rest : List ℕ) × (s.dest ++ rest ≡ content)
dest-IsPrefix {content} {held} {s} {pc} positive r = prefix pc (Reach-Inv positive r).accounts
  where
    prefix : (pc : Pc) → Accounts content s pc → (rest : List ℕ) × (s.dest ++ rest ≡ content)
    prefix failed h = h
    prefix (reading left) h = (s.buf ++ s.source, h.0)
    prefix (writing w left) h = (drop w s.buf ++ s.source, h.0)
    prefix finished h = (s.source, h.0)
