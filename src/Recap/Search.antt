-- ===== src/Recap/Search.antt =====
-- main_process() counts right and finds the first of the children with the most accesses.
use c_teaching.Prelude.{
  ℕ, zero, suc, ◌+◌, ◌≤◌, ◌<◌, ◌≡◌, ◌≢◌, refl, ap, ◌∙◌, ◌==◌, if◌then◌else◌, length, get_or, set,
  replicate, length-set, length-replicate, get_or-set_self, get_or-set_ne, List, [], ◌∷◌, ◌++◌,
  arith, Bool-cases, inl, inr, ◌⊎◌, true, false, Option, none, some, map, ◌^◌,
}
use c_teaching.Prelude.Int.{pos, negsuc, ltb_ℤ}
use c_teaching.Recap.Stats.{
  count_access, add_accesses, stats_of, Best, search_max, search_from_start, report,
}

-- How often `i` stands in a file.
unfoldable pub count : ℕ → List ℕ → ℕ
count i [] = 0
count i (x ∷ xs) = (if x == i then 1 else 0) + count i xs

count-append : (i : ℕ) (xs ys : List ℕ) → count i (xs ++ ys) ≡ count i xs + count i ys
unfolding count
count-append i [] ys = omega arith
count-append i (x ∷ xs) ys = omega (arith, count-append i xs ys)

pub count-snoc_self : (i : ℕ) (xs : List ℕ) → count i (xs ++ i ∷ []) ≡ count i xs + 1
unfolding count
count-snoc_self i xs = ground (arith, count-append i xs (i ∷ []))

pub count-snoc_other : (i x : ℕ) (xs : List ℕ) → i ≢ x → count i (xs ++ x ∷ []) ≡ count i xs
unfolding count
count-snoc_other i x xs ne = ground (arith, count-append i xs (x ∷ []))

-- The file names only children.
abbrev pub AllBelow : ℕ → List ℕ → Type 0
AllBelow n [] = Unit {0}
AllBelow n (x ∷ xs) = (x < n) × AllBelow n xs

pub AllBelow-append :
    (n : ℕ) (xs : List ℕ) (x : ℕ) → AllBelow n xs → x < n → AllBelow n (xs ++ x ∷ [])
AllBelow-append n [] x all lt = (lt, tt)
AllBelow-append n (y ∷ xs) x all lt = (all.0, AllBelow-append n xs x all.1 lt)

-- What the loop over read() leaves in a good run: the counters without their bounds.
unfoldable plain_accesses : List ℕ → List ℕ → List ℕ
plain_accesses [] stats = stats
plain_accesses (x ∷ file) stats = plain_accesses file (set stats x (get_or stats x 0 + 1))

length-plain_accesses : (file stats : List ℕ) → length (plain_accesses file stats) ≡ length stats
unfolding plain_accesses
length-plain_accesses [] stats = refl
length-plain_accesses (x ∷ file) stats =
    length-plain_accesses file (set stats x (get_or stats x 0 + 1))
    ∙ length-set stats x (get_or stats x 0 + 1)

-- One access more for `x`.
get_or-add_one :
    (stats : List ℕ) (x i : ℕ)
    → x < length stats
    → get_or (set stats x (get_or stats x 0 + 1)) i 0 ≡ get_or stats i 0 + (if x == i then 1 else 0)
get_or-add_one stats x i lt = elim (Bool-cases (x == i)) [
  | inl same ↦ rw same (rw (← equal same) (get_or-set_self stats x (get_or stats x 0 + 1) 0 lt))
  | inr other ↦
      rw other (get_or-set_ne stats (get_or stats x 0 + 1) 0 (λ e. ground (arith, e)) ∙ omega arith)
]
  where
    equal : (x == i) ≡ true → x ≡ i
    equal e = ground arith

get_or-plain_accesses :
    (file stats : List ℕ) (i : ℕ)
    → AllBelow (length stats) file
    → get_or (plain_accesses file stats) i 0 ≡ get_or stats i 0 + count i file
unfolding plain_accesses count
get_or-plain_accesses [] stats i all = omega arith
get_or-plain_accesses (x ∷ file) stats i all =
    let rest =
      get_or-plain_accesses file (set stats x (get_or stats x 0 + 1)) i
        (rw (length-set stats x (get_or stats x 0 + 1)) all.1) in
    omega (arith, rest, get_or-add_one stats x i all.0)

get_or-replicate : (n i : ℕ) → get_or {A = ℕ} (replicate n 0) i 0 ≡ 0
get_or-replicate zero i = refl
get_or-replicate (suc n) zero = refl
get_or-replicate (suc n) (suc i) = get_or-replicate n i

-- Every counter stays an `int` up to the end.
abbrev Fits : List ℕ → List ℕ → Type 0
Fits file stats = (i : ℕ) → i < length stats → get_or stats i 0 + count i file < 2 ^ 31

count_access-some :
    (x : ℕ) (stats : List ℕ)
    → x < length stats
    → get_or stats x 0 + 1 < 2 ^ 31
    → count_access (some x) stats ≡ some (set stats x (get_or stats x 0 + 1))
unfolding count_access
count_access-some x stats lt fits = ground arith

add_accesses-plain :
    (file : List ℕ) (read_byte : Option ℕ) (stats : List ℕ)
    → AllBelow (length stats) file
    → Fits file stats
    → add_accesses (map some file) read_byte stats ≡ some (plain_accesses file stats)
unfolding add_accesses plain_accesses count
add_accesses-plain [] read_byte stats all fits = refl
add_accesses-plain (x ∷ file) read_byte stats all fits =
    rw (count_access-some x stats all.0 (ground (arith, fits x all.0))) (
      add_accesses-plain file (some x) (set stats x (get_or stats x 0 + 1))
        (rw (length-set stats x (get_or stats x 0 + 1)) all.1)
        (λ i lt. omega (
          arith,
          get_or-add_one stats x i all.0,
          fits i (rw (length-set stats x (get_or stats x 0 + 1)) at lt),
        )))

plain_stats : ℕ → List ℕ → List ℕ
plain_stats n file = plain_accesses file (replicate n 0)

get_or-plain_stats :
    (n i : ℕ) (file : List ℕ) → AllBelow n file → get_or (plain_stats n file) i 0 ≡ count i file
unfolding plain_stats
get_or-plain_stats n i file all = omega (
  arith,
  get_or-plain_accesses file (replicate n 0) i (rw (length-replicate {A = ℕ} n 0) all),
  get_or-replicate n i,
)

length-plain_stats : (n : ℕ) (file : List ℕ) → length (plain_stats n file) ≡ n
unfolding plain_stats
length-plain_stats n file =
    length-plain_accesses file (replicate n 0) ∙ length-replicate {A = ℕ} n 0

stats_of-plain :
    (n : ℕ) (file : List ℕ)
    → AllBelow n file
    → ((i : ℕ) → i < n → count i file < 2 ^ 31)
    → stats_of n (map some file) ≡ some (plain_stats n file)
unfolding stats_of plain_stats
stats_of-plain n file all fits =
    add_accesses-plain file none (replicate n 0) (rw (length-replicate {A = ℕ} n 0) all) (λ i lt.
      omega (arith, get_or-replicate n i, fits i (rw (length-replicate {A = ℕ} n 0) at lt)))

-- What holds of the head and of the rest holds of a list; and so for its first `k` items.
module _ (P : ℕ → Type 0) (a : ℕ) (rest : List ℕ) (head : P a) where
  get_or-all :
      ((j : ℕ) → j < length rest → P (get_or rest j 0))
      → (j : ℕ) → j < length (a ∷ rest)
      → P (get_or (a ∷ rest) j 0)
  get_or-all all zero lt = head
  get_or-all all (suc j) lt = all j (omega arith)

  get_or-below :
      (k : ℕ)
      → ((j : ℕ) → j < k → P (get_or rest j 0))
      → (j : ℕ) → j < suc k
      → P (get_or (a ∷ rest) j 0)
  get_or-below k all zero lt = head
  get_or-below k all (suc j) lt = all j (omega arith)

-- The search from child `i` on keeps `best` if no child has more, and otherwise finds the first
-- of those with the most accesses.
abbrev Outcome : ℕ → List ℕ → Best → Best → Type 0
Outcome i stats best r =
    ((r ≡ best)
      × ((j : ℕ) → j < length stats → ltb_ℤ best.max_accesses (pos (get_or stats j 0)) ≡ false))
    ⊎ ((k : ℕ) × (k < length stats)
        × (r ≡ record { max_process_id = pos (i + k); max_accesses = pos (get_or stats k 0) })
        × (ltb_ℤ best.max_accesses (pos (get_or stats k 0)) ≡ true)
        × ((j : ℕ) → j < length stats → get_or stats j 0 ≤ get_or stats k 0)
        × ((j : ℕ) → j < k → get_or stats j 0 < get_or stats k 0))

search_max-Outcome :
    (i : ℕ) (stats : List ℕ) (best : Best) → Outcome i stats best (search_max i stats best)
unfolding search_max
search_max-Outcome i [] best = inl (refl, λ j lt. absurd (omega arith))
search_max-Outcome i (a ∷ stats) best = elim (Bool-cases (ltb_ℤ best.max_accesses (pos a))) [
  | inl more ↦ rw more (
      found more (
        search_max-Outcome (suc i) stats (record { max_process_id = pos i; max_accesses = pos a })))
  | inr no_more ↦ rw no_more (kept no_more (search_max-Outcome (suc i) stats best))
]
  where
    found :
        {r : Best}
        → ltb_ℤ best.max_accesses (pos a) ≡ true
        → Outcome (suc i) stats (record { max_process_id = pos i; max_accesses = pos a }) r
        → Outcome i (a ∷ stats) best r
    found more (inl (same, none_more)) = inr (
      0,
      omega arith,
      same ∙ ap (λ q. record { max_process_id = pos q; max_accesses = pos a }) (omega arith),
      more,
      get_or-all (λ q. q ≤ a) a stats (omega arith) (λ j lt. ground (arith, none_more j lt)),
      λ j lt. absurd (omega arith),
    )
    found more (inr (k, lt, is, above, all, first)) = inr (
      suc k,
      omega arith,
      is
          ∙ ap (λ q. record { max_process_id = pos q; max_accesses = pos (get_or stats k 0) })
              (omega arith),
      ground arith,
      get_or-all (λ q. q ≤ get_or stats k 0) a stats (ground arith) all,
      get_or-below (λ q. q < get_or stats k 0) a stats (ground arith) k first,
    )

    kept :
        {r : Best}
        → ltb_ℤ best.max_accesses (pos a) ≡ false
        → Outcome (suc i) stats best r
        → Outcome i (a ∷ stats) best r
    kept no_more (inl (same, none_more)) =
        inl (
          same,
          get_or-all (λ q. ltb_ℤ best.max_accesses (pos q) ≡ false) a stats no_more none_more,
        )
    kept no_more (inr (k, lt, is, above, all, first)) = inr (
      suc k,
      omega arith,
      is
          ∙ ap (λ q. record { max_process_id = pos q; max_accesses = pos (get_or stats k 0) })
              (omega arith),
      above,
      get_or-all (λ q. q ≤ get_or stats k 0) a stats (ground arith) all,
      get_or-below (λ q. q < get_or stats k 0) a stats (ground arith) k first,
    )

-- What main_process() prints, for a file that names only children, none of them 2^31 times, and at
-- least one child: the first of the children with the most accesses, and how many it has.
pub report-first :
    (n : ℕ) (file : List ℕ)
    → 0 < n
    → AllBelow n file
    → ((i : ℕ) → i < n → count i file < 2 ^ 31)
    → (k : ℕ) × (k < n)
      × (report n (map some file)
          ≡ some (record { max_process_id = pos k; max_accesses = pos (count k file) }))
      × ((j : ℕ) → j < n → count j file ≤ count k file)
      × ((j : ℕ) → j < k → count j file < count k file)
unfolding report search_from_start
report-first n file lt below fits = reported (
    first (
      search_max-Outcome 0 (plain_stats n file)
        (record { max_process_id = negsuc 0; max_accesses = negsuc 0 })))
  where
    at : (j : ℕ) → get_or (plain_stats n file) j 0 ≡ count j file
    at j = get_or-plain_stats n j file below

    first :
        Outcome 0
          (plain_stats n file)
          (record { max_process_id = negsuc 0; max_accesses = negsuc 0 })
          (search_from_start (plain_stats n file))
        → (k : ℕ) × (k < n)
          × (search_from_start (plain_stats n file)
              ≡ record { max_process_id = pos k; max_accesses = pos (count k file) })
          × ((j : ℕ) → j < n → count j file ≤ count k file)
          × ((j : ℕ) → j < k → count j file < count k file)
    first (inl (same, none_more)) =
        absurd (ground (arith, none_more 0 (omega (arith, length-plain_stats n file))))
    first (inr (k, in_stats, is, above, all, earlier)) = (
      k,
      omega (arith, length-plain_stats n file),
      is ∙ ground (arith, at k),
      λ j l. omega (arith, at j, at k, all j (omega (arith, length-plain_stats n file))),
      λ j l. omega (arith, at j, at k, earlier j l),
    )

    reported :
        (k : ℕ) × (k < n)
          × (search_from_start (plain_stats n file)
              ≡ record { max_process_id = pos k; max_accesses = pos (count k file) })
          × ((j : ℕ) → j < n → count j file ≤ count k file)
          × ((j : ℕ) → j < k → count j file < count k file)
        → (k : ℕ) × (k < n)
          × (report n (map some file)
              ≡ some (record { max_process_id = pos k; max_accesses = pos (count k file) }))
          × ((j : ℕ) → j < n → count j file ≤ count k file)
          × ((j : ℕ) → j < k → count j file < count k file)
    reported (k, lt, is, most, earlier) =
        (k, lt, rw (stats_of-plain n file below fits) (ap some is), most, earlier)
