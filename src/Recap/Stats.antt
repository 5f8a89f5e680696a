-- ===== src/Recap/Stats.antt =====
-- The end of main_process(): what the file of accesses says of the children.
use c_teaching.Prelude.{
  ℕ, suc, ◌+◌, ◌^◌, ltb, ◌&&◌, if◌then◌else◌, length, get_or, set, replicate, Option, none, some,
  List, [], ◌∷◌,
}
use c_teaching.Prelude.Int.{ℤ, pos, negsuc, ltb_ℤ}
use mathlib.Core.Option.{map}

infixl 10 ◌>>=◌
abbrev pub ◌>>=◌ : Option (List ℕ) → (List ℕ → Option (List ℕ)) → Option (List ℕ)
none >>= f = none
some stats >>= f = f stats

-- `access_stats[read_byte]++`; undefined for a `read_byte` that has not been read yet, past the end
-- of the array, and for a counter that is no `int` any more.
unfoldable pub count_access : Option ℕ → List ℕ → Option (List ℕ)
count_access none access_stats = none
count_access (some read_byte) access_stats =
    if ltb read_byte (length access_stats) && ltb (get_or access_stats read_byte 0 + 1) (2 ^ 31)
    then some (set access_stats read_byte (get_or access_stats read_byte 0 + 1))
    else none

-- `read_byte` after a read(), which leaves it as it is when it fails.
abbrev pub latest : Option ℕ → Option ℕ → Option ℕ
latest none read_byte = read_byte
latest (some x) read_byte = some x

-- The loop over read(), given what each call before the end of the file puts in `read_byte`. One
-- that fails gives (size_t)-1, which is > 0, and so counts the last `read_byte` again.
unfoldable pub add_accesses : List (Option ℕ) → Option ℕ → List ℕ → Option (List ℕ)
unfolding count_access
add_accesses [] read_byte access_stats = some access_stats
add_accesses (r ∷ reads) read_byte access_stats =
    count_access (latest r read_byte) access_stats >>= λ counted.
    add_accesses reads (latest r read_byte) counted

-- `calloc(n, sizeof(int))`, and the loop.
unfoldable pub stats_of : ℕ → List (Option ℕ) → Option (List ℕ)
unfolding add_accesses
stats_of n reads = add_accesses reads none (replicate n 0)

pub record Best : Type 0 where
  pub max_process_id : ℤ
  pub max_accesses : ℤ

-- The loop over the children, from child `i` on.
unfoldable pub search_max : ℕ → List ℕ → Best → Best
search_max i [] best = best
search_max i (accesses ∷ stats) best = search_max (suc i) stats (
    if ltb_ℤ best.max_accesses (pos accesses)
    then record { max_process_id = pos i; max_accesses = pos accesses }
    else best)

-- The search over all the children, with -1 for both values before the loop.
unfoldable pub search_from_start : List ℕ → Best
unfolding search_max
search_from_start stats =
    search_max 0 stats (record { max_process_id = negsuc 0; max_accesses = negsuc 0 })

-- What main_process() reports.
unfoldable pub report : ℕ → List (Option ℕ) → Option Best
unfolding stats_of search_from_start
report n reads = map search_from_start (stats_of n reads)
