-- ===== src/Copy/Main.antt =====
-- What main() of copy.c hands to the copy loop, and what it leaves in a longer destination.
use c_teaching.Prelude.{
  ℕ, ◌<◌, ◌≡◌, ◌≢◌, ap, sym, ◌∙◌, length, drop, length-append, length-drop, List, [], Bool, true,
  false, arith,
}
use c_teaching.Prelude.Int.{ℤ, pos}
use c_teaching.Sys.{Opened}
use c_teaching.Copy.{finished, State, copy, main_start, fresh, file_after}
use c_teaching.Copy.Run.{Reach}
use c_teaching.Copy.Correct.{file_after-finished}

-- If main() starts the copy, it does so with a block size of at least 1, which is argv[3] or 128,
-- over the source's content, and over a destination that is empty unless the warning was printed.
pub main_start-copy :
    (argc : ℕ) (block : ℤ) (src first second : Opened) (content old : List ℕ) {w : Bool} {s : State}
    → main_start argc block src first second content old ≡ copy w s
    → (0 < s.block_size)
      × (s ≡ fresh s.block_size content s.old)
      × (argc ≡ 3 → s.block_size ≡ 128)
      × (argc ≡ 4 → pos s.block_size ≡ block)
      × (w ≡ true → s.old ≡ old)
      × (w ≡ false → s.old ≡ [])
unfolding main_start
main_start-copy argc block src first second content old h = ground arith

-- The destination is opened without O_TRUNC: if it held more bytes than the source, it is not
-- equal to the source after the copy.
pub file_after-ne-source :
    {block k : ℕ} {content held : List ℕ} {s : State}
    → 0 < block
    → length content < length held
    → Reach block content held s finished k
    → file_after s ≢ content
file_after-ne-source {content} {held} {s} positive longer r e = omega (
  arith,
  ap length (sym (file_after-finished positive r) ∙ e),
  length-append content (drop (length content) held),
  length-drop (length content) held,
)
