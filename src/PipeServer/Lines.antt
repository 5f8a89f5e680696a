-- ===== src/PipeServer/Lines.antt =====
-- The lines of one thread among all that are printed, and those that a thread has printed when it
-- stands at a call.
use c_teaching.Prelude.{
  ℕ, ◌≡◌, ◌==◌, refl, ap, sym, ◌∙◌, if◌then◌else◌, Bool-cases, inl, inr, Bool, true, false, Option,
  none, some, List, [], ◌∷◌, ◌++◌, append-nil, append_assoc,
}
use c_teaching.PipeServer.{
  Line, Thread, absent, created, announcing, handling, leaving, freeing, Texts,
}

abbrev pub text_of : List Line → List ℕ
text_of [] = []
text_of (l ∷ ls) = l.text ++ text_of ls

pub text_of-snoc : (ls : List Line) (l : Line) → text_of (ls ++ l ∷ []) ≡ text_of ls ++ l.text
text_of-snoc [] l = append-nil l.text
text_of-snoc (x ∷ ls) l =
    ap (λ k. x.text ++ k) (text_of-snoc ls l) ∙ sym (append_assoc x.text (text_of ls) l.text)

abbrev pub is_by : ℕ → Option ℕ → Bool
is_by i none = false
is_by i (some j) = i == j

abbrev pub own : ℕ → List Line → List (List ℕ)
own i [] = []
own i (l ∷ ls) = if is_by i l.author then l.text ∷ own i ls else own i ls

-- A line by the thread, and one by another.
pub own-snoc :
    (i : ℕ) (ls : List Line) (l : Line)
    → is_by i l.author ≡ true
    → own i (ls ++ l ∷ []) ≡ own i ls ++ l.text ∷ []
own-snoc i [] l by = rw by refl
own-snoc i (x ∷ ls) l by = elim (Bool-cases (is_by i x.author)) [
  | inl mine ↦ rw mine (ap (λ k. x.text ∷ k) (own-snoc i ls l by))
  | inr not_mine ↦ rw not_mine (own-snoc i ls l by)
]

pub own-snoc_other :
    (i : ℕ) (ls : List Line) (l : Line) → is_by i l.author ≡ false → own i (ls ++ l ∷ []) ≡ own i ls
own-snoc_other i [] l by = rw by refl
own-snoc_other i (x ∷ ls) l by = elim (Bool-cases (is_by i x.author)) [
  | inl mine ↦ rw mine (ap (λ k. x.text ∷ k) (own-snoc_other i ls l by))
  | inr not_mine ↦ rw not_mine (own-snoc_other i ls l by)
]

-- What the thread `i` has printed.
abbrev pub printed_at : Texts → ℕ → Thread → List (List ℕ)
printed_at texts i absent = []
printed_at texts i (created p) = []
printed_at texts i (announcing p a) = []
printed_at texts i (handling p a h pc) = texts.handles i a ∷ []
printed_at texts i (leaving p a h) = texts.handles i a ∷ []
printed_at texts i (freeing p a h) = texts.handles i a ∷ texts.closes i a ∷ []
printed_at texts i (Thread.done a) = texts.handles i a ∷ texts.closes i a ∷ []
printed_at texts i (Thread.reporting a) = texts.handles i a ∷ []
printed_at texts i (Thread.killing a text) = texts.handles i a ∷ text ∷ []
printed_at texts i (Thread.exiting a text) = texts.handles i a ∷ text ∷ []
