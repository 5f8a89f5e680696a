-- ===== src/Ring.antt =====
-- The circular buffer as a window on the sequence of all the items ever stored in it.
use c_teaching.Prelude.{
  ℕ, zero, suc, ◌+◌, ◌%◌, ◌≤◌, ◌<◌, ◌≡◌, refl, ap, sym, ◌∙◌, length, get_or, set, take,
  length-append, get_or-set_self, get_or-set_ne, List, [], ◌∷◌, ◌++◌, arith, dec_lt,
}

module _ {ℓ} {A : Type ℓ} where
  pub get_or-append_left :
      (xs ys : List A) (i : ℕ) (d : A) → i < length xs → get_or (xs ++ ys) i d ≡ get_or xs i d
  get_or-append_left [] ys i d h = absurd (omega arith)
  get_or-append_left (x ∷ xs) ys zero d h = refl
  get_or-append_left (x ∷ xs) ys (suc i) d h = get_or-append_left xs ys i d (omega arith)

  pub get_or-append_last : (xs : List A) (x d : A) → get_or (xs ++ x ∷ []) (length xs) d ≡ x
  get_or-append_last [] x d = refl
  get_or-append_last (y ∷ xs) x d = get_or-append_last xs x d

  pub take-append_left : (n : ℕ) (xs ys : List A) → n ≤ length xs → take n (xs ++ ys) ≡ take n xs
  take-append_left zero xs ys h = refl
  take-append_left (suc n) [] ys h = absurd (omega arith)
  take-append_left (suc n) (x ∷ xs) ys h = ap (λ l. x ∷ l) (take-append_left n xs ys (omega arith))

  pub take-suc :
      (n : ℕ) (xs : List A) (d : A)
      → n < length xs
      → take (suc n) xs ≡ take n xs ++ get_or xs n d ∷ []
  take-suc n [] d h = absurd (omega arith)
  take-suc zero (x ∷ xs) d h = refl
  take-suc (suc n) (x ∷ xs) d h = ap (λ l. x ∷ l) (take-suc n xs d (omega arith))

  -- `buf` holds the items of `all` from the `r`-th on, each at its number modulo 128.
  abbrev pub Holds : A → List A → List A → ℕ → Type ℓ
  Holds d buf all r = (i : ℕ) → r ≤ i → i < length all → get_or buf (i % 128) d ≡ get_or all i d

  -- A store at the index after the last item keeps the window, if fewer than 128 items are in it.
  pub Holds-store :
      (d : A) (buf all : List A) (r w : ℕ) (v : A)
      → length buf ≡ 128
      → w ≡ length all % 128
      → length all < 128 + r
      → Holds d buf all r
      → Holds d (set buf w v) (all ++ v ∷ []) r
  Holds-store d buf all r w v len at room h i lo hi = elim (dec_lt i (length all)) [
    | yes old ↦
        get_or-set_ne buf {i = w} {j = i % 128} v d (λ e. absurd (omega arith))
        ∙ h i lo old
        ∙ sym (get_or-append_left all (v ∷ []) i d old)
    | no new ↦
        let e : i ≡ length all = omega (arith, length-append {ℓ} {A = A} all (v ∷ [])) in
        rw e
          (rw (← at) (get_or-set_self buf w v d (omega arith) ∙ sym (get_or-append_last all v d)))
  ]

  -- Taking an item leaves the window on the later ones.
  pub Holds-take :
      (d : A) (buf all : List A) (r r' : ℕ) → r ≤ r' → Holds d buf all r → Holds d buf all r'
  Holds-take d buf all r r' le h i lo hi = h i (omega arith) hi
