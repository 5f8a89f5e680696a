-- ===== src/Threads.antt =====
-- Families indexed by thread: a write at one index, weighted counts over the first `n` threads.
use c_teaching.Prelude.{
  ℕ, zero, suc, ◌+◌, ◌*◌, ◌≤◌, ◌<◌, ◌≡◌, refl, ◌≢◌, arith, dec_lt, ◌==◌, if◌then◌else◌, true, false,
  Bool-cases, inl, inr, subst,
}

-- What the thread `me` holds becomes `new`.
abbrev pub update {ℓ} : {A : Type ℓ} → (ℕ → A) → ℕ → A → ℕ → A
update threads me new j = if j == me then new else threads j

module _ {ℓ} {A : Type ℓ} (w : A → ℕ) where
  unfoldable pub total : ℕ → (ℕ → A) → ℕ
  total zero threads = 0
  total (suc n) threads = w (threads n) + total n threads

  -- A thread out of range does not count.
  pub total-update_ge :
      (n : ℕ) (threads : ℕ → A) (me : ℕ) (new : A)
      → n ≤ me
      → total n (update threads me new) ≡ total n threads
  unfolding total
  total-update_ge zero threads me new h = refl
  total-update_ge (suc n) threads me new h = ground (arith, total-update_ge n threads me new)

  pub total-update :
      (n : ℕ) (threads : ℕ → A) (me : ℕ) (new : A)
      → me < n
      → total n (update threads me new) + w (threads me) ≡ total n threads + w new
  unfolding total
  total-update zero threads me new h = elim h [ ]
  total-update (suc n) threads me new h = elim (dec_lt me n) [
    | yes p ↦ ground (arith, total-update n threads me new p)
    | no p ↦ ground (arith, total-update_ge n threads me new)
  ]

  pub total-const : (n : ℕ) (new : A) → w new ≡ 0 → total n (λ _. new) ≡ 0
  unfolding total
  total-const zero new h = refl
  total-const (suc n) new h = omega (arith, total-const n new h)

  -- Each thread's weight is part of the total.
  pub le-total : (n : ℕ) (threads : ℕ → A) (me : ℕ) → me < n → w (threads me) ≤ total n threads
  unfolding total
  le-total zero threads me h = elim h [ ]
  le-total (suc n) threads me h = elim (dec_lt me n) [
    | yes p ↦ omega (arith, le-total n threads me p)
    | no p ↦ ground arith
  ]

  -- So are the weights of two threads together.
  pub pair-le-total :
      (n : ℕ) (threads : ℕ → A) (me j : ℕ)
      → me < n
      → j < n
      → me ≢ j
      → w (threads me) + w (threads j) ≤ total n threads
  unfolding total
  pair-le-total zero threads me j hi hj e = elim hi [ ]
  pair-le-total (suc n) threads me j hi hj e = elim (dec_lt me n) [
    | yes p ↦ elim (dec_lt j n) [
      | yes q ↦ omega (arith, pair-le-total n threads me j p q e)
      | no q ↦ ground (arith, le-total n threads me p)
    ]
    | no p ↦ ground (arith, le-total n threads j)
  ]

  -- A total that is not 0 is somebody's.
  pub total_pos :
      (n : ℕ) (threads : ℕ → A) → 0 < total n threads → (me : ℕ) × (me < n) × (0 < w (threads me))
  unfolding total
  total_pos zero threads h = elim h [ ]
  total_pos (suc n) threads h = elim (dec_lt 0 (w (threads n))) [
    | yes p ↦ (n, omega arith, p)
    | no p ↦ let (me, hi, pos_w) = total_pos n threads (omega arith) in (me, omega arith, pos_w)
  ]

-- Weights that stay below another one, thread by thread, do so in total.
pub total-add-le {ℓ} :
    {A : Type ℓ} (w v u : A → ℕ)
    → ((new : A) → w new + v new ≤ u new)
    → (n : ℕ) (threads : ℕ → A) → total w n threads + total v n threads ≤ total u n threads
unfolding total
total-add-le w v u le zero threads = omega arith
total-add-le w v u le (suc n) threads =
    omega (arith, le (threads n), total-add-le w v u le n threads)

pub total-zero {ℓ} :
    {A : Type ℓ} (w : A → ℕ) (n : ℕ) (threads : ℕ → A)
    → ((me : ℕ) → me < n → w (threads me) ≡ 0)
    → total w n threads ≡ 0
unfolding total
total-zero w zero threads h = refl
total-zero w (suc n) threads h =
    omega (arith, h n (omega arith), total-zero w n threads (λ me lt. h me (omega arith)))

-- Weights that agree thread by thread have the same total.
pub total-same {ℓ} :
    {A : Type ℓ} (w v : A → ℕ) (n : ℕ) (threads : ℕ → A)
    → ((me : ℕ) → me < n → w (threads me) ≡ v (threads me))
    → total w n threads ≡ total v n threads
unfolding total
total-same w v zero threads h = refl
total-same w v (suc n) threads h =
    omega (arith, h n (omega arith), total-same w v n threads (λ me lt. h me (omega arith)))

module _ {ℓ} {A : Type ℓ} (w : A → ℕ) (m : ℕ) where
  -- Weights of at most `m`, and weights of exactly `m`.
  pub total-le-mul :
      (n : ℕ) (threads : ℕ → A) → ((me : ℕ) → w (threads me) ≤ m) → total w n threads ≤ n * m
  unfolding total
  total-le-mul zero threads h = omega arith
  total-le-mul (suc n) threads h = omega (arith, h n, total-le-mul n threads h)

  pub total-eq-mul :
      (n : ℕ) (threads : ℕ → A)
      → ((me : ℕ) → me < n → w (threads me) ≡ m)
      → total w n threads ≡ n * m
  unfolding total
  total-eq-mul zero threads h = omega arith
  total-eq-mul (suc n) threads h =
      omega (arith, h n (omega arith), total-eq-mul n threads (λ me lt. h me (omega arith)))

module _ {ℓ κ} {A : Type ℓ} (P : ℕ → A → Type κ) (threads : ℕ → A) (me : ℕ) (new : A) where
  -- What holds at the write, and everywhere else as before, holds everywhere.
  pub update-cases :
      P me new
      → ((i : ℕ) → (i == me) ≡ false → P i (threads i))
      → (i : ℕ) → P i (update threads me new i)
  update-cases one others i = elim (Bool-cases (i == me)) [
    | inl e ↦ rw e (subst (λ k. P k new) (same e) one)
    | inr ne ↦ rw ne (others i ne)
  ]
    where
      same : (i == me) ≡ true → me ≡ i
      same e = ground arith

  -- What holds of every thread still does if it holds of the one that is written.
  pub update-all : ((i : ℕ) → P i (threads i)) → P me new → (i : ℕ) → P i (update threads me new i)
  update-all all one = update-cases one (λ i ne. all i)

module _ {ℓ} {A : Type ℓ} (w : A → ℕ) (at_most : (new : A) → w new ≤ 1) where
  total-le : (n : ℕ) (threads : ℕ → A) → total w n threads ≤ n
  unfolding total
  total-le zero threads = omega arith
  total-le (suc n) threads = omega (arith, at_most (threads n), total-le n threads)

  -- If the weights are at most 1 and the total is full, each of them is 1.
  pub total-full :
      (n : ℕ) (threads : ℕ → A) → n ≤ total w n threads → (i : ℕ) → i < n → w (threads i) ≡ 1
  unfolding total
  total-full zero threads full i lt = absurd (omega arith)
  total-full (suc n) threads full i lt = elim (dec_lt i n) [
    | yes p ↦ total-full n threads (omega (arith, at_most (threads n))) i p
    | no p ↦
        let e : i ≡ n = omega arith in rw e (omega (arith, at_most (threads n), total-le n threads))
  ]
