-- ===== src/ChatFifo/Roles.antt =====
-- The two processes of a chat, and families indexed by them.
pub data Role : Type 0 where
  accept_side connect_side : Role

abbrev pub other : Role → Role
other accept_side = connect_side
other connect_side = accept_side

module _ {ℓ} {A : Type ℓ} where
  -- The entry of `r` becomes `new`.
  abbrev pub put : (Role → A) → Role → A → Role → A
  put entries accept_side new accept_side = new
  put entries accept_side new connect_side = entries connect_side
  put entries connect_side new accept_side = entries accept_side
  put entries connect_side new connect_side = new

abbrev pub put_end {ℓ} : {A : Type ℓ} → (Role → Role → A) → Role → Role → A → Role → Role → A
put_end ends f r new = put ends f (put (ends f) r new)

module _ {ℓ κ ι} {A : Type ℓ} {B : Type κ} (P : Role → A → B → Type ι) where
  -- What holds of the two entries written at `r`, and of the others as they were.
  pub put-both :
      (xs : Role → A) (ys : Role → B) (r : Role) (a : A) (b : B)
      → P r a b
      → ((q : Role) → P q (xs q) (ys q))
      → (q : Role) → P q (put xs r a q) (put ys r b q)
  put-both xs ys accept_side a b one all accept_side = one
  put-both xs ys accept_side a b one all connect_side = all connect_side
  put-both xs ys connect_side a b one all accept_side = all accept_side
  put-both xs ys connect_side a b one all connect_side = one

  -- The same where the first family is read at the other role.
  pub put-across :
      (xs : Role → A) (ys : Role → B) (r : Role) (a : A) (b : B)
      → P (other r) a b
      → ((q : Role) → P q (xs (other q)) (ys q))
      → (q : Role) → P q (put xs r a (other q)) (put ys (other r) b q)
  put-across xs ys accept_side a b one all accept_side = all accept_side
  put-across xs ys accept_side a b one all connect_side = one
  put-across xs ys connect_side a b one all accept_side = one
  put-across xs ys connect_side a b one all connect_side = all connect_side
