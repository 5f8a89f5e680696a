-- ===== src/Chat/Args.antt =====
-- main() of chat-socket.c: what the command line asks for.
use c_teaching.Prelude.{
  ℕ, ◌-◌, ◌%◌, ◌^◌, ◌≤◌, ◌≡◌, ◌↔◌, refl, sym, ap, ◌||◌, not, true, false, ◌∙◌, if◌then◌else◌,
  same_bytes, same_bytes→eq, same_bytes_refl, Bool, Bool-cases, inl, inr, List, [], ◌∷◌, arith,
}
use c_teaching.Prelude.Int.{ℤ, pos, negsuc, ltb_ℤ}

-- What main() does: the syntax message, the message on the port, listenOnPort() or connectTo(),
-- each with its arguments in network byte order.
pub data Command : Type 0 where
  syntax_error bad_port : Command
  listen_on_port : (port : ℕ) → Command
  connect_to : (address port : ℕ) → Command

abbrev pub accept_word : List ℕ
accept_word = b'a' ∷ b'c' ∷ b'c' ∷ b'e' ∷ b'p' ∷ b't' ∷ []

abbrev pub connect_word : List ℕ
connect_word = b'c' ∷ b'o' ∷ b'n' ∷ b'n' ∷ b'e' ∷ b'c' ∷ b't' ∷ []

-- `(uint16_t)tmp`, for a `tmp` of at least 0.
abbrev pub to_u16 : ℤ → ℕ
to_u16 (pos n) = n % 2 ^ 16
to_u16 (negsuc n) = (2 ^ 16 - 1 - n % 2 ^ 16) % 2 ^ 16

-- `tmp < 1024 || tmp > 49151`
abbrev pub port_refused : ℤ → Bool
port_refused tmp = ltb_ℤ tmp (pos 1024) || ltb_ℤ (pos 49151) tmp

port_range : (t : ℤ) → port_refused t ≡ false → (n : ℕ) × (t ≡ pos n) × (1024 ≤ n) × (n ≤ 49151)
port_range (pos n) h = (n, refl, ground arith, ground arith)
port_range (negsuc n) h = absurd (ground arith)

port_fits : (n : ℕ) → 1024 ≤ n → n ≤ 49151 → port_refused (pos n) ≡ false
port_fits n lo hi = ground arith

to_u16_lem : (n : ℕ) → n ≤ 49151 → to_u16 (pos n) ≡ n
to_u16_lem n hi = omega arith

-- The library calls of main(): htons(), strtol() and inet_addr().
module _ (htons : ℕ → ℕ) (strtol : List ℕ → ℤ) (inet_addr : List ℕ → ℕ) where
  -- argv, whose first entry is the program's name; each entry is the bytes of a C string.
  unfoldable pub main : List (List ℕ) → Command
  main (name ∷ word ∷ port ∷ []) =
      if not (same_bytes word accept_word)
      then syntax_error
      else if port_refused (strtol port)
      then bad_port
      else listen_on_port (htons (to_u16 (strtol port)))
  main (name ∷ word ∷ address ∷ port ∷ []) =
      if not (same_bytes word connect_word)
      then syntax_error
      else if port_refused (strtol port)
      then bad_port
      else connect_to (inet_addr address) (htons (to_u16 (strtol port)))
  main argv = syntax_error

  -- With two arguments the program listens exactly if the first is "accept" and the second a
  -- number from 1024 to 49151; the cast to uint16_t keeps that number.
  pub main-listen :
      (name word port : List ℕ) (p : ℕ)
      → (main (name ∷ word ∷ port ∷ []) ≡ listen_on_port p) ↔ (
          (n : ℕ) × (word ≡ accept_word)
          × (strtol port ≡ pos n)
          × (1024 ≤ n)
          × (n ≤ 49151)
          × (htons n ≡ p))
  unfolding main
  main-listen name word port p = (
    λ e. elim (Bool-cases (same_bytes word accept_word)) [
      | inr other ↦ absurd (refused other e)
      | inl same ↦ elim (Bool-cases (port_refused (strtol port))) [
        | inl bad ↦ absurd (out_of_range same bad e)
        | inr good ↦
            let (n, at, lo, hi) = port_range (strtol port) good in
            (
              n,
              same_bytes→eq word accept_word same,
              at,
              lo,
              hi,
              ap htons (sym (ap to_u16 at ∙ to_u16_lem n hi)) ∙ listened same good e,
            )
      ]
    ],
    λ x.
        rw (x.1, x.2, same_bytes_refl accept_word, port_fits x.0 x.3 x.4, to_u16_lem x.0 x.4)
          (ap listen_on_port x.5),
  )
    where
      refused :
          same_bytes word accept_word ≡ false
          → main (name ∷ word ∷ port ∷ []) ≡ listen_on_port p
          → ⊥
      refused other e = ground arith

      out_of_range :
          same_bytes word accept_word ≡ true
          → port_refused (strtol port) ≡ true
          → main (name ∷ word ∷ port ∷ []) ≡ listen_on_port p
          → ⊥
      out_of_range same bad e = let h = rw (same, bad) at e in ground arith

      listened :
          same_bytes word accept_word ≡ true
          → port_refused (strtol port) ≡ false
          → main (name ∷ word ∷ port ∷ []) ≡ listen_on_port p
          → htons (to_u16 (strtol port)) ≡ p
      listened same good e = let h = rw (same, good) at e in cc
