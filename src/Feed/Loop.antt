-- ===== src/Feed/Loop.antt =====
-- The parsers' `while (true)` over the objects of a message: a step takes the position to search from to
-- an object and the next position, and none leaves the loop.
use hl_maker_lighter_arb_cpp.Common.{
  ℕ, zero, suc, ◌+◌, ◌≤◌, ◌<◌, ◌≡◌, refl, sym, ap, inl, inr, Option, none, some, List, [], ◌∷◌,
  Option-cases, arith,
}

module _ {A : Type 0} where
  unfoldable pub collect : (ℕ → Option (A × ℕ)) → ℕ → ℕ → List A
  collect next zero p = []
  collect next (suc f) p = elim (next p) [ none ↦ [] | some (a, q) ↦ a ∷ collect next f q ]

  -- Every round moves on, and none goes on past the bound.
  abbrev pub MovesOn : (ℕ → Option (A × ℕ)) → ℕ → Type 0
  MovesOn next bound = (p q : ℕ) (a : A) → next p ≡ some (a, q) → (p < q) × (q ≤ bound)

  past_the_end :
      (next : ℕ → Option (A × ℕ)) (bound g p : ℕ)
      → MovesOn next bound
      → bound < p
      → collect next g p ≡ []
  unfolding collect
  past_the_end next bound zero p moves past = refl
  past_the_end next bound (suc g) p moves past = elim (Option-cases (next p)) [
    | inl stop ↦ rw (stop, collect)
    | inr ((a, q), on) ↦ let (lt, le) = moves p q a on in ground arith
  ]

  -- Fuel for the positions that are left is enough: more of it finds the same objects.
  pub collect_enough :
      (next : ℕ → Option (A × ℕ)) (bound f g p : ℕ)
      → MovesOn next bound
      → bound < p + f
      → bound < p + g
      → collect next f p ≡ collect next g p
  unfolding collect
  collect_enough next bound zero g p moves enough enough' =
      let none_left : [] ≡ collect next g p =
        sym (past_the_end next bound g p moves (omega (arith, enough))) in
      none_left
  collect_enough next bound (suc f) zero p moves enough enough' =
      past_the_end next bound (suc f) p moves (omega (arith, enough'))
  collect_enough next bound (suc f) (suc g) p moves enough enough' = elim (Option-cases (next p)) [
    | inl stop ↦ rw (stop, collect)
    | inr ((a, q), on) ↦
        let (lt, le) = moves p q a on in
        let rest =
          collect_enough next bound f g q moves (omega (arith, enough, lt))
            (omega (arith, enough', lt)) in
        rw (on, collect) (ap (λ more. a ∷ more) rest)
  ]
