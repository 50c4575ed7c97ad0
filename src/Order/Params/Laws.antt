-- ===== src/Order/Params/Laws.antt =====
-- The close conditions of an order.
use ea31337_fft.Prelude.{
  ℕ, zero, suc, ◌+◌, ◌≤◌, ◌<◌, ◌≡◌, refl, ap, ◌∙◌, arith, true, false, Bool-cases, inl, inr, none,
  some, List, [], ◌∷◌, ◌++◌, length, get_elem?, set, ltb, leb, ◌==◌, if◌then◌else◌,
}
use ea31337_fft.Order.Params.{
  CloseCond, set_condition_close, resize_conds, set_condition, set_condition_args,
}

module _ {A : Type 0} where
  at_end : (xs : List A) (x : A) → get_elem? (xs ++ x ∷ []) (length xs) ≡ some x
  at_end [] x = refl
  at_end (y ∷ ys) x = at_end ys x

  set_at_end : (xs : List A) (x y : A) → set (xs ++ x ∷ []) (length xs) y ≡ xs ++ y ∷ []
  set_at_end [] x y = refl
  set_at_end (z ∷ zs) x y = ap (λ ys. z ∷ ys) (set_at_end zs x y)

  past_end : (xs : List A) (i : ℕ) → length xs ≤ i → get_elem? xs i ≡ none
  past_end [] i h = refl
  past_end (x ∷ xs) zero h = absurd (omega arith)
  past_end (x ∷ xs) (suc i) h = past_end xs i (omega arith)

  within : (xs : List A) (i : ℕ) → i < length xs → (x : A) × (get_elem? xs i ≡ some x)
  within [] i h = absurd (omega arith)
  within (x ∷ xs) zero h = (x, refl)
  within (x ∷ xs) (suc i) h = within xs i (omega arith)

  length-append_one : (xs : List A) (x : A) → length (xs ++ x ∷ []) ≡ length xs + 1
  length-append_one [] x = refl
  length-append_one (y ∷ ys) x = omega (arith, length-append_one ys x)

beyond : (a b : ℕ) → ltb a b ≡ false → (a == b) ≡ false → b + 1 ≤ a
beyond a b h k = ground (arith, h, k)

module _ {D : Type 0} (fresh : CloseCond D) (cond : ℕ) (args : List D) (index : ℕ)
    (xs : List (CloseCond D)) where
  abbrev new : CloseCond D
  new = record { cond = cond; cond_args = args }

  set_there :
      {x : CloseCond D}
      → get_elem? (resize_conds fresh index xs) index ≡ some x
      → set_condition_close fresh cond args index xs
        ≡ some (set (resize_conds fresh index xs) index new)
  unfolding set_condition_close set_condition set_condition_args
  set_there g = rw (g, set_condition_close) refl

  set_resized :
      (ys : List (CloseCond D)) {x : CloseCond D}
      → resize_conds fresh index xs ≡ ys
      → get_elem? ys index ≡ some x
      → set_condition_close fresh cond args index xs ≡ some (set ys index new)
  set_resized ys r g =
      set_there (ap (λ z. get_elem? z index) r ∙ g) ∙ ap (λ z. some (set z index new)) r

  past_resized :
      (ys : List (CloseCond D))
      → resize_conds fresh index xs ≡ ys
      → get_elem? ys index ≡ none
      → set_condition_close fresh cond args index xs ≡ none
  unfolding set_condition_close
  past_resized ys r g = rw (r, set_condition_close, g) refl

  resize_within : leb (length xs) index ≡ false → resize_conds fresh index xs ≡ xs
  unfolding resize_conds
  resize_within short = rw short refl

  resize_past : leb (length xs) index ≡ true → resize_conds fresh index xs ≡ xs ++ fresh ∷ []
  unfolding resize_conds
  resize_past long = rw long refl

  -- SetConditionClose replaces the condition at an index that there is, and appends one at the index
  -- after the last; at every later index it writes past the end of the array, which it has made one
  -- longer only.
  pub set_condition_close_lem : set_condition_close fresh cond args index xs ≡ (
      if ltb index (length xs)
      then some (set xs index new)
      else if index == length xs
      then some (xs ++ new ∷ [])
      else none)
  set_condition_close_lem = elim (Bool-cases (ltb index (length xs))) [
    | inl lt ↦
        let (x, here) = within xs index (ground (arith, lt)) in
        rw lt (set_resized xs (resize_within (ground (arith, lt))) here)
    | inr ge ↦
        let longer = resize_past (ground (arith, ge)) in
        elim (Bool-cases (index == length xs)) [
          | inl e ↦
              let same : index ≡ length xs = ground (arith, e) in
              let here : get_elem? (xs ++ fresh ∷ []) index ≡ some fresh =
                rw same (at_end xs fresh) in
              let last : set (xs ++ fresh ∷ []) index new ≡ xs ++ new ∷ [] =
                rw same (set_at_end xs fresh new) in
              rw (ge, e) (set_resized (xs ++ fresh ∷ []) longer here ∙ ap some last)
          | inr ne ↦
              let far : length (xs ++ fresh ∷ []) ≤ index =
                omega (arith, length-append_one xs fresh, beyond index (length xs) ge ne) in
              rw (ge, ne) (past_resized _ longer (past_end (xs ++ fresh ∷ []) index far))
        ]
  ]
