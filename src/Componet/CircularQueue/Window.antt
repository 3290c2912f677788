-- ===== src/Componet/CircularQueue/Window.antt =====
-- The items in a stretch of cells that goes round, under a write (water/componet/circular_queue.h).
use casual_game.Prelude.{
  ℕ, zero, suc, ◌+◌, ◌-◌, ◌%◌, ◌≤◌, ◌<◌, ◌≡◌, ◌≢◌, ◌∙◌, refl, sym, ap, inl, inr, some, List, [],
  ◌∷◌, ◌++◌, length, length-set, get_elem?, get_or, set, ltb, Bool-cases, arith,
}
use native.Mathlib.Nat.{mod-add-mod, mod-eq_of_lt, mod-eq-sub-mod, add-zero}

module _ {T : Type 0} (blank : T) where
  -- The `n` items from cell `i` on, going round.
  abbrev pub items_from : List T → ℕ → ℕ → List T
  items_from cells i zero = []
  items_from cells i (suc n) = get_or cells i blank ∷ items_from cells ((i + 1) % length cells) n

  pub length-items_from : (cells : List T) (i n : ℕ) → length (items_from cells i n) ≡ n
  length-items_from cells i zero = refl
  length-items_from cells i (suc n) = ap suc (length-items_from cells ((i + 1) % length cells) n)

  get_or-set_self : (xs : List T) (i : ℕ) (v : T) → i < length xs → get_or (set xs i v) i blank ≡ v
  get_or-set_self [] i v h = absurd (omega arith)
  get_or-set_self (x ∷ xs) zero v h = refl
  get_or-set_self (x ∷ xs) (suc i) v h = get_or-set_self xs i v (omega arith)

  get_or-set_ne :
      (xs : List T) (i j : ℕ) (v : T) → i ≢ j → get_or (set xs i v) j blank ≡ get_or xs j blank
  get_or-set_ne [] i j v h = refl
  get_or-set_ne (x ∷ xs) zero zero v h = absurd (h refl)
  get_or-set_ne (x ∷ xs) zero (suc j) v h = refl
  get_or-set_ne (x ∷ xs) (suc i) zero v h = refl
  get_or-set_ne (x ∷ xs) (suc i) (suc j) v h = get_or-set_ne xs i j v (λ e. h (ap suc e))

  pub get_elem?-get_or :
      (xs : List T) (i : ℕ) → i < length xs → get_elem? xs i ≡ some (get_or xs i blank)
  get_elem?-get_or [] i h = absurd (omega arith)
  get_elem?-get_or (x ∷ xs) zero h = refl
  get_elem?-get_or (x ∷ xs) (suc i) h = get_elem?-get_or xs i (omega arith)

  -- Fewer steps than there are cells do not come back to the start.
  around-ne : (c h k : ℕ) → h < c → suc k < c → (h + suc k) % c ≢ h
  around-ne c h k p q = elim (Bool-cases (ltb (h + suc k) c)) [
    | inl y ↦ let lt : h + suc k < c = ground (arith, y) in omega (arith, mod-eq_of_lt lt)
    | inr n ↦
        let le : c ≤ h + suc k = ground (arith, n) in
        omega (
          arith,
          mod-eq-sub-mod {n = h + suc k} {m = c} le,
          mod-eq_of_lt {n = h + suc k - c} {m = c} (omega arith),
        )
  ]

  -- A write in front of the window leaves it alone; one just behind it makes it longer.
  pub items_from-set_behind :
      (cells : List T) (x : T) (n i j : ℕ)
      → i < length cells
      → n < length cells
      → j ≡ (i + n) % length cells
      → items_from (set cells j x) i (suc n) ≡ items_from cells i n ++ x ∷ []
  items_from-set_behind cells x zero i j p q e =
      let here : j ≡ i = e ∙ ap (λ k. k % length cells) (add-zero i) ∙ mod-eq_of_lt p in
      rw (here, get_or-set_self cells i x p) refl
  items_from-set_behind cells x (suc n) i j p q e =
      let other : j ≢ i = λ k. around-ne (length cells) i n p q (sym e ∙ k) in
      let shift : (i + suc n) % length cells ≡ ((i + 1) % length cells + n) % length cells =
        rw mod-add-mod (ap (λ k. k % length cells) (omega arith)) in
      let ih =
        items_from-set_behind cells x n ((i + 1) % length cells) j (omega arith) (omega arith)
          (e ∙ shift) in
      rw (get_or-set_ne cells j i x other, length-set cells j x)
        (ap (λ l. get_or cells i blank ∷ l) (rw (length-set cells j x) at ih))

  pub items_from-set_outside :
      (cells : List T) (x : T) (n h k i : ℕ)
      → i < length cells
      → h ≡ (i + suc k) % length cells
      → k + n < length cells
      → items_from (set cells i x) h n ≡ items_from cells h n
  items_from-set_outside cells x zero h k i p e q = refl
  items_from-set_outside cells x (suc n) h k i p e q =
      let other : i ≢ h = λ z. around-ne (length cells) i k p (omega arith) (sym e ∙ sym z) in
      let shift : (h + 1) % length cells ≡ (i + suc (suc k)) % length cells =
        rw (e, mod-add-mod) (ap (λ m. m % length cells) (omega arith)) in
      let ih =
        items_from-set_outside cells x n ((h + 1) % length cells) (suc k) i p shift (omega arith) in
      rw (get_or-set_ne cells i h x other, length-set cells i x)
        (ap (λ l. get_or cells h blank ∷ l) ih)
