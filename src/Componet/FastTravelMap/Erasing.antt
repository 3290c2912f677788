-- ===== src/Componet/FastTravelMap/Erasing.antt =====
-- Erasing from a map: the last pair takes the place of the one that goes
-- (water/componet/fast_travel_unordered_map.h).
use casual_game.Prelude.{
  ℕ, ◌-◌, ◌<◌, ◌≡◌, ◌≢◌, ◌∙◌, refl, sym, ap, inl, inr, true, false, none, some, length, get_elem?,
  ◌==◌, if◌then◌else◌, Bool-cases, arith, get_elem?-inside,
}
use casual_game.Componet.FastTravelMap.{FastTravelMap}
use casual_game.Componet.FastTravelMap.Places.{IsValid, same_place, same_key, differs, some_inj}

-- The pair stands in the vector.
abbrev pub Holds : {A : Type 0} → FastTravelMap A → ℕ → A → Type 0
Holds m k v = (i : ℕ) × (get_elem? m.vec i ≡ some (k, v))

module _ {A : Type 0} (m : FastTravelMap A) (s : IsValid m) (k i l : ℕ) (u w : A)
    (at : get_elem? m.vec i ≡ some (k, u))
    (at_last : get_elem? m.vec (length m.vec - 1) ≡ some (l, w)) where
  -- A map in which the last pair has gone to place `i`.
  pub record Moved (m' : FastTravelMap A) : Type 0 where
    pub short : length m'.vec ≡ length m.vec - 1
    pub places :
        (p : ℕ)
        → p < length m.vec - 1
        → get_elem? m'.vec p ≡ (if p == i then some (l, w) else get_elem? m.vec p)
    pub index_is :
        (j : ℕ) → m'.index j ≡ (if j == k then none else if j == l then some i else m.index j)

  key_place : m.index k ≡ some i
  key_place = s.known k i u at

  last_place : m.index l ≡ some (length m.vec - 1)
  last_place = s.known l (length m.vec - 1) w at_last

  module _ (m' : FastTravelMap A) (d : Moved m') where
    hole_inside : l ≢ k → i < length m.vec - 1
    hole_inside other =
        let inside = get_elem?-inside m.vec i at in
        elim (Bool-cases (i == length m.vec - 1)) [
          | inl y ↦
              let here : i ≡ length m.vec - 1 = ground (arith, y) in
              absurd (other (same_key at_last (rw here at at)).0)
          | inr n ↦ ground (arith, n, inside)
        ]

    -- The last pair stands at place `i`, and what stood elsewhere stays.
    last_at_hole : l ≢ k → get_elem? m'.vec i ≡ some (l, w)
    last_at_hole other =
        let self : (i == i) ≡ true = ground arith in d.places i (hole_inside other) ∙ rw self refl

    stays :
        (j p : ℕ) (v : A)
        → j ≢ k
        → j ≢ l
        → get_elem? m.vec p ≡ some (j, v)
        → get_elem? m'.vec p ≡ some (j, v)
    stays j p v not_k not_l h =
        let not_i : p ≢ i = λ (q : p ≡ i). not_k (same_key h (rw (← q) at at)).0 in
        let not_last : p ≢ length m.vec - 1 =
          λ (q : p ≡ length m.vec - 1). not_l (same_key h (rw (← q) at at_last)).0 in
        let apart : (p == i) ≡ false = ground (arith, not_i) in
        d.places p (omega (arith, get_elem?-inside m.vec p h, not_last)) ∙ rw apart h

    -- What stands in the vector afterwards stood there, and its key has its place.
    Moved-known : (j p : ℕ) (v : A) → get_elem? m'.vec p ≡ some (j, v) → m'.index j ≡ some p
    Moved-known j p v h =
        let inside = get_elem?-inside m'.vec p h in
        let here : (if p == i then some (l, w) else get_elem? m.vec p) ≡ some (j, v) =
          sym (d.places p (omega (arith, inside, d.short))) ∙ h in
        elim (Bool-cases (p == i)) [
          | inl y ↦
              let at_hole : i ≡ p = ground (arith, y) in
              let key : l ≡ j = (same_key refl (rw y at here)).0 in
              let not_k : (j == k) ≡ false = differs m.index (λ (q : m.index j ≡ m.index k).
                absurd (
                  omega (
                    arith,
                    inside,
                    d.short,
                    at_hole,
                    some_inj (sym last_place ∙ ap m.index key ∙ q ∙ key_place),
                  ))) in
              let is_l : (j == l) ≡ true = ground (arith, key) in
              d.index_is j ∙ rw (not_k, is_l) (ap some at_hole)
          | inr n ↦
              let place : m.index j ≡ some p = s.known j p v (rw n at here) in
              let not_k : (j == k) ≡ false = differs m.index (λ (q : m.index j ≡ m.index k).
                absurd (ground (arith, n, some_inj (sym place ∙ q ∙ key_place)))) in
              let not_l : (j == l) ≡ false = differs m.index (λ (q : m.index j ≡ m.index l).
                absurd (omega (arith, inside, d.short, some_inj (sym place ∙ q ∙ last_place)))) in
              d.index_is j ∙ rw (not_k, not_l) place
        ]

    Moved-there : (j p : ℕ) → m'.index j ≡ some p → (v : A) × (get_elem? m'.vec p ≡ some (j, v))
    Moved-there j p h =
        let here : (if j == k then none else if j == l then some i else m.index j) ≡ some p =
          sym (d.index_is j) ∙ h in
        elim (Bool-cases (j == k)) [
          | inl y ↦ absurd (cc (rw y at here))
          | inr n ↦ elim (Bool-cases (j == l)) [
            | inl y ↦
                let place : i ≡ p = some_inj (rw (n, y) at here) in
                let key : l ≡ j = ground (arith, y) in
                (
                  w,
                  rw (← place, ← key)
                      (last_at_hole (λ (q : l ≡ k). absurd (ground (arith, n, q, key)))),
                )
            | inr y ↦
                let (v, stood) = s.there j p (rw (n, y) at here) in
                (
                  v,
                  stays j p v (λ (q : j ≡ k). absurd (ground (arith, n, q)))
                      (λ (q : j ≡ l). absurd (ground (arith, y, q))) stood,
                )
          ]
        ]

    -- Every other pair stays.
    pub Moved-kept : (j p : ℕ) (v : A) → j ≢ k → get_elem? m.vec p ≡ some (j, v) → Holds m' j v
    Moved-kept j p v other h = elim (Bool-cases (j == l)) [
      | inl y ↦
          let key : j ≡ l = ground (arith, y) in
          let place : p ≡ length m.vec - 1 = same_place s h (rw (← key) at at_last) in
          let same : w ≡ v = (same_key (rw (← place) at at_last) h).1 in
          (i, rw (key, ← same) (last_at_hole (λ (q : l ≡ k). other (key ∙ q))))
      | inr n ↦ (p, stays j p v other (λ (q : j ≡ l). absurd (ground (arith, n, q))) h)
    ]

    pub Moved-IsValid : IsValid m'
    Moved-IsValid = record { there = Moved-there; known = Moved-known }

    pub Moved-gone : m'.index k ≡ none
    Moved-gone = let self : (k == k) ≡ true = ground arith in d.index_is k ∙ rw self refl

    pub Moved-absent : (j : ℕ) → m.index j ≡ none → m'.index j ≡ none
    Moved-absent j h =
        let not_l : (j == l) ≡ false =
          differs m.index (λ (q : m.index j ≡ m.index l). cc (sym h ∙ q ∙ last_place)) in
        d.index_is j ∙ rw (not_l, h) (ground arith)
