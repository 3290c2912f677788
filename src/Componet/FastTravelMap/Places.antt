-- ===== src/Componet/FastTravelMap/Places.antt =====
-- The vector and the index of a map agree (water/componet/fast_travel_unordered_map.h).
use casual_game.Prelude.{
  ℕ, ◌-◌, ◌≡◌, ◌≢◌, ◌∙◌, refl, sym, ap, inl, inr, true, false, Option, none, some, [], ◌∷◌, ◌++◌,
  length, get_elem?, ltb, ◌==◌, if◌then◌else◌, Bool-cases, arith, length-append, get_elem?-inside,
  get_elem?-front, get_elem?-last,
}
use casual_game.Componet.FastTravelMap.{FastTravelMap, create, insert_at}

pub some_inj : {a b : ℕ} → some a ≡ some b → a ≡ b
some_inj e = cc e

pub differs : (f : ℕ → Option ℕ) {j k : ℕ} → f j ≢ f k → (j == k) ≡ false
differs f {j} {k} h = elim (Bool-cases (j == k)) [
  | inl y ↦ absurd (h (ap f (ground (arith, y))))
  | inr n ↦ n
]

module _ {A : Type 0} where
  pub record IsValid (m : FastTravelMap A) : Type 0 where
    pub there : (k i : ℕ) → m.index k ≡ some i → (v : A) × (get_elem? m.vec i ≡ some (k, v))
    pub known : (k i : ℕ) (v : A) → get_elem? m.vec i ≡ some (k, v) → m.index k ≡ some i

  -- A key stands at one place.
  pub same_place :
      {m : FastTravelMap A} (s : IsValid m) {k i j : ℕ} {v w : A}
      → get_elem? m.vec i ≡ some (k, v)
      → get_elem? m.vec j ≡ some (k, w)
      → i ≡ j
  same_place s {k} {i} {j} {v} {w} e e' = cc (sym (s.known k i v e) ∙ s.known k j w e')

  pub same_key :
      {k l : ℕ} {v w : A} {o : Option (ℕ × A)}
      → o ≡ some (k, v)
      → o ≡ some (l, w)
      → (k ≡ l) × (v ≡ w)
  same_key e e' = (cc (sym e ∙ e'), cc (sym e ∙ e'))

  pub create-IsValid : IsValid (create {A = A})
  unfolding create
  create-IsValid = record { there = λ k i e. cc e; known = λ k i v e. cc e }

  module _ (m : FastTravelMap A) (s : IsValid m) (k : ℕ) (v : A) (e : m.index k ≡ none) where
    last_place : length (m.vec ++ (k, v) ∷ []) - 1 ≡ length m.vec
    last_place = omega (arith, length-append m.vec ((k, v) ∷ []))

    pub insert_at-IsValid : IsValid (insert_at none k v m).0
    unfolding insert_at
    insert_at-IsValid = record { there = there'; known = known' }
      where
        there' :
            (j p : ℕ)
            → (if j == k then some (length (m.vec ++ (k, v) ∷ []) - 1) else m.index j) ≡ some p
            → (w : A) × (get_elem? (m.vec ++ (k, v) ∷ []) p ≡ some (j, w))
        there' j p h = elim (Bool-cases (j == k)) [
          | inl y ↦
              let here : length m.vec ≡ p = cc (ap some (sym last_place) ∙ rw y at h) in
              let key : k ≡ j = ground (arith, y) in
              (v, rw (← here, ← key) (get_elem?-last m.vec (k, v)))
          | inr n ↦
              let (w, at) = s.there j p (rw n at h) in
              (w, get_elem?-front m.vec ((k, v) ∷ []) p (get_elem?-inside m.vec p at) ∙ at)
        ]

        known' :
            (j p : ℕ) (w : A)
            → get_elem? (m.vec ++ (k, v) ∷ []) p ≡ some (j, w)
            → (if j == k then some (length (m.vec ++ (k, v) ∷ []) - 1) else m.index j) ≡ some p
        known' j p w h = elim (Bool-cases (ltb p (length m.vec))) [
          | inl y ↦
              let place : m.index j ≡ some p =
                s.known j p w
                  (sym (get_elem?-front m.vec ((k, v) ∷ []) p (ground (arith, y))) ∙ h) in
              let other : (j == k) ≡ false =
                differs m.index (λ (q : m.index j ≡ m.index k). cc (sym place ∙ q ∙ e)) in
              rw (other, place) refl
          | inr n ↦
              let here : length m.vec ≡ p = ground (
                arith,
                n,
                get_elem?-inside (m.vec ++ (k, v) ∷ []) p h,
                length-append m.vec ((k, v) ∷ []),
              ) in
              let (key, same) = same_key (get_elem?-last m.vec (k, v)) (rw (← here) at h) in
              let yes : (j == k) ≡ true = ground (arith, key) in rw (yes, last_place, here) refl
        ]
