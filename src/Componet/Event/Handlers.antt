-- ===== src/Componet/Event/Handlers.antt =====
-- Which handlers an event has after `reg` and `unreg` (water/componet/event.h).
use casual_game.Prelude.{
  ℕ, ◌+◌, ◌%◌, ◌^◌, ◌≡◌, ◌∙◌, refl, sym, ap, inl, inr, Bool, true, false, ◌||◌, ◌&&◌, Option, none,
  some, List, [], ◌∷◌, ◌++◌, length, ◌==◌, if◌then◌else◌, Bool-cases, arith, length-append,
}
use casual_game.Componet.FastTravelMap.{FastTravelMap, create, find, find_at, insert, insert_at}
use casual_game.Componet.FastTravelMap.Places.{IsValid, create-IsValid}
use casual_game.Componet.FastTravelMap.Refinement.{is_none, find-insert, find-erase}
use casual_game.Componet.Event.{Event, reg, unreg, handlers, raise}

module _ {H : Type 0} where
  find-create : (j : ℕ) → find j (create {A = H}) ≡ none
  unfolding create find find_at
  find-create j = refl

  -- With its vector and its index in step, an event loses by `unreg` the handler of the id and no other,
  -- where it has none or at least two; where it has one, it loses that one, whatever the id is.
  pub unreg-find :
      (e : Event H) (id : ℕ)
      → IsValid e.callbacks
      → IsValid (unreg id e).callbacks
        × ((j : ℕ)
            → find j (unreg id e).callbacks
              ≡ (if (length e.callbacks.vec == 1) || (j == id) then none else find j e.callbacks))
  unfolding unreg
  unreg-find e id v = elim (Bool-cases (length e.callbacks.vec == 1)) [
    | inl y ↦ rw y (create-IsValid, λ j. find-create j)
    | inr n ↦ rw n (find-erase e.callbacks v id)
  ]

  reg-insert :
      (e : Event H) (cb : H)
      → e.callbacks.index ((e.last_reg_id + 1) % 2 ^ 64) ≡ none
      → (reg cb e).0.callbacks ≡ (insert ((e.last_reg_id + 1) % 2 ^ 64) cb e.callbacks).0
  unfolding reg insert insert_at
  reg-insert e cb h = rw h refl

  handlers-append :
      (vec : List (ℕ × H)) (id : ℕ) (cb : H)
      → handlers (vec ++ (id, cb) ∷ []) ≡ handlers vec ++ cb ∷ []
  handlers-append [] id cb = refl
  handlers-append (p ∷ vec) id cb = ap (λ r. p.1 ∷ r) (handlers-append vec id cb)

  find-no_pairs : (m : FastTravelMap H) (j : ℕ) → (length m.vec + 1 == 1) ≡ true → find j m ≡ none
  unfolding find find_at
  find-no_pairs m j h = by_place m.vec (m.index j) h
    where
      by_place :
          (vec : List (ℕ × H)) (o : Option ℕ)
          → (length vec + 1 == 1) ≡ true
          → find_at o (record { vec = vec; index = m.index }) ≡ none
      by_place vec none h = refl
      by_place [] (some i) h = refl
      by_place (p ∷ vec) (some i) h = absurd (ground (arith, h))

  find-fresh : (m : FastTravelMap H) (id : ℕ) → m.index id ≡ none → find id m ≡ none
  unfolding find find_at
  find-fresh m id h = rw h refl

  -- The handler of an id through a `reg` and an `unreg`, from what each leaves.
  find_through :
      (few : Bool) (same : Bool) (cb : H) (old new last : Option H)
      → new ≡ (if same && true then some cb else old)
      → last ≡ (if few || same then none else new)
      → (same ≡ true → old ≡ none)
      → (few ≡ true → old ≡ none)
      → last ≡ old
  find_through true same cb old new last e f g k = f ∙ sym (k refl)
  find_through false true cb old new last e f g k = f ∙ sym (g refl)
  find_through false false cb old new last e f g k = f ∙ e

  -- With its vector and its index in step, and where the next id is not in use, an event calls a handler
  -- that it is given after those that it had, and taking that handler back leaves it as it was: valid,
  -- with the same handler for each id.
  pub unreg-reg :
      (e : Event H) (cb : H)
      → IsValid e.callbacks
      → e.callbacks.index ((e.last_reg_id + 1) % 2 ^ 64) ≡ none
      → (raise (reg cb e).0 ≡ raise e ++ cb ∷ [])
        × IsValid (unreg (reg cb e).1 (reg cb e).0).callbacks
        × ((j : ℕ) → find j (unreg (reg cb e).1 (reg cb e).0).callbacks ≡ find j e.callbacks)
  unfolding reg raise
  unreg-reg e cb v h =
      let id = (e.last_reg_id + 1) % 2 ^ 64 in
      let (v', _, found) = find-insert e.callbacks v id cb in
      let same = reg-insert e cb h in
      let (v'', left) = unreg-find (reg cb e).0 id (rw same v') in
      let none_yet : find id e.callbacks ≡ none = find-fresh e.callbacks id h in
      let found' : ((j : ℕ)
          → find j (insert id cb e.callbacks).0
            ≡ (if (j == id) && true then some cb else find j e.callbacks)) =
        λ j.
          found j
          ∙ ap (λ o. if (j == id) && is_none o then some cb else find j e.callbacks) none_yet in
      (
        handlers-append e.callbacks.vec id cb,
        v'',
        λ j.
            find_through (length (reg cb e).0.callbacks.vec == 1) (j == id) cb (find j e.callbacks)
              (find j (reg cb e).0.callbacks) (find j (unreg (reg cb e).1 (reg cb e).0).callbacks)
              (ap (find j) same ∙ found' j) (left j)
              (λ y. ap (λ k. find k e.callbacks) (ground (arith, y)) ∙ none_yet)
              (λ y.
                find-no_pairs e.callbacks j
                  (ground (arith, y, length-append e.callbacks.vec ((id, cb) ∷ [])))),
      )
