-- ===== src/Deck/Sorting.antt =====
-- Laws of the sort: it keeps the number of cards, orders the ranks, and forgets the order dealt.
use casual_game.Prelude.{
  ℕ, suc, ◌≤◌, ◌≡◌, ◌∙◌, inl, inr, refl, true, false, List, [], ◌∷◌, arith, length, Bool-cases,
}
use casual_game.Deck.Cards.{rank, less_card, insert_card, sort_cards}

pub length-insert_card : (x : ℕ) (xs : List ℕ) → length (insert_card x xs) ≡ suc (length xs)
unfolding insert_card
length-insert_card x [] = refl
length-insert_card x (y ∷ ys) = ground (arith, length-insert_card x ys)

pub length-sort_cards : (xs : List ℕ) → length (sort_cards xs) ≡ length xs
unfolding sort_cards
length-sort_cards [] = refl
length-sort_cards (x ∷ xs) =
    omega (arith, length-insert_card x (sort_cards xs), length-sort_cards xs)

-- Every card of the list is of rank `r` or above.
abbrev pub AtLeast : ℕ → List ℕ → Type 0
AtLeast r [] = Unit
AtLeast r (x ∷ xs) = (r ≤ rank x) × AtLeast r xs

abbrev pub IsAscending : List ℕ → Type 0
IsAscending [] = Unit
IsAscending (x ∷ xs) = AtLeast (rank x) xs × IsAscending xs

AtLeast-weaken : (r s : ℕ) (xs : List ℕ) → r ≤ s → AtLeast s xs → AtLeast r xs
AtLeast-weaken r s [] h a = tt
AtLeast-weaken r s (x ∷ xs) h a = (omega arith, AtLeast-weaken r s xs h a.1)

AtLeast-insert : (r x : ℕ) (xs : List ℕ) → r ≤ rank x → AtLeast r xs → AtLeast r (insert_card x xs)
unfolding insert_card
AtLeast-insert r x [] h a = (h, tt)
AtLeast-insert r x (y ∷ ys) h a = elim (Bool-cases (less_card y x)) [
  | inl e ↦ rw e (a.0, AtLeast-insert r x ys h a.1)
  | inr e ↦ rw e (h, a)
]

less_card-le : (y x : ℕ) → less_card y x ≡ true → rank y ≤ rank x
unfolding less_card
less_card-le y x h = ground arith

not_less_card-le : (y x : ℕ) → less_card y x ≡ false → rank x ≤ rank y
unfolding less_card
not_less_card-le y x h = ground arith

insert_card-IsAscending : (x : ℕ) (xs : List ℕ) → IsAscending xs → IsAscending (insert_card x xs)
unfolding insert_card
insert_card-IsAscending x [] a = (tt, tt)
insert_card-IsAscending x (y ∷ ys) a = elim (Bool-cases (less_card y x)) [
  | inl e ↦
      rw e (AtLeast-insert (rank y) x ys (less_card-le y x e) a.0, insert_card-IsAscending x ys a.1)
  | inr e ↦ rw e ((not_less_card-le y x e, AtLeast-weaken _ _ ys (not_less_card-le y x e) a.0), a)
]

pub sort_cards-IsAscending : (xs : List ℕ) → IsAscending (sort_cards xs)
unfolding sort_cards
sort_cards-IsAscending [] = tt
sort_cards-IsAscending (x ∷ xs) =
    insert_card-IsAscending x (sort_cards xs) (sort_cards-IsAscending xs)

-- What does not change when two neighbours are exchanged, below any cards, is the same for the
-- sorted cards.
module _ {ℓ} {A : Type ℓ} (f : List ℕ → A)
    (under : (x : ℕ) (xs ys : List ℕ) → f xs ≡ f ys → f (x ∷ xs) ≡ f (x ∷ ys))
    (swap : (x y : ℕ) (xs : List ℕ) → f (x ∷ y ∷ xs) ≡ f (y ∷ x ∷ xs)) where
  insert_card_invariant : (x : ℕ) (xs : List ℕ) → f (insert_card x xs) ≡ f (x ∷ xs)
  unfolding insert_card
  insert_card_invariant x [] = refl
  insert_card_invariant x (y ∷ ys) = elim (Bool-cases (less_card y x)) [
    | inl e ↦ rw e (under y (insert_card x ys) (x ∷ ys) (insert_card_invariant x ys) ∙ swap y x ys)
    | inr e ↦ rw e
  ]

  pub sort_cards_invariant : (xs : List ℕ) → f (sort_cards xs) ≡ f xs
  unfolding sort_cards
  sort_cards_invariant [] = refl
  sort_cards_invariant (x ∷ xs) =
      insert_card_invariant x (sort_cards xs) ∙ under x (sort_cards xs) xs (sort_cards_invariant xs)
