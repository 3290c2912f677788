-- ===== src/Deck/Cards.antt =====
-- Cards (deck.h): suit, rank, the order by rank and then suit, and `std::sort` by that order.
use casual_game.Prelude.{
  ℕ, ◌-◌, ◌/◌, ◌%◌, Bool, true, not, ◌&&◌, List, [], ◌∷◌, ltb, leb, ◌==◌, if◌then◌else◌,
}

-- The condition that `suit` and `rank` assert: a card is 1 to 52. The build leaves assertions on,
-- so a card outside the range ends the process; `suit` and `rank` are read only where this holds.
unfoldable pub is_card : ℕ → Bool
is_card c = leb 1 c && leb c 52

unfoldable pub are_cards : List ℕ → Bool
unfolding is_card
are_cards [] = true
are_cards (c ∷ cs) = is_card c && are_cards cs

-- 3 spade, 2 heart, 1 club, 0 diamond.
unfoldable pub suit : ℕ → ℕ
suit card = (card - 1) / 13

-- 0 for the two up to 12 for the ace.
unfoldable pub rank : ℕ → ℕ
rank card = (card - 1) % 13

unfoldable pub less_suit : ℕ → ℕ → Bool
less_suit a b = ltb (suit a) (suit b)

unfoldable pub less_rank : ℕ → ℕ → Bool
less_rank a b = ltb (rank a) (rank b)

unfoldable pub less_card : ℕ → ℕ → Bool
unfolding less_rank less_suit
less_card a b = if not (rank a == rank b) then less_rank a b else less_suit a b

-- `std::sort(first, last, &Deck::lessCard)`: equal cards are the same number, so the result of any
-- sorting algorithm is this one.
unfoldable pub insert_card : ℕ → List ℕ → List ℕ
insert_card x [] = x ∷ []
insert_card x (y ∷ ys) = if less_card y x then y ∷ insert_card x ys else x ∷ y ∷ ys

unfoldable pub sort_cards : List ℕ → List ℕ
unfolding insert_card
sort_cards [] = []
sort_cards (x ∷ xs) = insert_card x (sort_cards xs)
