-- ===== src/Deck/Shape.antt =====
-- The shape of a row, read off the cards in any order: how many pairs of cards have the same rank,
-- the extreme ranks and suits, and the brand that these decide.
use Prim.Native.Nat.{min, max}
use casual_game.Prelude.{
  ℕ, ◌+◌, ◌≡◌, ap, Bool, ◌&&◌, ◌||◌, List, [], ◌∷◌, arith, ◌==◌, if◌then◌else◌,
}
use casual_game.Deck.Cards.{rank, suit, sort_cards}
use casual_game.Deck.Brands.{
  Brand, five_of_kind, straight_flush, four_of_kind, full_house, flush, straight, three_of_kind,
  two_pairs, one_pair, hight_card,
}
use casual_game.Deck.Sorting.{sort_cards_invariant}

module _ (key : ℕ → ℕ) where
  -- How many cards have the key `r`.
  abbrev pub count : ℕ → List ℕ → ℕ
  count r [] = 0
  count r (x ∷ xs) = (if r == key x then 1 else 0) + count r xs

  -- The pairs of cards that have the same key.
  abbrev pub equal_pairs : List ℕ → ℕ
  equal_pairs [] = 0
  equal_pairs (x ∷ xs) = count (key x) xs + equal_pairs xs

  abbrev pub top : List ℕ → ℕ
  top [] = 0
  top (x ∷ xs) = max (key x) (top xs)

  -- No key is above 51.
  abbrev pub bottom : List ℕ → ℕ
  bottom [] = 51
  bottom (x ∷ xs) = min (key x) (bottom xs)

  pub count-sort_cards : (r : ℕ) (xs : List ℕ) → count r (sort_cards xs) ≡ count r xs
  count-sort_cards r =
      sort_cards_invariant (count r) (λ x xs ys e. omega arith) (λ x y xs. omega arith)

  pub top-sort_cards : (xs : List ℕ) → top (sort_cards xs) ≡ top xs
  top-sort_cards =
      sort_cards_invariant top (λ x xs ys e. ap (max (key x)) e) (λ x y xs. omega arith)

  pub bottom-sort_cards : (xs : List ℕ) → bottom (sort_cards xs) ≡ bottom xs
  bottom-sort_cards =
      sort_cards_invariant bottom (λ x xs ys e. ap (min (key x)) e) (λ x y xs. omega arith)

  tally : List ℕ → (ℕ → ℕ) × ℕ
  tally xs = (λ r. count r xs, equal_pairs xs)

  tally-sort_cards : (xs : List ℕ) → tally (sort_cards xs) ≡ tally xs
  unfolding tally
  tally-sort_cards =
      sort_cards_invariant tally
        (λ x xs ys e i. (λ r. (if r == key x then 1 else 0) + (e i).0 r, (e i).0 (key x) + (e i).1))
        (λ x y xs i. (
          λ r. two_counts (key x) (key y) r (count r xs) i,
          two_pairs_swap (key x) (key y) (count (key x) xs) (count (key y) xs) (equal_pairs xs) i,
        ))
    where
      two_counts :
          (a b r n : ℕ)
          → (if r == a then 1 else 0) + ((if r == b then 1 else 0) + n)
            ≡ (if r == b then 1 else 0) + ((if r == a then 1 else 0) + n)
      two_counts a b r n = omega arith

      two_pairs_swap :
          (a b m n p : ℕ)
          → (if a == b then 1 else 0) + m + (n + p) ≡ (if b == a then 1 else 0) + n + (m + p)
      two_pairs_swap a b m n p = ground arith

  pub equal_pairs-sort_cards : (xs : List ℕ) → equal_pairs (sort_cards xs) ≡ equal_pairs xs
  unfolding tally
  equal_pairs-sort_cards xs = ap (λ (t : (ℕ → ℕ) × ℕ). t.1) (tally-sort_cards xs)

-- Five ranks in a row, or A2345.
abbrev pub is_run : List ℕ → Bool
is_run c =
    ((equal_pairs rank c == 0) && (top rank c == bottom rank c + 4))
    || ((count rank 0 c == 1)
        && ((count rank 1 c == 1)
            && ((count rank 2 c == 1) && ((count rank 3 c == 1) && (count rank 12 c == 1)))))

abbrev pub is_one_suit : List ℕ → Bool
is_one_suit c = top suit c == bottom suit c

-- What the rules call a row of five, by the number of pairs of equal rank: ten for five of a kind,
-- six for four of a kind, four for a full house, three for three of a kind, then two and one.
abbrev pub named : ℕ → Bool → Bool → Brand
named pairs run one_suit =
    if pairs == 10
    then five_of_kind
    else if run && one_suit
    then straight_flush
    else if pairs == 6
    then four_of_kind
    else if pairs == 4
    then full_house
    else if one_suit
    then flush
    else if run
    then straight
    else if pairs == 3
    then three_of_kind
    else if pairs == 2
    then two_pairs
    else if pairs == 1
    then one_pair
    else hight_card

abbrev pub rules_brand5 : List ℕ → Brand
rules_brand5 c = named (equal_pairs rank c) (is_run c) (is_one_suit c)
