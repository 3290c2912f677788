-- ===== src/Deck/Rules.antt =====
-- `brand5` and `brand3` (deck.cpp) find what the rules of the game call a row, whatever the order of
-- its cards.
mod Neighbours
mod Runs
use Neighbours.{IsOrdered, shape_of_ordered}
use Runs.{is_straight_of_ordered, all_same-extremes, top_of_ordered, bottom_of_ordered}
use casual_game.Prelude.{
  ℕ, zero, suc, ◌+◌, ◌≤◌, ◌<◌, ◌≡◌, refl, sym, ◌∙◌, ap, Bool, true, false, not, ◌&&◌, ◌||◌, ◌⊎◌,
  inl, inr, Bool-cases, List, [], ◌∷◌, arith, ltb, leb, ◌==◌, if◌then◌else◌, length, get_or,
}
use casual_game.Deck.Cards.{rank, suit, is_card, are_cards, sort_cards}
use casual_game.Deck.Brands.{
  Brand, five_of_kind, straight_flush, four_of_kind, full_house, flush, straight, three_of_kind,
  two_pairs, one_pair, hight_card,
}
use casual_game.Deck.Sorting.{
  sort_cards_invariant, IsAscending, sort_cards-IsAscending, length-sort_cards,
}
use casual_game.Deck.Shape.{
  equal_pairs, equal_pairs-sort_cards, count, count-sort_cards, top, top-sort_cards, bottom,
  bottom-sort_cards, is_run, is_one_suit, named, rules_brand5,
}
use casual_game.Deck.Row5.{
  Row5, row5, brand5, brand5_of, is_straight, is_wheel, is_flush, pair_brand, consecutive, ranks5,
  suits5,
}

are_cards-sort_cards : (c : List ℕ) → are_cards (sort_cards c) ≡ are_cards c
unfolding are_cards
are_cards-sort_cards =
    sort_cards_invariant are_cards (λ x xs ys e. ap (λ t. is_card x && t) e)
      (λ x y xs. ground arith)

rank-le : (x : ℕ) → rank x ≤ 12
unfolding rank
rank-le x = omega arith

suit-le : (x : ℕ) → is_card x ≡ true → suit x ≤ 51
unfolding suit is_card
suit-le x h = ground arith

abbrev row_of : ℕ → ℕ → ℕ → ℕ → ℕ → Row5
row_of a b c d e = record {
  r0 = rank a;
  r1 = rank b;
  r2 = rank c;
  r3 = rank d;
  r4 = rank e;
  s0 = suit a;
  s1 = suit b;
  s2 = suit c;
  s3 = suit d;
  s4 = suit e;
}

abbrev AllCards : List ℕ → Type 0
AllCards [] = Unit
AllCards (x ∷ xs) = (is_card x ≡ true) × AllCards xs

are_cards-AllCards : (xs : List ℕ) → are_cards xs ≡ true → AllCards xs
unfolding are_cards
are_cards-AllCards [] h = tt
are_cards-AllCards (x ∷ xs) h = (ground arith, are_cards-AllCards xs (ground arith))

brand5_of_row :
    (a b c d e : ℕ)
    → let s = a ∷ b ∷ c ∷ d ∷ e ∷ [] in
      IsAscending s → AllCards s → brand5_of (row_of a b c d e) ≡ rules_brand5 s
unfolding is_flush
brand5_of_row a b c d e o k =
    let h = row_of a b c d e in
    let ordered : IsOrdered h = record {
      o1 = o.0.0;
      o2 = o.1.0.0;
      o3 = o.1.1.0.0;
      o4 = o.1.1.1.0.0;
    } in
    rw (
      shape_of_ordered h ordered,
      is_straight_of_ordered h ordered (rank-le e),
      all_same-extremes (suit a) (suit b) (suit c) (suit d) (suit e) (suit-le a k.0)
          (suit-le b k.1.0) (suit-le c k.1.1.0) (suit-le d k.1.1.1.0) (suit-le e k.1.1.1.1.0),
      top_of_ordered h ordered,
      bottom_of_ordered h ordered (rank-le e),
    )

brand5_of_sorted :
    (s : List ℕ)
    → length s ≡ 5
    → IsAscending s
    → AllCards s
    → brand5_of (row_of (get_or s 0 0) (get_or s 1 0) (get_or s 2 0) (get_or s 3 0) (get_or s 4 0))
      ≡ rules_brand5 s
brand5_of_sorted [] l o k = absurd (omega arith)
brand5_of_sorted (a ∷ []) l o k = absurd (omega arith)
brand5_of_sorted (a ∷ b ∷ []) l o k = absurd (omega arith)
brand5_of_sorted (a ∷ b ∷ c ∷ []) l o k = absurd (omega arith)
brand5_of_sorted (a ∷ b ∷ c ∷ d ∷ []) l o k = absurd (omega arith)
brand5_of_sorted (a ∷ b ∷ c ∷ d ∷ e ∷ []) l o k = brand5_of_row a b c d e o k
brand5_of_sorted (a ∷ b ∷ c ∷ d ∷ e ∷ f ∷ s) l o k = absurd (omega arith)

rules_brand5-sort_cards : (c : List ℕ) → rules_brand5 (sort_cards c) ≡ rules_brand5 c
rules_brand5-sort_cards c = rw (
  equal_pairs-sort_cards rank c,
  top-sort_cards rank c,
  bottom-sort_cards rank c,
  count-sort_cards rank 0 c,
  count-sort_cards rank 1 c,
  count-sort_cards rank 2 c,
  count-sort_cards rank 3 c,
  count-sort_cards rank 12 c,
  top-sort_cards suit c,
  bottom-sort_cards suit c,
)

-- On five cards, in any order, `brand5` finds the brand that the rules give to the number of pairs
-- of equal rank, to a run of ranks (or A2345), and to a single suit.
pub brand5-rules : (c : List ℕ) → length c ≡ 5 → are_cards c ≡ true → brand5 c ≡ rules_brand5 c
unfolding brand5 row5
brand5-rules c l k =
    brand5_of_sorted (sort_cards c) (length-sort_cards c ∙ l) (sort_cards-IsAscending c)
      (are_cards-AllCards (sort_cards c) (are_cards-sort_cards c ∙ k))
    ∙ rules_brand5-sort_cards c
