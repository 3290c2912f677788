-- ===== src/Game13/Round/Faults.antt =====
-- When an assertion on a card ends the process in `Game13::calcRound` (game13.cpp, deck.h).
use casual_game.Prelude.{
  ℕ, zero, suc, ◌≡◌, ◌≤◌, ◌∙◌, inl, inr, refl, Bool, true, false, ◌&&◌, Option, none, some, List,
  [], ◌∷◌, ◌++◌, length, take, drop, take-append-drop, length-drop, arith, Bool-cases, ◌>>=◌,
}
use casual_game.Deck.Cards.{are_cards}
use casual_game.Deck.Row5.{brand_info}
use casual_game.Game13.Round.{Rules, player_data, players_data, calc_round}

abbrev pub is_some : {A : Type 0} → Option A → Bool
is_some none = false
is_some (some a) = true

-- All cards of all players are cards of the deck.
abbrev pub all_cards : List (ℕ × List ℕ) → Bool
all_cards [] = true
all_cards ((cuid, cards) ∷ players) = are_cards cards && all_cards players

-- Each player has brought out 13 cards.
abbrev pub Thirteens : List (ℕ × List ℕ) → Type 0
Thirteens [] = Unit
Thirteens ((cuid, cards) ∷ players) = (length cards ≡ 13) × Thirteens players

are_cards-append : (xs ys : List ℕ) → are_cards (xs ++ ys) ≡ (are_cards xs && are_cards ys)
unfolding are_cards
are_cards-append [] ys = refl
are_cards-append (x ∷ xs) ys = ground (arith, are_cards-append xs ys)

drop-drop : (xs : List ℕ) → drop 5 (drop 3 xs) ≡ drop 8 xs
drop-drop [] = refl
drop-drop (x ∷ []) = refl
drop-drop (x ∷ y ∷ []) = refl
drop-drop (x ∷ y ∷ z ∷ xs) = refl

take_all : (n : ℕ) (xs : List ℕ) → length xs ≤ n → take n xs ≡ xs
take_all zero [] h = refl
take_all zero (x ∷ xs) h = absurd (omega arith)
take_all (suc n) [] h = refl
take_all (suc n) (x ∷ xs) h = cc (take_all n xs (omega arith))

are_cards-split :
    (n : ℕ) (xs : List ℕ) → are_cards xs ≡ (are_cards (take n xs) && are_cards (drop n xs))
are_cards-split n xs = cc (are_cards-append (take n xs) (drop n xs), take-append-drop n xs)

rows-are_cards :
    (cards : List ℕ)
    → length cards ≡ 13
    → are_cards cards ≡ (
        are_cards (take 3 cards)
        && (are_cards (take 5 (drop 3 cards)) && are_cards (take 5 (drop 8 cards))))
rows-are_cards cards h =
    let last : take 5 (drop 8 cards) ≡ drop 8 cards =
      take_all 5 (drop 8 cards) (omega (arith, length-drop 8 cards)) in
    cc (are_cards-split 3 cards, are_cards-split 5 (drop 3 cards), drop-drop cards, last)

brand_info-is_some5 : (cards : List ℕ) → is_some (brand_info cards 5) ≡ are_cards cards
unfolding brand_info
brand_info-is_some5 cards = elim (Bool-cases (are_cards cards)) [
  | inl e ↦ rw e refl
  | inr e ↦ rw e refl
]

brand_info-is_some3 : (cards : List ℕ) → is_some (brand_info cards 3) ≡ are_cards cards
unfolding brand_info
brand_info-is_some3 cards = elim (Bool-cases (are_cards cards)) [
  | inl e ↦ rw e refl
  | inr e ↦ rw e refl
]

bind-is_some :
    {A B : Type 0} (m : Option A) (f : A → Option B) (b : Bool)
    → ((a : A) → is_some (f a) ≡ b)
    → is_some (m >>= f) ≡ (is_some m && b)
bind-is_some none f b h = refl
bind-is_some (some a) f b h = h a

player_data-is_some :
    (cuid : ℕ) (cards : List ℕ)
    → length cards ≡ 13
    → is_some (player_data cuid cards) ≡ are_cards cards
unfolding player_data
player_data-is_some cuid cards h =
    bind-is_some (brand_info (take 3 cards) 3) _ _ (λ d0.
      bind-is_some (brand_info (take 5 (drop 3 cards)) 5) _ _
        (λ d1. bind-is_some (brand_info (take 5 (drop 8 cards)) 5) _ true (λ d2. refl)))
    ∙ ground (
      arith,
      brand_info-is_some3 (take 3 cards),
      brand_info-is_some5 (take 5 (drop 3 cards)),
      brand_info-is_some5 (take 5 (drop 8 cards)),
      rows-are_cards cards h,
    )

players_data-is_some :
    (players : List (ℕ × List ℕ))
    → Thirteens players
    → is_some (players_data players) ≡ all_cards players
unfolding players_data
players_data-is_some [] h = refl
players_data-is_some ((cuid, cards) ∷ players) h =
    bind-is_some (player_data cuid cards) _ _
      (λ d. bind-is_some (players_data players) _ true (λ ds. refl))
    ∙ ground (arith, player_data-is_some cuid cards h.0, players_data-is_some players h.1)

-- A round of players with 13 cards each is settled exactly where every card brought out is a card of
-- the deck; one number that is no card, which nobody checks before, ends the process.
pub calc_round-is_some :
    (rules : Rules) (players : List (ℕ × List ℕ))
    → Thirteens players
    → is_some (calc_round rules players) ≡ all_cards players
unfolding calc_round
calc_round-is_some rules players h =
    bind-is_some (players_data players) _ true (λ datas. refl)
    ∙ ground (arith, players_data-is_some players h)
