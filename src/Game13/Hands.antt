-- ===== src/Game13/Hands.antt =====
-- Who gets which cards when a round starts (`tryStartRound`, game13.cpp).
use casual_game.Prelude.{
  ℕ, zero, suc, ◌+◌, ◌*◌, ◌≡◌, ◌≤◌, ◌<◌, ◌∙◌, inl, inr, refl, sym, false, some, List, [], ◌∷◌, ◌++◌,
  length, arith, ◌==◌, ltb, Bool-cases, Option-cases, take, drop, take-append-drop, length-take,
  length-drop, if◌then◌else◌,
}
use casual_game.Game13.Table.{Client, get_by_cuid, PlayerInfo, Game, GameStatus, Session, gp_52}
use casual_game.Game13.Dealing.{
  range_from, init_deck, insert_number, sort_numbers, deal_player, deal, start_round,
}

-- How often the card `x` is in the list.
abbrev pub count : ℕ → List ℕ → ℕ
count x [] = 0
count x (y ∷ ys) = (if x == y then 1 else 0) + count x ys

-- How often the players hold the card `x` between them.
abbrev pub held : ℕ → List PlayerInfo → ℕ
held x [] = 0
held x (p ∷ ps) = count x p.cards + held x ps

-- Each player holds 13 cards.
abbrev pub AllThirteen : List PlayerInfo → Type 0
AllThirteen [] = Unit
AllThirteen (p ∷ ps) = (length p.cards ≡ 13) × AllThirteen ps

count-append : (x : ℕ) (xs ys : List ℕ) → count x (xs ++ ys) ≡ count x xs + count x ys
count-append x [] ys = omega arith
count-append x (y ∷ xs) ys = omega (arith, count-append x xs ys)

count-insert : (x y : ℕ) (ys : List ℕ) → count x (insert_number y ys) ≡ count x (y ∷ ys)
unfolding insert_number
count-insert x y [] = refl
count-insert x y (z ∷ zs) = elim (Bool-cases (ltb z y)) [
  | inl e ↦ rw e (omega (arith, count-insert x y zs))
  | inr e ↦ rw e refl
]

length-insert : (y : ℕ) (ys : List ℕ) → length (insert_number y ys) ≡ suc (length ys)
unfolding insert_number
length-insert y [] = refl
length-insert y (z ∷ zs) = ground (arith, length-insert y zs)

count-sort : (x : ℕ) (xs : List ℕ) → count x (sort_numbers xs) ≡ count x xs
unfolding sort_numbers
count-sort x [] = refl
count-sort x (y ∷ ys) = omega (arith, count-insert x y (sort_numbers ys), count-sort x ys)

length-sort : (xs : List ℕ) → length (sort_numbers xs) ≡ length xs
unfolding sort_numbers
length-sort [] = refl
length-sort (y ∷ ys) = omega (arith, length-insert y (sort_numbers ys), length-sort ys)

count-take-drop : (x n : ℕ) (xs : List ℕ) → count x (take n xs) + count x (drop n xs) ≡ count x xs
count-take-drop x n xs =
    sym (count-append x (take n xs) (drop n xs)) ∙ rw (take-append-drop n xs) refl

count-range_from : (x from n : ℕ) → count x (range_from from n) ≤ 1
count-range_from x from n = omega (arith, by_place x from n)
  where
    below : (x from n : ℕ) → x < from → count x (range_from from n) ≡ 0
    below x from zero h = refl
    below x from (suc n) h = ground (arith, below x (from + 1) n (omega arith))

    by_place : (x from n : ℕ) → count x (range_from from n) ≤ 1
    by_place x from zero = omega arith
    by_place x from (suc n) = elim (Bool-cases (x == from)) [
      | inl e ↦ ground (arith, e, below x (from + 1) n)
      | inr e ↦ ground (arith, e, by_place x (from + 1) n)
    ]

length-range_from : (from n : ℕ) → length (range_from from n) ≡ n
length-range_from from zero = refl
length-range_from from (suc n) = omega (arith, length-range_from (from + 1) n)

deal_player-cards :
    (g : Game) (p : PlayerInfo) (clients : List Client) (deck : List ℕ)
    → 13 ≤ length deck
    → (r : PlayerInfo × List Client) × (deal_player g p clients deck ≡ some r)
      × (r.0.cards ≡ sort_numbers (take 13 deck))
unfolding deal_player
deal_player-cards g p clients deck h =
    let e : ltb (length deck) 13 ≡ false = ground arith in
    elim (Option-cases (get_by_cuid clients p.cuid)) [
      | inl n ↦ rw (e, n, deal_player) (_, refl, refl)
      | inr (c, n) ↦ elim (Bool-cases (g.rounds == 1)) [
        | inl y ↦ rw (e, n, y, deal_player) (_, refl, refl)
        | inr y ↦ rw (e, n, y, deal_player) (_, refl, refl)
      ]
    ]

deal-held :
    (g : Game) (ps : List PlayerInfo) (clients : List Client) (deck : List ℕ)
    → 13 * length ps ≤ length deck
    → (r : List PlayerInfo × List Client) × (deal g ps clients deck ≡ some r)
      × ((x : ℕ) → held x r.0 ≤ count x deck)
      × AllThirteen r.0
unfolding deal
deal-held g [] clients deck h = (([], clients), refl, λ x. omega arith, tt)
deal-held g (p ∷ ps) clients deck h =
    let (r, e, cards) = deal_player-cards g p clients deck (omega arith) in
    let (rest, e', within, each) =
      deal-held g ps r.1 (drop 13 deck) (omega (arith, length-drop 13 deck)) in
    (
      (r.0 ∷ rest.0, rest.1),
      rw (e, e') refl,
      λ x.
          (let k : count x r.0.cards ≡ count x (take 13 deck) =
              rw cards (count-sort x (take 13 deck)) in
            omega (arith, k, within x, count-take-drop x 13 deck)),
      (rw cards (omega (arith, length-sort (take 13 deck), length-take 13 deck)), each),
    )

-- A shuffle that permutes: it keeps the number of the cards and how often each one is there.
pub record IsShuffle (shuffle : List ℕ → List ℕ) : Type 0 where
  pub size : (xs : List ℕ) → length (shuffle xs) ≡ length xs
  pub cards : (x : ℕ) (xs : List ℕ) → count x (shuffle xs) ≡ count x xs

init_deck-plain :
    (play_type : ℕ) (deck : List ℕ)
    → play_type ≡ gp_52
    → init_deck play_type deck ≡ some (range_from 1 52)
unfolding init_deck
init_deck-plain play_type deck e = rw e refl

-- A round of the play type 52 for at most four players starts, gives 13 cards to each of them, and
-- gives no card to two of them or twice to one, whatever permutation the shuffle is.
pub start_round-deals :
    (shuffle : List ℕ → List ℕ) (s : Session)
    → IsShuffle shuffle
    → s.game.attr.play_type ≡ gp_52
    → length s.game.players ≤ 4
    → (t : Session) × (start_round shuffle s ≡ some t)
      × ((x : ℕ) → held x t.game.players ≤ 1)
      × AllThirteen t.game.players
unfolding start_round
start_round-deals shuffle s law e h =
    let g = record (s.game) { rounds = s.game.rounds + 1 } in
    let deck = shuffle (range_from 1 52) in
    let (r, dealt, within, each) =
      deal-held g s.game.players s.clients deck
        (omega (arith, law.size (range_from 1 52), length-range_from 1 52)) in
    (
      record {
        clients = r.1;
        deck = deck;
        game = record g { players = r.0; status = GameStatus.play };
      },
      rw (init_deck-plain s.game.attr.play_type s.deck e, dealt) refl,
      λ x. omega (arith, within x, law.cards x (range_from 1 52), count-range_from x 1 52),
      each,
    )
