-- ===== src/Game13/Round/RowScores.antt =====
-- What the rules 1 to 8 in the comments of `Game13::calcRound` (game13.cpp) give for a row, and that its
-- switches and additions come to that.
use casual_game.Prelude.{
  ℕ, zero, suc, ◌≤◌, ◌≡◌, refl, Bool, true, ◌&&◌, arith, ltb, ◌==◌, if◌then◌else◌,
}
use casual_game.Prelude.Int.{ℤ, pos, ◌+ℤ◌, ◌-ℤ◌, ltb_ℤ, ◌≤ℤ◌, int_laws}
use casual_game.Deck.Brands.{
  Brand, five_of_kind, straight_flush, four_of_kind, full_house, three_of_kind, cmp_brand_info,
}
use casual_game.Deck.Strength.{cmp_brand_info-le}
use casual_game.Game13.Round.{PlayerData, base_score, bonus, dun_cmps, dun_prizes, all_rows_won}

pub data Place : Type 0 where
  front middle back : Place

-- What a row of a brand wins, by its place: 3 for three of a kind in front, and so on, and 1 for what has
-- no reward.
abbrev pub score : Place → Brand → ℕ
score front three_of_kind = 3
score middle full_house = 2
score middle five_of_kind = 20
score middle straight_flush = 10
score middle four_of_kind = 8
score back five_of_kind = 10
score back straight_flush = 5
score back four_of_kind = 4
score _ _ = 1

-- The score of the row that won, as the first player has it: `result` is 1 where that is the first
-- player's row, and 2 where it is the second's.
abbrev pub gain : Place → ℕ → Brand → Brand → ℤ
gain place result own others =
    if result == 1
    then pos (score place own)
    else if result == 2
    then pos 0 -ℤ pos (score place others)
    else pos 0

-- A row's part of `dunPrize` where the first player won it, the second did, or none.
front_gain :
    (c : ℕ) (bi bj : Brand)
    → c ≤ 2
    → base_score c +ℤ bonus c bi bj three_of_kind 2 ≡ gain front c bi bj
unfolding base_score bonus ◌+ℤ◌ ◌-ℤ◌
front_gain zero bi bj h = refl
front_gain (suc zero) bi bj h =
    elim bi as (λ b. base_score 1 +ℤ bonus 1 b bj three_of_kind 2 ≡ gain front 1 b bj) [
      | five_of_kind ↦ refl
      | _ ↦ refl
    ]
front_gain (suc (suc zero)) bi bj h =
    elim bj as (λ b. base_score 2 +ℤ bonus 2 bi b three_of_kind 2 ≡ gain front 2 bi b) [
      | five_of_kind ↦ refl
      | _ ↦ refl
    ]
front_gain (suc (suc (suc n))) bi bj h = absurd (omega (arith, h))

middle_gain :
    (c : ℕ) (bi bj : Brand)
    → c ≤ 2
    → base_score c
        +ℤ bonus c bi bj full_house 1
        +ℤ bonus c bi bj five_of_kind 19
        +ℤ bonus c bi bj straight_flush 9
        +ℤ bonus c bi bj four_of_kind 7
      ≡ gain middle c bi bj
unfolding base_score bonus ◌+ℤ◌ ◌-ℤ◌
middle_gain zero bi bj h = refl
middle_gain (suc zero) bi bj h =
    elim bi
      as (λ b.
        base_score 1
          +ℤ bonus 1 b bj full_house 1
          +ℤ bonus 1 b bj five_of_kind 19
          +ℤ bonus 1 b bj straight_flush 9
          +ℤ bonus 1 b bj four_of_kind 7
        ≡ gain middle 1 b bj) [ five_of_kind ↦ refl | _ ↦ refl ]
middle_gain (suc (suc zero)) bi bj h =
    elim bj
      as (λ b.
        base_score 2
          +ℤ bonus 2 bi b full_house 1
          +ℤ bonus 2 bi b five_of_kind 19
          +ℤ bonus 2 bi b straight_flush 9
          +ℤ bonus 2 bi b four_of_kind 7
        ≡ gain middle 2 bi b) [ five_of_kind ↦ refl | _ ↦ refl ]
middle_gain (suc (suc (suc n))) bi bj h = absurd (omega (arith, h))

back_gain :
    (c : ℕ) (bi bj : Brand)
    → c ≤ 2
    → base_score c
        +ℤ bonus c bi bj five_of_kind 9
        +ℤ bonus c bi bj straight_flush 4
        +ℤ bonus c bi bj four_of_kind 3
      ≡ gain back c bi bj
unfolding base_score bonus ◌+ℤ◌ ◌-ℤ◌
back_gain zero bi bj h = refl
back_gain (suc zero) bi bj h =
    elim bi
      as (λ b.
        base_score 1
          +ℤ bonus 1 b bj five_of_kind 9
          +ℤ bonus 1 b bj straight_flush 4
          +ℤ bonus 1 b bj four_of_kind 3
        ≡ gain back 1 b bj) [ five_of_kind ↦ refl | _ ↦ refl ]
back_gain (suc (suc zero)) bi bj h =
    elim bj
      as (λ b.
        base_score 2
          +ℤ bonus 2 bi b five_of_kind 9
          +ℤ bonus 2 bi b straight_flush 4
          +ℤ bonus 2 bi b four_of_kind 3
        ≡ gain back 2 bi b) [ five_of_kind ↦ refl | _ ↦ refl ]
back_gain (suc (suc (suc n))) bi bj h = absurd (omega (arith, h))

-- The results of the rows as the code takes them: the middle row and the last one are both decided by the
-- first player's middle row against the second's last row.
abbrev pub front_result : PlayerData → PlayerData → ℕ
front_result x y = cmp_brand_info x.dun0 y.dun0

abbrev pub other_result : PlayerData → PlayerData → ℕ
other_result x y = cmp_brand_info x.dun1 y.dun2

-- The scores of the three rows.
abbrev pub scores : PlayerData → PlayerData → ℤ
scores x y =
    gain front (front_result x y) x.dun0.b y.dun0.b
    +ℤ gain middle (other_result x y) x.dun1.b y.dun1.b
    +ℤ gain back (other_result x y) x.dun2.b y.dun2.b

pub dun_prizes-gain :
    (x y : PlayerData)
    → dun_prizes x y ≡ (
      gain front (front_result x y) x.dun0.b y.dun0.b,
      gain middle (other_result x y) x.dun1.b y.dun1.b,
      gain back (other_result x y) x.dun2.b y.dun2.b,
    )
unfolding dun_prizes dun_cmps
dun_prizes-gain x y = λ i. (
  front_gain (front_result x y) x.dun0.b y.dun0.b (cmp_brand_info-le x.dun0 y.dun0) i,
  middle_gain (other_result x y) x.dun1.b y.dun1.b (cmp_brand_info-le x.dun1 y.dun2) i,
  back_gain (other_result x y) x.dun2.b y.dun2.b (cmp_brand_info-le x.dun1 y.dun2) i,
)

score_pos : (place : Place) (b : Brand) → ltb 0 (score place b) ≡ true
score_pos front b = elim b as (λ b. ltb 0 (score front b) ≡ true) [ five_of_kind ↦ refl | _ ↦ refl ]
score_pos middle b = elim b as (λ b. ltb 0 (score middle b) ≡ true) [
  | five_of_kind ↦ refl
  | _ ↦ refl
]
score_pos back b = elim b as (λ b. ltb 0 (score back b) ≡ true) [ five_of_kind ↦ refl | _ ↦ refl ]

-- A row brings something in exactly where it is won.
gain_pos :
    (place : Place) (c : ℕ) (bi bj : Brand) → c ≤ 2 → ltb_ℤ (pos 0) (gain place c bi bj) ≡ (c == 1)
gain_pos place zero bi bj h = refl
gain_pos place (suc zero) bi bj h = ground (arith, score_pos place bi)
gain_pos place (suc (suc zero)) bi bj h =
    let lost : (pos 0 -ℤ pos (score place bj)) ≤ℤ pos 0 = omega int_laws in ground (arith, lost)
gain_pos place (suc (suc (suc n))) bi bj h = absurd (omega (arith, h))

-- The first player won all rows.
abbrev pub first_shoots : PlayerData → PlayerData → Bool
first_shoots x y = (front_result x y == 1) && (other_result x y == 1)

pub all_rows_won-first_shoots : (x y : PlayerData) → all_rows_won x y ≡ first_shoots x y
unfolding all_rows_won
all_rows_won-first_shoots x y =
    rw
      (
        dun_prizes-gain x y,
        gain_pos front (front_result x y) x.dun0.b y.dun0.b (cmp_brand_info-le x.dun0 y.dun0),
        gain_pos middle (other_result x y) x.dun1.b y.dun1.b (cmp_brand_info-le x.dun1 y.dun2),
        gain_pos back (other_result x y) x.dun2.b y.dun2.b (cmp_brand_info-le x.dun1 y.dun2),
      )
      (twice (front_result x y == 1) (other_result x y == 1))
  where
    twice : (p q : Bool) → (p && (q && q)) ≡ (p && q)
    twice p q = ground arith
