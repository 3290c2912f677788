-- ===== src/Game13/Round/TwoPlayers.antt =====
-- A round of two players (game13.cpp, `Game13::calcRound`), from the brands to the prizes.
use casual_game.Prelude.{
  ℕ, zero, suc, ◌%◌, ◌<◌, ◌≡◌, ◌≢◌, refl, sym, ◌∙◌, ap, inl, inr, true, false, List, [], ◌∷◌, arith,
  ltb, ◌==◌, map, if◌then◌else◌, ==_iff, Bool-cases,
}
use casual_game.Prelude.Int.{ℤ, pos, ◌+ℤ◌, ◌-ℤ◌, ◌*ℤ◌, +ℤ_cancel, zero-+ℤ, int_laws}
use casual_game.Prelude.Words.{to_i32, to_i32-zero}
use casual_game.Deck.Special.{same_special, special_value}
use casual_game.Game13.Round.Totals.{IsBalanced, total}
use casual_game.Game13.Round.ZeroSum.{settle_pair-IsBalanced}
use casual_game.Game13.Round.RowScores.{
  scores, first_shoots, dun_prizes-gain, all_rows_won-first_shoots,
}
use casual_game.Game13.Round.Scores.{fresh, rows_sum, to_i32-rows_prize, is_quan_lei_da-false}
use casual_game.Game13.Round.{
  Loser, put, PlayerData, Rules, put_loser, settle_special, settle_rows, settle_pair, inner_loop,
  outer_loop, rows_prize, all_rows_won, transfer, price_of, pay_losers, settle_player, settle_loop,
  calc_datas,
}

one_round :
    (rules : Rules) (i j : ℕ) (datas : List PlayerData)
    → inner_loop rules i 1 j datas ≡ (settle_pair rules i j datas).0
unfolding inner_loop
one_round rules i j datas = ground arith

abbrev pub table : PlayerData → PlayerData → List PlayerData
table x y = fresh x ∷ fresh y ∷ []

abbrev pub prizes : List PlayerData → List ℤ
prizes = map (λ d. d.prize)

-- What the first player wins: the scores of the rows, twice where it won them all.
abbrev pub winnings : PlayerData → PlayerData → ℤ
winnings x y = let s = scores x y in if first_shoots x y then s *ℤ pos 2 else s

-- The same by `dunPrize`.
abbrev prizes_won : PlayerData → PlayerData → ℤ
prizes_won x y =
    let s = rows_sum (fresh x) (fresh y) in
    if all_rows_won (fresh x) (fresh y) then s *ℤ pos 2 else s

prizes_won-winnings : (x y : PlayerData) → prizes_won x y ≡ winnings x y
prizes_won-winnings x y =
    let sum : rows_sum (fresh x) (fresh y) ≡ scores x y =
      ap (λ (t : ℤ × ℤ × ℤ). t.0 +ℤ t.1 +ℤ t.2) (dun_prizes-gain (fresh x) (fresh y)) in
    rw (sum, all_rows_won-first_shoots (fresh x) (fresh y)) refl

module _ (rules : Rules) (x y : PlayerData) where
  table-IsBalanced : IsBalanced 2 (table x y)
  unfolding total
  table-IsBalanced = record { size = refl; below = (tt, (tt, tt)); even = omega int_laws }

  -- The comparison of two players is one call of the body of the double loop.
  two_compared : outer_loop rules 2 0 (table x y) ≡ (settle_pair rules 0 1 (table x y)).0
  unfolding outer_loop inner_loop
  two_compared = rw (
    one_round rules 0 1 (table x y),
    (settle_pair-IsBalanced 2 (table x y) table-IsBalanced rules 0 1 (omega arith)
        (omega arith)).size,
  )

  settled_none : prizes (settle_loop rules 2 0 (table x y)) ≡ pos 0 ∷ pos 0 ∷ []
  unfolding settle_loop settle_player pay_losers
  settled_none = refl

  settled_one :
      (e : Loser)
      → prizes (settle_loop rules 2 0 (put_loser 0 1 e (table x y)))
        ≡ (pos 0 +ℤ price_of false e) ∷ (pos 0 -ℤ price_of false e) ∷ []
  unfolding settle_loop settle_player pay_losers put_loser put transfer
  settled_one e = simp is_quan_lei_da-false

  settled_own :
      (w : ℕ) (e : Loser)
      → w < 2
      → prizes (settle_loop rules 2 0 (put_loser w w e (table x y))) ≡ pos 0 ∷ pos 0 ∷ []
  unfolding settle_loop settle_player pay_losers put_loser put transfer
  settled_own zero e h = simp (is_quan_lei_da-false, +ℤ_cancel)
  settled_own (suc zero) e h = simp (is_quan_lei_da-false, +ℤ_cancel)
  settled_own (suc (suc w)) e h = absurd (omega arith)

  settled_special :
      prizes (settle_loop rules 2 0 (settle_special 0 1 (table x y))) ≡ pos 0 ∷ pos 0 ∷ []
  unfolding settle_special
  settled_special = elim (Bool-cases (special_value x.spec % 10 == special_value y.spec % 10)) [
    | inl e ↦ rw e settled_none
    | inr e ↦ elim (Bool-cases (ltb (special_value y.spec % 10) (special_value x.spec % 10))) [
      | inl f ↦ rw (e, f) (settled_own 0 _ (omega arith))
      | inr f ↦ rw (e, f) (settled_own 1 _ (omega arith))
    ]
  ]

  settled_rows :
      prizes (settle_loop rules 2 0 (settle_rows 0 1 (table x y)).0)
      ≡ prizes_won x y ∷ (pos 0 -ℤ prizes_won x y) ∷ []
  unfolding settle_rows price_of
  settled_rows =
      let sum = to_i32-rows_prize (fresh x) (fresh y) in
      elim (Bool-cases (all_rows_won (fresh x) (fresh y))) [
        | inl e ↦ rw (e, settled_one) (rw (sum, zero-+ℤ))
        | inr e ↦ elim (Bool-cases (rows_prize (fresh x) (fresh y) == 0)) [
          | inl z ↦
              rw (e, z) (rw (settled_none, no_sum z) (ap (λ t. pos 0 ∷ t ∷ []) (omega int_laws)))
          | inr z ↦ rw (e, z, not_zero _ z) (rw settled_one (rw (sum, zero-+ℤ)))
        ]
      ]
    where
      no_sum : (rows_prize (fresh x) (fresh y) == 0) ≡ true → rows_sum (fresh x) (fresh y) ≡ pos 0
      no_sum z =
          sym (to_i32-rows_prize (fresh x) (fresh y)) ∙ ap to_i32 ((==_iff _ _).0 z) ∙ to_i32-zero

      not_zero : (n : ℕ) → (n == 0) ≡ false → ltb 0 n ≡ true
      not_zero n h = ground arith

-- Two players with the same special brand, where 打枪 is on: the first wins the scores of the three rows
-- by the rules 1 to 8, and the second loses what the first wins; a row that the second won counts against
-- the first. The middle and the last row are both decided by the first's middle row against the second's
-- last one. What the first wins is doubled where it won all rows; where the second won them all, nothing is
-- doubled, though the comment on 打枪 asks for it.
pub two_players-rows :
    (rules : Rules) (x y : PlayerData)
    → same_special x.spec y.spec ≡ true
    → rules.da_qiang ≢ 0
    → prizes (calc_datas rules (table x y)) ≡ winnings x y ∷ (pos 0 -ℤ winnings x y) ∷ []
unfolding calc_datas settle_pair
two_players-rows rules x y same on =
    rw (two_compared rules x y, same, off_false rules.da_qiang on)
      (rw (sym (prizes_won-winnings x y)) (settled_rows rules x y))
  where
    off_false : (n : ℕ) → n ≢ 0 → (n == 0) ≡ false
    off_false n h = ground arith

-- Two players of different special brands win nothing from one another, whatever the brands are worth:
-- the winner is entered as the loser.
pub two_players-special :
    (rules : Rules) (x y : PlayerData)
    → same_special x.spec y.spec ≡ false
    → prizes (calc_datas rules (table x y)) ≡ pos 0 ∷ pos 0 ∷ []
unfolding calc_datas settle_pair
two_players-special rules x y other = rw (two_compared rules x y, other) (settled_special rules x y)
