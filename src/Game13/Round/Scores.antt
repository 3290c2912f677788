-- ===== src/Game13/Round/Scores.antt =====
-- What two players win from one another (game13.cpp, `Game13::calcRound`), and the flag of 全垒打.
use casual_game.Prelude.{ℕ, ◌≡◌, refl, Bool, true, false, List, [], ◌∷◌, arith, if◌then◌else◌}
use casual_game.Prelude.Int.{ℤ, pos, ◌+ℤ◌, ◌-ℤ◌, ◌≤ℤ◌, int_laws}
use casual_game.Prelude.Words.{to_i32, to_i32-to_u32}
use casual_game.Deck.Brands.{Brand}
use casual_game.Game13.Round.{
  Losers, PlayerData, Rules, base_score, bonus, dun_prizes, rows_prize, clear_unshot,
  is_quan_lei_da,
}

clear_unshot-false : (m : Losers) → clear_unshot m false ≡ false
unfolding clear_unshot
clear_unshot-false [] = refl
clear_unshot-false ((k, e) ∷ m) = ground (arith, clear_unshot-false m)

-- The flag starts false and is only ever cleared.
pub is_quan_lei_da-false :
    (rules : Rules) (datas : List PlayerData) (m : Losers) → is_quan_lei_da rules datas m ≡ false
unfolding is_quan_lei_da
is_quan_lei_da-false rules datas m = ground (arith, clear_unshot-false m)

-- The sum of the three rows.
abbrev pub rows_sum : PlayerData → PlayerData → ℤ
rows_sum di dj = let (p0, p1, p2) = dun_prizes di dj in p0 +ℤ p1 +ℤ p2

-- An integer from -m to m.
abbrev IsWithin : ℕ → ℤ → Type 0
IsWithin m z = (pos 0 -ℤ pos m ≤ℤ z) × (z ≤ℤ pos m)

base_score-IsWithin : (c : ℕ) → IsWithin 1 (base_score c)
unfolding base_score ◌-ℤ◌
base_score-IsWithin c = ground arith

either_IsWithin :
    (p q : Bool) (extra : ℕ)
    → IsWithin extra (if p then pos extra else if q then pos 0 -ℤ pos extra else pos 0)
either_IsWithin true q extra = omega int_laws
either_IsWithin false true extra = omega int_laws
either_IsWithin false false extra = omega int_laws

bonus-IsWithin : (c : ℕ) (bi bj b : Brand) (extra : ℕ) → IsWithin extra (bonus c bi bj b extra)
unfolding bonus
bonus-IsWithin c bi bj b extra = either_IsWithin _ _ extra

rows_sum-IsWithin : (di dj : PlayerData) → IsWithin 57 (rows_sum di dj)
unfolding dun_prizes
rows_sum-IsWithin di dj = omega (int_laws, base_score-IsWithin, bonus-IsWithin)

-- The way of the sum through `uint32_t` loses nothing.
pub to_i32-rows_prize : (di dj : PlayerData) → to_i32 (rows_prize di dj) ≡ rows_sum di dj
unfolding rows_prize
to_i32-rows_prize di dj =
    let (lo, hi) = rows_sum-IsWithin di dj in
    to_i32-to_u32 (rows_sum di dj) (omega int_laws) (omega int_laws)

-- Two players as the first loop leaves them.
abbrev pub fresh : PlayerData → PlayerData
fresh d = record d { prize = pos 0; losers = [] }
