-- ===== src/Game13/Round/ZeroSum.antt =====
-- The settlement of a round moves points between the players and makes none (game13.cpp,
-- `Game13::calcRound`).
use casual_game.Prelude.{
  ℕ, zero, suc, ◌+◌, ◌-◌, ◌≤◌, ◌<◌, ◌≡◌, refl, sym, ◌∙◌, ap, inl, inr, Bool, List, [], ◌∷◌, arith,
  length, Bool-cases, some, >>=-eq-some,
}
use mathlib.Core.Path.{subst}
use casual_game.Prelude.Int.{pos, ◌+ℤ◌, int_laws}
use casual_game.Prelude.Words.{to_i32}
use casual_game.Game13.Round.Totals.{
  total, IsBalanced, KeysBelow, LosersBelow, LosersBelow-at, put_loser-IsBalanced, flag-IsBalanced,
  transfer-IsBalanced,
}
use casual_game.Game13.Round.{
  Loser, Losers, PlayerData, Rules, at, player_data, players_data, settle_special, settle_rows,
  settle_pair, inner_loop, outer_loop, price_of, special_prize, rows_prize, pay_losers,
  settle_player, settle_loop, calc_datas, calc_round,
}

module _ (n : ℕ) (datas : List PlayerData) (b : IsBalanced n datas) where
  settle_special-IsBalanced : (i j : ℕ) → i < n → j < n → IsBalanced n (settle_special i j datas)
  unfolding settle_special
  settle_special-IsBalanced i j hi hj =
      let own : ℕ → Loser = λ w. record { price = special_prize (at datas w).spec; shot = 0 } in
      ground (
        arith,
        put_loser-IsBalanced n datas b i i (own i) hi hi,
        put_loser-IsBalanced n datas b j j (own j) hj hj,
      )

  settle_rows-IsBalanced : (i j : ℕ) → i < n → j < n → IsBalanced n (settle_rows i j datas).0
  unfolding settle_rows
  settle_rows-IsBalanced i j hi hj =
      let e : ℕ → Loser =
        λ f. record { price = to_i32 (rows_prize (at datas i) (at datas j)); shot = f } in
      ground (
        arith,
        put_loser-IsBalanced n datas b i j (e 1) hi hj,
        put_loser-IsBalanced n datas b j i (e 1) hj hi,
        put_loser-IsBalanced n datas b i j (e 0) hi hj,
        put_loser-IsBalanced n datas b j i (e 0) hj hi,
      )

  pub settle_pair-IsBalanced :
      (rules : Rules) (i j : ℕ) → i < n → j < n → IsBalanced n (settle_pair rules i j datas).0
  unfolding settle_pair
  settle_pair-IsBalanced rules i j hi hj =
      ground (arith, settle_special-IsBalanced i j hi hj, settle_rows-IsBalanced i j hi hj)

module _ (n : ℕ) (rules : Rules) where
  inner_loop-IsBalanced :
      (i k j : ℕ) (datas : List PlayerData)
      → i < n
      → j + k ≤ n
      → IsBalanced n datas
      → IsBalanced n (inner_loop rules i k j datas)
  unfolding inner_loop
  inner_loop-IsBalanced i zero j datas hi hj b = b
  inner_loop-IsBalanced i (suc k) j datas hi hj b =
      let once = settle_pair-IsBalanced n datas b rules i j hi (omega arith) in
      let rest =
        inner_loop-IsBalanced i k (j + 1) (settle_pair rules i j datas).0 hi (omega arith) once in
      elim (Bool-cases (settle_pair rules i j datas).1) [
        | inl e ↦ rw (e, inner_loop) once
        | inr e ↦ rw (e, inner_loop) rest
      ]

  outer_loop-IsBalanced :
      (k i : ℕ) (datas : List PlayerData)
      → i + k ≤ n
      → IsBalanced n datas
      → IsBalanced n (outer_loop rules k i datas)
  unfolding outer_loop
  outer_loop-IsBalanced zero i datas h b = b
  outer_loop-IsBalanced (suc k) i datas h b = outer_loop-IsBalanced k (i + 1) _ (omega arith) (
      inner_loop-IsBalanced i (length datas - (i + 1)) (i + 1) datas (omega arith)
        (let e = b.size in omega arith) b)

  pay_losers-IsBalanced :
      (w : ℕ) (flag : Bool) (m : Losers) (datas : List PlayerData)
      → w < n
      → KeysBelow n m
      → IsBalanced n datas
      → IsBalanced n (pay_losers w flag m datas)
  unfolding pay_losers
  pay_losers-IsBalanced w flag [] datas hw k b = b
  pay_losers-IsBalanced w flag ((l, e) ∷ m) datas hw k b =
      pay_losers-IsBalanced w flag m _ hw k.1
        (transfer-IsBalanced n datas b w l (price_of flag e) hw k.0)

  settle_player-IsBalanced :
      (w : ℕ) (datas : List PlayerData)
      → w < n
      → IsBalanced n datas
      → IsBalanced n (settle_player rules w datas)
  unfolding settle_player
  settle_player-IsBalanced w datas hw b =
      pay_losers-IsBalanced w _ (at datas w).losers _ hw (LosersBelow-at n datas w b.below)
        (flag-IsBalanced n datas b w _ hw)

  settle_loop-IsBalanced :
      (k i : ℕ) (datas : List PlayerData)
      → i + k ≤ n
      → IsBalanced n datas
      → IsBalanced n (settle_loop rules k i datas)
  unfolding settle_loop
  settle_loop-IsBalanced zero i datas h b = b
  settle_loop-IsBalanced (suc k) i datas h b =
      settle_loop-IsBalanced k (i + 1) _ (omega arith)
        (settle_player-IsBalanced i datas (omega arith) b)

  calc_datas-IsBalanced :
      (datas : List PlayerData) → IsBalanced n datas → IsBalanced n (calc_datas rules datas)
  unfolding calc_datas
  calc_datas-IsBalanced datas b =
      let k = length datas in
      let fits : 0 + k ≤ n = (let e = b.size in omega arith) in
      settle_loop-IsBalanced k 0 _ fits (outer_loop-IsBalanced k 0 datas fits b)

player_data-fresh :
    (cuid : ℕ) (cards : List ℕ) (d : PlayerData)
    → player_data cuid cards ≡ some d
    → (d.prize ≡ pos 0) × (d.losers ≡ [])
unfolding player_data
player_data-fresh cuid cards d e = ground arith

players_data-IsBalanced :
    (players : List (ℕ × List ℕ)) (datas : List PlayerData)
    → players_data players ≡ some datas
    → (length datas ≡ length players) × ((n : ℕ) → LosersBelow n datas) × (total datas ≡ pos 0)
unfolding players_data total
players_data-IsBalanced [] [] e = (refl, λ n. tt, refl)
players_data-IsBalanced [] (d ∷ ds) e = cc
players_data-IsBalanced ((cuid, cards) ∷ rest) datas e =
    let (d, ed, e') = >>=-eq-some (player_data cuid cards) _ e in
    let (ds, eds, e'') = >>=-eq-some (players_data rest) _ e' in
    let (size, below, even) = players_data-IsBalanced rest ds eds in
    let (no_prize, no_losers) = player_data-fresh cuid cards d ed in
    let same : datas ≡ d ∷ ds = cc in
    rw same (
      ap suc size,
      λ n. (subst (KeysBelow n) (sym no_losers) tt, below n),
      rw (no_prize, even) zero_sum,
    )
  where
    zero_sum : pos 0 +ℤ pos 0 ≡ pos 0
    zero_sum = omega int_laws

-- Whatever the cards and the rules, the prizes of a round that is settled add up to nothing, and every
-- player of the round is in the result.
pub calc_round-zero_sum :
    (rules : Rules) (players : List (ℕ × List ℕ)) {datas : List PlayerData}
    → calc_round rules players ≡ some datas
    → (total datas ≡ pos 0) × (length datas ≡ length players)
unfolding calc_round
calc_round-zero_sum rules players {datas} e =
    let (start, es, e') = >>=-eq-some (players_data players) _ e in
    let (size, below, even) = players_data-IsBalanced players start es in
    let n = length players in
    let b : IsBalanced n start = record { size = size; below = below n; even = even } in
    let done = calc_datas-IsBalanced n rules start b in
    let same : calc_datas rules start ≡ datas = cc in
    (ap total (sym same) ∙ done.even, ap length (sym same) ∙ done.size)
