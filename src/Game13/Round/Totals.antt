-- ===== src/Game13/Round/Totals.antt =====
-- What the steps of `Game13::calcRound` keep: the number of players, losers that are players, and
-- the sum of the prizes.
use casual_game.Prelude.{
  ℕ, zero, suc, ◌<◌, ◌≡◌, refl, sym, ◌∙◌, ap, inl, inr, Bool, List, [], ◌∷◌, arith, ltb, ◌==◌,
  length, set, length-set, Bool-cases,
}
use mathlib.Core.Path.{subst}
use casual_game.Prelude.Int.{ℤ, pos, ◌+ℤ◌, ◌-ℤ◌, cons_total, head_total, same_total, moved_total}
use casual_game.Game13.Round.{Loser, Losers, put, PlayerData, at, put_loser, transfer}

unfoldable pub total : List PlayerData → ℤ
total [] = pos 0
total (d ∷ ds) = d.prize +ℤ total ds

total-set :
    (datas : List PlayerData) (w : ℕ) (d : PlayerData)
    → w < length datas
    → total (set datas w d) +ℤ (at datas w).prize ≡ total datas +ℤ d.prize
unfolding total
total-set [] w d h = absurd (omega arith)
total-set (e ∷ ds) zero d h = head_total d.prize e.prize (total ds)
total-set (e ∷ ds) (suc w) d h =
    cons_total e.prize (total ds) _ _ _ (total-set ds w d (omega arith))

-- Every loser is the index of a player.
abbrev pub KeysBelow : ℕ → Losers → Type 0
KeysBelow n [] = Unit
KeysBelow n ((k, e) ∷ m) = (k < n) × KeysBelow n m

abbrev pub LosersBelow : ℕ → List PlayerData → Type 0
LosersBelow n [] = Unit
LosersBelow n (d ∷ ds) = KeysBelow n d.losers × LosersBelow n ds

put-KeysBelow : (n k : ℕ) (e : Loser) (m : Losers) → k < n → KeysBelow n m → KeysBelow n (put k e m)
unfolding put
put-KeysBelow n k e [] h b = (h, tt)
put-KeysBelow n k e ((j, f) ∷ m) h b = elim (Bool-cases (k == j)) [
  | inl t ↦ rw t (h, b.1)
  | inr t ↦ elim (Bool-cases (ltb k j)) [
    | inl u ↦ rw (t, u) (h, b)
    | inr u ↦ rw (t, u) (b.0, put-KeysBelow n k e m h b.1)
  ]
]

pub LosersBelow-at :
    (n : ℕ) (datas : List PlayerData) (i : ℕ)
    → LosersBelow n datas
    → KeysBelow n (at datas i).losers
LosersBelow-at n [] i b = tt
LosersBelow-at n (d ∷ ds) zero b = b.0
LosersBelow-at n (d ∷ ds) (suc i) b = LosersBelow-at n ds i b.1

LosersBelow-set :
    (n : ℕ) (datas : List PlayerData) (i : ℕ) (d : PlayerData)
    → KeysBelow n d.losers
    → LosersBelow n datas
    → LosersBelow n (set datas i d)
LosersBelow-set n [] i d k b = tt
LosersBelow-set n (e ∷ ds) zero d k b = (k, b.1)
LosersBelow-set n (e ∷ ds) (suc i) d k b = (b.0, LosersBelow-set n ds i d k b.1)

-- `n` players, whose losers are among them and whose prizes add up to nothing.
pub record IsBalanced (n : ℕ) (datas : List PlayerData) : Type 0 where
  pub size : length datas ≡ n
  pub below : LosersBelow n datas
  pub even : total datas ≡ pos 0

module _ (n : ℕ) (datas : List PlayerData) (b : IsBalanced n datas) where
  unchanged_total :
      (w : ℕ) (d : PlayerData)
      → w < n
      → d.prize ≡ (at datas w).prize
      → total (set datas w d) ≡ pos 0
  unchanged_total w d hw same =
      same_total _ _ d.prize (
        ap (λ p. total (set datas w d) +ℤ p) same
        ∙ total-set datas w d (subst (λ m. w < m) (sym b.size) hw))
      ∙ b.even

  pub put_loser-IsBalanced :
      (w k : ℕ) (e : Loser) → w < n → k < n → IsBalanced n (put_loser w k e datas)
  unfolding put_loser
  put_loser-IsBalanced w k e hw hk = record {
    size = length-set datas w _ ∙ b.size;
    below =
        LosersBelow-set n datas w _
          (put-KeysBelow n k e (at datas w).losers hk (LosersBelow-at n datas w b.below)) b.below;
    even = unchanged_total w _ hw refl;
  }

  pub flag-IsBalanced :
      (w : ℕ) (flag : Bool)
      → w < n
      → IsBalanced n (set datas w (record (at datas w) { quan_lei_da = flag }))
  flag-IsBalanced w flag hw = record {
    size = length-set datas w _ ∙ b.size;
    below = LosersBelow-set n datas w _ (LosersBelow-at n datas w b.below) b.below;
    even = unchanged_total w _ hw refl;
  }

  pub transfer-IsBalanced : (w l : ℕ) (x : ℤ) → w < n → l < n → IsBalanced n (transfer w l x datas)
  unfolding transfer
  transfer-IsBalanced w l x hw hl =
      let winner = at datas w in
      let win = record winner { prize = winner.prize +ℤ x } in
      let paid = set datas w win in
      let loser = at paid l in
      let lose = record loser { prize = loser.prize -ℤ x } in
      let paid_size : length paid ≡ n = length-set datas w win ∙ b.size in
      let paid_below : LosersBelow n paid =
        LosersBelow-set n datas w win (LosersBelow-at n datas w b.below) b.below in
      record {
        size = length-set paid l lose ∙ paid_size;
        below = LosersBelow-set n paid l lose (LosersBelow-at n paid l paid_below) paid_below;
        even =
            moved_total (total datas) (total paid) (total (set paid l lose)) winner.prize
              loser.prize x (total-set datas w win (subst (λ m. w < m) (sym b.size) hw))
              (total-set paid l lose (subst (λ m. l < m) (sym paid_size) hl))
            ∙ b.even;
      }
