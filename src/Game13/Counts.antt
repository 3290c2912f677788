-- ===== src/Game13/Counts.antt =====
-- The final count of a game (`trySettleGame`, game13.cpp).
use mathlib.Core.Path.{subst}
use casual_game.Prelude.{
  ℕ, zero, suc, ◌≡◌, ◌∙◌, inl, inr, refl, sym, some, List, [], ◌∷◌, ◌++◌, length, replicate, arith,
  Bool-cases, >>=-eq-some, length-replicate,
}
use casual_game.Prelude.Int.{ℤ, pos, ◌+ℤ◌, int_laws, parts_of_eq, zero-+ℤ}
use casual_game.Game13.Round.{PlayerData, calc_round}
use casual_game.Game13.Round.Totals.{total}
use casual_game.Game13.Round.ZeroSum.{calc_round-zero_sum}
use casual_game.Game13.Table.{PlayerInfo, Session}
use casual_game.Game13.Actions.{is_play}
use casual_game.Game13.Dealing.{all_compare}
use casual_game.Game13.Settling.{
  hands, round_rules, restore_cards, is_last_round, try_settle_game, FinalCount, no_count,
  count_round, count_players, final_counts,
}

-- What the final ranks add up to.
abbrev pub rank_total : List FinalCount → ℤ
rank_total [] = pos 0
rank_total (c ∷ cs) = c.rank +ℤ rank_total cs

-- Each round is one of `n` players whose prizes add up to nothing.
abbrev pub AllEven : ℕ → List (List PlayerData) → Type 0
AllEven n [] = Unit
AllEven n (round ∷ rounds) = ((length round ≡ n) × (total round ≡ pos 0)) × AllEven n rounds

moved : (a p c t : ℤ) → (a +ℤ p) +ℤ (c +ℤ t) ≡ (a +ℤ c) +ℤ (p +ℤ t)
moved a p c t = omega int_laws

count_players-rank :
    (cs : List FinalCount) (ds : List PlayerData)
    → length ds ≡ length cs
    → (rank_total (count_players cs ds) ≡ rank_total cs +ℤ total ds)
      × (length (count_players cs ds) ≡ length cs)
unfolding count_players count_round total
count_players-rank [] [] h = (sym (zero-+ℤ (pos 0)), refl)
count_players-rank [] (d ∷ ds) h = absurd (omega arith)
count_players-rank (c ∷ cs) [] h = absurd (omega arith)
count_players-rank (c ∷ cs) (d ∷ ds) h =
    let (ranks, size) = count_players-rank cs ds (omega arith) in
    (rw ranks (moved c.rank d.prize (rank_total cs) (total ds)), omega arith)

final_counts-rank :
    (n : ℕ) (rounds : List (List PlayerData)) (cs : List FinalCount)
    → length cs ≡ n
    → AllEven n rounds
    → rank_total (final_counts rounds cs) ≡ rank_total cs
unfolding final_counts
final_counts-rank n [] cs h a = refl
final_counts-rank n (round ∷ rounds) cs h a =
    let (ranks, size) = count_players-rank cs round (omega (arith, a.0.0)) in
    final_counts-rank n rounds (count_players cs round) (omega arith) a.1
    ∙ ranks
    ∙ omega (int_laws, parts_of_eq _ _ a.0.1)

no_counts-rank : (n : ℕ) → rank_total (replicate n no_count) ≡ pos 0
no_counts-rank zero = refl
no_counts-rank (suc n) = zero-+ℤ (rank_total (replicate n no_count)) ∙ no_counts-rank n

restore_cards-total :
    (ps : List PlayerInfo) (ds : List PlayerData)
    → (total (restore_cards ps ds) ≡ total ds) × (length (restore_cards ps ds) ≡ length ds)
unfolding total
restore_cards-total [] ds = (refl, refl)
restore_cards-total (p ∷ ps) [] = (refl, refl)
restore_cards-total (p ∷ ps) (d ∷ ds) =
    let (same, size) = restore_cards-total ps ds in (cc same, cc size)

append-AllEven :
    (n : ℕ) (rounds : List (List PlayerData)) (round : List PlayerData)
    → AllEven n rounds
    → length round ≡ n
    → total round ≡ pos 0
    → AllEven n (rounds ++ round ∷ [])
append-AllEven n [] round a h e = ((h, e), tt)
append-AllEven n (r ∷ rounds) round a h e = (a.0, append-AllEven n rounds round a.1 h e)

length-hands : (ps : List PlayerInfo) → length (hands ps) ≡ length ps
length-hands [] = refl
length-hands (p ∷ ps) = cc (length-hands ps)

session_inv : {x y : Session} → some x ≡ some y → x ≡ y
session_inv e = cc

try_settle_game-AllEven :
    (now n : ℕ) (s t : Session)
    → length s.game.players ≡ n
    → AllEven n s.game.settle_data
    → try_settle_game now s ≡ some t
    → AllEven n t.game.settle_data
unfolding try_settle_game
try_settle_game-AllEven now n s t size a e = elim (Bool-cases (is_play s.game.status)) [
  | inr y ↦ subst (λ (x : Session). AllEven n x.game.settle_data) (session_inv (rw y at e)) a
  | inl y ↦ elim (Bool-cases (all_compare s.game.players)) [
    | inr c ↦ subst (λ (x : Session). AllEven n x.game.settle_data) (session_inv (rw (y, c) at e)) a
    | inl c ↦
        let (round, e1, e2) =
          >>=-eq-some (calc_round (round_rules s.game.attr) (hands s.game.players)) _
            (rw (y, c) at e) in
        let zero_sum = calc_round-zero_sum (round_rules s.game.attr) (hands s.game.players) e1 in
        let kept = restore_cards-total s.game.players round in
        let more =
          append-AllEven n s.game.settle_data (restore_cards s.game.players round) a
            (kept.1 ∙ zero_sum.1 ∙ length-hands s.game.players ∙ size) (kept.0 ∙ zero_sum.0) in
        subst (λ (x : Session). AllEven n x.game.settle_data) (session_inv e2)
          (elim (Bool-cases (is_last_round s.game)) [ inl l ↦ rw l more | inr l ↦ rw l more ])
  ]
]

-- Where the rounds so far are of all players and each adds up to nothing, so it is after a round is
-- settled or left unsettled, and the ranks of the final count add up to nothing.
pub try_settle_game-final_counts :
    (now : ℕ) (s t : Session)
    → AllEven (length s.game.players) s.game.settle_data
    → try_settle_game now s ≡ some t
    → AllEven (length s.game.players) t.game.settle_data
      × (rank_total (final_counts t.game.settle_data (replicate (length s.game.players) no_count))
          ≡ pos 0)
try_settle_game-final_counts now s t a e =
    let n = length s.game.players in
    let even = try_settle_game-AllEven now n s t refl a e in
    (
      even,
      final_counts-rank n t.game.settle_data (replicate n no_count) (length-replicate n no_count)
            even
          ∙ no_counts-rank n,
    )
