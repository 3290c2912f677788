-- ===== src/Game13/Voting.antt =====
-- What a count of the votes comes to (`checkAllVotes`, game13.cpp).
use casual_game.Prelude.{
  ℕ, ◌+◌, ◌≡◌, ◌≤◌, refl, Bool, true, false, not, ◌&&◌, ◌||◌, List, [], ◌∷◌, length, arith, ◌==◌,
  Bool-cases, inl, inr, if◌then◌else◌,
}
use casual_game.Game13.Table.{
  Vote, no_vote, aye, nay, PlayerInfo, GameStatus, Session, with_game, with_clients,
}
use casual_game.Game13.Actions.{is_vote, abort_game, count_votes, check_all_votes}
use casual_game.Game13.Invariant.Seats.{AllSeated, NoneVoted, clear_votes-NoneVoted}

abbrev pub is_nay : Vote → Bool
is_nay nay = true
is_nay _ = false

abbrev pub is_aye : Vote → Bool
is_aye aye = true
is_aye _ = false

-- Some player is against the end of the game.
abbrev pub any_nay : List PlayerInfo → Bool
any_nay [] = false
any_nay (p ∷ ps) = is_nay p.vote || any_nay ps

-- All players are for it.
abbrev pub all_aye : List PlayerInfo → Bool
all_aye [] = true
all_aye (p ∷ ps) = is_aye p.vote && all_aye ps

-- What the votes decide.
abbrev pub decided : List PlayerInfo → GameStatus
decided ps =
    if any_nay ps
    then GameStatus.play
    else if all_aye ps
    then GameStatus.closed
    else GameStatus.vote

ayes : List PlayerInfo → ℕ
ayes [] = 0
ayes (p ∷ ps) = (if is_aye p.vote then 1 else 0) + ayes ps

ayes-le : (ps : List PlayerInfo) → ayes ps ≤ length ps
unfolding ayes
ayes-le [] = omega arith
ayes-le (p ∷ ps) = ground (arith, ayes-le ps)

ayes-all_aye : (ps : List PlayerInfo) → (ayes ps == length ps) ≡ all_aye ps
unfolding ayes
ayes-all_aye [] = refl
ayes-all_aye (p ∷ ps) = ground (arith, ayes-all_aye ps, ayes-le ps)

opposed :
    (ps : List PlayerInfo) (n : ℕ) → AllSeated ps → ((count_votes ps n).1 == 0) ≡ not (any_nay ps)
unfolding count_votes
opposed [] n h = refl
opposed (p ∷ ps) n h = by_vote (λ k. opposed ps k h.1) p.vote refl
  where
    by_vote :
        ((k : ℕ) → ((count_votes ps k).1 == 0) ≡ not (any_nay ps))
        → (v : Vote) → p.vote ≡ v
        → ((count_votes (p ∷ ps) n).1 == 0) ≡ not (any_nay (p ∷ ps))
    by_vote r no_vote e = rw (e, count_votes) (r n)
    by_vote r aye e = rw (e, count_votes) (r (n + 1))
    by_vote r nay e = rw (e, count_votes) (ground (arith, h.0))

agreed : (ps : List PlayerInfo) (n : ℕ) → any_nay ps ≡ false → (count_votes ps n).0 ≡ n + ayes ps
unfolding count_votes ayes
agreed [] n h = omega arith
agreed (p ∷ ps) n h = by_vote (λ k. agreed ps k) p.vote refl
  where
    by_vote :
        ((k : ℕ) → any_nay ps ≡ false → (count_votes ps k).0 ≡ k + ayes ps)
        → (v : Vote) → p.vote ≡ v
        → (count_votes (p ∷ ps) n).0 ≡ n + ayes (p ∷ ps)
    by_vote r no_vote e = rw (e, count_votes) (omega (arith, r n (rw e at h)))
    by_vote r aye e = rw (e, count_votes) (omega (arith, r (n + 1) (rw e at h)))
    by_vote r nay e = absurd (ground (arith, h, e))

module _ (s : Session) (on : s.game.status ≡ GameStatus.vote) (h : AllSeated s.game.players) where
  opens : is_vote s.game.status ≡ true
  opens = rw on refl

  -- While a vote is on and every seat is taken, one nay lets the game go on, ayes alone end it, and
  -- else the vote stays on; no vote is left once it is decided.
  pub check_all_votes-decided :
      ((check_all_votes s).game.status ≡ decided s.game.players)
      × (is_vote (check_all_votes s).game.status ≡ false
          → NoneVoted (check_all_votes s).game.players)
  unfolding check_all_votes with_game with_clients abort_game
  check_all_votes-decided = elim (Bool-cases (any_nay s.game.players)) [
    | inl y ↦
        let e : ((count_votes s.game.players 0).1 == 0) ≡ false =
          cc (opposed s.game.players 0 h, y) in
        rw (opens, e, y) (refl, λ _. clear_votes-NoneVoted s.game.players)
    | inr y ↦
        let e : ((count_votes s.game.players 0).1 == 0) ≡ true =
          cc (opposed s.game.players 0 h, y) in
        let n : (count_votes s.game.players 0).0 ≡ ayes s.game.players =
          omega (arith, agreed s.game.players 0 y) in
        elim (Bool-cases (all_aye s.game.players)) [
          | inl a ↦
              let k : (ayes s.game.players == length s.game.players) ≡ true =
                cc (ayes-all_aye s.game.players, a) in
              rw (opens, e, y, n, k, a) (refl, λ _. tt)
          | inr a ↦
              let k : (ayes s.game.players == length s.game.players) ≡ false =
                cc (ayes-all_aye s.game.players, a) in
              rw (opens, e, y, n, k, a) (on, λ f. absurd (ground (arith, f, on)))
        ]
  ]
