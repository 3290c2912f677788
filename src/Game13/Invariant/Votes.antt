-- ===== src/Game13/Invariant/Votes.antt =====
-- Votes on the end of a game keep what holds of it (game13.cpp).
use mathlib.Core.Path.{subst}
use casual_game.Prelude.{ℕ, ◌≡◌, inl, inr, refl, true, length, ◌==◌, Bool-cases, Option-cases}
use casual_game.Game13.Table.{
  Client, Vote, no_vote, aye, nay, GameStatus, Game, update_at, clear_votes, Session, with_game,
  player_index,
}
use casual_game.Game13.Actions.{is_vote, check_all_votes, count_votes}
use casual_game.Game13.Invariant.Seats.{
  update_at-AllSeated, clear_votes-AllSeated, clear_votes-NoneVoted,
}
use casual_game.Game13.Invariant.Steps.{
  IsSound, SettledOf, is_running, seats-IsSound, update_at-nil, abort_game-IsSound,
  remove_player-IsSound,
}
use casual_game.Game13.Handlers.{give_up, give_up_at, vote_for_abort}

-- The game whose votes are taken back.
abbrev reset : Game → Game
reset g = record g { players = clear_votes g.players; start_vote_time = 0; vote_sponsor_cuid = 0 }

running_of_vote : (status : GameStatus) → is_vote status ≡ true → is_running status ≡ true
running_of_vote GameStatus.vote e = refl
running_of_vote GameStatus.prepare e = cc
running_of_vote GameStatus.play e = refl
running_of_vote GameStatus.settle e = refl
running_of_vote _ e = cc

vote_of_is_vote : (status : GameStatus) → is_vote status ≡ true → status ≡ GameStatus.vote
vote_of_is_vote GameStatus.vote e = refl
vote_of_is_vote _ e = cc

module _ (s : Session) (h : IsSound s.game) where
  reset-IsSound : is_vote s.game.status ≡ true → IsSound (reset s.game)
  reset-IsSound v = record {
    seated = λ e. clear_votes-AllSeated s.game.players (h.seated (running_of_vote _ v));
    no_votes = λ e. clear_votes-NoneVoted s.game.players;
    settled = h.settled;
    ended = λ e. cc (vote_of_is_vote _ v);
    more = λ e. cc (vote_of_is_vote _ v);
  }

  resumed-IsSound :
      is_vote s.game.status ≡ true → IsSound (record (reset s.game) { status = GameStatus.play })
  resumed-IsSound v = record {
    seated = λ e. clear_votes-AllSeated s.game.players (h.seated (running_of_vote _ v));
    no_votes = λ e. clear_votes-NoneVoted s.game.players;
    settled =
        subst (λ t. SettledOf t s.game.rounds (length s.game.settle_data)) (vote_of_is_vote _ v)
          h.settled;
    ended = λ e. cc;
    more = λ e. cc;
  }

  pub check_all_votes-IsSound : IsSound (check_all_votes s).game
  unfolding check_all_votes with_game
  check_all_votes-IsSound = elim (Bool-cases (is_vote s.game.status)) [
    | inr n ↦ rw n h
    | inl v ↦ elim (Bool-cases ((count_votes s.game.players 0).1 == 0)) [
      | inr o ↦ rw (v, o) (resumed-IsSound v)
      | inl o ↦ elim (Bool-cases ((count_votes s.game.players 0).0 == length s.game.players)) [
        | inl a ↦ rw (v, o, a) (abort_game-IsSound (with_game s (reset s.game)) (reset-IsSound v))
        | inr a ↦ rw (v, o, a) h
      ]
    ]
  ]

-- A vote of the player at a seat.
abbrev cast : Vote → ℕ → Game → Game
cast v i g = record g { players = update_at i (λ p. record p { vote = v }) g.players }

module _ (s : Session) (h : IsSound s.game) where
  cast-IsSound : (v : Vote) (i : ℕ) → is_vote s.game.status ≡ true → IsSound (cast v i s.game)
  cast-IsSound v i on =
      seats-IsSound s.game _ h
        (λ e.
          update_at-AllSeated i (λ p. record p { vote = v }) s.game.players (λ p. refl)
            (h.seated e))
        (λ e. cc) (update_at-nil i (λ p. record p { vote = v }) s.game.players)

  pub vote_for_abort-IsSound : (v : Vote) (c : Client) → IsSound (vote_for_abort v c s).game
  unfolding vote_for_abort with_game
  vote_for_abort-IsSound v c = elim (Bool-cases (is_vote s.game.status)) [
    | inr n ↦ rw n h
    | inl on ↦ elim (Option-cases (player_index c.cuid s.game.players)) [
      | inl e ↦ rw (on, e, vote_for_abort) h
      | inr (i, e) ↦ rw (on, e, vote_for_abort) (counted v i on)
    ]
  ]
    where
      counted :
          (v : Vote) (i : ℕ)
          → is_vote s.game.status ≡ true
          → IsSound
              (elim v as (λ w. Session) [
                | no_vote ↦ with_game s (cast v i s.game)
                | _ ↦ check_all_votes (with_game s (cast v i s.game))
              ]).game
      counted no_vote i on = cast-IsSound no_vote i on
      counted aye i on =
          check_all_votes-IsSound (with_game s (cast aye i s.game)) (cast-IsSound aye i on)
      counted nay i on =
          check_all_votes-IsSound (with_game s (cast nay i s.game)) (cast-IsSound nay i on)

  -- The game in which a player asks for its end.
  asked_end-IsSound :
      (now cuid i : ℕ)
      → s.game.status ≡ GameStatus.play
      → IsSound (record (cast aye i s.game) {
        start_vote_time = now;
        vote_sponsor_cuid = cuid;
        status = GameStatus.vote;
      })
  asked_end-IsSound now cuid i e = record {
    seated = λ _.
        update_at-AllSeated i (λ p. record p { vote = aye }) s.game.players (λ p. refl)
          (h.seated (rw e));
    no_votes = λ n. cc;
    settled = subst (λ t. SettledOf t s.game.rounds (length s.game.settle_data)) e h.settled;
    ended = λ n. cc;
    more = λ n. cc;
  }

  give_up_at-IsSound :
      (now : ℕ) (c : Client) (i : ℕ) (status : GameStatus)
      → s.game.status ≡ status
      → IsSound (give_up_at now c i s).game
  unfolding give_up_at with_game
  give_up_at-IsSound now c i GameStatus.prepare e =
      elim (Bool-cases (c.cuid == s.game.owner_cuid)) [
        | inl o ↦ rw (e, give_up_at, o) (abort_game-IsSound s h)
        | inr o ↦ rw (e, give_up_at, o) (remove_player-IsSound s h c (rw e))
      ]
  give_up_at-IsSound now c i GameStatus.play e =
      rw (e, give_up_at)
        (check_all_votes-IsSound
          (with_game s (record (cast aye i s.game) {
            start_vote_time = now;
            vote_sponsor_cuid = c.cuid;
            status = GameStatus.vote;
          }))
          (asked_end-IsSound now c.cuid i e))
  give_up_at-IsSound now c i GameStatus.vote e =
      rw (e, give_up_at)
        (check_all_votes-IsSound (with_game s (cast aye i s.game)) (cast-IsSound aye i (rw e)))
  give_up_at-IsSound now c i GameStatus.settle e = rw (e, give_up_at) h
  give_up_at-IsSound now c i GameStatus.settle_all e =
      rw (e, give_up_at) (remove_player-IsSound s h c (rw e))
  give_up_at-IsSound now c i GameStatus.closed e =
      rw (e, give_up_at) (remove_player-IsSound s h c (rw e))

  pub give_up-IsSound : (now : ℕ) (c : Client) → IsSound (give_up now c s).game
  unfolding give_up
  give_up-IsSound now c = elim (Option-cases (player_index c.cuid s.game.players)) [
    | inl e ↦ rw (e, give_up) h
    | inr (i, e) ↦ rw (e, give_up) (give_up_at-IsSound now c i s.game.status refl)
  ]
