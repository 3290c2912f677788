-- ===== src/Game13/Invariant/Runs.antt =====
-- Every message and every tick keeps what holds of a game, and so does every run (game13.cpp).
use mathlib.Core.Path.{subst}
use casual_game.Prelude.{
  ℕ, ◌≡◌, inl, inr, refl, Bool, true, false, not, some, List, length, arith, if◌then◌else◌, ◌==◌,
  Bool-cases, Option-cases, >>=-eq-some, ◌>>=◌,
}
use casual_game.Game13.Table.{
  Client, PlayerInfo, GameStatus, update_at, clear_votes, Session, with_game, player_index,
}
use casual_game.Game13.Actions.{is_prepare}
use casual_game.Game13.Dealing.{try_start_round}
use casual_game.Game13.Settling.{try_settle_game}
use casual_game.Game13.Invariant.Seats.{
  update_at-AllSeated, update_at-NoneVoted, clear_votes-AllSeated, clear_votes-NoneVoted,
}
use casual_game.Game13.Table.{Status, is_sort, is_ready}
use casual_game.Prelude.{map, leb, ◌-◌, ◌%◌, ◌^◌, ◌||◌}
use casual_game.Game13.Actions.{is_prepare, is_play, is_settle}
use casual_game.Game13.Invariant.Steps.{
  IsSound, is_running, seats-IsSound, update_at-nil, abort_game-IsSound, idle_seat-IsSound,
}
use casual_game.Game13.Invariant.Rounds.{
  may_begin, some_inv, try_start_round-IsSound, try_settle_game-IsSound,
}
use casual_game.Game13.Handlers.{
  ready_flag, bring_out, timer_exec, status_at, max_vote_duration, settle_all_duration,
}

begin_of_prepare : (status : GameStatus) → is_prepare status ≡ true → may_begin status ≡ true
begin_of_prepare GameStatus.prepare e = refl
begin_of_prepare _ e = cc

begin_of_settle : (status : GameStatus) → is_settle status ≡ true → may_begin status ≡ true
begin_of_settle GameStatus.settle e = refl
begin_of_settle GameStatus.prepare e = refl
begin_of_settle _ e = cc

idle_of_prepare : (status : GameStatus) → is_prepare status ≡ true → is_running status ≡ false
idle_of_prepare GameStatus.prepare e = refl
idle_of_prepare _ e = cc

module _ (shuffle : List ℕ → List ℕ) (s : Session) (h : IsSound s.game) where
  -- The status of a seat, set.
  abbrev marked : ℕ → Status → Session
  marked i status =
      with_game s (record (s.game) {
        players = update_at i (λ p. record p { status = status }) s.game.players;
      })

  marked-IsSound :
      (i : ℕ) (status : Status) → is_prepare s.game.status ≡ true → IsSound (marked i status).game
  unfolding with_game
  marked-IsSound i status p =
      idle_seat-IsSound s h i (λ q. record q { status = status }) (λ q. refl) (idle_of_prepare _ p)

  pub ready_flag-IsSound :
      {t : Session} (ready : Bool) (c : Client)
      → ready_flag shuffle ready c s ≡ some t
      → IsSound t.game
  unfolding ready_flag with_game
  ready_flag-IsSound {t} ready c e = elim (Bool-cases (is_prepare s.game.status)) [
    | inr n ↦ subst (λ (x : Session). IsSound x.game) (some_inv (rw n at e)) h
    | inl p ↦ elim (Option-cases (player_index c.cuid s.game.players)) [
      | inl n ↦ subst (λ (x : Session). IsSound x.game) (some_inv (rw (p, n, ready_flag) at e)) h
      | inr (i, n) ↦ chosen ready i p (rw (p, n, ready_flag) at e)
    ]
  ]
    where
      chosen :
          {t : Session} (ready : Bool) (i : ℕ)
          → is_prepare s.game.status ≡ true
          → (if ready
              then (if is_ready (status_at i s.game.players)
                  then some s
                  else try_start_round shuffle (marked i Status.ready))
              else some (marked i Status.prep))
            ≡ some t
          → IsSound t.game
      chosen false i p e =
          subst (λ (x : Session). IsSound x.game) (some_inv e) (marked-IsSound i Status.prep p)
      chosen true i p e = elim (Bool-cases (is_ready (status_at i s.game.players))) [
        | inl r ↦ subst (λ (x : Session). IsSound x.game) (some_inv (rw r at e)) h
        | inr r ↦
            try_start_round-IsSound shuffle (marked i Status.ready)
              (marked-IsSound i Status.ready p) (begin_of_prepare _ p) (rw r at e)
      ]

  -- What a player brings out.
  abbrev brought : List ℕ → PlayerInfo → PlayerInfo
  brought cards p = record p { status = Status.compare; cards = map (λ card. card % 2 ^ 16) cards }

  abbrev shown : ℕ → List ℕ → Session
  shown i cards =
      with_game s (record (s.game) { players = update_at i (brought cards) s.game.players })

  shown-IsSound : (i : ℕ) (cards : List ℕ) → IsSound (shown i cards).game
  unfolding with_game
  shown-IsSound i cards =
      seats-IsSound s.game (update_at i (brought cards) s.game.players) h
        (λ e. update_at-AllSeated i (brought cards) s.game.players (λ p. refl) (h.seated e))
        (λ e. update_at-NoneVoted i (brought cards) s.game.players (λ p. refl) (h.no_votes e))
        (update_at-nil i (brought cards) s.game.players)

  pub bring_out-IsSound :
      {t : Session} (now : ℕ) (cards : List ℕ) (c : Client)
      → bring_out shuffle now cards c s ≡ some t
      → IsSound t.game
  unfolding bring_out
  bring_out-IsSound {t} now cards c e = elim (Bool-cases (is_play s.game.status)) [
    | inr n ↦ subst (λ (x : Session). IsSound x.game) (some_inv (rw n at e)) h
    | inl p ↦ elim (Option-cases (player_index c.cuid s.game.players)) [
      | inl n ↦ subst (λ (x : Session). IsSound x.game) (some_inv (rw (p, n, bring_out) at e)) h
      | inr (i, n) ↦ chosen i (rw (p, n, bring_out) at e)
    ]
  ]
    where
      next :
          {t : Session} (settled : Session)
          → IsSound settled.game
          → (if is_settle settled.game.status
              then try_start_round shuffle settled
              else some settled)
            ≡ some t
          → IsSound t.game
      next settled k e = elim (Bool-cases (is_settle settled.game.status)) [
        | inl y ↦ try_start_round-IsSound shuffle settled k (begin_of_settle _ y) (rw y at e)
        | inr y ↦ subst (λ (x : Session). IsSound x.game) (some_inv (rw y at e)) k
      ]

      chosen :
          {t : Session} (i : ℕ)
          → (if not (is_sort (status_at i s.game.players)) || not (length cards == 13)
              then some s
              else try_settle_game now (shown i cards) >>= λ settled.
                  if is_settle settled.game.status
                  then try_start_round shuffle settled
                  else some settled)
            ≡ some t
          → IsSound t.game
      chosen i e =
          elim (Bool-cases
            (not (is_sort (status_at i s.game.players)) || not (length cards == 13))) [
              | inl y ↦ subst (λ (x : Session). IsSound x.game) (some_inv (rw y at e)) h
              | inr y ↦
                  let (settled, e1, e2) =
                    >>=-eq-some (try_settle_game now (shown i cards)) _ (rw y at e) in
                  next settled
                    (try_settle_game-IsSound now (shown i cards) (shown-IsSound i cards) e1) e2
            ]

  ended-IsSound : IsSound (record (s.game) { settle_all_time = 0 })
  ended-IsSound = record {
    seated = h.seated;
    no_votes = h.no_votes;
    settled = h.settled;
    ended = h.ended;
    more = h.more;
  }

  timed_out-IsSound :
      s.game.status ≡ GameStatus.vote
      → IsSound (record (s.game) { players = clear_votes s.game.players; start_vote_time = 0 })
  timed_out-IsSound e = record {
    seated = λ _. clear_votes-AllSeated s.game.players (h.seated (rw e));
    no_votes = λ _. clear_votes-NoneVoted s.game.players;
    settled = h.settled;
    ended = λ n. absurd (ground (arith, e, n));
    more = λ n. absurd (ground (arith, e, n));
  }

  timer_exec-IsSound_at :
      {t : Session} (now : ℕ) (status : GameStatus)
      → s.game.status ≡ status
      → timer_exec shuffle now s ≡ some t
      → IsSound t.game
  unfolding timer_exec with_game
  timer_exec-IsSound_at now GameStatus.prepare q e =
      try_start_round-IsSound shuffle s h (begin_of_prepare _ (rw q)) (rw (q, timer_exec) at e)
  timer_exec-IsSound_at now GameStatus.play q e =
      subst (λ (x : Session). IsSound x.game) (some_inv (rw (q, timer_exec) at e)) h
  timer_exec-IsSound_at now GameStatus.vote q e =
      subst (λ (x : Session). IsSound x.game) (some_inv (rw (q, timer_exec) at e))
        (elim (Bool-cases (leb max_vote_duration (now - s.game.start_vote_time))) [
          | inl y ↦ rw y (
              abort_game-IsSound
                (with_game s
                  (record (s.game) { players = clear_votes s.game.players; start_vote_time = 0 }))
                (timed_out-IsSound q))
          | inr y ↦ rw y h
        ])
  timer_exec-IsSound_at now GameStatus.settle q e =
      subst (λ (x : Session). IsSound x.game) (some_inv (rw (q, timer_exec) at e)) h
  timer_exec-IsSound_at now GameStatus.settle_all q e =
      subst (λ (x : Session). IsSound x.game) (some_inv (rw (q, timer_exec) at e))
        (elim (Bool-cases (leb settle_all_duration (now - s.game.settle_all_time))) [
          | inl y ↦ rw y (
              abort_game-IsSound (with_game s (record (s.game) { settle_all_time = 0 }))
                ended-IsSound)
          | inr y ↦ rw y h
        ])
  timer_exec-IsSound_at now GameStatus.closed q e =
      subst (λ (x : Session). IsSound x.game) (some_inv (rw (q, timer_exec) at e))
        (record {
          seated = h.seated;
          no_votes = h.no_votes;
          settled = h.settled;
          ended = λ n. ((h.ended n).0, refl);
          more = h.more;
        })

  pub timer_exec-IsSound :
      {t : Session} (now : ℕ) → timer_exec shuffle now s ≡ some t → IsSound t.game
  timer_exec-IsSound now e = timer_exec-IsSound_at now s.game.status refl e
