-- ===== src/Game13/Invariant/Rounds.antt =====
-- Rounds that begin and end keep what holds of a game (game13.cpp).
use mathlib.Core.Path.{subst}
use casual_game.Prelude.{
  ℕ, suc, ◌+◌, ◌≡◌, inl, inr, refl, sym, Bool, true, false, not, some, List, [], ◌∷◌, ◌++◌, length,
  arith, Bool-cases, >>=-eq-some, length-append,
}
use casual_game.Prelude.Int.{pos, ltb_ℤ}
use casual_game.Game13.Round.{PlayerData, calc_round}
use casual_game.Game13.Table.{GameStatus, Game, Session}
use casual_game.Game13.Actions.{is_vote, is_play}
use casual_game.Game13.Dealing.{
  deal, init_deck, all_compare, may_start, start_round, try_start_round,
}
use casual_game.Game13.Settling.{try_settle_game, is_last_round, hands, round_rules, restore_cards}
use casual_game.Game13.Invariant.Seats.{AllSeated, all_ready-AllSeated, deal-keeps}
use casual_game.Game13.Invariant.Steps.{IsSound, SettledOf}

-- A round may begin before the first one, and after one is settled.
abbrev pub may_begin : GameStatus → Bool
may_begin GameStatus.prepare = true
may_begin GameStatus.settle = true
may_begin _ = false

pub some_inv : {x y : Session} → some x ≡ some y → x ≡ y
some_inv e = cc

SettledOf_begin :
    (status : GameStatus) (r n : ℕ)
    → may_begin status ≡ true
    → SettledOf status r n
    → SettledOf GameStatus.play (r + 1) n
SettledOf_begin GameStatus.prepare r n b h = omega arith
SettledOf_begin GameStatus.settle r n b h = omega arith
SettledOf_begin GameStatus.play r n b h = cc
SettledOf_begin GameStatus.vote r n b h = cc
SettledOf_begin GameStatus.settle_all r n b h = cc
SettledOf_begin GameStatus.closed r n b h = cc

not_vote_of_begin : (status : GameStatus) → may_begin status ≡ true → is_vote status ≡ false
not_vote_of_begin GameStatus.vote b = cc
not_vote_of_begin _ b = refl

module _ (shuffle : List ℕ → List ℕ) (s : Session) (h : IsSound s.game) where
  start_round-IsSound :
      {t : Session}
      → may_begin s.game.status ≡ true
      → AllSeated s.game.players
      → start_round shuffle s ≡ some t
      → IsSound t.game
  unfolding start_round
  start_round-IsSound {t} b seats e =
      let g = record (s.game) { rounds = s.game.rounds + 1 } in
      let (filled, e1, e') = >>=-eq-some (init_deck g.attr.play_type s.deck) _ e in
      let (dealt, e2, e'') = >>=-eq-some (deal g g.players s.clients (shuffle filled)) _ e' in
      let (seated, voted) =
        deal-keeps g g.players s.clients (shuffle filled) {ps' = dealt.0} {clients' = dealt.1} e2 in
      let started : Game = record g { players = dealt.0; status = GameStatus.play } in
      let same : t.game ≡ started = ground (arith, e'') in
      subst IsSound (sym same) (record {
        seated = λ _. seated seats;
        no_votes = λ _. voted (h.no_votes (not_vote_of_begin s.game.status b));
        settled =
            SettledOf_begin s.game.status s.game.rounds (length s.game.settle_data) b h.settled;
        ended = λ n. cc;
        more = λ n. cc;
      })

  seats_of_start : may_begin s.game.status ≡ true → may_start s ≡ true → AllSeated s.game.players
  unfolding may_start
  seats_of_start b m = by_status s.game.status refl
    where
      by_status : (status : GameStatus) → s.game.status ≡ status → AllSeated s.game.players
      by_status GameStatus.prepare e =
          all_ready-AllSeated s.clients s.game.players (ground (arith, e, m))
      by_status GameStatus.settle e = h.seated (rw e)
      by_status GameStatus.play e = absurd (ground (arith, e, b))
      by_status GameStatus.vote e = absurd (ground (arith, e, b))
      by_status GameStatus.settle_all e = absurd (ground (arith, e, b))
      by_status GameStatus.closed e = absurd (ground (arith, e, b))

  pub try_start_round-IsSound :
      {t : Session}
      → may_begin s.game.status ≡ true
      → try_start_round shuffle s ≡ some t
      → IsSound t.game
  unfolding try_start_round
  try_start_round-IsSound {t} b e = elim (Bool-cases (may_start s)) [
    | inl m ↦ start_round-IsSound b (seats_of_start b m) (rw m at e)
    | inr m ↦ subst (λ (x : Session). IsSound x.game) (some_inv (rw m at e)) h
  ]

play_of_is_play : (status : GameStatus) → is_play status ≡ true → status ≡ GameStatus.play
play_of_is_play GameStatus.play e = refl
play_of_is_play _ e = cc

module _ (now : ℕ) (s : Session) (h : IsSound s.game) (e : s.game.status ≡ GameStatus.play) where
  one_more : (round : List PlayerData) → s.game.rounds ≡ length (s.game.settle_data ++ round ∷ [])
  one_more round =
      let pending : s.game.rounds ≡ suc (length s.game.settle_data) =
        subst (λ t. SettledOf t s.game.rounds (length s.game.settle_data)) e h.settled in
      omega (arith, pending, length-append s.game.settle_data (round ∷ []))

  -- The game after a round, by the status that follows it.
  abbrev after : GameStatus → ℕ → List PlayerData → Game
  after status time round = record (s.game) {
    settle_data = s.game.settle_data ++ round ∷ [];
    status = status;
    settle_all_time = time;
  }

  after_last-IsSound : (round : List PlayerData) → IsSound (after GameStatus.settle_all now round)
  after_last-IsSound round = record {
    seated = λ n. cc;
    no_votes = λ _. h.no_votes (rw e);
    settled = one_more round;
    ended = λ n. cc;
    more = λ n. cc;
  }

  after_round-IsSound :
      (round : List PlayerData)
      → is_last_round s.game ≡ false
      → IsSound (after GameStatus.settle s.game.settle_all_time round)
  after_round-IsSound round l = record {
    seated = λ _. h.seated (rw e);
    no_votes = λ _. h.no_votes (rw e);
    settled = one_more round;
    ended = λ n. cc;
    more = λ _. not_false (ltb_ℤ (pos s.game.rounds) s.game.attr.rounds) l;
  }
    where
      not_false : (b : Bool) → not b ≡ false → b ≡ true
      not_false true n = refl
      not_false false n = cc

module _ (now : ℕ) (s : Session) (h : IsSound s.game) where
  pub try_settle_game-IsSound : {t : Session} → try_settle_game now s ≡ some t → IsSound t.game
  unfolding try_settle_game
  try_settle_game-IsSound {t} e = elim (Bool-cases (is_play s.game.status)) [
    | inr n ↦ subst (λ (x : Session). IsSound x.game) (some_inv (rw n at e)) h
    | inl y ↦ elim (Bool-cases (all_compare s.game.players)) [
      | inr n ↦ subst (λ (x : Session). IsSound x.game) (some_inv (rw (y, n) at e)) h
      | inl a ↦
          let e0 = rw (y, a) at e in
          let (round, er, e') =
            >>=-eq-some (calc_round (round_rules s.game.attr) (hands s.game.players)) _ e0 in
          elim (Bool-cases (is_last_round s.game)) [
            | inl l ↦
                subst (λ (x : Session). IsSound x.game) (some_inv (rw l at e'))
                  (after_last-IsSound now s h (play_of_is_play _ y)
                    (restore_cards s.game.players round))
            | inr l ↦
                subst (λ (x : Session). IsSound x.game) (some_inv (rw l at e'))
                  (after_round-IsSound now s h (play_of_is_play _ y)
                    (restore_cards s.game.players round) l)
          ]
    ]
  ]
