-- ===== src/Game13/Invariant/Steps.antt =====
-- Each step of a game keeps what holds of it (game13.cpp).
use casual_game.Prelude.{
  ℕ, suc, ◌≡◌, ◌≤◌, inl, inr, refl, Bool, true, false, List, [], length, arith, ◌==◌, Bool-cases,
  Option-cases,
}
use casual_game.Prelude.Int.{pos, ltb_ℤ}
use casual_game.Game13.Table.{
  Client, PlayerInfo, GameStatus, Game, update_at, clear, Session, with_game, with_clients,
  player_index, get_empty_seat_index,
}
use casual_game.Game13.Actions.{
  take_seat, can_pay, is_prepare, is_vote, enter_room, remove_player, abort_game,
}
use casual_game.Game13.Invariant.Seats.{AllSeated, NoneVoted, update_at-NoneVoted}

-- A game that has started and not ended.
abbrev pub is_running : GameStatus → Bool
is_running GameStatus.play = true
is_running GameStatus.vote = true
is_running GameStatus.settle = true
is_running _ = false

-- The rounds of a game that are settled, of `rounds` that are begun.
abbrev pub SettledOf : GameStatus → ℕ → ℕ → Type 0
SettledOf GameStatus.prepare rounds settled = (rounds ≡ 0) × (settled ≡ 0)
SettledOf GameStatus.play rounds settled = rounds ≡ suc settled
SettledOf GameStatus.vote rounds settled = rounds ≡ suc settled
SettledOf GameStatus.settle rounds settled = rounds ≡ settled
SettledOf GameStatus.settle_all rounds settled = rounds ≡ settled
SettledOf GameStatus.closed rounds settled = settled ≤ rounds

pub record IsSound (g : Game) : Type 0 where
  -- While a game runs every seat is taken.
  pub seated : is_running g.status ≡ true → AllSeated g.players
  -- No vote is kept but while a vote is on.
  pub no_votes : is_vote g.status ≡ false → NoneVoted g.players
  pub settled : SettledOf g.status g.rounds (length g.settle_data)
  -- A game that has ended has no players, and its room is to be destroyed.
  pub ended : g.status ≡ GameStatus.closed → (g.players ≡ []) × (g.id ≡ 0)
  -- Rounds go on to the number agreed on: what is between two rounds is not the last.
  pub more : g.status ≡ GameStatus.settle → ltb_ℤ (pos g.rounds) g.attr.rounds ≡ true

settled-le : (status : GameStatus) (r n : ℕ) → SettledOf status r n → n ≤ r
settled-le GameStatus.prepare r n h = omega arith
settled-le GameStatus.play r n h = omega arith
settled-le GameStatus.vote r n h = omega arith
settled-le GameStatus.settle r n h = omega arith
settled-le GameStatus.settle_all r n h = omega arith
settled-le GameStatus.closed r n h = h

-- A step that changes the seats alone.
pub seats-IsSound :
    (g : Game) (ps : List PlayerInfo)
    → IsSound g
    → (is_running g.status ≡ true → AllSeated ps)
    → (is_vote g.status ≡ false → NoneVoted ps)
    → (g.players ≡ [] → ps ≡ [])
    → IsSound (record g { players = ps })
seats-IsSound g ps h seats votes none_left = record {
  seated = seats;
  no_votes = votes;
  settled = h.settled;
  ended = λ e. (none_left (h.ended e).0, (h.ended e).1);
  more = h.more;
}

pub update_at-nil :
    (i : ℕ) (f : PlayerInfo → PlayerInfo) (ps : List PlayerInfo) → ps ≡ [] → update_at i f ps ≡ []
update_at-nil i f ps e = rw e

not_running_of_prepare :
    (status : GameStatus) → is_prepare status ≡ true → is_running status ≡ false
not_running_of_prepare GameStatus.prepare e = refl
not_running_of_prepare _ e = cc

module _ (s : Session) (h : IsSound s.game) where
  pub abort_game-IsSound : IsSound (abort_game s).game
  unfolding abort_game with_game with_clients
  abort_game-IsSound = record {
    seated = λ e. cc;
    no_votes = λ e. tt;
    settled = settled-le s.game.status _ _ h.settled;
    ended = λ e. (refl, refl);
    more = λ e. cc;
  }

  -- A seat that is taken or cleared while the game does not run.
  pub idle_seat-IsSound :
      (i : ℕ) (f : PlayerInfo → PlayerInfo)
      → ((p : PlayerInfo) → (f p).vote ≡ p.vote)
      → is_running s.game.status ≡ false
      → IsSound (record (s.game) { players = update_at i f s.game.players })
  idle_seat-IsSound i f keeps idle =
      seats-IsSound s.game (update_at i f s.game.players) h (λ e. cc)
        (λ e. update_at-NoneVoted i f s.game.players keeps (h.no_votes e))
        (update_at-nil i f s.game.players)

  pub remove_player-IsSound :
      (c : Client) → is_running s.game.status ≡ false → IsSound (remove_player c s).game
  unfolding remove_player with_game with_clients clear
  remove_player-IsSound c idle = elim (Option-cases (player_index c.cuid s.game.players)) [
    | inl e ↦ rw (e, remove_player) h
    | inr (i, e) ↦ rw (e, remove_player) (idle_seat-IsSound i clear (λ p. refl) idle)
  ]

  pub enter_room-IsSound : (c : Client) → IsSound (enter_room c s).0.game
  unfolding enter_room with_game with_clients take_seat
  enter_room-IsSound c = elim (Bool-cases (c.room_id == 0)) [
    | inr e ↦ rw e h
    | inl e ↦ elim (Bool-cases (is_prepare s.game.status)) [
      | inr f ↦ rw (e, f) h
      | inl f ↦ elim (Option-cases (get_empty_seat_index s.game.players)) [
        | inl n ↦ rw (e, f, n, enter_room) h
        | inr (i, n) ↦
            let idle = not_running_of_prepare s.game.status f in
            let seated = idle_seat-IsSound i (take_seat c) (λ p. refl) idle in
            elim (Bool-cases (
              can_pay (record (s.game) { players = update_at i (take_seat c) s.game.players }) c)) [
                | inl k ↦ rw (e, f, n, enter_room, k) seated
                | inr k ↦ rw (e, f, n, enter_room, k) seated
              ]
      ]
    ]
  ]
