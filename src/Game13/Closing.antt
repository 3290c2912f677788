-- ===== src/Game13/Closing.antt =====
-- Games that are over their time are closed, and their players let go (`timerExec`, `abortGame`,
-- game13.cpp).
use casual_game.Prelude.{
  ℕ, ◌-◌, ◌≡◌, inl, inr, refl, Bool, true, false, some, List, [], ◌∷◌, arith, ◌==◌, leb, Bool-cases,
}
use casual_game.Game13.Table.{
  Client, get_by_cuid, update_client, after_leave_room, PlayerInfo, GameStatus, Game, Session,
  with_game, with_clients, clear_votes,
}
use casual_game.Game13.Actions.{kick_all, abort_game}
use casual_game.Game13.Handlers.{timer_exec, max_vote_duration, settle_all_duration}

-- A vote that is on for 300 seconds, or a game that stays for 120 seconds after its last round.
abbrev pub is_over : ℕ → Game → Bool
is_over now g = elim g.status [
  | GameStatus.vote ↦ leb max_vote_duration (now - g.start_vote_time)
  | GameStatus.settle_all ↦ leb settle_all_duration (now - g.settle_all_time)
  | _ ↦ false
]

-- The player `cuid`, if online, is in no room.
abbrev pub IsOut : ℕ → List Client → Type 0
IsOut cuid clients = (c : Client) → get_by_cuid clients cuid ≡ some c → c.room_id ≡ 0

abbrev pub AllOut : List PlayerInfo → List Client → Type 0
AllOut [] clients = Unit
AllOut (p ∷ ps) clients = IsOut p.cuid clients × AllOut ps clients

update_client-IsOut :
    (cuid : ℕ) (cs : List Client) → IsOut cuid (update_client cuid after_leave_room cs)
unfolding update_client after_leave_room get_by_cuid
update_client-IsOut cuid [] c e = absurd (ground (arith, e))
update_client-IsOut cuid (d ∷ ds) c e = elim (Bool-cases (d.cuid == cuid)) [
  | inl y ↦ ground (arith, (rw y at e), y)
  | inr n ↦ update_client-IsOut cuid ds c (rw (n, get_by_cuid) at (rw n at e))
]

update_client-keeps :
    (x y : ℕ) (cs : List Client) → IsOut x cs → IsOut x (update_client y after_leave_room cs)
unfolding update_client after_leave_room get_by_cuid
update_client-keeps x y [] h c e = h c e
update_client-keeps x y (d ∷ ds) h c e = elim (Bool-cases (d.cuid == y)) [
  | inl k ↦ ground (arith, (rw k at e), h d, h c)
  | inr k ↦ elim (Bool-cases (d.cuid == x)) [
    | inl j ↦ h c (ground (arith, (rw k at e), j))
    | inr j ↦
        update_client-keeps x y ds (λ c' e'. h c' (rw j e')) c (ground (arith, (rw k at e), j))
  ]
]

kick_all-keeps :
    (x : ℕ) (ps : List PlayerInfo) (cs : List Client) → IsOut x cs → IsOut x (kick_all ps cs)
unfolding kick_all
kick_all-keeps x [] cs h = h
kick_all-keeps x (p ∷ ps) cs h =
    kick_all-keeps x ps (update_client p.cuid after_leave_room cs)
      (update_client-keeps x p.cuid cs h)

kick_all-AllOut : (ps : List PlayerInfo) (cs : List Client) → AllOut ps (kick_all ps cs)
unfolding kick_all
kick_all-AllOut [] cs = tt
kick_all-AllOut (p ∷ ps) cs = (
  kick_all-keeps p.cuid ps (update_client p.cuid after_leave_room cs)
      (update_client-IsOut p.cuid cs),
  kick_all-AllOut ps (update_client p.cuid after_leave_room cs),
)

clear_votes-AllOut :
    (ps : List PlayerInfo) (cs : List Client) → AllOut (clear_votes ps) cs → AllOut ps cs
unfolding clear_votes
clear_votes-AllOut [] cs h = tt
clear_votes-AllOut (p ∷ ps) cs h = (h.0, clear_votes-AllOut ps cs h.1)

-- What is left of a game that is closed.
abbrev pub IsClosed : Game → Type 0
IsClosed g = (g.status ≡ GameStatus.closed) × (g.players ≡ []) × (g.id ≡ 0)

timer_exec-closes_at :
    (shuffle : List ℕ → List ℕ) (now : ℕ) (s : Session) (status : GameStatus)
    → s.game.status ≡ status
    → is_over now s.game ≡ true
    → (t : Session) × (timer_exec shuffle now s ≡ some t)
      × IsClosed t.game
      × AllOut s.game.players t.clients
unfolding timer_exec abort_game with_game with_clients
timer_exec-closes_at shuffle now s GameStatus.vote q h = (
  abort_game
      (with_game s (record (s.game) { players = clear_votes s.game.players; start_vote_time = 0 })),
  rw (q, (rw (q, is_over) at h), timer_exec) refl,
  (refl, refl, refl),
  clear_votes-AllOut s.game.players _ (kick_all-AllOut (clear_votes s.game.players) s.clients),
)
timer_exec-closes_at shuffle now s GameStatus.settle_all q h = (
  abort_game (with_game s (record (s.game) { settle_all_time = 0 })),
  rw (q, (rw (q, is_over) at h), timer_exec) refl,
  (refl, refl, refl),
  kick_all-AllOut s.game.players s.clients,
)
timer_exec-closes_at shuffle now s _ q h = absurd (ground (arith, q, h))

-- At a tick when a vote has been on for 300 seconds, or 120 seconds after the last round, the game is
-- closed: it has no players, its room is to be destroyed, and each of its players who is online is in
-- no room.
pub timer_exec-closes :
    (shuffle : List ℕ → List ℕ) (now : ℕ) (s : Session)
    → is_over now s.game ≡ true
    → (t : Session) × (timer_exec shuffle now s ≡ some t)
      × IsClosed t.game
      × AllOut s.game.players t.clients
timer_exec-closes shuffle now s h = timer_exec-closes_at shuffle now s s.game.status refl h
