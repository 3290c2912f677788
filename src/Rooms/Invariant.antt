-- ===== src/Rooms/Invariant.antt =====
-- Every run of the lobby keeps what holds of its games (room.cpp, game13.cpp).
use mathlib.Core.Path.{subst}
use casual_game.Prelude.{ℕ, ◌≡◌, Bool, some, List, >>=-eq-some}
use casual_game.Game13.Table.{Client, Vote, Game, Session}
use casual_game.Game13.Handlers.{give_up, vote_for_abort, ready_flag, bring_out}
use casual_game.Game13.Invariant.Steps.{IsSound}
use casual_game.Game13.Invariant.Votes.{give_up-IsSound, vote_for_abort-IsSound}
use casual_game.Game13.Invariant.Rounds.{some_inv}
use casual_game.Game13.Invariant.Runs.{ready_flag-IsSound, bring_out-IsSound}
use casual_game.Rooms.{
  World, initial_world, CreateGame, get_room, create_game, join_game, handle_give_up, handle_vote,
  client_online, handle_ready, handle_bring_out, timer_loop, timer_exec_all,
}
use casual_game.Rooms.Games.{
  AllSound, get_room-IsSound, same_world, in_own_room-AllSound, in_room_of-AllSound,
  create_game-AllSound, join_game-AllSound, timer_loop-AllSound, client_online-rooms,
}

-- One message, tick or change of the clients.
pub data Step (shuffle : List ℕ → List ℕ) : World → World → Type 0 where
  created :
      {w v : World} (m : CreateGame) (ccid : ℕ) → create_game m ccid w ≡ some v → Step shuffle w v
  joined : {w v : World} (room ccid : ℕ) → join_game room ccid w ≡ some v → Step shuffle w v
  gave_up : {w v : World} (ccid : ℕ) → handle_give_up ccid w ≡ some v → Step shuffle w v
  voted :
      {w v : World} (vote : Vote) (ccid : ℕ) → handle_vote vote ccid w ≡ some v → Step shuffle w v
  readied :
      {w v : World} (ready : Bool) (ccid : ℕ)
      → handle_ready shuffle ready ccid w ≡ some v
      → Step shuffle w v
  brought_out :
      {w v : World} (cards : List ℕ) (ccid : ℕ)
      → handle_bring_out shuffle cards ccid w ≡ some v
      → Step shuffle w v
  ticked : {w v : World} (now : ℕ) → timer_exec_all shuffle now w ≡ some v → Step shuffle w v
  came_online : (w : World) (cuid : ℕ) → Step shuffle w (client_online cuid w)
  -- Whatever the client manager does: a login, a logout, a connection lost.
  clients_changed :
      (w : World) (clients : List Client) → Step shuffle w (record w { clients = clients })

-- The states that runs of the lobby reach.
pub data Reach (shuffle : List ℕ → List ℕ) : World → Type 0 where
  start : Reach shuffle initial_world
  then_step : {w v : World} → Reach shuffle w → Step shuffle w v → Reach shuffle v

module _ (shuffle : List ℕ → List ℕ) where
  Step-AllSound : {w v : World} → Step shuffle w v → AllSound w.rooms → AllSound v.rooms
  unfolding timer_exec_all client_online
  Step-AllSound (Step.created {w} {v} m ccid e) h = create_game-AllSound m ccid w h e
  Step-AllSound (Step.joined {w} {v} room ccid e) h = join_game-AllSound room ccid w h e
  Step-AllSound (Step.gave_up {w} {v} ccid e) h =
      in_own_room-AllSound (λ c s. some (give_up w.timer_time c s))
        (λ c s t k q.
          subst (λ (x : Session). IsSound x.game) (some_inv q) (give_up-IsSound s k w.timer_time c))
        ccid w h e
  Step-AllSound (Step.voted {w} {v} vote ccid e) h =
      in_room_of-AllSound (λ c s. some (vote_for_abort vote c s))
        (λ c s t k q.
          subst (λ (x : Session). IsSound x.game) (some_inv q) (vote_for_abort-IsSound s k vote c))
        ccid w h e
  Step-AllSound (Step.readied {w} {v} ready ccid e) h =
      in_own_room-AllSound (ready_flag shuffle ready)
        (λ c s t k q. ready_flag-IsSound shuffle s k ready c q) ccid w h e
  Step-AllSound (Step.brought_out {w} {v} cards ccid e) h =
      in_own_room-AllSound (bring_out shuffle w.timer_time cards)
        (λ c s t k q. bring_out-IsSound shuffle s k w.timer_time cards c q) ccid w h e
  Step-AllSound (Step.ticked {w} {v} now e) h =
      let (r, e1, e') = >>=-eq-some (timer_loop shuffle now w.rooms w.clients w.deck) _ e in
      same_world {w = record w { clients = r.1.0; deck = r.1.1; rooms = r.0; timer_time = now }}
        (timer_loop-AllSound shuffle now w.rooms w.clients w.deck h e1) e'
  Step-AllSound (Step.came_online w cuid) h = subst AllSound (client_online-rooms w cuid) h
  Step-AllSound (Step.clients_changed w clients) h = h

  Reach-AllSound : {w : World} → Reach shuffle w → AllSound w.rooms
  Reach-AllSound Reach.start = tt
  Reach-AllSound (Reach.then_step r s) = Step-AllSound s (Reach-AllSound r)

  -- After any run of messages, ticks and changes of the clients, from an empty lobby, every game in a
  -- room is sound: seats are taken while it runs, votes are kept only while a vote is on, the rounds
  -- settled agree with the rounds begun, and between two rounds the agreed number is not reached.
  pub Reach-IsSound :
      {w : World} (id : ℕ) {g : Game} → Reach shuffle w → get_room id w.rooms ≡ some g → IsSound g
  Reach-IsSound {w} id r e = get_room-IsSound id w.rooms (Reach-AllSound r) e
