-- ===== src/Rooms/Games.antt =====
-- Each handler of the lobby keeps what holds of its games (room.cpp, game13.cpp).
use mathlib.Core.Path.{subst}
use casual_game.Prelude.{
  ℕ, zero, suc, ◌≡◌, inl, inr, refl, not, Option, some, List, [], ◌∷◌, replicate, arith, ◌==◌,
  Bool-cases, Option-cases, >>=-eq-some, if◌then◌else◌,
}
use casual_game.Game13.Table.{
  Client, get_by_ccid, update_client, after_leave_room, empty_seat, Game, Session,
}
use casual_game.Game13.Actions.{enter_room}
use casual_game.Game13.Handlers.{timer_exec}
use casual_game.Game13.Invariant.Seats.{NoneVoted}
use casual_game.Game13.Invariant.Steps.{IsSound, enter_room-IsSound}
use casual_game.Game13.Invariant.Rounds.{some_inv}
use casual_game.Game13.Invariant.Runs.{timer_exec-IsSound}
use casual_game.Rooms.{
  Rooms, World, CreateGame, get_room, put_room, get_room_id, in_room, new_game, add_room,
  create_game, join_game, in_room_of, in_own_room, client_online, timer_loop,
}

abbrev pub AllSound : Rooms → Type 0
AllSound [] = Unit
AllSound ((k, g) ∷ rooms) = IsSound g × AllSound rooms

pub get_room-IsSound :
    (id : ℕ) (rooms : Rooms) {g : Game} → AllSound rooms → get_room id rooms ≡ some g → IsSound g
unfolding get_room
get_room-IsSound id [] h e = absurd (ground (arith, e))
get_room-IsSound id ((k, old) ∷ rooms) {g} h e = elim (Bool-cases (k == id)) [
  | inl y ↦ subst IsSound (ground (arith, e, y)) h.0
  | inr n ↦ get_room-IsSound id rooms h.1 (rw n at e)
]

put_room-AllSound :
    (id : ℕ) (g : Game) (rooms : Rooms)
    → IsSound g
    → AllSound rooms
    → AllSound (put_room id g rooms)
unfolding put_room
put_room-AllSound id g [] s h = tt
put_room-AllSound id g ((k, old) ∷ rooms) s h = elim (Bool-cases (k == id)) [
  | inl y ↦ rw y (s, h.1)
  | inr n ↦ rw n (h.0, put_room-AllSound id g rooms s h.1)
]

world_inv : {x y : World} → some x ≡ some y → x ≡ y
world_inv e = cc

pub same_world : {w v : World} → AllSound w.rooms → some w ≡ some v → AllSound v.rooms
same_world h e = subst (λ (x : World). AllSound x.rooms) (world_inv e) h

in_room-AllSound :
    (id : ℕ) (step : Session → Option Session) (w : World) {v : World}
    → ((s t : Session) → IsSound s.game → step s ≡ some t → IsSound t.game)
    → AllSound w.rooms
    → in_room id step w ≡ some v
    → AllSound v.rooms
unfolding in_room
in_room-AllSound id step w {v} keeps h e = elim (Option-cases (get_room id w.rooms)) [
  | inl n ↦ same_world h (rw (n, in_room) at e)
  | inr (g, n) ↦
      let (s, e1, e2) =
        >>=-eq-some (step (record { clients = w.clients; deck = w.deck; game = g })) _
          (rw (n, in_room) at e) in
      same_world
        (put_room-AllSound id s.game w.rooms
          (keeps (record { clients = w.clients; deck = w.deck; game = g }) s
            (get_room-IsSound id w.rooms h n) e1)
          h)
        e2
]

replicate-NoneVoted : (n : ℕ) → NoneVoted (replicate n empty_seat)
replicate-NoneVoted zero = tt
replicate-NoneVoted (suc n) = (refl, replicate-NoneVoted n)

new_game-IsSound : (id owner : ℕ) (m : CreateGame) → IsSound (new_game id owner m)
unfolding new_game
new_game-IsSound id owner m = record {
  seated = λ e. cc;
  no_votes = λ e. replicate-NoneVoted m.player_size;
  settled = (refl, refl);
  ended = λ e. absurd (ground (arith, e));
  more = λ e. absurd (ground (arith, e));
}

enters :
    (c : Client) (s t : Session)
    → IsSound s.game
    → some (enter_room c s).0 ≡ some t
    → IsSound t.game
enters c s t h e = subst (λ (x : Session). IsSound x.game) (some_inv e) (enter_room-IsSound s h c)

add_room-AllSound :
    (id : ℕ) (c : Client) (m : CreateGame) (w : World) {v : World}
    → AllSound w.rooms
    → add_room id c m w ≡ some v
    → AllSound v.rooms
unfolding add_room
add_room-AllSound id c m w h e = elim (Option-cases (get_room id w.rooms)) [
  | inl n ↦
      in_room-AllSound id (λ s. some (enter_room c s).0)
        (record w { rooms = (id, new_game id c.cuid m) ∷ w.rooms }) (enters c)
        (new_game-IsSound id c.cuid m, h) (rw (n, add_room) at e)
  | inr (g, n) ↦ same_world h (rw (n, add_room) at e)
]

get_room_id-AllSound :
    (w : World) (ids : List ℕ)
    → w.expired_ids ≡ ids
    → AllSound w.rooms
    → AllSound (get_room_id w).1.rooms
unfolding get_room_id
get_room_id-AllSound w [] q h = rw (q, get_room_id) h
get_room_id-AllSound w (id ∷ ids) q h = rw (q, get_room_id) h

pub create_game-AllSound :
    (m : CreateGame) (ccid : ℕ) (w : World) {v : World}
    → AllSound w.rooms
    → create_game m ccid w ≡ some v
    → AllSound v.rooms
unfolding create_game
create_game-AllSound m ccid w {v} h e = elim (Option-cases (get_by_ccid w.clients ccid)) [
  | inl n ↦ same_world h (rw (n, create_game) at e)
  | inr (c, n) ↦ chosen c (rw (n, create_game) at e)
]
  where
    chosen :
        (c : Client)
        → (if not (c.room_id == 0)
            then some w
            else (let (id, w') = get_room_id w in add_room id c m w'))
          ≡ some v
        → AllSound v.rooms
    chosen c e = elim (Bool-cases (c.room_id == 0)) [
      | inr n ↦ same_world h (rw n at e)
      | inl y ↦
          add_room-AllSound (get_room_id w).0 c m (get_room_id w).1
            (get_room_id-AllSound w w.expired_ids refl h) (rw y at e)
    ]

pub join_game-AllSound :
    (room ccid : ℕ) (w : World) {v : World}
    → AllSound w.rooms
    → join_game room ccid w ≡ some v
    → AllSound v.rooms
unfolding join_game
join_game-AllSound room ccid w h e = elim (Option-cases (get_by_ccid w.clients ccid)) [
  | inl n ↦ same_world h (rw (n, join_game) at e)
  | inr (c, n) ↦
      in_room-AllSound room (λ s. some (enter_room c s).0) w (enters c) h (rw (n, join_game) at e)
]

module _ (step : Client → Session → Option Session)
    (keeps : (c : Client) (s t : Session) → IsSound s.game → step c s ≡ some t → IsSound t.game)
    (ccid : ℕ) (w : World) (h : AllSound w.rooms) where
  pub in_room_of-AllSound : {v : World} → in_room_of step ccid w ≡ some v → AllSound v.rooms
  unfolding in_room_of
  in_room_of-AllSound {v} e = elim (Option-cases (get_by_ccid w.clients ccid)) [
    | inl n ↦ same_world h (rw (n, in_room_of) at e)
    | inr (c, n) ↦ elim (Option-cases (get_room c.room_id w.rooms)) [
      | inl k ↦
          same_world {w = record w { clients = update_client c.cuid after_leave_room w.clients }} h
            (rw (n, k, in_room_of) at e)
      | inr (g, k) ↦ in_room-AllSound c.room_id (step c) w (keeps c) h (rw (n, k, in_room_of) at e)
    ]
  ]

  pub in_own_room-AllSound : {v : World} → in_own_room step ccid w ≡ some v → AllSound v.rooms
  unfolding in_own_room
  in_own_room-AllSound {v} e = elim (Option-cases (get_by_ccid w.clients ccid)) [
    | inl n ↦ same_world h (rw (n, in_own_room) at e)
    | inr (c, n) ↦ elim (Bool-cases (c.room_id == 0)) [
      | inl y ↦ same_world h (rw (n, y, in_own_room) at e)
      | inr y ↦ in_room_of-AllSound (rw (n, y, in_own_room) at e)
    ]
  ]

pub client_online-rooms : (w : World) (cuid : ℕ) → w.rooms ≡ (client_online cuid w).rooms
unfolding client_online
client_online-rooms w cuid = ground arith

loop_inv : {A : Type 0} {x y : A} → some x ≡ some y → x ≡ y
loop_inv e = cc

module _ (shuffle : List ℕ → List ℕ) where
  pub timer_loop-AllSound :
      (now : ℕ) (rooms : Rooms) (clients : List Client) (deck : List ℕ)
      {r : Rooms × (List Client × List ℕ)}
      → AllSound rooms
      → timer_loop shuffle now rooms clients deck ≡ some r
      → AllSound r.0
  unfolding timer_loop
  timer_loop-AllSound now [] clients deck h e =
      subst (λ (r : Rooms × (List Client × List ℕ)). AllSound r.0) (loop_inv e) tt
  timer_loop-AllSound now ((k, g) ∷ rooms) clients deck h e = elim (Bool-cases (g.id == 0)) [
    | inl y ↦
        subst (λ (r : Rooms × (List Client × List ℕ)). AllSound r.0)
          (loop_inv {x = (rooms, (clients, deck))} (rw y at e)) h.1
    | inr n ↦
        let s0 : Session = record { clients = clients; deck = deck; game = g } in
        let (s, e1, e') = >>=-eq-some (timer_exec shuffle now s0) _ (rw n at e) in
        let (rest, e2, e'') = >>=-eq-some (timer_loop shuffle now rooms s.clients s.deck) _ e' in
        subst (λ (r : Rooms × (List Client × List ℕ)). AllSound r.0)
          (loop_inv {x = ((k, s.game) ∷ rest.0, rest.1)} e'')
          (
            timer_exec-IsSound shuffle s0 h.0 now e1,
            timer_loop-AllSound now rooms s.clients s.deck h.1 e2,
          )
  ]
