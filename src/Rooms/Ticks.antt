-- ===== src/Rooms/Ticks.antt =====
-- What a tick does to the registry of rooms (`Room::timerExecAll`, room.cpp).
use mathlib.Core.Path.{subst}
use casual_game.Prelude.{
  ℕ, ◌≡◌, inl, inr, refl, some, List, [], ◌∷◌, ◌++◌, arith, ◌==◌, Bool-cases, >>=-eq-some,
  if◌then◌else◌,
}
use casual_game.Game13.Table.{Client, Session}
use casual_game.Game13.Handlers.{timer_exec}
use casual_game.Rooms.{Rooms, timer_loop}

-- The rooms in front of the first one that is to be destroyed, and those behind it.
abbrev pub before : Rooms → Rooms
before [] = []
before ((k, g) ∷ rooms) = if g.id == 0 then [] else (k, g) ∷ before rooms

abbrev pub behind : Rooms → Rooms
behind [] = []
behind ((k, g) ∷ rooms) = if g.id == 0 then rooms else behind rooms

abbrev pub keys : Rooms → List ℕ
keys [] = []
keys ((k, g) ∷ rooms) = k ∷ keys rooms

module _ (shuffle : List ℕ → List ℕ) (now : ℕ) where
  loop_inv : {x y : Rooms × (List Client × List ℕ)} → some x ≡ some y → x ≡ y
  loop_inv e = cc

  -- A tick takes the first room that is to be destroyed out of the registry, keeps every other one,
  -- and leaves those behind it as they are.
  pub timer_loop-erases :
      (rooms : Rooms) (clients : List Client) (deck : List ℕ) {r : Rooms × (List Client × List ℕ)}
      → timer_loop shuffle now rooms clients deck ≡ some r
      → (front : Rooms) × (r.0 ≡ front ++ behind rooms) × (keys front ≡ keys (before rooms))
  unfolding timer_loop
  timer_loop-erases [] clients deck e = ([], ground (arith, e), refl)
  timer_loop-erases ((k, g) ∷ rooms) clients deck {r} e = elim (Bool-cases (g.id == 0)) [
    | inl y ↦ rw y (
      [],
      subst (λ (r : Rooms × (List Client × List ℕ)). r.0 ≡ rooms)
          (loop_inv {x = (rooms, (clients, deck))} (rw y at e)) refl,
      refl,
    )
    | inr n ↦
        let s0 : Session = record { clients = clients; deck = deck; game = g } in
        let (s, e1, e') = >>=-eq-some (timer_exec shuffle now s0) _ (rw n at e) in
        let (rest, e2, e'') = >>=-eq-some (timer_loop shuffle now rooms s.clients s.deck) _ e' in
        let (front, split, same) = timer_loop-erases rooms s.clients s.deck {r = rest} e2 in
        let done : ((k, s.game) ∷ rest.0, rest.1) ≡ r = loop_inv e'' in
        rw n (
          (k, s.game) ∷ front,
          subst (λ (r : Rooms × (List Client × List ℕ)). r.0 ≡ (k, s.game) ∷ front ++ behind rooms)
              done (rw split refl),
          rw same refl,
        )
  ]
