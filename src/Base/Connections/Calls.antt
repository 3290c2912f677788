-- ===== src/Base/Connections/Calls.antt =====
-- The calls of the manager keep its sets of connections in step (base/tcp_connection_manager.cpp).
use casual_game.Prelude.{
  ℕ, ◌^◌, ◌≤◌, ◌<◌, ◌≡◌, ◌≢◌, inl, inr, refl, Bool, false, Option, none, some, List, [], ◌∷◌,
  Bool-cases, arith,
}
use casual_game.Base.ProcessId.{ProcessId, value, value-low, set_value-value}
use casual_game.Base.Connections.{
  private_type, public_type, Entry, Sets, add_private_at, add_private_connection, add_public_at,
  add_public_connection, erase_connection, create, Call, add_private, add_public, erase,
  erase_public, call, run,
}
use casual_game.Base.Connections.InStep.{Name, process, client, lookup, InStep, added-InStep}
use casual_game.Base.Connections.Changes.{
  set_private-Changed, set_public-Changed, same-InStep, with_entry-back, with_private-back,
}
use casual_game.Base.Connections.Erasing.{
  Erases, erase_connection-Erases, erase_connection-InStep, erase_public_connection-InStep,
}

-- Process ids have a byte for the type and one for the number, and ids of clients are above theirs.
abbrev pub Allowed : Call → Type 0
Allowed (add_private registered fd p) = (p.process_type < 256) × (p.num < 256)
Allowed (add_public registered fd id) = 2 ^ 16 ≤ id
Allowed (erase fd) = Unit
Allowed (erase_public id) = Unit

abbrev pub AllAllowed : List Call → Type 0
AllAllowed [] = Unit
AllAllowed (c ∷ cs) = Allowed c × AllAllowed cs

add_private_connection-InStep :
    (registered : Bool) (fd : ℕ) (p : ProcessId) (s : Sets)
    → InStep s
    → p.process_type < 256
    → p.num < 256
    → InStep (add_private_connection registered fd p s).0
unfolding add_private_connection add_private_at
add_private_connection-InStep registered fd p s v h k =
    by_places (s.all_conns fd) (s.private_conns p.process_type p.num) refl refl
  where
    e : Entry
    e = record { kind = private_type; id = value p; fd = fd }

    by_places :
        (o o' : Option Entry)
        → s.all_conns fd ≡ o
        → s.private_conns p.process_type p.num ≡ o'
        → InStep (add_private_at registered fd p s o o').0
    by_places (some x) o' x_at y_at = v
    by_places none (some y) x_at y_at = v
    by_places none none x_at y_at =
        let same = set_value-value p h k in
        let small : value p < 2 ^ 16 = omega (arith, value-low p h k, h, k) in
        elim (Bool-cases registered) [
          | inl y ↦ rw y (
              added-InStep s _ e v x_at (rw same y_at) small
                (set_private-Changed s e p (some e) refl same))
          | inr n ↦
              rw n
                (same-InStep s _ v (with_entry-back fd (some e) s.all_conns x_at) (λ n. by_name n))
        ]
      where
        by_name : (n : Name) → lookup (add_private_at false fd p s none none).0 n ≡ lookup s n
        by_name (process t n) = with_private-back p (some e) s.private_conns y_at t n
        by_name (client id) = refl

add_public_connection-InStep :
    (registered : Bool) (fd id : ℕ) (s : Sets)
    → InStep s
    → 2 ^ 16 ≤ id
    → InStep (add_public_connection registered fd id s).0
unfolding add_public_connection add_public_at
add_public_connection-InStep registered fd id s v h =
    by_places (s.all_conns fd) (s.public_conns id) refl refl
  where
    e : Entry
    e = record { kind = public_type; id = id; fd = fd }

    by_places :
        (o o' : Option Entry)
        → s.all_conns fd ≡ o
        → s.public_conns id ≡ o'
        → InStep (add_public_at registered fd id s o o').0
    by_places (some x) o' x_at y_at = v
    by_places none (some y) x_at y_at = v
    by_places none none x_at y_at = elim (Bool-cases registered) [
      | inl y ↦ rw y (added-InStep s _ e v x_at y_at h (set_public-Changed s e (some e) refl))
      | inr n ↦
          rw n (same-InStep s _ v (with_entry-back fd (some e) s.all_conns x_at) (λ n. by_name n))
    ]
      where
        by_name : (n : Name) → lookup (add_public_at false fd id s none none).0 n ≡ lookup s n
        by_name (process t n) = refl
        by_name (client j) = with_entry-back id (some e) s.public_conns y_at j

call-InStep : (c : Call) (s : Sets) → InStep s → Allowed c → InStep (call c s)
unfolding call
call-InStep (add_private registered fd p) s v (h, k) =
    add_private_connection-InStep registered fd p s v h k
call-InStep (add_public registered fd id) s v h =
    add_public_connection-InStep registered fd id s v h
call-InStep (erase fd) s v h = erase_connection-InStep s fd v
call-InStep (erase_public id) s v h = erase_public_connection-InStep s id v

run_from-InStep : (cs : List Call) (s : Sets) → InStep s → AllAllowed cs → InStep (run cs s)
unfolding run
run_from-InStep [] s v h = v
run_from-InStep (c ∷ cs) s v (h, hs) = run_from-InStep cs (call c s) (call-InStep c s v h) hs

create-InStep : InStep create
unfolding create
create-InStep = record { known = λ fd e h. absurd (cc h); named = λ n e h. absurd (by_name n e h) }
  where
    by_name : (n : Name) (e : Entry) → lookup create n ≢ some e
    by_name (process t n) e h = cc h
    by_name (client id) e h = cc h

-- After any calls with types and numbers of processes below 256 and ids of clients from 2^16 on: what is
-- known by a descriptor is known by its name, as a process or a client, and the other way round; and
-- erasing a connection that is known takes it, and no other, out of all the sets, with the event that
-- names it.
pub run-InStep :
    (cs : List Call)
    → AllAllowed cs
    → InStep (run cs create)
      × ((fd : ℕ) (e : Entry)
          → (run cs create).all_conns fd ≡ some e
          → Erases (run cs create) e (erase_connection fd (run cs create)))
run-InStep cs h =
    let v = run_from-InStep cs create create-InStep h in
    (v, λ fd e. erase_connection-Erases (run cs create) fd e v)
