-- ===== src/Base/Connections/Erasing.antt =====
-- Erasing a connection takes it out of all the sets (base/tcp_connection_manager.cpp).
use casual_game.Prelude.{
  ℕ, ◌^◌, ◌≤◌, ◌<◌, ◌≡◌, ◌∙◌, inl, inr, refl, sym, ap, Option, none, some, Option-cases, arith,
}
use casual_game.Base.ProcessId.{set_value}
use casual_game.Base.Connections.{
  ConnKind, private_type, public_type, Entry, Sets, Raised, after_erase_private, after_erase_public,
  erase_named, erase_entry, erase_connection, erase_public_at, erase_public_connection,
}
use casual_game.Base.Connections.InStep.{
  number_in, client, name_by, process_name, lookup, IdFits, InStep, Changed, removed-InStep,
}
use casual_game.Base.Connections.Changes.{set_private-Changed, set_public-Changed}

-- The event of a connection that goes.
abbrev pub goes_by : ConnKind → ℕ → Raised
goes_by private_type id = after_erase_private (set_value id)
goes_by public_type id = after_erase_public id

-- A known connection goes from its descriptor and its name, and from nowhere else.
pub Erases : Sets → Entry → Sets × Raised → Type 0
Erases s e (s', raised) = Changed s e none s' × (raised ≡ goes_by e.kind e.id)

client_above : (k : ConnKind) (id j : ℕ) → name_by k id ≡ client j → IdFits k id → 2 ^ 16 ≤ j
client_above private_type id j e fits = absurd (cc e)
client_above public_type id j e fits =
    let same : id ≡ j = ap number_in e in omega (arith, same, fits)

erase_private-Erases :
    (s : Sets) (e : Entry)
    → InStep s
    → e.kind ≡ private_type
    → e.id < 2 ^ 16
    → lookup s (process_name (set_value e.id)) ≡ some e
    → Erases s e (erase_entry e.fd s (some e))
unfolding erase_entry erase_named Erases
erase_private-Erases s e v kind small there =
    let no_client : s.public_conns e.id ≡ none = elim (Option-cases (s.public_conns e.id)) [
      | inl none_there ↦ none_there
      | inr (c, c_there) ↦
          let (at_fd, name) = v.named (client e.id) c c_there in
          let (_, fits, _) = v.known c.fd c at_fd in
          absurd (omega (arith, client_above c.kind c.id e.id name fits, small))
    ] in
    let p = set_value e.id in
    let at : s.private_conns p.process_type p.num ≡ some e = there in
    rw (no_client, at)
      (set_private-Changed s e p none kind refl, sym (ap (λ k. goes_by k e.id) kind))

erase_public-Erases :
    (s : Sets) (e : Entry)
    → e.kind ≡ public_type
    → s.public_conns e.id ≡ some e
    → Erases s e (erase_entry e.fd s (some e))
unfolding erase_entry erase_named Erases
erase_public-Erases s e kind there =
    rw there (set_public-Changed s e none kind, sym (ap (λ k. goes_by k e.id) kind))

pub erase_connection-Erases :
    (s : Sets) (fd : ℕ) (e : Entry)
    → InStep s
    → s.all_conns fd ≡ some e
    → Erases s e (erase_connection fd s)
unfolding erase_connection
erase_connection-Erases s fd e v h =
    let (at, fits, there) = v.known fd e h in rw h (rw (sym at) (by_kind e.kind refl fits there))
  where
    by_kind :
        (k : ConnKind)
        → e.kind ≡ k
        → IdFits k e.id
        → lookup s (name_by k e.id) ≡ some e
        → Erases s e (erase_entry e.fd s (some e))
    by_kind private_type kind fits there = erase_private-Erases s e v kind fits there
    by_kind public_type kind fits there = erase_public-Erases s e kind there

erase_unknown :
    (s : Sets) (fd : ℕ) → InStep s → s.all_conns fd ≡ none → InStep (erase_connection fd s).0
unfolding erase_connection erase_entry
erase_unknown s fd v free = rw free v

pub erase_connection-InStep : (s : Sets) (fd : ℕ) → InStep s → InStep (erase_connection fd s).0
unfolding Erases
erase_connection-InStep s fd v = elim (Option-cases (s.all_conns fd)) [
  | inl free ↦ erase_unknown s fd v free
  | inr (e, h) ↦
      let (at, _, there) = v.known fd e h in
      removed-InStep s _ e v (ap s.all_conns at ∙ h) there (erase_connection-Erases s fd e v h).0
]

pub erase_public_connection-InStep :
    (s : Sets) (id : ℕ) → InStep s → InStep (erase_public_connection id s).0
unfolding erase_public_connection erase_public_at
erase_public_connection-InStep s id v = by_place (s.public_conns id)
  where
    by_place : (o : Option Entry) → InStep (erase_public_at s o).0
    by_place none = v
    by_place (some e) = erase_connection-InStep s e.fd v
