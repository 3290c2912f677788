-- ===== src/Base/Connections.antt =====
-- The sets of connections of `TcpConnectionManager` (base/tcp_connection_manager.cpp): all connections by
-- their descriptors, those to processes by type and number, those of clients by their ids. A connection
-- stands for its descriptor. A map of the standard library is a function from its keys.
pub mod InStep
pub mod Changes
pub mod Erasing
pub mod Calls
use casual_game.Prelude.{
  ℕ, ◌%◌, ◌^◌, Bool, true, false, ◌&&◌, Option, none, some, List, [], ◌∷◌, ◌==◌, if◌then◌else◌,
}
use casual_game.Base.ProcessId.{ProcessId, value, set_value}

pub data ConnKind : Type 0 where
  private_type public_type : ConnKind

-- What the sets know of a `ConnectionHolder`.
pub record Entry : Type 0 where
  pub kind : ConnKind
  pub id : ℕ
  pub fd : ℕ

pub record Sets : Type 0 where
  pub all_conns : ℕ → Option Entry
  pub private_conns : ℕ → ℕ → Option Entry
  pub public_conns : ℕ → Option Entry

-- A map with an entry at a key, or without one.
abbrev pub with_entry : ℕ → Option Entry → (ℕ → Option Entry) → ℕ → Option Entry
with_entry k e f j = if j == k then e else f j

abbrev pub with_private : ProcessId → Option Entry → (ℕ → ℕ → Option Entry) → ℕ → ℕ → Option Entry
with_private p e f t n = if (t == p.process_type) && (n == p.num) then e else f t n

-- The events that the manager raises.
pub data Raised : Type 0 where
  nothing : Raised
  after_add_private after_erase_private : ProcessId → Raised
  after_erase_public : ℕ → Raised

-- `addPrivateConnection`, by what the two maps have at its keys; `registered` is whether the epoller
-- takes the descriptor. The event is raised where it does not, too.
unfoldable pub add_private_at :
    Bool → ℕ → ProcessId → Sets → Option Entry → Option Entry → Sets × Raised
add_private_at registered fd p s (some e) other = (s, nothing)
add_private_at registered fd p s none (some e) = (s, nothing)
add_private_at registered fd p s none none =
    let e = some (record { kind = private_type; id = value p; fd = fd }) in
    let inserted = record s {
      all_conns = with_entry fd e s.all_conns;
      private_conns = with_private p e s.private_conns;
    } in
    if registered then (inserted, after_add_private p) else (
      record inserted {
        all_conns = with_entry fd none inserted.all_conns;
        private_conns = with_private p none inserted.private_conns;
      },
      after_add_private p,
    )

unfoldable pub add_private_connection : Bool → ℕ → ProcessId → Sets → Sets × Raised
add_private_connection registered fd p s =
    add_private_at registered fd p s (s.all_conns fd) (s.private_conns p.process_type p.num)

-- `addPublicConnection`, and what it returns.
unfoldable pub add_public_at : Bool → ℕ → ℕ → Sets → Option Entry → Option Entry → Sets × Bool
add_public_at registered fd id s (some e) other = (s, false)
add_public_at registered fd id s none (some e) = (s, false)
add_public_at registered fd id s none none =
    let e = some (record { kind = public_type; id = id; fd = fd }) in
    let inserted = record s {
      all_conns = with_entry fd e s.all_conns;
      public_conns = with_entry id e s.public_conns;
    } in
    if registered then (inserted, true) else (
      record inserted {
        all_conns = with_entry fd none inserted.all_conns;
        public_conns = with_entry id none inserted.public_conns;
      },
      false,
    )

unfoldable pub add_public_connection : Bool → ℕ → ℕ → Sets → Sets × Bool
add_public_connection registered fd id s =
    add_public_at registered fd id s (s.all_conns fd) (s.public_conns id)

-- `eraseConnection` of a connection that is known: by its id it is taken for a client's, else for a
-- process's, whose id is read from the low bits.
unfoldable pub erase_named : Entry → Sets → Option Entry → Option Entry → Sets × Raised
erase_named e s (some client) process =
    (record s { public_conns = with_entry e.id none s.public_conns }, after_erase_public e.id)
erase_named e s none (some process) =
    let p = set_value e.id in
    (record s { private_conns = with_private p none s.private_conns }, after_erase_private p)
erase_named e s none none = (s, nothing)

unfoldable pub erase_entry : ℕ → Sets → Option Entry → Sets × Raised
erase_entry fd s none = (s, nothing)
erase_entry fd s (some e) =
    let p = set_value e.id in
    let (s', raised) =
      erase_named e s (s.public_conns e.id) (s.private_conns p.process_type p.num) in
    (record s' { all_conns = with_entry fd none s'.all_conns }, raised)

unfoldable pub erase_connection : ℕ → Sets → Sets × Raised
erase_connection fd s = erase_entry fd s (s.all_conns fd)

-- `erasePublicConnection`, with the descriptor of what it returns.
unfoldable pub erase_public_at : Sets → Option Entry → Sets × Option ℕ
erase_public_at s none = (s, none)
erase_public_at s (some e) = ((erase_connection e.fd s).0, some e.fd)

unfoldable pub erase_public_connection : ℕ → Sets → Sets × Option ℕ
erase_public_connection id s = erase_public_at s (s.public_conns id)

unfoldable pub create : Sets
create = record { all_conns = λ fd. none; private_conns = λ t n. none; public_conns = λ id. none }

-- The calls from the threads, one after the other: each holds the lock.
pub data Call : Type 0 where
  add_private : Bool → ℕ → ProcessId → Call
  add_public : Bool → ℕ → ℕ → Call
  erase erase_public : ℕ → Call

unfoldable pub call : Call → Sets → Sets
call (add_private registered fd p) s = (add_private_connection registered fd p s).0
call (add_public registered fd id) s = (add_public_connection registered fd id s).0
call (erase fd) s = (erase_connection fd s).0
call (erase_public id) s = (erase_public_connection id s).0

unfoldable pub run : List Call → Sets → Sets
run [] s = s
run (c ∷ cs) s = run cs (call c s)
