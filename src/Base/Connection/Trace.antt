-- ===== src/Base/Connection/Trace.antt =====
-- What comes in at the turns of a connection's `read` events, and what becomes of its packets
-- (base/tcp_connection_manager.cpp).
use mathlib.Core.Path.{subst}
use mathlib.Core.List.{append_assoc}
use casual_game.Prelude.{
  ℕ, ◌+◌, ◌-◌, ◌≤◌, ◌≡◌, ◌∙◌, refl, sym, ap, inl, inr, Bool, true, false, Option, none, some, List,
  [], ◌∷◌, ◌++◌, length, take, drop, ltb, if◌then◌else◌, Bool-cases, arith,
}
use casual_game.Net.ConnectionBuffer.{ConnectionBuffer, readable, Received, try_recv, received}
use casual_game.Net.TcpPacket.{complete, parse}
use casual_game.Base.Connection.{
  Holder, Turn, stop, pushed, hang_up, read_packet, turn_with, read_turn, Answer, ReadEvent,
  recv_limit, read_event,
}

-- The turns, each with the bytes that came in at it and the packets that waited in the queue.
abbrev pub Trace : Type 0
Trace = List (List ℕ × ℕ × Turn)

unfoldable pub trace_after : (ℕ → Holder → Trace) → ℕ → Turn → Trace
trace_after go_on waiting (stop h) = []
trace_after go_on waiting (pushed true p h) = go_on (waiting + 1) h
trace_after go_on waiting (pushed false p h) = go_on waiting h
trace_after go_on waiting hang_up = []

unfoldable pub loop_trace : List Answer → ℕ → Holder → Trace
loop_trace [] waiting h = []
loop_trace (a ∷ answers) waiting h =
    let left = waiting - a.taken in
    let t = read_turn a.on_recv left h in
    (received a.on_recv h.recv_buf, left, t) ∷ trace_after (loop_trace answers) left t

unfoldable pub event_trace : ReadEvent → Holder → Trace
event_trace e h =
    let trace = loop_trace e.answers e.waiting h in if ltb e.waiting recv_limit then trace else []

unfoldable pub traces_after : (Holder → Trace) → Option Holder → Trace
traces_after go_on none = []
traces_after go_on (some h) = go_on h

unfoldable pub events_trace : List ReadEvent → Holder → Trace
events_trace [] h = []
events_trace (e ∷ events) h =
    event_trace e h ++ traces_after (events_trace events) (read_event e h).1

abbrev pub arrives : Trace → List ℕ
arrives [] = []
arrives ((bytes, left, t) ∷ trace) = bytes ++ arrives trace

-- For each complete packet, whether fewer packets than the queue has cells waited there.
abbrev pub pushes : Trace → List Bool
pushes [] = []
pushes ((bytes, left, stop h) ∷ trace) = pushes trace
pushes ((bytes, left, pushed room p h) ∷ trace) = ltb left 1024 ∷ pushes trace
pushes ((bytes, left, hang_up) ∷ trace) = pushes trace

pub arrives-append : (t u : Trace) → arrives (t ++ u) ≡ arrives t ++ arrives u
arrives-append [] u = refl
arrives-append ((bytes, left, t) ∷ trace) u =
    ap (λ l. bytes ++ l) (arrives-append trace u)
    ∙ sym (append_assoc bytes (arrives trace) (arrives u))

pub pushes-append : (t u : Trace) → pushes (t ++ u) ≡ pushes t ++ pushes u
pushes-append [] u = refl
pushes-append ((bytes, left, stop h) ∷ trace) u = pushes-append trace u
pushes-append ((bytes, left, pushed room p h) ∷ trace) u =
    ap (λ l. ltb left 1024 ∷ l) (pushes-append trace u)
pushes-append ((bytes, left, hang_up) ∷ trace) u = pushes-append trace u

abbrev pub AllTrue : List Bool → Type 0
AllTrue [] = Unit
AllTrue (b ∷ bs) = (b ≡ true) × AllTrue bs

-- The queue has room for a packet at each turn of each event.
abbrev pub HasRoom : List ReadEvent → Type 0
HasRoom [] = Unit
HasRoom (e ∷ events) = (e.waiting + length e.answers ≤ recv_limit) × HasRoom events

AllTrue-append : (xs bs : List Bool) → AllTrue xs → AllTrue bs → AllTrue (xs ++ bs)
AllTrue-append [] bs h k = k
AllTrue-append (x ∷ xs) bs (h, hs) k = (h, AllTrue-append xs bs hs k)

-- A complete packet goes into the queue exactly where there is room.
abbrev pub GoesIn : ℕ → Turn → Type 0
GoesIn waiting (stop h) = Unit
GoesIn waiting (pushed room p h) = room ≡ ltb waiting 1024
GoesIn waiting hang_up = Unit

read_packet-GoesIn : (waiting : ℕ) (h : Holder) → GoesIn waiting (read_packet waiting h)
unfolding read_packet
read_packet-GoesIn waiting h =
    let (read_size, packet) =
      parse (take (readable h.recv_buf).1 (drop (readable h.recv_buf).0 h.recv_buf.buf))
        h.recv_packet in
    elim (Bool-cases (complete packet)) [ inl y ↦ rw y refl | inr n ↦ rw n tt ]

pub read_turn-GoesIn :
    (r : Received) (waiting : ℕ) (h : Holder) → GoesIn waiting (read_turn r waiting h)
unfolding read_turn turn_with
read_turn-GoesIn r waiting h = by_result (try_recv r h.recv_buf)
  where
    by_result : (o : Option (ConnectionBuffer × Bool)) → GoesIn waiting (turn_with o waiting h)
    by_result none = tt
    by_result (some (b, false)) = tt
    by_result (some (b, true)) = read_packet-GoesIn waiting (record h { recv_buf = b })

loop_trace-AllTrue :
    (answers : List Answer) (waiting : ℕ) (h : Holder)
    → waiting + length answers ≤ recv_limit
    → AllTrue (pushes (loop_trace answers waiting h))
unfolding loop_trace trace_after
loop_trace-AllTrue [] waiting h room = tt
loop_trace-AllTrue (a ∷ answers) waiting h room =
    by_turn (loop_trace-AllTrue answers) (read_turn a.on_recv left h)
  where
    left : ℕ
    left = waiting - a.taken

    fits : ltb left 1024 ≡ true
    fits = ground (arith, room)

    by_turn :
        ((waiting : ℕ) (h : Holder)
          → waiting + length answers ≤ recv_limit
          → AllTrue (pushes (loop_trace answers waiting h)))
        → (t : Turn)
        → AllTrue (
            pushes
              ((received a.on_recv h.recv_buf, left, t) ∷ trace_after (loop_trace answers) left t))
    by_turn go_on (stop h') = tt
    by_turn go_on (pushed true p h') = (fits, go_on (left + 1) h' (omega (arith, room)))
    by_turn go_on (pushed false p h') = (fits, go_on left h' (omega (arith, room)))
    by_turn go_on hang_up = tt

pub events_trace-AllTrue :
    (events : List ReadEvent) (h : Holder)
    → HasRoom events
    → AllTrue (pushes (events_trace events h))
unfolding events_trace event_trace traces_after
events_trace-AllTrue [] h room = tt
events_trace-AllTrue (e ∷ events) h (room, rooms) =
    subst AllTrue
      (sym
        (pushes-append (event_trace e h) (traces_after (events_trace events) (read_event e h).1)))
      (AllTrue-append (pushes (event_trace e h)) _ first
        (others (λ h'. events_trace-AllTrue events h' rooms) (read_event e h).1))
  where
    first : AllTrue (pushes (event_trace e h))
    first = elim (Bool-cases (ltb e.waiting recv_limit)) [
      | inl y ↦ rw y (loop_trace-AllTrue e.answers e.waiting h room)
      | inr n ↦ rw n tt
    ]

    others :
        ((h' : Holder) → AllTrue (pushes (events_trace events h')))
        → (o : Option Holder) → AllTrue (pushes (traces_after (events_trace events) o))
    others go_on none = tt
    others go_on (some h') = go_on h'
