-- ===== src/Base/Connection.antt =====
-- One connection of `TcpConnectionManager` (base/tcp_connection_manager.cpp): its send queue and the
-- packet that it is receiving, over its buffers. A packet of the queue is not shared with another
-- connection here.
pub mod Sending
pub mod Packets
pub mod Twice
pub mod Receiving
pub mod Trace
pub mod InOrder
pub mod Events
use casual_game.Prelude.{
  ℕ, zero, suc, ◌+◌, ◌-◌, Bool, true, false, not, ◌||◌, Option, none, some, List, [], ◌∷◌, ◌++◌,
  length, take, drop, ltb, leb, ◌==◌, if◌then◌else◌, min,
}
use casual_game.Net.ConnectionBuffer.{
  ConnectionBuffer, readable, commit_read, overwrite, writeable, commit_write, try_send, sent,
  Received, try_recv,
}
use casual_game.Net.TcpPacket.{Packet, copy, pop, complete, parse}

-- `ConnectionHolder`.
pub record Holder : Type 0 where
  pub recv_packet : Packet
  pub recv_buf : ConnectionBuffer
  pub send_buf : ConnectionBuffer
  pub send_queue : List Packet

-- `packet->copy` into the room at index `i`, and `commitWrite` of what is copied.
unfoldable pub put : ℕ → ℕ → Packet → ConnectionBuffer → ConnectionBuffer
put i room packet b =
    let bytes = copy room packet in
    (commit_write (length bytes) (record b { buf = overwrite i bytes b.buf })).0

-- The end of `sendPacket`: what fits is copied once more, and the rest goes to the queue.
unfoldable pub queue_rest : ℕ → ℕ → Packet → Holder → Holder
queue_rest i room packet h = record h {
  send_buf = put i room packet h.send_buf;
  send_queue = pop (length (copy room packet)) packet ∷ [];
}

-- `sendPacket` with the socket's answer, past the queue.
unfoldable pub send_directly : Option ℕ → Packet → Holder → Holder
send_directly answer packet h =
    let (i, room, b) = writeable (length packet) h.send_buf in
    if leb (length packet) room
    then (let (b', drained) = try_send answer (put i room packet b) in
        if drained
        then record h { send_buf = b' }
        else queue_rest i room packet (record h { send_buf = b' }))
    else queue_rest i room packet (record h { send_buf = b })

-- `sendPacket` where the queue is `queue`.
unfoldable pub send_by_queue : Option ℕ → Packet → Holder → List Packet → Holder × Bool
send_by_queue answer packet h [] = (send_directly answer packet h, true)
send_by_queue answer packet h (first ∷ others) =
    if ltb 512 (length (first ∷ others))
    then (h, false)
    else (record h { send_queue = (first ∷ others) ++ packet ∷ [] }, true)

unfoldable pub send_packet : Option ℕ → Packet → Holder → Holder × Bool
send_packet answer packet h = send_by_queue answer packet h h.send_queue

-- The inner loop of the event `write`: packets go from the queue to the buffer while there is room.
unfoldable pub fill : List Packet → ConnectionBuffer → ConnectionBuffer × List Packet
fill [] b = (b, [])
fill (packet ∷ packets) b =
    let (i, room, b') = writeable (length packet) b in
    let rest = fill packets (put i room packet b') in
    if room == 0
    then (b', packet ∷ packets)
    else if ltb (length (copy room packet)) (length packet)
    then (put i room packet b', pop (length (copy room packet)) packet ∷ packets)
    else rest

-- The outer loop, a turn for each answer of the socket: the bytes that go out, and the holder.
unfoldable pub on_write : List (Option ℕ) → Holder → List ℕ × Holder
on_write [] h = ([], h)
on_write (answer ∷ answers) h =
    let (b, drained) = try_send answer h.send_buf in
    let (b', packets) = fill h.send_queue b in
    let (out, h') = on_write answers (record h { send_buf = b'; send_queue = packets }) in
    if not drained || (length h.send_queue == 0)
    then (sent answer h.send_buf, record h { send_buf = b })
    else (sent answer h.send_buf ++ out, h')

-- The cells of the queue of received packets, `m_recvQueue`, which all connections share: 2^10, as its
-- constructor has them without an argument.
abbrev pub recv_limit : ℕ
recv_limit = 1024

-- A turn of the loop of the event `read`; for a complete packet, whether `push` put it into the queue.
pub data Turn : Type 0 where
  stop : Holder → Turn
  pushed : Bool → Packet → Holder → Turn
  hang_up : Turn

-- A turn where there are bytes to parse and `waiting` packets in the queue.
unfoldable pub read_packet : ℕ → Holder → Turn
read_packet waiting h =
    let (start, size) = readable h.recv_buf in
    let (read_size, packet) = parse (take size (drop start h.recv_buf.buf)) h.recv_packet in
    let b = (commit_read read_size h.recv_buf).0 in
    if complete packet
    then pushed (ltb waiting recv_limit) packet (record h { recv_buf = b; recv_packet = [] })
    else stop (record h { recv_buf = b; recv_packet = packet })

-- With what `tryRecv` gives.
unfoldable pub turn_with : Option (ConnectionBuffer × Bool) → ℕ → Holder → Turn
turn_with none waiting h = hang_up
turn_with (some (b, false)) waiting h = stop (record h { recv_buf = b })
turn_with (some (b, true)) waiting h = read_packet waiting (record h { recv_buf = b })

unfoldable pub read_turn : Received → ℕ → Holder → Turn
read_turn r waiting h = turn_with (try_recv r h.recv_buf) waiting h

-- What a turn meets: the socket's answer, and how many packets were taken from the queue since the
-- turn before.
pub record Answer : Type 0 where
  pub on_recv : Received
  pub taken : ℕ

-- What follows a turn, with the further turns: the packets that go into the queue, and the connection,
-- while it lasts. A packet that the queue does not take is lost.
unfoldable pub turns_after :
    (ℕ → Holder → List Packet × Option Holder) → ℕ → Turn → List Packet × Option Holder
turns_after go_on waiting (stop h) = ([], some h)
turns_after go_on waiting (pushed true p h) =
    let (packets, last) = go_on (waiting + 1) h in (p ∷ packets, last)
turns_after go_on waiting (pushed false p h) = go_on waiting h
turns_after go_on waiting hang_up = ([], none)

-- The loop of the event, as far as there are answers.
unfoldable pub read_loop : List Answer → ℕ → Holder → List Packet × Option Holder
read_loop [] waiting h = ([], some h)
read_loop (a ∷ answers) waiting h =
    let left = waiting - a.taken in
    turns_after (read_loop answers) left (read_turn a.on_recv left h)

-- An event `read`, with the packets that wait in the queue when it begins.
pub record ReadEvent : Type 0 where
  pub waiting : ℕ
  pub answers : List Answer

-- With a full queue, nothing is read.
unfoldable pub read_event : ReadEvent → Holder → List Packet × Option Holder
read_event e h =
    let read = read_loop e.answers e.waiting h in
    if ltb e.waiting recv_limit then read else ([], some h)

unfoldable pub events_after :
    (Holder → List Packet × Option Holder)
    → List Packet × Option Holder
    → List Packet × Option Holder
events_after go_on (packets, none) = (packets, none)
events_after go_on (packets, some h) = let (others, last) = go_on h in (packets ++ others, last)

-- The events of a connection, one after the other.
unfoldable pub read_events : List ReadEvent → Holder → List Packet × Option Holder
read_events [] h = ([], some h)
read_events (e ∷ events) h = events_after (read_events events) (read_event e h)
