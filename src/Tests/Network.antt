-- ===== src/Tests/Network.antt =====
-- Connections, packets, queues and maps on a few bytes.
use casual_game.Prelude.{
  ℕ, ◌+◌, ◌≡◌, ◌≤◌, ◌⊎◌, inl, inr, refl, true, not, some, none, List, [], ◌∷◌, ◌++◌, arith, length,
  take, drop, ltb, ◌==◌, if◌then◌else◌,
}
use casual_game.Http.UrlCode.{url_encode, url_decode}
use casual_game.Http.UrlCode.RoundTrip.{url_decode-url_encode}
use casual_game.Componet.CircularQueue
use casual_game.Componet.CircularQueue.Runs
use casual_game.Componet.FastTravelMap
use casual_game.Componet.FastTravelMap.Refinement
use casual_game.Net.ConnectionBuffer.{
  ConnectionBuffer, create, readable, commit_read, writeable, commit_write, overwrite, try_send,
  sent, nothing, bytes, try_recv, received,
}
use casual_game.Net.ConnectionBuffer.Contents.{
  contents, IsValid, create-IsValid, commit_read-contents,
}
use casual_game.Net.ConnectionBuffer.Writing.{writeable-commit_write}
use casual_game.Net.ConnectionBuffer.Socket.{try_send-sent, try_recv-received}
use casual_game.Net.TcpPacket.{
  parse, fill_body, complete, content_size, content, set_content, try_parse,
}
use casual_game.Net.TcpPacket.Parsing.{frame, taken, parse-frame, try_parse-set_content}
use casual_game.Base.Connection.{
  Holder, send_packet, send_by_queue, on_write, read_turn, turn_with, read_packet, turns_after,
  ReadEvent, read_loop, read_event, events_after, read_events,
}
use casual_game.Base.Connection.Receiving.{Awaits}
use casual_game.Base.Connection.Trace.{
  trace_after, loop_trace, event_trace, traces_after, events_trace, pushes,
}
use casual_game.Base.Connection.Sending.{pending, on_write-pending}
use casual_game.Base.Connection.Packets.{sent_at_once, send_packet-pending}
use casual_game.Base.Connection.Twice.{send_packet-commits_twice}
use casual_game.Base.Connection.InOrder.{InOrder, frames}
use casual_game.Base.Connection.Events.{read_events-InOrder, read_events-frames}

-- `a+%`.
abbrev text : List ℕ
text = 97 ∷ 43 ∷ 37 ∷ []

url_decode-url_encode_example : url_decode (url_encode text) ≡ text
url_decode-url_encode_example =
    url_decode-url_encode text (omega arith, (omega arith, (omega arith, tt)))

abbrev buffer : ConnectionBuffer
buffer = record { buf = 1 ∷ 2 ∷ 3 ∷ 4 ∷ 5 ∷ []; data_begin = 2; data_end = 4 }

abbrev buffer_valid : IsValid buffer
buffer_valid = record {
  small = omega arith;
  end_in = omega arith;
  begin_in = omega arith;
  reset = λ e. absurd (omega (arith, e));
}

commit_read-contents_example :
    IsValid (commit_read 1 buffer).0
    × ((commit_read 1 buffer).1 ≡ not (ltb (length (contents buffer)) 1))
    × (contents (commit_read 1 buffer).0
        ≡ (if ltb (length (contents buffer)) 1 then contents buffer else drop 1 (contents buffer)))
commit_read-contents_example = commit_read-contents buffer buffer_valid 1 (omega arith)

abbrev holder : Holder
holder = record {
  recv_packet = [];
  recv_buf = create 16;
  send_buf = buffer;
  send_queue = (6 ∷ 7 ∷ 8 ∷ []) ∷ [];
}

on_write-pending_example :
    IsValid (on_write (some 1 ∷ some 1 ∷ none ∷ []) holder).1.send_buf
    × (pending holder
        ≡ (on_write (some 1 ∷ some 1 ∷ none ∷ []) holder).0
          ++ pending (on_write (some 1 ∷ some 1 ∷ none ∷ []) holder).1)
on_write-pending_example = on_write-pending (some 1 ∷ some 1 ∷ none ∷ []) holder buffer_valid

send_packet-pending_example :
    IsValid (send_packet none (9 ∷ []) holder).0.send_buf
    × (sent_at_once none (9 ∷ []) holder ++ pending (send_packet none (9 ∷ []) holder).0
        ≡ pending holder ++ 9 ∷ [])
unfolding send_packet send_by_queue
send_packet-pending_example =
    send_packet-pending none (9 ∷ []) holder buffer_valid refl (inl (λ e. cc e))

abbrev idle : Holder
idle = record { recv_packet = []; recv_buf = create 16; send_buf = create 16; send_queue = [] }

send_packet-commits_twice_example :
    (length (pending (send_packet none (9 ∷ 9 ∷ []) idle).0) ≡ length (pending idle) + 4)
    × ((send_packet none (9 ∷ 9 ∷ []) idle).0.send_queue ≡ [] ∷ [])
unfolding writeable create
send_packet-commits_twice_example =
    send_packet-commits_twice (9 ∷ 9 ∷ []) idle (create-IsValid 16 (omega arith)) refl (omega arith)
      (omega arith)

-- Three packets. The first begins to come in, then the queue is found full; then the rest of it comes with
-- the other two, while one cell is free: it goes in there, and the others are lost.
abbrev events : List ReadEvent
events =
    record {
      waiting = 1022;
      answers = record { on_recv = bytes 2 (0 ∷ 0 ∷ 0 ∷ 7 ∷ []); taken = 0 } ∷ [];
    }
    ∷ record { waiting = 1024; answers = record { on_recv = bytes 8 []; taken = 0 } ∷ [] }
    ∷ record {
      waiting = 1023;
      answers =
          record { on_recv = bytes 8 (0 ∷ 0 ∷ 0 ∷ 0 ∷ 1 ∷ 0 ∷ 0 ∷ 0 ∷ 9 ∷ []); taken = 0 }
          ∷ record { on_recv = nothing; taken = 0 }
          ∷ record { on_recv = nothing; taken = 0 }
          ∷ record { on_recv = nothing; taken = 0 }
          ∷ [];
    }
    ∷ []

abbrev contents_sent : List (List ℕ)
contents_sent = (7 ∷ 8 ∷ []) ∷ [] ∷ (9 ∷ []) ∷ []

read_events-InOrder_example :
    InOrder contents_sent []
      (pushes (events_trace events idle))
      (read_events events idle).0
      (read_events events idle).1
unfolding create readable commit_read writeable commit_write try_recv received loop_trace
    trace_after event_trace traces_after events_trace read_turn turn_with read_packet turns_after
    read_loop read_event parse fill_body complete content_size
read_events-InOrder_example =
    read_events-InOrder events contents_sent [] idle (omega arith, (omega arith, (omega arith, tt)))
      (create-IsValid 16 (omega arith)) refl refl

one_queued : (read_events events idle).0 ≡ frame (7 ∷ 8 ∷ []) ∷ []
unfolding create readable commit_read writeable commit_write try_recv read_turn turn_with
    read_packet turns_after read_loop read_event events_after read_events parse fill_body complete
    content_size
one_queued = refl

-- Two packets with room in the queue.
abbrev roomy : List ReadEvent
roomy =
    record {
      waiting = 1019;
      answers =
          record { on_recv = bytes 2 (0 ∷ 0 ∷ 0 ∷ 7 ∷ 8 ∷ 1 ∷ []); taken = 0 }
          ∷ record { on_recv = nothing; taken = 5 }
          ∷ [];
    }
    ∷ []

read_events-frames_example :
    (come : List (List ℕ)) × (ahead : List (List ℕ)) × ((7 ∷ 8 ∷ []) ∷ (9 ∷ []) ∷ []
      ≡ come ++ ahead)
    × ((read_events roomy idle).0 ≡ frames come)
    × ((h' : Holder)
        → (read_events roomy idle).1 ≡ some h'
        → IsValid h'.recv_buf × Awaits ahead (0 ∷ 0 ∷ 0 ∷ 9 ∷ []) h')
unfolding create readable commit_read writeable commit_write try_recv received loop_trace
    trace_after event_trace traces_after events_trace read_turn turn_with read_packet turns_after
    read_loop read_event parse fill_body complete content_size
read_events-frames_example =
    read_events-frames roomy ((7 ∷ 8 ∷ []) ∷ (9 ∷ []) ∷ []) (0 ∷ 0 ∷ 0 ∷ 9 ∷ []) idle
      (omega arith, (omega arith, tt)) (create-IsValid 16 (omega arith)) refl refl (omega arith, tt)

-- A frame of two bytes, the first five of its six, then the last and the start of another.
parse-frame_example :
    parse (8 ∷ 5 ∷ []) (take 5 (frame (7 ∷ 8 ∷ [])))
    ≡ (taken 5 2 2, take (5 + taken 5 2 2) (frame (7 ∷ 8 ∷ [])))
parse-frame_example =
    parse-frame (7 ∷ 8 ∷ []) (8 ∷ 5 ∷ []) [] (5 ∷ []) (omega arith) 5 (inr (omega arith))
      (omega arith) refl

try_parse-set_content_example :
    (try_parse (frame (7 ∷ 8 ∷ []) ++ 1 ∷ []) ≡ some (frame (7 ∷ 8 ∷ [])))
    × (content (frame (7 ∷ 8 ∷ [])) ≡ some (7 ∷ 8 ∷ []))
unfolding set_content
try_parse-set_content_example = try_parse-set_content (7 ∷ 8 ∷ []) (1 ∷ []) refl

writeable-commit_write_example :
    let (i, room, b') = writeable 3 buffer in
    let w = commit_write 2 (record b' { buf = overwrite i (8 ∷ 9 ∷ []) b'.buf }) in
    ((3 ≤ room) ⊎ (room + length (contents buffer) ≡ length buffer.buf))
    × (w.1 ≡ true)
    × IsValid w.0
    × (contents w.0 ≡ contents buffer ++ 8 ∷ 9 ∷ [])
    × (length w.0.buf ≡ length buffer.buf)
unfolding writeable
writeable-commit_write_example =
    writeable-commit_write buffer 3 (8 ∷ 9 ∷ []) buffer_valid (omega arith)

try_send-sent_example :
    IsValid (try_send (some 1) buffer).0
    × (contents buffer ≡ sent (some 1) buffer ++ contents (try_send (some 1) buffer).0)
    × ((try_send (some 1) buffer).1 ≡ (length (contents (try_send (some 1) buffer).0) == 0))
    × (length (try_send (some 1) buffer).0.buf ≡ length buffer.buf)
try_send-sent_example = try_send-sent buffer buffer_valid (some 1)

abbrev filled : ConnectionBuffer
filled = record { buf = 1 ∷ 2 ∷ 3 ∷ 4 ∷ 6 ∷ []; data_begin = 2; data_end = 5 }

try_recv-received_example :
    IsValid filled × (contents filled ≡ contents buffer ++ received (bytes 6 (7 ∷ [])) buffer)
unfolding try_recv writeable commit_write
try_recv-received_example =
    try_recv-received buffer buffer_valid (bytes 6 (7 ∷ [])) {b' = filled} {some_there = true} refl

abbrev queue_calls : List (Runs.Op ℕ)
queue_calls = Runs.put 5 ∷ Runs.put 6 ∷ Runs.drop_first ∷ Runs.put 7 ∷ Runs.put 8 ∷ Runs.look ∷ []

create_refines_example :
    Runs.run 0 (CircularQueue.create 0 2) queue_calls ≡ Runs.run_items 0 2 [] queue_calls
create_refines_example = Runs.create_refines 0 2 queue_calls

abbrev map_calls : List (Refinement.Op ℕ)
map_calls =
    Refinement.add 1 5
    ∷ Refinement.add 2 6
    ∷ Refinement.add 1 7
    ∷ Refinement.remove 1
    ∷ Refinement.look 2
    ∷ Refinement.look 1
    ∷ []

run-run_function_example :
    Refinement.run FastTravelMap.create map_calls ≡ Refinement.run_function (λ k. none) map_calls
run-run_function_example = Refinement.run-run_function map_calls
