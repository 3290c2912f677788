-- ===== src/Tests/Checks.antt =====
-- A process calls another one, and both check the connection.
use casual_game.Prelude.{ℕ, ◌≡◌, refl, true, false, some, none, List, [], ◌∷◌, arith}
use casual_game.Net.ConnectionBuffer.{
  nothing, bytes, create, readable, commit_read, writeable, commit_write, try_send, sent, try_recv,
  received,
}
use casual_game.Base.ProcessId.{ProcessId, type_to_string, is_valid, id_bytes, read_id}
use casual_game.Base.Connections
use casual_game.Base.Connections.{
  Entry, Call, add_private, add_public, erase_public, erase_connection, run,
}
use casual_game.Base.Connections.InStep.{InStep}
use casual_game.Base.Connections.Erasing.{Erases}
use casual_game.Base.Connections.Calls.{run-InStep}
use casual_game.Base.Checker.{
  recv_id, incoming, outgoing, ConnInfo, Answers, Visit, kept, confirmed, dropped, ret_bytes,
  recv_on, send_on, fresh, add_unchecked_connection, ret_sent, id_received, id_came, ret_received,
  ret_came, id_sent, visit_in, visits,
}
use casual_game.Base.Checker.Stages.{Greeted}
use casual_game.Base.Checker.Handshake.{visits-Greeted, visits-agree}

-- The types of processes are `none` and `hall`.
abbrev names : List (List ℕ)
names = (110 ∷ 111 ∷ 110 ∷ 101 ∷ []) ∷ (104 ∷ 97 ∷ 108 ∷ 108 ∷ []) ∷ []

abbrev first_hall : ProcessId
first_hall = record { process_type = 1; num = 1 }

abbrev second_hall : ProcessId
second_hall = record { process_type = 1; num = 2 }

-- The caller sends its id and hears nothing; then the reply comes.
abbrev caller_answers : List Answers
caller_answers =
    record { on_recv = nothing; on_send = some (some 8) }
    ∷ record { on_recv = bytes 1 (0 ∷ 0 ∷ 0 ∷ 2 ∷ 0 ∷ 0 ∷ 0 ∷ 1 ∷ 7 ∷ 8 ∷ 9 ∷ []); on_send = none }
    ∷ []

-- The called process gets the id in two portions, and its reply goes out in two.
abbrev called_answers : List Answers
called_answers =
    record { on_recv = bytes 1 (0 ∷ 0 ∷ []); on_send = none }
    ∷ record { on_recv = bytes 0 (1 ∷ 0 ∷ 0 ∷ 0 ∷ []); on_send = some (some 5) }
    ∷ record { on_recv = nothing; on_send = some (some 7) }
    ∷ []

abbrev info_or : ConnInfo → Visit → ConnInfo
info_or other (kept c) = c
info_or other (confirmed c) = c
info_or other dropped = other

abbrev nobody : ConnInfo
nobody = record { state = recv_id; conn = fresh 0; remote_id = first_hall; check_result = false }

abbrev calling : Visit
calling =
    visits names first_hall (0, 0, 0) caller_answers
      (add_unchecked_connection first_hall false (fresh 16) outgoing)

abbrev called : Visit
called =
    visits names second_hall (7, 8, 9) called_answers
      (add_unchecked_connection second_hall false (fresh 16) incoming)

visits-Greeted_example : Greeted names second_hall (7, 8, 9) incoming (info_or nobody called)
unfolding create readable commit_read writeable commit_write try_send sent try_recv received
    type_to_string is_valid id_bytes read_id ret_bytes recv_on send_on add_unchecked_connection
    ret_sent id_received id_came visit_in visits
visits-Greeted_example =
    visits-Greeted names second_hall (7, 8, 9) false incoming 16 called_answers
      (info_or nobody called) (omega arith) refl

visits-agree_example :
    ((info_or nobody calling).remote_id ≡ second_hall)
    × ((info_or nobody called).remote_id ≡ first_hall)
    × (is_valid names first_hall ≡ true)
unfolding create readable commit_read writeable commit_write try_send sent try_recv received
    type_to_string is_valid id_bytes read_id ret_bytes recv_on send_on add_unchecked_connection
    ret_sent id_received id_came ret_received ret_came id_sent visit_in visits
visits-agree_example =
    visits-agree names names first_hall second_hall (0, 0, 0) (7, 8, 9) false false 16 16
      caller_answers called_answers (info_or nobody calling) (info_or nobody called) [] [] [] []
      (omega arith) (omega arith) (omega arith, omega arith) (omega arith, omega arith) refl refl
      refl refl

-- A client comes, two processes come, of which one is not registered, and the client goes.
abbrev calls : List Call
calls =
    add_public true 5 70000
    ∷ add_private true 6 second_hall
    ∷ add_private false 7 first_hall
    ∷ erase_public 70000
    ∷ []

run-InStep_example :
    InStep (run calls Connections.create)
    × ((fd : ℕ) (e : Entry)
        → (run calls Connections.create).all_conns fd ≡ some e
        → Erases
            (run calls Connections.create)
            e
            (erase_connection fd (run calls Connections.create)))
run-InStep_example =
    run-InStep calls
      (omega arith, ((omega arith, omega arith), ((omega arith, omega arith), (tt, tt))))
