-- ===== src/Base/Checker.antt =====
-- `PrivateConnectionChecker` (base/private_connection_checker.h and private_connection_checker.cpp): how
-- a connection between two processes is checked before it is used. A visit is what a turn of the loop
-- in `checkConn` does with one connection; connections do not share anything but the id of the process.
pub mod Flow
pub mod Stages
pub mod Incoming
pub mod Outgoing
pub mod Handshake
use casual_game.Prelude.{
  ℕ, zero, suc, Bool, true, false, not, Option, none, some, List, [], ◌∷◌, ◌++◌, take, drop, ltb,
  ◌==◌, if◌then◌else◌,
}
use casual_game.Net.ConnectionBuffer.{
  ConnectionBuffer, readable, commit_read, overwrite, writeable, commit_write, try_send, sent,
  Received, try_recv, received,
}
use casual_game.Net.ConnectionBuffer
use casual_game.Base.ProcessId.{ProcessId, is_valid, id_bytes, read_id}

-- A connection, with what its socket has given and taken since it came.
pub record Conn : Type 0 where
  pub recv_buf : ConnectionBuffer
  pub send_buf : ConnectionBuffer
  pub came_in : List ℕ
  pub went_out : List ℕ

pub data ConnType : Type 0 where
  incoming outgoing : ConnType

pub data ConnState : Type 0 where
  recv_id send_ret send_id recv_ret : ConnState

pub record ConnInfo : Type 0 where
  pub state : ConnState
  pub conn : Conn
  pub remote_id : ProcessId
  pub check_result : Bool

-- What the socket answers in a visit; `none` for a send is an exception.
pub record Answers : Type 0 where
  pub on_recv : Received
  pub on_send : Option (Option ℕ)

abbrev pub received_with : Received → Conn → Option (ConnectionBuffer × Bool) → Option (Conn × Bool)
received_with r c none = none
received_with r c (some (b, any)) =
    some (record c { recv_buf = b; came_in = c.came_in ++ received r c.recv_buf }, any)

unfoldable pub recv_on : Received → Conn → Option (Conn × Bool)
recv_on r c = received_with r c (try_recv r c.recv_buf)

abbrev pub sent_with : Option (Option ℕ) → Conn → Option (Conn × Bool)
sent_with none c = none
sent_with (some answer) c =
    let (b, drained) = try_send answer c.send_buf in
    some (record c { send_buf = b; went_out = c.went_out ++ sent answer c.send_buf }, drained)

-- With nothing to send, the socket is not asked.
unfoldable pub send_on : Option (Option ℕ) → Conn → Option (Conn × Bool)
send_on answer c = if (readable c.send_buf).1 == 0 then some (c, true) else sent_with answer c

abbrev pub put_bytes : List ℕ → ℕ → ConnectionBuffer → ℕ → ConnectionBuffer
put_bytes bytes i b size = (commit_write size (record b { buf = overwrite i bytes b.buf })).0

-- What becomes of a connection: it is kept, dropped, or given to the handlers of `e_connConfirmed`.
pub data Visit : Type 0 where
  kept confirmed : ConnInfo → Visit
  dropped : Visit

-- `ConnCheckRetMsg`: an id, a byte for the result, and three bytes that are not set.
unfoldable pub ret_bytes : ProcessId → Bool → ℕ × ℕ × ℕ → List ℕ
ret_bytes pid result (a, b, c) = id_bytes pid ++ (if result then 1 else 0) ∷ a ∷ b ∷ c ∷ []

abbrev pub first_id : ConnectionBuffer → ProcessId
first_id b = read_id (take 8 (drop (readable b).0 b.buf))

abbrev pub first_result : List ℕ → Bool
first_result [] = false
first_result (byte ∷ bytes) = not (byte == 0)

-- A new connection has buffers of a size, and nothing in them.
abbrev pub fresh : ℕ → Conn
fresh size = record {
  recv_buf = ConnectionBuffer.create size;
  send_buf = ConnectionBuffer.create size;
  came_in = [];
  went_out = [];
}

-- `addUncheckedConnection`, after `setNonBlocking`. The result of the check is not set yet.
unfoldable pub add_unchecked_connection : ProcessId → Bool → Conn → ConnType → Visit
add_unchecked_connection own unset c incoming = kept (record {
  state = recv_id;
  conn = c;
  remote_id = record { process_type = 0; num = 0 };
  check_result = unset;
})
add_unchecked_connection own unset c outgoing =
    let (i, room, b) = writeable 8 c.send_buf in
    if ltb room 8
    then dropped
    else kept (record {
      state = send_id;
      conn = record c { send_buf = put_bytes (id_bytes own) i b 8 };
      remote_id = record { process_type = 0; num = 0 };
      check_result = unset;
    })

-- The case `sendRet`, with what `trySend` gives.
unfoldable pub ret_sent : ConnInfo → Option (Conn × Bool) → Visit
ret_sent c none = dropped
ret_sent c (some (conn, false)) = kept (record c { conn = conn })
ret_sent c (some (conn, true)) =
    if c.check_result then confirmed (record c { conn = conn }) else dropped

-- The case `recvRet` where the reply is there.
unfoldable pub ret_received : ConnInfo → Visit
ret_received c =
    let b = c.conn.recv_buf in
    let result = first_result (drop 8 (take 12 (drop (readable b).0 b.buf))) in
    if result
    then confirmed (record c {
      conn = record (c.conn) { recv_buf = (commit_read 12 b).0 };
      remote_id = first_id b;
      check_result = result;
    })
    else dropped

-- The case `recvRet`, with what `tryRecv` gives.
unfoldable pub ret_came : ConnInfo → Option (Conn × Bool) → Visit
ret_came c none = dropped
ret_came c (some (conn, false)) = kept (record c { conn = conn })
ret_came c (some (conn, true)) =
    if ltb (readable conn.recv_buf).1 12
    then kept (record c { conn = conn })
    else ret_received (record c { conn = conn })

-- The case `sendId`, with what `trySend` gives; it goes on with `recvRet`.
unfoldable pub id_sent : Answers → ConnInfo → Option (Conn × Bool) → Visit
id_sent a c none = dropped
id_sent a c (some (conn, false)) = kept (record c { conn = conn })
id_sent a c (some (conn, true)) =
    ret_came (record c { state = recv_ret; conn = conn }) (recv_on a.on_recv conn)

-- What the visits share: the names of the process types, the id of this process, and the bytes of a
-- reply that are not set.
module _ (names : List (List ℕ)) (own : ProcessId) (padding : ℕ × ℕ × ℕ) where
  -- The case `recvId` where the id is there; it goes on with `sendRet`.
  unfoldable pub id_received : Answers → ConnInfo → Visit
  id_received a c =
      let id = first_id c.conn.recv_buf in
      let b = (commit_read 8 c.conn.recv_buf).0 in
      let (i, room, s) = writeable 12 c.conn.send_buf in
      if ltb room 12
      then dropped
      else (let conn = record (c.conn) {
        recv_buf = b;
        send_buf = put_bytes (ret_bytes own (is_valid names id) padding) i s 12;
      } in
          ret_sent
            (record {
              state = send_ret;
              conn = conn;
              remote_id = id;
              check_result = is_valid names id;
            })
            (send_on a.on_send conn))

  -- The case `recvId`, with what `tryRecv` gives.
  unfoldable pub id_came : Answers → ConnInfo → Option (Conn × Bool) → Visit
  id_came a c none = dropped
  id_came a c (some (conn, false)) = kept (record c { conn = conn })
  id_came a c (some (conn, true)) =
      if ltb (readable conn.recv_buf).1 8
      then kept (record c { conn = conn })
      else id_received a (record c { conn = conn })

  unfoldable pub visit_in : Answers → ConnInfo → ConnState → Visit
  visit_in a c recv_id = id_came a c (recv_on a.on_recv c.conn)
  visit_in a c send_ret = ret_sent c (send_on a.on_send c.conn)
  visit_in a c send_id = id_sent a c (send_on a.on_send c.conn)
  visit_in a c recv_ret = ret_came c (recv_on a.on_recv c.conn)

  -- The turns of `checkConn` on one connection, while it is kept.
  unfoldable pub visits : List Answers → Visit → Visit
  visits (a ∷ answers) (kept c) = visits answers (visit_in a c c.state)
  visits answers v = v
