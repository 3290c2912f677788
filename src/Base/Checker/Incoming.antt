-- ===== src/Base/Checker/Incoming.antt =====
-- What a connection from another process has received and sent after a visit
-- (base/private_connection_checker.cpp).
use casual_game.Prelude.{
  ℕ, ◌≡◌, ◌∙◌, refl, sym, ap, inl, inr, Bool, true, false, Option, none, some, List, [], ◌++◌, ltb,
  Bool-cases, arith,
}
use casual_game.Net.ConnectionBuffer.{readable, commit_read, writeable}
use casual_game.Base.ProcessId.{ProcessId, is_valid, read_id}
use casual_game.Base.Checker.{
  Conn, incoming, recv_id, send_ret, ConnInfo, Answers, recv_on, send_on, put_bytes, ret_bytes,
  first_id, ret_sent, id_received, id_came,
}
use casual_game.Base.Checker.Flow.{
  recv_on-Receives, send_on-Sends, readable-Front, put_bytes-contents,
}
use casual_game.Base.Checker.Stages.{
  Buffers, Began, Sending, Stage, Ends, sent_whole, length-ret_bytes, joined,
}

module _ (names : List (List ℕ)) (own : ProcessId) (padding : ℕ × ℕ × ℕ) where
  pub ret_sent-Ends :
      (c : ConnInfo) (answer : Option (Option ℕ))
      → c.state ≡ send_ret
      → Stage names own padding send_ret c
      → Ends names own padding incoming (ret_sent c (send_on answer c.conn))
  unfolding ret_sent
  ret_sent-Ends c answer at ((vr, vs), checked, sending, (first, count, began, remote)) =
      by_answer (send_on answer c.conn) refl
    where
      by_answer :
          (o : Option (Conn × Bool))
          → send_on answer c.conn ≡ o
          → Ends names own padding incoming (ret_sent c o)
      by_answer none e = tt
      by_answer (some (conn, false)) e =
          let s = send_on-Sends answer c.conn conn false vs e in
          (
            send_ret,
            at,
            refl,
            (
              (rw s.recv_same vr, s.valid),
              checked,
              s.kept ∙ sending,
              (first, count, rw (s.in_same, s.recv_same) began, remote),
            ),
          )
      by_answer (some (conn, true)) e = elim (Bool-cases c.check_result) [
        | inl y ↦
            let s = send_on-Sends answer c.conn conn true vs e in
            let whole = sent_whole (record c { conn = conn }) (s.kept ∙ sending) (s.drained refl) in
            rw y (
              first,
              count,
              rw (s.in_same, s.recv_same) began,
              remote,
              sym checked ∙ y,
              whole ∙ ap (λ r. ret_bytes own r padding) y,
            )
        | inr n ↦ rw n tt
      ]

  id_received-Ends :
      (c : ConnInfo) (a : Answers)
      → Buffers c
      → Began [] c
      → Sending [] c
      → ltb (readable c.conn.recv_buf).1 8 ≡ false
      → Ends names own padding incoming (id_received names own padding a c)
  unfolding id_received
  id_received-Ends c a (vr, vs) began sending enough =
      let f = readable-Front 8 c.conn.recv_buf vr (omega arith) enough in
      elim (Bool-cases (ltb (writeable 12 c.conn.send_buf).1 12)) [
        | inl y ↦ rw y tt
        | inr n ↦
            let id = first_id c.conn.recv_buf in
            let reply = ret_bytes own (is_valid names id) padding in
            let (vs', out) =
              put_bytes-contents reply 12 c.conn.send_buf vs
                (length-ret_bytes own (is_valid names id) padding) n in
            let c' : ConnInfo = record {
              state = send_ret;
              conn = record (c.conn) {
                recv_buf = (commit_read 8 c.conn.recv_buf).0;
                send_buf =
                    put_bytes reply (writeable 12 c.conn.send_buf).0
                      (writeable 12 c.conn.send_buf).2 12;
              };
              remote_id = id;
              check_result = is_valid names id;
            } in
            let all_out : Sending reply c' = joined c.conn.went_out _ _ reply sending out in
            rw n (
              ret_sent-Ends c' a.on_send refl (
                (f.valid, vs'),
                refl,
                all_out,
                (f.first, f.count, began ∙ f.split, ap read_id f.there),
              ))
      ]

  pub id_came-Ends :
      (c : ConnInfo) (a : Answers)
      → c.state ≡ recv_id
      → Stage names own padding recv_id c
      → Ends names own padding incoming (id_came names own padding a c (recv_on a.on_recv c.conn))
  unfolding id_came
  id_came-Ends c a at ((vr, vs), began, sending) = by_answer (recv_on a.on_recv c.conn) refl
    where
      stage :
          (conn : Conn) (any : Bool)
          → recv_on a.on_recv c.conn ≡ some (conn, any)
          → Stage names own padding recv_id (record c { conn = conn })
      stage conn any e =
          let r = recv_on-Receives a.on_recv c.conn conn any vr e in
          (
            (r.valid, rw r.send_same vs),
            r.came ∙ ap (λ xs. xs ++ r.more) began ∙ sym r.held,
            rw (r.send_same, r.out_same) sending,
          )

      by_answer :
          (o : Option (Conn × Bool))
          → recv_on a.on_recv c.conn ≡ o
          → Ends names own padding incoming (id_came names own padding a c o)
      by_answer none e = tt
      by_answer (some (conn, false)) e = (recv_id, at, refl, stage conn false e)
      by_answer (some (conn, true)) e =
          let (buffers, began', sending') = stage conn true e in
          elim (Bool-cases (ltb (readable conn.recv_buf).1 8)) [
            | inl y ↦ rw y (recv_id, at, refl, (buffers, began', sending'))
            | inr n ↦ rw n (id_received-Ends (record c { conn = conn }) a buffers began' sending' n)
          ]
