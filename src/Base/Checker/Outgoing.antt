-- ===== src/Base/Checker/Outgoing.antt =====
-- What a connection to another process has received and sent after a visit
-- (base/private_connection_checker.cpp).
use casual_game.Prelude.{
  ℕ, ◌≡◌, ◌∙◌, refl, sym, ap, inl, inr, Bool, true, false, Option, none, some, List, ◌++◌, take,
  drop, ltb, Bool-cases, arith, take-take,
}
use casual_game.Net.ConnectionBuffer.{readable, Received}
use casual_game.Base.ProcessId.{ProcessId, read_id}
use casual_game.Base.Checker.{
  Conn, outgoing, send_id, recv_ret, ConnInfo, Answers, recv_on, send_on, first_result,
  ret_received, ret_came, id_sent,
}
use casual_game.Base.Checker.Flow.{recv_on-Receives, send_on-Sends, readable-Front}
use casual_game.Base.Checker.Stages.{Stage, Ends, sent_whole}

module _ (names : List (List ℕ)) (own : ProcessId) (padding : ℕ × ℕ × ℕ) where
  ret_received-Ends :
      (c : ConnInfo)
      → Stage names own padding recv_ret c
      → ltb (readable c.conn.recv_buf).1 12 ≡ false
      → Ends names own padding outgoing (ret_received c)
  unfolding ret_received
  ret_received-Ends c ((vr, vs), began, sending, gone) enough =
      let b = c.conn.recv_buf in
      let f = readable-Front 12 b vr (omega arith) enough in
      let from = drop (readable b).0 b.buf in
      elim (Bool-cases (first_result (drop 8 (take 12 from)))) [
        | inl y ↦
            let id : read_id (take 8 from) ≡ read_id (take 8 f.first) =
              ap read_id (sym (take-take 8 4 from) ∙ ap (take 8) f.there) in
            rw y (
              f.first,
              f.count,
              began ∙ f.split,
              id,
              ap (λ xs. first_result (drop 8 xs)) (sym f.there) ∙ y,
              sent_whole c sending gone,
            )
        | inr n ↦ rw n tt
      ]

  pub ret_came-Ends :
      (c : ConnInfo) (r : Received)
      → c.state ≡ recv_ret
      → Stage names own padding recv_ret c
      → Ends names own padding outgoing (ret_came c (recv_on r c.conn))
  unfolding ret_came
  ret_came-Ends c r at ((vr, vs), began, sending, gone) = by_answer (recv_on r c.conn) refl
    where
      stage :
          (conn : Conn) (any : Bool)
          → recv_on r c.conn ≡ some (conn, any)
          → Stage names own padding recv_ret (record c { conn = conn })
      stage conn any e =
          let s = recv_on-Receives r c.conn conn any vr e in
          (
            (s.valid, rw s.send_same vs),
            s.came ∙ ap (λ xs. xs ++ s.more) began ∙ sym s.held,
            rw (s.send_same, s.out_same) sending,
            rw s.send_same gone,
          )

      by_answer :
          (o : Option (Conn × Bool))
          → recv_on r c.conn ≡ o
          → Ends names own padding outgoing (ret_came c o)
      by_answer none e = tt
      by_answer (some (conn, false)) e = (recv_ret, at, refl, stage conn false e)
      by_answer (some (conn, true)) e = elim (Bool-cases (ltb (readable conn.recv_buf).1 12)) [
        | inl y ↦ rw y (recv_ret, at, refl, stage conn true e)
        | inr n ↦ rw n (ret_received-Ends (record c { conn = conn }) (stage conn true e) n)
      ]

  pub id_sent-Ends :
      (c : ConnInfo) (a : Answers)
      → c.state ≡ send_id
      → Stage names own padding send_id c
      → Ends names own padding outgoing (id_sent a c (send_on a.on_send c.conn))
  unfolding id_sent
  id_sent-Ends c a at ((vr, vs), began, sending) = by_answer (send_on a.on_send c.conn) refl
    where
      by_answer :
          (o : Option (Conn × Bool))
          → send_on a.on_send c.conn ≡ o
          → Ends names own padding outgoing (id_sent a c o)
      by_answer none e = tt
      by_answer (some (conn, false)) e =
          let s = send_on-Sends a.on_send c.conn conn false vs e in
          (
            send_id,
            at,
            refl,
            ((rw s.recv_same vr, s.valid), rw (s.in_same, s.recv_same) began, s.kept ∙ sending),
          )
      by_answer (some (conn, true)) e =
          let s = send_on-Sends a.on_send c.conn conn true vs e in
          ret_came-Ends (record c { state = recv_ret; conn = conn }) a.on_recv refl
            (
              (rw s.recv_same vr, s.valid),
              rw (s.in_same, s.recv_same) began,
              s.kept ∙ sending,
              s.drained refl,
            )
