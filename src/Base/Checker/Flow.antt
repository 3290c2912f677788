-- ===== src/Base/Checker/Flow.antt =====
-- What a connection holds after its socket has answered (base/private_connection_checker.cpp over
-- water/net/buffered_connection.cpp).
use mathlib.Core.List.{append_assoc}
use casual_game.Prelude.{
  ℕ, ◌≤◌, ◌<◌, ◌^◌, ◌≡◌, ◌∙◌, refl, sym, ap, inl, inr, Bool, true, false, Option, none, some, List,
  [], ◌∷◌, ◌++◌, length, take, drop, ltb, ◌==◌, Bool-cases, arith, length-take, take-append-drop,
}
use casual_game.Net.ConnectionBuffer.{
  ConnectionBuffer, readable, commit_read, writeable, try_send, sent, Received, try_recv, received,
}
use casual_game.Net.ConnectionBuffer.Contents.{
  contents, IsValid, readable_count, readable_front, commit_read-contents,
}
use casual_game.Net.ConnectionBuffer.Writing.{writeable-commit_write}
use casual_game.Net.ConnectionBuffer.Socket.{try_send-sent, try_recv-received}
use casual_game.Base.Checker.{Conn, recv_on, send_on, received_with, sent_with, put_bytes}

-- A connection after a `tryRecv`.
pub record Receives (c c' : Conn) : Type 0 where
  pub valid : IsValid c'.recv_buf
  pub more : List ℕ
  pub came : c'.came_in ≡ c.came_in ++ more
  pub held : contents c'.recv_buf ≡ contents c.recv_buf ++ more
  pub send_same : c'.send_buf ≡ c.send_buf
  pub out_same : c'.went_out ≡ c.went_out

pub recv_on-Receives :
    (r : Received) (c c' : Conn) (any : Bool)
    → IsValid c.recv_buf
    → recv_on r c ≡ some (c', any)
    → Receives c c'
unfolding recv_on
recv_on-Receives r c c' any v e = by_answer (try_recv r c.recv_buf) refl e
  where
    by_answer :
        (o : Option (ConnectionBuffer × Bool))
        → try_recv r c.recv_buf ≡ o
        → received_with r c o ≡ some (c', any)
        → Receives c c'
    by_answer none e k = absurd (cc k)
    by_answer (some (b, x)) e k =
        let same : record c { recv_buf = b; came_in = c.came_in ++ received r c.recv_buf } ≡ c' =
          cc k in
        let (v', held) = try_recv-received c.recv_buf v r e in
        rw (sym same) (record {
          valid = v';
          more = received r c.recv_buf;
          came = refl;
          held = held;
          send_same = refl;
          out_same = refl;
        })

-- A connection after a `trySend`; where it says that all is sent, nothing is left.
pub record Sends (c c' : Conn) (all_sent : Bool) : Type 0 where
  pub valid : IsValid c'.send_buf
  pub kept : c'.went_out ++ contents c'.send_buf ≡ c.went_out ++ contents c.send_buf
  pub drained : all_sent ≡ true → contents c'.send_buf ≡ []
  pub recv_same : c'.recv_buf ≡ c.recv_buf
  pub in_same : c'.came_in ≡ c.came_in

length-zero : (xs : List ℕ) → (length xs == 0) ≡ true → xs ≡ []
length-zero [] h = refl
length-zero (x ∷ xs) h = absurd (ground (arith, h))

pub send_on-Sends :
    (answer : Option (Option ℕ)) (c c' : Conn) (all_sent : Bool)
    → IsValid c.send_buf
    → send_on answer c ≡ some (c', all_sent)
    → Sends c c' all_sent
unfolding send_on
send_on-Sends answer c c' all_sent v e = elim (Bool-cases ((readable c.send_buf).1 == 0)) [
  | inl z ↦
      let same : c ≡ c' = cc (rw z at e) in
      let gone : contents c.send_buf ≡ [] =
        length-zero (contents c.send_buf) (rw (sym (readable_count c.send_buf v)) z) in
      rw (sym same)
        (record { valid = v; kept = refl; drained = λ y. gone; recv_same = refl; in_same = refl })
  | inr n ↦ by_answer answer (rw n at e)
]
  where
    by_answer :
        (answer : Option (Option ℕ))
        → sent_with answer c ≡ some (c', all_sent)
        → Sends c c' all_sent
    by_answer none k = absurd (cc k)
    by_answer (some o) k =
        let (v', kept, all, _) = try_send-sent c.send_buf v o in
        let same : record c {
          send_buf = (try_send o c.send_buf).0;
          went_out = c.went_out ++ sent o c.send_buf;
        }
            ≡ c' =
          cc k in
        let flag : (try_send o c.send_buf).1 ≡ all_sent = cc k in
        rw (sym same) (record {
          valid = v';
          kept =
              append_assoc c.went_out (sent o c.send_buf) (contents (try_send o c.send_buf).0)
              ∙ ap (λ xs. c.went_out ++ xs) (sym kept);
          drained = λ y. length-zero (contents (try_send o c.send_buf).0) (sym all ∙ flag ∙ y);
          recv_same = refl;
          in_same = refl;
        })

-- The first bytes of a buffer, and the buffer after they are read.
pub record Front (n : ℕ) (b : ConnectionBuffer) : Type 0 where
  pub first : List ℕ
  pub count : length first ≡ n
  pub there : take n (drop (readable b).0 b.buf) ≡ first
  pub split : contents b ≡ first ++ contents (commit_read n b).0
  pub valid : IsValid (commit_read n b).0

pub readable-Front :
    (n : ℕ) (b : ConnectionBuffer)
    → IsValid b
    → n < 2 ^ 32
    → ltb (readable b).1 n ≡ false
    → Front n b
readable-Front n b v small enough =
    let many : ltb (length (contents b)) n ≡ false = rw (sym (readable_count b v)) enough in
    let (v', _, left) = commit_read-contents b v n small in
    record {
      first = take n (contents b);
      count = ground (arith, length-take n (contents b), many);
      there = readable_front b v n (ground (arith, many));
      split = sym (
          ap (λ xs. take n (contents b) ++ xs) (rw many at left) ∙ take-append-drop n (contents b));
      valid = v';
    }

pub put_bytes-contents :
    (bytes : List ℕ) (n : ℕ) (b : ConnectionBuffer)
    → IsValid b
    → length bytes ≡ n
    → ltb (writeable n b).1 n ≡ false
    → let (i, room, b') = writeable n b in
      IsValid (put_bytes bytes i b' n) × (contents (put_bytes bytes i b' n) ≡ contents b ++ bytes)
put_bytes-contents bytes n b v same enough =
    let room : length bytes ≤ (writeable (length bytes) b).1 =
      ground (arith, rw (sym same) at enough) in
    let (_, _, v', held, _) = writeable-commit_write b (length bytes) bytes v room in
    rw (sym same) (v', held)
