-- ===== src/Base/Connection/Receiving.antt =====
-- A turn of the event `read` of a connection (base/tcp_connection_manager.cpp) goes on in the stream of
-- the packets sent to it.
use mathlib.Core.List.{append_assoc}
use casual_game.Prelude.{
  ℕ, ◌+◌, ◌-◌, ◌^◌, ◌≤◌, ◌<◌, ◌≡◌, ◌∙◌, refl, sym, ap, inl, inr, ◌⊎◌, Bool, true, false, ◌&&◌,
  Option, none, some, List, [], ◌∷◌, ◌++◌, length, take, drop, ltb, ◌==◌, min, Bool-cases, arith,
  length-drop, take_all, drop_all, drop-drop, drop-append,
}
use casual_game.Net.ConnectionBuffer.{
  ConnectionBuffer, readable, commit_read, Received, try_recv, received,
}
use casual_game.Net.ConnectionBuffer.Contents.{
  contents, IsValid, length-contents, readable-contents, commit_read-contents,
}
use casual_game.Net.ConnectionBuffer.Socket.{try_recv-received}
use casual_game.Net.TcpPacket.{Packet, complete, parse}
use casual_game.Net.TcpPacket.Parsing.{frame, length-frame, taken, parse-frame, complete-frame}
use casual_game.Base.Connection.{
  Holder, Turn, stop, pushed, hang_up, read_packet, turn_with, read_turn,
}

-- The bytes of the packets with these contents.
abbrev pub stream : List (List ℕ) → List ℕ
stream [] = []
stream (c ∷ cs) = frame c ++ stream cs

-- Each of a size that the four bytes hold.
abbrev pub Small : List (List ℕ) → Type 0
Small [] = Unit
Small (c ∷ cs) = (length c + 4 < 2 ^ 32) × Small cs

-- A connection in the packet with the content `c`, with those of `cs` behind it; `future` is what has
-- still to come in.
pub record Reading (c : List ℕ) (cs : List (List ℕ)) (future : List ℕ) (h : Holder) : Type 0 where
  pub got : ℕ
  pub start : (got ≡ 0) ⊎ (4 ≤ got)
  pub within : got < length c + 4
  pub packet : h.recv_packet ≡ take got (frame c)
  pub follows : contents h.recv_buf ++ future ≡ drop got (frame c) ++ stream cs

-- A connection that has still to receive the packets with these contents.
unfoldable pub Awaits : List (List ℕ) → List ℕ → Holder → Type 0
Awaits [] future h = (h.recv_packet ≡ []) × (contents h.recv_buf ++ future ≡ [])
Awaits (c ∷ cs) future h = Reading c cs future h

unfoldable pub Delivered : List (List ℕ) → List ℕ → Packet → Holder → Type 0
Delivered [] future p h = ⊥
Delivered (c ∷ cs) future p h = (p ≡ frame c) × IsValid h.recv_buf × Awaits cs future h

-- What a turn does when these contents are awaited.
unfoldable pub Outcome : List (List ℕ) → List ℕ → Turn → Type 0
Outcome cs future (stop h) = IsValid h.recv_buf × Awaits cs future h
Outcome cs future (pushed room p h) = Delivered cs future p h
Outcome cs future hang_up = Unit

taken-bounds :
    (k size len : ℕ)
    → (k ≡ 0) ⊎ (4 ≤ k)
    → k < size + 4
    → (taken k size len ≤ len)
      × (k + taken k size len ≤ size + 4)
      × ((k + taken k size len ≡ 0) ⊎ (4 ≤ k + taken k size len))
taken-bounds k size len start within = elim (Bool-cases ((k == 0) && ltb len 4)) [
  | inl y ↦ rw y (omega arith, omega (arith, within), few start)
  | inr n ↦ rw n (omega arith, omega (arith, within), enough start (ground (arith, n)))
]
  where
    few : (k ≡ 0) ⊎ (4 ≤ k) → (k + 0 ≡ 0) ⊎ (4 ≤ k + 0)
    few (inl z) = inl (omega (arith, z))
    few (inr four) = inr (omega (arith, four))

    enough :
        (k ≡ 0) ⊎ (4 ≤ k)
        → (k ≡ 0 → 4 ≤ len)
        → (k + min len (size + 4 - k) ≡ 0) ⊎ (4 ≤ k + min len (size + 4 - k))
    enough (inl z) some_there = inr (omega (arith, z, some_there z))
    enough (inr four) some_there = inr (omega (arith, four))

-- Between two packets, the next one is awaited.
pub between :
    (cs : List (List ℕ)) (future : List ℕ) (h : Holder)
    → h.recv_packet ≡ []
    → contents h.recv_buf ++ future ≡ stream cs
    → Awaits cs future h
unfolding Awaits
between [] future h none_yet e = (none_yet, e)
between (c ∷ cs) future h none_yet e = record {
  got = 0;
  start = inl refl;
  within = omega arith;
  packet = none_yet;
  follows = e;
}

module _ (c : List ℕ) (cs : List (List ℕ)) (future : List ℕ) (h : Holder) where
  module _ (v : IsValid h.recv_buf) (small : length c + 4 < 2 ^ 32)
      (at : Reading c cs future h) where
    abbrev n : ℕ
    n = taken at.got (length c) (length (contents h.recv_buf))

    parsed :
        parse
          (take (readable h.recv_buf).1 (drop (readable h.recv_buf).0 h.recv_buf.buf))
          h.recv_packet
        ≡ (n, take (at.got + n) (frame c))
    parsed =
        rw (readable-contents h.recv_buf v, at.packet)
          (parse-frame c (contents h.recv_buf) future (stream cs) small at.got at.start
            (omega (arith, at.within)) at.follows)

    bytes_left :
        IsValid (commit_read n h.recv_buf).0
        × (contents (commit_read n h.recv_buf).0 ++ future
            ≡ drop (at.got + n) (frame c) ++ stream cs)
    bytes_left =
        let (in_buffer, in_frame, start) =
          taken-bounds at.got (length c) (length (contents h.recv_buf)) at.start at.within in
        let (valid, ok, left) =
          commit_read-contents h.recv_buf v n
            (omega (arith, in_buffer, length-contents h.recv_buf v, v.small, v.end_in)) in
        let enough : ltb (length (contents h.recv_buf)) n ≡ false = ground (arith, in_buffer) in
        let rest : contents (commit_read n h.recv_buf).0 ≡ drop n (contents h.recv_buf) =
          left ∙ rw enough refl in
        (
          valid,
          ap (λ l. l ++ future) rest
              ∙ sym (drop-append n (contents h.recv_buf) future in_buffer)
              ∙ ap (drop n) at.follows
              ∙ drop-append n (drop at.got (frame c)) (stream cs)
                  (omega (arith, length-drop at.got (frame c), length-frame c, in_frame))
              ∙ ap (λ l. l ++ stream cs) (drop-drop at.got n (frame c)),
        )

    read_packet-Outcome : (waiting : ℕ) → Outcome (c ∷ cs) future (read_packet waiting h)
    unfolding read_packet Outcome Awaits Delivered
    read_packet-Outcome waiting =
        let (in_buffer, in_frame, start) =
          taken-bounds at.got (length c) (length (contents h.recv_buf)) at.start at.within in
        let (valid, follows) = bytes_left in
        let done = complete-frame c (at.got + n) small start in_frame in
        elim (Bool-cases (at.got + n == length c + 4)) [
          | inl y ↦
              let all : length c + 4 ≤ at.got + n = ground (arith, y) in
              let none_left : drop (at.got + n) (frame c) ≡ [] =
                drop_all (at.got + n) (frame c) (omega (arith, all, length-frame c)) in
              rw (parsed, done, y)
                (
                  take_all (at.got + n) (frame c) (omega (arith, all, length-frame c)),
                  valid,
                  between cs future _ refl (follows ∙ ap (λ l. l ++ stream cs) none_left),
                )
          | inr m ↦
              rw (parsed, done, m)
                (
                  valid,
                  record {
                    got = at.got + n;
                    start = start;
                    within = ground (arith, m, in_frame);
                    packet = refl;
                    follows = follows;
                  },
                )
        ]

-- Where nothing is awaited, nothing comes.
read_packet-idle :
    (future : List ℕ) (waiting : ℕ) (h : Holder)
    → IsValid h.recv_buf
    → Awaits [] future h
    → Outcome [] future (read_packet waiting h)
unfolding read_packet Outcome Awaits parse complete
read_packet-idle future waiting h v (none_yet, e) =
    let no_bytes : contents h.recv_buf ≡ [] = none_before (contents h.recv_buf) e in
    let (valid, ok, left) = commit_read-contents h.recv_buf v 0 (omega arith) in
    let enough : ltb (length (contents h.recv_buf)) 0 ≡ false = ground arith in
    let rest : contents (commit_read 0 h.recv_buf).0 ≡ contents h.recv_buf =
      left ∙ rw enough refl in
    rw (readable-contents h.recv_buf v, none_yet, no_bytes)
      (valid, (refl, ap (λ l. l ++ future) rest ∙ e))
  where
    none_before : (xs : List ℕ) → xs ++ future ≡ [] → xs ≡ []
    none_before [] e = refl
    none_before (x ∷ xs) e = absurd (omega (arith, ap length e))

read_packet_all-Outcome :
    (cs : List (List ℕ)) (future : List ℕ) (waiting : ℕ) (h : Holder)
    → Small cs
    → IsValid h.recv_buf
    → Awaits cs future h
    → Outcome cs future (read_packet waiting h)
unfolding Awaits
read_packet_all-Outcome [] future waiting h small v at = read_packet-idle future waiting h v at
read_packet_all-Outcome (c ∷ cs) future waiting h (small, _) v at =
    read_packet-Outcome c cs future h v small at waiting

-- A buffer with more bytes that came in.
received-Awaits :
    (cs : List (List ℕ)) (future bytes : List ℕ) (h : Holder) (b : ConnectionBuffer)
    → contents b ≡ contents h.recv_buf ++ bytes
    → Awaits cs (bytes ++ future) h
    → Awaits cs future (record h { recv_buf = b })
unfolding Awaits
received-Awaits [] future bytes h b e (none_yet, nothing_left) = (
  none_yet,
  ap (λ l. l ++ future) e ∙ append_assoc (contents h.recv_buf) bytes future ∙ nothing_left,
)
received-Awaits (c ∷ cs) future bytes h b e at = record {
  got = at.got;
  start = at.start;
  within = at.within;
  packet = at.packet;
  follows = ap (λ l. l ++ future) e ∙ append_assoc (contents h.recv_buf) bytes future ∙ at.follows;
}

pub read_turn-Outcome :
    (r : Received) (cs : List (List ℕ)) (future : List ℕ) (waiting : ℕ) (h : Holder)
    → Small cs
    → IsValid h.recv_buf
    → Awaits cs (received r h.recv_buf ++ future) h
    → Outcome cs future (read_turn r waiting h)
unfolding read_turn turn_with Outcome
read_turn-Outcome r cs future waiting h small v at = by_result (try_recv r h.recv_buf) refl
  where
    by_result :
        (result : Option (ConnectionBuffer × Bool))
        → try_recv r h.recv_buf ≡ result
        → Outcome cs future (turn_with result waiting h)
    by_result none e = tt
    by_result (some (b, false)) e =
        let (valid, joined) = try_recv-received h.recv_buf v r e in
        (valid, received-Awaits cs future (received r h.recv_buf) h b joined at)
    by_result (some (b, true)) e =
        let (valid, joined) = try_recv-received h.recv_buf v r e in
        read_packet_all-Outcome cs future waiting (record h { recv_buf = b }) small valid
          (received-Awaits cs future (received r h.recv_buf) h b joined at)
