-- ===== src/Base/Connection/Packets.antt =====
-- One packet more to send (`sendPacket`, base/tcp_connection_manager.cpp).
use mathlib.Core.List.{append_assoc}
use casual_game.Prelude.{
  ℕ, ◌≤◌, ◌<◌, ◌≡◌, ◌≢◌, ◌∙◌, refl, sym, ap, inl, inr, ◌⊎◌, true, false, Option, List, [], ◌∷◌,
  ◌++◌, length, ltb, leb, if◌then◌else◌, Bool-cases, arith, append_nil,
}
use casual_game.Net.ConnectionBuffer.{ConnectionBuffer, writeable, try_send, sent}
use casual_game.Net.ConnectionBuffer.Contents.{contents, IsValid}
use casual_game.Net.ConnectionBuffer.Socket.{try_send-sent}
use casual_game.Net.TcpPacket.{Packet, copy, pop}
use casual_game.Base.Connection.{Holder, put, queue_rest, send_directly, send_by_queue, send_packet}
use casual_game.Base.Connection.Sending.{
  concat, pending, put-contents, copy-pop, length-copy, copy_whole,
}

concat-append : (ps : List Packet) (p : Packet) → concat (ps ++ p ∷ []) ≡ concat ps ++ p
concat-append [] p = append_nil p
concat-append (q ∷ ps) p =
    ap (λ l. q ++ l) (concat-append ps p) ∙ sym (append_assoc q (concat ps) p)

-- The room that a packet is offered.
abbrev pub room_for : Packet → ConnectionBuffer → ℕ
room_for p b = (writeable (length p) b).1

-- The buffer with what fits of a packet.
abbrev pub with_packet : Packet → ConnectionBuffer → ConnectionBuffer
with_packet p b = put (writeable (length p) b).0 (room_for p b) p (writeable (length p) b).2

-- What goes out at once, where the queue is `queue`.
unfoldable pub sent_by_queue : Option ℕ → Packet → Holder → List Packet → List ℕ
sent_by_queue answer p h [] =
    if leb (length p) (room_for p h.send_buf) then sent answer (with_packet p h.send_buf) else []
sent_by_queue answer p h (first ∷ others) = []

abbrev pub sent_at_once : Option ℕ → Packet → Holder → List ℕ
sent_at_once answer p h = sent_by_queue answer p h h.send_queue

-- The packet waits, or does not fit whole, or the socket takes it and all bytes in front of it.
abbrev pub IsSmooth : Option ℕ → Packet → Holder → Type 0
IsSmooth answer p h =
    (h.send_queue ≢ [])
    ⊎ ((room_for p h.send_buf < length p) ⊎ ((try_send answer (with_packet p h.send_buf)).1 ≡ true))

module _ (answer : Option ℕ) (p : Packet) (h : Holder) (v : IsValid h.send_buf) where
  fits_partly :
      h.send_queue ≡ []
      → room_for p h.send_buf < length p
      → IsValid (send_directly answer p h).send_buf
        × (pending (send_directly answer p h) ≡ pending h ++ p)
  unfolding send_directly queue_rest put
  fits_partly e few =
      let (valid, joined, size) = put-contents h.send_buf p v in
      let over : leb (length p) (room_for p h.send_buf) ≡ false = ground arith in
      rw (over, e)
        (
          valid,
          ap (λ c. c ++ (pop (length (copy (room_for p h.send_buf) p)) p ++ [])) joined
              ∙ append_assoc (contents h.send_buf) (copy (room_for p h.send_buf) p) _
              ∙ ap (λ l. contents h.send_buf ++ l)
                  (ap (λ l. copy (room_for p h.send_buf) p ++ l)
                      (append_nil (pop (length (copy (room_for p h.send_buf) p)) p))
                    ∙ copy-pop (room_for p h.send_buf) p)
              ∙ ap (λ l. l ++ p) (sym (append_nil (contents h.send_buf))),
        )

  goes_out :
      h.send_queue ≡ []
      → length p ≤ room_for p h.send_buf
      → (try_send answer (with_packet p h.send_buf)).1 ≡ true
      → IsValid (send_directly answer p h).send_buf
        × (sent answer (with_packet p h.send_buf) ++ pending (send_directly answer p h)
            ≡ pending h ++ p)
  unfolding send_directly
  goes_out e enough drained =
      let (valid, joined, size) = put-contents h.send_buf p v in
      let (valid', out, flag, size') = try_send-sent (with_packet p h.send_buf) valid answer in
      let fits : leb (length p) (room_for p h.send_buf) ≡ true = ground arith in
      let whole =
        copy_whole (room_for p h.send_buf) p
          (omega (arith, length-copy (room_for p h.send_buf) p)) in
      rw (fits, drained, e)
        (
          valid',
          ap (λ l. sent answer (with_packet p h.send_buf) ++ l)
                (append_nil (contents (try_send answer (with_packet p h.send_buf)).0))
              ∙ sym out
              ∙ joined
              ∙ ap (λ l. contents h.send_buf ++ l) whole
              ∙ ap (λ l. l ++ p) (sym (append_nil (contents h.send_buf))),
        )

-- With a well-formed buffer, which stays so, a packet that is accepted is sent behind all that was to send before, unless it fits whole into the
-- buffer and the socket then does not take all bytes.
pub send_packet-pending :
    (answer : Option ℕ) (p : Packet) (h : Holder)
    → IsValid h.send_buf
    → (send_packet answer p h).1 ≡ true
    → IsSmooth answer p h
    → IsValid (send_packet answer p h).0.send_buf
      × (sent_at_once answer p h ++ pending (send_packet answer p h).0 ≡ pending h ++ p)
unfolding send_packet sent_by_queue send_by_queue
send_packet-pending answer p h v accepted smooth = by_queue h.send_queue refl accepted
  where
    by_room :
        h.send_queue ≡ []
        → IsValid (send_directly answer p h).send_buf
          × ((if leb (length p) (room_for p h.send_buf)
                  then sent answer (with_packet p h.send_buf)
                  else [])
                ++ pending (send_directly answer p h)
              ≡ pending h ++ p)
    by_room e = elim (Bool-cases (leb (length p) (room_for p h.send_buf))) [
      | inr n ↦ rw n (fits_partly answer p h v e (ground (arith, n)))
      | inl y ↦ elim smooth [
        | inl some_wait ↦ absurd (some_wait e)
        | inr (inl few) ↦ absurd (ground (arith, y, few))
        | inr (inr drained) ↦ rw y (goes_out answer p h v e (ground (arith, y)) drained)
      ]
    ]

    by_queue :
        (queue : List Packet)
        → h.send_queue ≡ queue
        → (send_by_queue answer p h queue).1 ≡ true
        → IsValid (send_by_queue answer p h queue).0.send_buf
          × (sent_by_queue answer p h queue ++ pending (send_by_queue answer p h queue).0
              ≡ pending h ++ p)
    by_queue [] e accepted = by_room e
    by_queue (q ∷ qs) e accepted = elim (Bool-cases (ltb 512 (length (q ∷ qs)))) [
      | inl y ↦ cc (rw y at accepted)
      | inr n ↦ rw n (
        v,
        ap (λ l. contents h.send_buf ++ l)
              (concat-append (q ∷ qs) p ∙ ap (λ l. concat l ++ p) (sym e))
            ∙ sym (append_assoc (contents h.send_buf) (concat h.send_queue) p),
      )
    ]
