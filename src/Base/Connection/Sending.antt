-- ===== src/Base/Connection/Sending.antt =====
-- The bytes of a connection go out in the order in which its packets were sent, unless a packet that
-- fits whole meets a socket that does not take it whole (base/tcp_connection_manager.cpp).
use mathlib.Core.List.{append_assoc}
use casual_game.Prelude.{
  ℕ, ◌≤◌, ◌≡◌, ◌∙◌, refl, sym, ap, inl, inr, not, ◌||◌, Option, List, [], ◌∷◌, ◌++◌, length, take,
  drop, ltb, leb, ◌==◌, min, Bool-cases, arith, length-take, length-drop, take_all,
  take-append-drop,
}
use casual_game.Net.ConnectionBuffer.{ConnectionBuffer, writeable, try_send, sent}
use casual_game.Net.ConnectionBuffer.Contents.{contents, IsValid}
use casual_game.Net.ConnectionBuffer.Writing.{writeable-GivesRoom, writeable-commit_write}
use casual_game.Net.ConnectionBuffer.Socket.{try_send-sent}
use casual_game.Net.TcpPacket.{Packet, copy, pop}
use casual_game.Base.Connection.{Holder, put, fill, on_write}

abbrev pub concat : List Packet → List ℕ
concat [] = []
concat (p ∷ ps) = p ++ concat ps

-- The bytes that a connection has still to send, in their order.
abbrev pub pending : Holder → List ℕ
pending h = contents h.send_buf ++ concat h.send_queue

copy-take : (n : ℕ) (p : Packet) → copy n p ≡ take (min n (length p)) p
unfolding copy
copy-take n p = ap (λ k. take k p) (ground arith)

pop-drop : (n : ℕ) (p : Packet) → pop n p ≡ drop n p
unfolding pop
pop-drop n p = elim (Bool-cases (leb (length p) n)) [
  | inl y ↦ rw y (sym (nil_of (drop n p) (ground (arith, length-drop n p))))
  | inr k ↦ rw k refl
]
  where
    nil_of : (xs : List ℕ) → length xs ≡ 0 → xs ≡ []
    nil_of [] h = refl
    nil_of (x ∷ xs) h = absurd (omega (arith, h))

pub length-copy : (n : ℕ) (p : Packet) → length (copy n p) ≡ min n (length p)
length-copy n p = ap length (copy-take n p) ∙ omega (arith, length-take (min n (length p)) p)

-- A packet that has been offered room goes behind the bytes, as far as the room goes.
pub put-contents :
    (b : ConnectionBuffer) (p : Packet)
    → IsValid b
    → let (i, room, b') = writeable (length p) b in
      IsValid (put i room p b')
      × (contents (put i room p b') ≡ contents b ++ copy room p)
      × (length (put i room p b').buf ≡ length b.buf)
unfolding put
put-contents b p v =
    let (enough, ok, valid, joined, kept) =
      writeable-commit_write b (length p) (copy (writeable (length p) b).1 p) v
        (omega (arith, length-copy (writeable (length p) b).1 p)) in
    (valid, joined, kept)

pub copy-pop : (n : ℕ) (p : Packet) → copy n p ++ pop (length (copy n p)) p ≡ p
copy-pop n p =
    rw (pop-drop (length (copy n p)) p, length-copy n p, copy-take n p)
      (take-append-drop (min n (length p)) p)

pub copy_whole : (n : ℕ) (p : Packet) → length p ≤ length (copy n p) → copy n p ≡ p
copy_whole n p h = copy-take n p ∙ take_all (min n (length p)) p (omega (arith, length-copy n p))

fill-pending :
    (ps : List Packet) (b : ConnectionBuffer)
    → IsValid b
    → IsValid (fill ps b).0
      × (contents (fill ps b).0 ++ concat (fill ps b).1 ≡ contents b ++ concat ps)
      × (length (fill ps b).0.buf ≡ length b.buf)
unfolding fill
fill-pending [] b v = (v, refl, refl)
fill-pending (p ∷ ps) b v =
    let g = writeable-GivesRoom b v (length p) in
    let (valid, joined, size) = put-contents b p v in
    elim (Bool-cases ((writeable (length p) b).1 == 0)) [
      | inl z ↦ rw z (g.valid, ap (λ c. c ++ (p ++ concat ps)) g.same, g.size_kept)
      | inr n ↦ elim (Bool-cases (ltb (length (copy (writeable (length p) b).1 p)) (length p))) [
        | inl y ↦
            rw (n, y)
              (
                valid,
                rw joined (
                    append_assoc (contents b) (copy (writeable (length p) b).1 p) _
                    ∙ ap (λ l. contents b ++ l)
                        (sym (
                            append_assoc (copy (writeable (length p) b).1 p)
                              (pop (length (copy (writeable (length p) b).1 p)) p) (concat ps))
                          ∙ ap (λ l. l ++ concat ps) (copy-pop (writeable (length p) b).1 p))),
                size,
              )
        | inr y ↦
            let whole = copy_whole (writeable (length p) b).1 p (ground (arith, y)) in
            let (valid', rest, size') =
              fill-pending ps
                (put (writeable (length p) b).0 (writeable (length p) b).1 p
                  (writeable (length p) b).2)
                valid in
            rw (n, y)
              (
                valid',
                rest
                    ∙ ap (λ c. c ++ concat ps) (joined ∙ ap (λ l. contents b ++ l) whole)
                    ∙ append_assoc (contents b) p (concat ps),
                size' ∙ size,
              )
      ]
    ]

-- With a well-formed buffer, whatever the socket answers when it can be written to, the buffer stays well
-- formed, what goes out is the front of what the
-- connection has to send, and what is left to send is the rest.
pub on_write-pending :
    (answers : List (Option ℕ)) (h : Holder)
    → IsValid h.send_buf
    → IsValid (on_write answers h).1.send_buf
      × (pending h ≡ (on_write answers h).0 ++ pending (on_write answers h).1)
unfolding on_write
on_write-pending [] h v = (v, refl)
on_write-pending (answer ∷ answers) h v =
    let b = (try_send answer h.send_buf).0 in
    let (valid, out, drained, size) = try_send-sent h.send_buf v answer in
    let (valid', filled, size') = fill-pending h.send_queue b valid in
    let next = record h {
      send_buf = (fill h.send_queue b).0;
      send_queue = (fill h.send_queue b).1;
    } in
    let (valid'', rest) = on_write-pending answers next valid' in
    let gone : pending h ≡ sent answer h.send_buf ++ (contents b ++ concat h.send_queue) =
      ap (λ c. c ++ concat h.send_queue) out
      ∙ append_assoc (sent answer h.send_buf) (contents b) (concat h.send_queue) in
    elim (Bool-cases (not (try_send answer h.send_buf).1 || (length h.send_queue == 0))) [
      | inl y ↦ rw y (valid, gone)
      | inr n ↦ rw n (
        valid'',
        gone
            ∙ ap (λ l. sent answer h.send_buf ++ l) (sym filled ∙ rest)
            ∙ sym (
                append_assoc (sent answer h.send_buf) (on_write answers next).0
                  (pending (on_write answers next).1)),
      )
    ]
