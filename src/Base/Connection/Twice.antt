-- ===== src/Base/Connection/Twice.antt =====
-- A packet that meets a busy socket (`sendPacket`, base/tcp_connection_manager.cpp).
use mathlib.Core.Path.{subst}
use casual_game.Prelude.{
  ℕ, ◌+◌, ◌-◌, ◌*◌, ◌%◌, ◌^◌, ◌≤◌, ◌<◌, ◌≡◌, ◌∙◌, refl, sym, ap, true, false, none, List, [], ◌∷◌,
  length, ltb, leb, ◌==◌, arith, append_nil, length-append,
}
use casual_game.Net.ConnectionBuffer.{
  ConnectionBuffer, writeable, commit_write, overwrite, try_send, sub_size,
}
use casual_game.Net.ConnectionBuffer.Contents.{
  contents, IsValid, length-contents, length-overwrite, readable_count,
}
use casual_game.Net.ConnectionBuffer.Writing.{writeable-GivesRoom}
use casual_game.Net.TcpPacket.{Packet, copy, pop}
use casual_game.Base.Connection.{Holder, put, queue_rest, send_directly, send_by_queue, send_packet}
use casual_game.Base.Connection.Sending.{concat, pending, put-contents, length-copy, copy_whole}
use casual_game.Base.Connection.Packets.{room_for, with_packet}

-- As many bytes are committed as are written, wherever they are written.
commit_write-size :
    (b : ConnectionBuffer) (i : ℕ) (xs : List ℕ)
    → IsValid b
    → i + length xs ≤ length b.buf
    → b.data_end + length xs ≤ length b.buf
    → let w = commit_write (length xs) (record b { buf = overwrite i xs b.buf }) in
      (length (contents w.0) ≡ length (contents b) + length xs)
      × (w.0.data_end ≡ b.data_end + length xs)
unfolding commit_write
commit_write-size b i xs v inside fits =
    let size = length-overwrite i xs b.buf inside in
    let free : sub_size (length (overwrite i xs b.buf)) b.data_end ≡ length b.buf - b.data_end =
      omega (arith, size, v.small, v.end_in) in
    let ok : ltb (length b.buf - b.data_end) (length xs) ≡ false = ground (arith, fits) in
    let end : (b.data_end + length xs) % 2 ^ 32 ≡ b.data_end + length xs =
      omega (arith, v.small, fits) in
    let valid : IsValid (record {
      buf = overwrite i xs b.buf;
      data_begin = b.data_begin;
      data_end = b.data_end + length xs;
    }) =
      record {
        small = omega (arith, size, v.small);
        end_in = omega (arith, size, fits);
        begin_in = omega (arith, v.begin_in);
        reset = λ e. omega (arith, v.begin_in, v.reset (omega (arith, e, v.begin_in)), e);
      } in
    rw (free, ok, end)
      (length-contents _ valid ∙ omega (arith, length-contents b v, v.begin_in), refl)

put-size :
    (b : ConnectionBuffer) (i room : ℕ) (p : Packet)
    → IsValid b
    → length p ≤ room
    → i + length p ≤ length b.buf
    → b.data_end + length p ≤ length b.buf
    → (length (contents (put i room p b)) ≡ length (contents b) + length p)
      × ((put i room p b).data_end ≡ b.data_end + length p)
unfolding put
put-size b i room p v whole inside fits =
    let all = copy_whole room p (omega (arith, length-copy room p)) in
    subst
      (λ bytes.
        let w = (commit_write (length bytes) (record b { buf = overwrite i bytes b.buf })).0 in
        (length (contents w) ≡ length (contents b) + length p)
        × (w.data_end ≡ b.data_end + length p))
      (sym all) (commit_write-size b i p v inside fits)

try_send-busy :
    (b : ConnectionBuffer) → IsValid b → 0 < length (contents b) → try_send none b ≡ (b, false)
unfolding try_send
try_send-busy b v h =
    let n : (length (contents b) == 0) ≡ false = ground (arith, h) in
    rw (readable_count b v, n) refl

send_directly-busy :
    (p : Packet) (h : Holder)
    → length p ≤ room_for p h.send_buf
    → try_send none (with_packet p h.send_buf) ≡ (with_packet p h.send_buf, false)
    → send_directly none p h
      ≡ queue_rest
          (writeable (length p) h.send_buf).0
          (room_for p h.send_buf)
          p
          (record h { send_buf = with_packet p h.send_buf })
unfolding send_directly
send_directly-busy p h enough busy =
    let fits : leb (length p) (room_for p h.send_buf) ≡ true = ground arith in rw (fits, busy) refl

popped : (room : ℕ) (p : Packet) → length p ≤ room → pop (length (copy room p)) p ≡ []
unfolding pop
popped room p enough =
    let all : leb (length p) (length (copy room p)) ≡ true = ground (arith, length-copy room p) in
    rw all refl

-- With a well-formed buffer and no packet waiting, a packet of at least one byte that fits twice and meets
-- a busy socket is committed twice: as many bytes more than its own
-- stand in the buffer as it has, and an empty packet waits.
pub send_packet-commits_twice :
    (p : Packet) (h : Holder)
    → IsValid h.send_buf
    → h.send_queue ≡ []
    → 0 < length p
    → length p + length p ≤ room_for p h.send_buf
    → (length (pending (send_packet none p h).0) ≡ length (pending h) + 2 * length p)
      × ((send_packet none p h).0.send_queue ≡ [] ∷ [])
unfolding send_packet queue_rest send_by_queue
send_packet-commits_twice p h v e some_bytes twice =
    let b = h.send_buf in
    let g = writeable-GivesRoom b v (length p) in
    let i = (writeable (length p) b).0 in
    let room = room_for p b in
    let free = (writeable (length p) b).2 in
    let (valid, joined, size) = put-contents b p v in
    let (held, end) =
      put-size free i room p g.valid (omega arith) (omega (arith, g.index, g.room))
        (omega (arith, g.room)) in
    let same : length (contents free) ≡ length (contents b) = ap length g.same in
    let (held', end') =
      put-size (with_packet p b) i room p valid (omega arith)
        (omega (arith, size, g.size_kept, g.index, g.room))
        (omega (arith, size, end, g.size_kept, g.room)) in
    let busy = try_send-busy (with_packet p b) valid (omega (arith, held)) in
    let rest = popped room p (omega arith) in
    let now : send_by_queue none p h h.send_queue
        ≡ (queue_rest i room p (record h { send_buf = with_packet p b }), true) =
      ap (send_by_queue none p h) e
      ∙ ap (λ t. (t, true)) (send_directly-busy p h (omega arith) busy) in
    let before : length (pending h) ≡ length (contents b) =
      length-append (contents b) (concat h.send_queue)
      ∙ ap (λ q. length (contents b) + length (concat q)) e
      ∙ omega arith in
    rw (now, rest, before)
      (
        ap length (append_nil (contents (put i room p (with_packet p b))))
            ∙ omega (arith, held, held', same),
        refl,
      )
