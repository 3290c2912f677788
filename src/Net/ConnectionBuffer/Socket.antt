-- ===== src/Net/ConnectionBuffer/Socket.antt =====
-- A buffer and its socket: what goes out, and what comes in (water/net/buffered_connection.cpp).
use casual_game.Prelude.{
  ℕ, ◌≡◌, ◌∙◌, refl, sym, ap, inl, inr, Bool, false, Option, none, some, ◌∷◌, ◌++◌, length, take,
  drop, ltb, ◌==◌, min, Bool-cases, arith, length-take, take-append-drop, append_nil,
}
use casual_game.Net.ConnectionBuffer.{
  ConnectionBuffer, commit_read, overwrite, writeable, commit_write, try_send, sent, Received,
  nothing, closed, bytes, try_recv, received,
}
use casual_game.Net.ConnectionBuffer.Contents.{
  contents, IsValid, length-contents, readable_count, readable_front, empty-contents,
  commit_read-contents,
}
use casual_game.Net.ConnectionBuffer.Writing.{writeable-GivesRoom, written-IsValid}

commit_read-size : (n : ℕ) (b : ConnectionBuffer) → length (commit_read n b).0.buf ≡ length b.buf
unfolding commit_read
commit_read-size n b = ground arith

module _ (b : ConnectionBuffer) (v : IsValid b) where
  -- What goes out with a try, from a well-formed buffer, is the front of the bytes, the rest stays, and the answer is whether
  -- none does.
  pub try_send-sent :
      (answer : Option ℕ)
      → IsValid (try_send answer b).0
        × (contents b ≡ sent answer b ++ contents (try_send answer b).0)
        × ((try_send answer b).1 ≡ (length (contents (try_send answer b).0) == 0))
        × (length (try_send answer b).0.buf ≡ length b.buf)
  unfolding try_send sent
  try_send-sent answer = elim (Bool-cases (length (contents b) == 0)) [
    | inl z ↦ rw (readable_count b v, z) (v, refl, sym z, refl)
    | inr n ↦ answered n answer
  ]
    where
      answered :
          (length (contents b) == 0) ≡ false
          → (answer : Option ℕ)
          → IsValid (try_send answer b).0
            × (contents b ≡ sent answer b ++ contents (try_send answer b).0)
            × ((try_send answer b).1 ≡ (length (contents (try_send answer b).0) == 0))
            × (length (try_send answer b).0.buf ≡ length b.buf)
      answered n none = rw (readable_count b v, n) (v, refl, sym n, refl)
      answered n (some m) =
          let k = min m (length (contents b)) in
          let (valid, flag, left) =
            commit_read-contents b v k (omega (arith, length-contents b v, v.small, v.end_in)) in
          let some_read : ltb (length (contents b)) k ≡ false = ground arith in
          let kept : contents (commit_read k b).0 ≡ drop k (contents b) =
            left ∙ rw some_read refl in
          rw (readable_count b v, n, readable_front b v k (omega arith))
            (
              valid,
              sym (take-append-drop k (contents b)) ∙ ap (λ r. take k (contents b) ++ r) (sym kept),
              empty-contents (commit_read k b).0 valid,
              commit_read-size k b,
            )

  -- A try to receive into a well-formed buffer, unless the connection is at its end, puts what comes in
  -- behind the bytes, and leaves the buffer well formed.
  pub try_recv-received :
      (r : Received) {b' : ConnectionBuffer} {some_there : Bool}
      → try_recv r b ≡ some (b', some_there)
      → IsValid b' × (contents b' ≡ contents b ++ received r b)
  unfolding try_recv received
  try_recv-received r {b'} {some_there} e =
      let g = writeable-GivesRoom b v 0 in
      elim (Bool-cases ((writeable 0 b).1 == 0)) [
        | inl z ↦
            let same : (writeable 0 b).2 ≡ b' = cc (rw z at e) in
            rw (z, ← same) (g.valid, g.same ∙ sym (append_nil (contents b)))
        | inr n ↦ by_answer n r e
      ]
    where
      by_answer :
          ((writeable 0 b).1 == 0) ≡ false
          → (r : Received) → try_recv r b ≡ some (b', some_there)
          → IsValid b' × (contents b' ≡ contents b ++ received r b)
      by_answer n nothing e =
          let g = writeable-GivesRoom b v 0 in
          let same : (writeable 0 b).2 ≡ b' = cc (rw n at e) in
          rw (n, ← same) (g.valid, g.same ∙ sym (append_nil (contents b)))
      by_answer n closed e = cc (rw n at e)
      by_answer n (bytes x xs) e =
          let g = writeable-GivesRoom b v 0 in
          let got = take (writeable 0 b).1 (x ∷ xs) in
          let (ok, valid, joined, kept) =
            written-IsValid (writeable 0 b).2 g.valid got
              (omega (arith, g.room, length-take (writeable 0 b).1 (x ∷ xs))) in
          let same : (commit_write (length got) (record ((writeable 0 b).2) {
            buf = overwrite (writeable 0 b).2.data_end got (writeable 0 b).2.buf;
          })).0
              ≡ b' =
            cc (rw (n, g.index) at e) in
          rw (n, ← same) (valid, joined ∙ ap (λ c. c ++ got) g.same)
