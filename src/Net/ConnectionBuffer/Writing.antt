-- ===== src/Net/ConnectionBuffer/Writing.antt =====
-- Room for writing, and what is written, in a connection's buffer (water/net/buffered_connection.cpp).
use casual_game.Prelude.{
  ℕ, zero, suc, ◌+◌, ◌-◌, ◌%◌, ◌^◌, ◌≤◌, ◌≡◌, ◌∙◌, refl, ap, inl, inr, ◌⊎◌, true, false, ◌||◌, List,
  [], ◌∷◌, ◌++◌, length, take, drop, ltb, ◌==◌, Bool-cases, arith,
}
use casual_game.Net.ConnectionBuffer.{
  ConnectionBuffer, full, overwrite, writeable, commit_write, sub_u32, sub_size,
}
use casual_game.Net.ConnectionBuffer.Contents.{
  contents, IsValid, length-contents, length-overwrite, written_behind,
}

-- What `writeable` gives of a buffer `b`, asked for `size` bytes: the end of the same bytes, and the
-- room behind them, which is enough or is all there is.
pub record GivesRoom (b : ConnectionBuffer) (size : ℕ) (r : ℕ × ℕ × ConnectionBuffer) : Type 0 where
  pub valid : IsValid r.2
  pub same : contents r.2 ≡ contents b
  pub size_kept : length r.2.buf ≡ length b.buf
  pub index : r.0 ≡ r.2.data_end
  pub room : r.1 + r.2.data_end ≡ length r.2.buf
  pub enough : (size ≤ r.1) ⊎ (r.1 + length (contents b) ≡ length b.buf)

module _ (b : ConnectionBuffer) (v : IsValid b) where
  tail_room : sub_size (length b.buf) b.data_end ≡ length b.buf - b.data_end
  tail_room = omega (arith, v.small, v.end_in)

  held : sub_u32 b.data_end b.data_begin ≡ b.data_end - b.data_begin
  held = omega (arith, v.small, v.end_in, v.begin_in)

  -- The bytes are moved to the front.
  abbrev moved : ConnectionBuffer
  moved = record {
    buf = overwrite 0 (contents b) b.buf;
    data_begin = 0;
    data_end = b.data_end - b.data_begin;
  }

  length-moved : length moved.buf ≡ length b.buf
  length-moved =
      length-overwrite 0 (contents b) b.buf (omega (arith, length-contents b v, v.end_in))

  contents-moved : contents moved ≡ contents b
  contents-moved =
      take_front (b.data_end - b.data_begin - 0) (contents b) (drop (0 + length (contents b)) b.buf)
        (omega (arith, length-contents b v))
    where
      take_front : (n : ℕ) (xs ys : List ℕ) → n ≡ length xs → take n (xs ++ ys) ≡ xs
      take_front zero [] ys h = refl
      take_front zero (x ∷ xs) ys h = absurd (omega (arith, h))
      take_front (suc n) [] ys h = absurd (omega (arith, h))
      take_front (suc n) (x ∷ xs) ys h = ap (◌∷◌ x) (take_front n xs ys (omega (arith, h)))

  moved-IsValid : IsValid moved
  moved-IsValid = record {
    small = omega (arith, length-moved, v.small);
    end_in = omega (arith, length-moved, v.end_in);
    begin_in = omega arith;
    reset = λ e. omega (arith, e);
  }

  pub writeable-GivesRoom : (size : ℕ) → GivesRoom b size (writeable size b)
  unfolding writeable
  writeable-GivesRoom size =
      elim (Bool-cases (ltb (length b.buf - b.data_end) size || (length b.buf == b.data_end))) [
        | inr n ↦
            rw (tail_room, n)
              (record {
                valid = v;
                same = refl;
                size_kept = refl;
                index = refl;
                room = omega (arith, v.end_in);
                enough = inl (ground (arith, n));
              })
        | inl y ↦ elim (Bool-cases (full b)) [
          | inl f ↦
              rw (tail_room, y, f)
                (record {
                  valid = v;
                  same = refl;
                  size_kept = refl;
                  index = refl;
                  room = ground (arith, f);
                  enough = inr (ground (arith, f, length-contents b v));
                })
          | inr f ↦
              let room : sub_size (length b.buf) (b.data_end - b.data_begin)
                  ≡ length b.buf - (b.data_end - b.data_begin) =
                omega (arith, v.small, v.end_in) in
              rw (tail_room, y, f, held, room)
                (record {
                  valid = moved-IsValid;
                  same = contents-moved;
                  size_kept = length-moved;
                  index = refl;
                  room = omega (arith, length-moved, v.end_in);
                  enough = inr (omega (arith, v.end_in, length-contents b v));
                })
        ]
      ]

  -- A write of the bytes `xs` behind the contents, where they fit.
  pub written-IsValid :
      (xs : List ℕ)
      → length xs + b.data_end ≤ length b.buf
      → let w = commit_write (length xs) (record b { buf = overwrite b.data_end xs b.buf }) in
        (w.1 ≡ true)
        × IsValid w.0
        × (contents w.0 ≡ contents b ++ xs)
        × (length w.0.buf ≡ length b.buf)
  unfolding commit_write
  written-IsValid xs fits =
      let size = length-overwrite b.data_end xs b.buf (omega (arith, fits)) in
      let free : sub_size (length (overwrite b.data_end xs b.buf)) b.data_end
          ≡ length b.buf - b.data_end =
        omega (arith, size, v.small, v.end_in) in
      let ok : ltb (length b.buf - b.data_end) (length xs) ≡ false = ground (arith, fits) in
      let end : (b.data_end + length xs) % 2 ^ 32 ≡ b.data_end + length xs =
        omega (arith, v.small, fits) in
      let at_end : b.data_end ≡ b.data_begin + (b.data_end - b.data_begin) =
        omega (arith, v.begin_in) in
      let count : b.data_end + length xs - b.data_begin ≡ b.data_end - b.data_begin + length xs =
        omega (arith, v.begin_in) in
      let joined =
        written_behind b.data_begin (b.data_end - b.data_begin) xs b.buf
          (omega (arith, fits, v.begin_in)) in
      rw (free, ok, end)
        (
          refl,
          record {
            small = omega (arith, size, v.small);
            end_in = omega (arith, size, fits);
            begin_in = omega (arith, v.begin_in);
            reset = λ e. omega (arith, v.begin_in, v.reset (omega (arith, e, v.begin_in)), e);
          },
          rw count (rw (← at_end) at joined),
          size,
        )

-- Asked for room for `size` bytes, a well-formed buffer keeps its bytes and gives as much, or all that is not
-- taken; what is then written there, however much of the room it fills, joins the bytes at their end.
pub writeable-commit_write :
    (b : ConnectionBuffer) (size : ℕ) (xs : List ℕ)
    → IsValid b
    → length xs ≤ (writeable size b).1
    → let (i, room, b') = writeable size b in
      let w = commit_write (length xs) (record b' { buf = overwrite i xs b'.buf }) in
      ((size ≤ room) ⊎ (room + length (contents b) ≡ length b.buf))
      × (w.1 ≡ true)
      × IsValid w.0
      × (contents w.0 ≡ contents b ++ xs)
      × (length w.0.buf ≡ length b.buf)
writeable-commit_write b size xs v h =
    let g = writeable-GivesRoom b v size in
    let (ok, valid, joined, kept) =
      written-IsValid (writeable size b).2 g.valid xs (omega (arith, g.room, h)) in
    rw g.index (g.enough, ok, valid, joined ∙ ap (λ c. c ++ xs) g.same, kept ∙ g.size_kept)
