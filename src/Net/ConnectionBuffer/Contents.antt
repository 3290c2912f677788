-- ===== src/Net/ConnectionBuffer/Contents.antt =====
-- A connection's buffer is a queue of bytes (water/net/buffered_connection.cpp).
use casual_game.Prelude.{
  ℕ, ◌+◌, ◌-◌, ◌%◌, ◌^◌, ◌≤◌, ◌<◌, ◌≡◌, ◌∙◌, refl, sym, ap, inl, inr, not, List, [], ◌∷◌, ◌++◌,
  length, take, drop, ltb, ◌==◌, if◌then◌else◌, Bool-cases, arith, length-take, length-drop,
  length-append, length-replicate, drop-append, drop-take, take-append, drop-drop, take-append-drop,
  take_front,
}
use casual_game.Net.ConnectionBuffer.{
  ConnectionBuffer, create, empty, readable, commit_read, overwrite, sub_u32,
}

abbrev pub contents : ConnectionBuffer → List ℕ
contents b = take (b.data_end - b.data_begin) (drop b.data_begin b.buf)

pub record IsValid (b : ConnectionBuffer) : Type 0 where
  pub small : length b.buf < 2 ^ 32
  pub end_in : b.data_end ≤ length b.buf
  pub begin_in : b.data_begin ≤ b.data_end
  pub reset : b.data_begin ≡ b.data_end → b.data_end ≡ 0

pub create-IsValid : (n : ℕ) → n < 2 ^ 32 → IsValid (create n)
unfolding create
create-IsValid n h = record {
  small = omega (arith, length-replicate {A = ℕ} n 0);
  end_in = omega arith;
  begin_in = omega arith;
  reset = λ e. refl;
}

pub length-overwrite :
    (i : ℕ) (xs buf : List ℕ)
    → i + length xs ≤ length buf
    → length (overwrite i xs buf) ≡ length buf
length-overwrite i xs buf h = omega (
  arith,
  length-append (take i buf) (xs ++ drop (i + length xs) buf),
  length-append xs (drop (i + length xs) buf),
  length-take i buf,
  length-drop (i + length xs) buf,
)

-- What is written just behind the bytes `[i, i + n)` joins them.
pub written_behind :
    (i n : ℕ) (xs buf : List ℕ)
    → i + n + length xs ≤ length buf
    → take (n + length xs) (drop i (overwrite (i + n) xs buf)) ≡ take n (drop i buf) ++ xs
written_behind i n xs buf h =
    let rest = drop (i + n + length xs) buf in
    let size : length (take (i + n) buf) ≡ i + n = omega (arith, length-take (i + n) buf) in
    let front : drop i (overwrite (i + n) xs buf) ≡ take n (drop i buf) ++ (xs ++ rest) =
      drop-append i (take (i + n) buf) (xs ++ rest) (omega (arith, size))
      ∙ rw (drop-take i n buf) refl in
    let count : length (take n (drop i buf)) ≡ n =
      omega (arith, length-take n (drop i buf), length-drop i buf) in
    let joined : take (length (take n (drop i buf)) + length xs)
          (take n (drop i buf) ++ (xs ++ rest))
        ≡ take n (drop i buf) ++ take (length xs) (xs ++ rest) =
      take-append (length xs) (take n (drop i buf)) (xs ++ rest) in
    let last : take (length xs) (xs ++ rest) ≡ xs = take_self xs rest in
    rw front (rw (count, last) at joined)
  where
    take_self : (xs ys : List ℕ) → take (length xs) (xs ++ ys) ≡ xs
    take_self [] ys = refl
    take_self (x ∷ xs) ys = ap (◌∷◌ x) (take_self xs ys)

module _ (b : ConnectionBuffer) (v : IsValid b) where
  pub length-contents : length (contents b) ≡ b.data_end - b.data_begin
  length-contents = omega (
    arith,
    length-take (b.data_end - b.data_begin) (drop b.data_begin b.buf),
    length-drop b.data_begin b.buf,
    v.end_in,
    v.begin_in,
  )

  pub readable-contents : take (readable b).1 (drop (readable b).0 b.buf) ≡ contents b
  unfolding readable
  readable-contents =
      ap (λ n. take n (drop b.data_begin b.buf)) (omega (arith, v.small, v.end_in, v.begin_in))

  pub readable_count : (readable b).1 ≡ length (contents b)
  unfolding readable
  readable_count = omega (arith, v.small, v.end_in, v.begin_in, length-contents)

  -- The first bytes that are readable are the first of the contents.
  pub readable_front :
      (n : ℕ) → n ≤ length (contents b) → take n (drop (readable b).0 b.buf) ≡ take n (contents b)
  unfolding readable
  readable_front n h =
      let all : take (b.data_end - b.data_begin) (drop b.data_begin b.buf)
            ++ drop (b.data_end - b.data_begin) (drop b.data_begin b.buf)
          ≡ drop b.data_begin b.buf =
        take-append-drop (b.data_end - b.data_begin) (drop b.data_begin b.buf) in
      ap (take n) (sym all)
      ∙ take_front n (contents b) (drop (b.data_end - b.data_begin) (drop b.data_begin b.buf)) h

  pub empty-contents : empty b ≡ (length (contents b) == 0)
  empty-contents = rw length-contents (ground (arith, v.begin_in, v.reset))

  -- Taking `size` bytes, a number of 32 bits, from a well-formed buffer takes the first `size` of them off, where there are as many, and else nothing.
  pub commit_read-contents :
      (size : ℕ)
      → size < 2 ^ 32
      → IsValid (commit_read size b).0
        × ((commit_read size b).1 ≡ not (ltb (length (contents b)) size))
        × (contents (commit_read size b).0
            ≡ (if ltb (length (contents b)) size then contents b else drop size (contents b)))
  unfolding commit_read
  commit_read-contents size small =
      let held : sub_u32 b.data_end b.data_begin ≡ length (contents b) =
        omega (arith, v.small, v.end_in, v.begin_in, length-contents) in
      elim (Bool-cases (ltb (length (contents b)) size)) [
        | inl y ↦ rw (held, y) (v, refl, refl)
        | inr n ↦
            let enough : size ≤ b.data_end - b.data_begin = ground (arith, n, length-contents) in
            let moved : (b.data_begin + size) % 2 ^ 32 ≡ b.data_begin + size =
              omega (arith, v.small, v.end_in, v.begin_in) in
            elim (Bool-cases (b.data_begin + size == b.data_end)) [
              | inl e ↦
                  let all : b.data_begin + size ≡ b.data_end = ground (arith, e) in
                  let none_left : length (drop size (contents b)) ≡ 0 =
                    omega (arith, length-drop size (contents b), length-contents) in
                  rw (held, n, moved, e)
                    (
                      record {
                        small = v.small;
                        end_in = omega arith;
                        begin_in = omega arith;
                        reset = λ z. refl;
                      },
                      refl,
                      sym (nil_of (drop size (contents b)) none_left),
                    )
              | inr e ↦
                  rw (held, n, moved, e)
                    (
                      record {
                        small = v.small;
                        end_in = v.end_in;
                        begin_in = omega (arith, v.begin_in);
                        reset = λ z. absurd (ground (arith, e, z));
                      },
                      refl,
                      after_drop enough,
                    )
            ]
      ]
    where
      nil_of : (xs : List ℕ) → length xs ≡ 0 → xs ≡ []
      nil_of [] h = refl
      nil_of (x ∷ xs) h = absurd (omega (arith, h))

      after_drop :
          size ≤ b.data_end - b.data_begin
          → take (b.data_end - (b.data_begin + size)) (drop (b.data_begin + size) b.buf)
            ≡ drop size (contents b)
      after_drop h =
          let left : b.data_end - b.data_begin ≡ size + (b.data_end - (b.data_begin + size)) =
            omega arith in
          rw (← drop-drop b.data_begin size b.buf) (
            sym (
              rw left
                (drop-take size (b.data_end - (b.data_begin + size)) (drop b.data_begin b.buf))))
