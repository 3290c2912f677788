-- ===== src/Componet/Serialize/RoundTrip.antt =====
-- What is serialized is read back (water/componet/serialize.h).
use mathlib.Core.List.{append_assoc}
use casual_game.Prelude.{
  ℕ, zero, suc, ◌+◌, ◌-◌, ◌^◌, ◌<◌, ◌≡◌, ◌∙◌, refl, sym, ap, true, Option, some, List, [], ◌∷◌,
  ◌++◌, length, take, drop, replicate, leb, arith, length-append, length-take, length-drop,
  drop-drop, drop_append_self, drop_all, take_append_self, length-replicate, append_nil,
}
use casual_game.Componet.Serialize.{
  Shape, trivial, text, pair, vector, linked, forward, Value, read_number, size_bytes, each,
  serialize, read_trivial, read_size, refill, resize, deserialize,
}

abbrev pub All : {A : Type 0} → (A → Type 0) → List A → Type 0
All P [] = Unit
All P (x ∷ xs) = P x × All P xs

-- A value of a type: as many bytes as its size, and containers that a `size_t` counts.
abbrev pub Fits : (s : Shape) → Value s → Type 0
Fits (trivial n) v = length v ≡ n
Fits text v = length v < 2 ^ 64
Fits (pair a b) v = Fits a v.0 × Fits b v.1
Fits (vector a) v = (length v < 2 ^ 64) × All (Fits a) v
Fits (linked a) v = (length v < 2 ^ 64) × All (Fits a) v
Fits (forward a) v = (length v < 2 ^ 64) × All (Fits a) v

-- A value that may be read into: its lists with one direction are empty.
abbrev pub Clean : (s : Shape) → Value s → Type 0
Clean (trivial n) v = length v ≡ n
Clean text v = Unit
Clean (pair a b) v = Clean a v.0 × Clean b v.1
Clean (vector a) v = All (Clean a) v
Clean (linked a) v = Unit
Clean (forward a) v = v ≡ []

read_number-size_bytes : (n : ℕ) → n < 2 ^ 64 → read_number (size_bytes n) ≡ n
read_number-size_bytes n h = omega arith

All-append : {A : Type 0} (P : A → Type 0) (xs ys : List A) → All P xs → All P ys → All P (xs ++ ys)
All-append P [] ys h k = k
All-append P (x ∷ xs) ys h k = (h.0, All-append P xs ys h.1 k)

All-take : {A : Type 0} (P : A → Type 0) (n : ℕ) (xs : List A) → All P xs → All P (take n xs)
All-take P zero xs h = tt
All-take P (suc n) [] h = tt
All-take P (suc n) (x ∷ xs) h = (h.0, All-take P n xs h.1)

All-replicate : {A : Type 0} (P : A → Type 0) (n : ℕ) (x : A) → P x → All P (replicate n x)
All-replicate P zero x h = tt
All-replicate P (suc n) x h = (h, All-replicate P n x h)

-- The bytes behind those that have been read.
drop_on :
    (buf : List ℕ) (pos : ℕ) (bytes rest : List ℕ)
    → drop pos buf ≡ bytes ++ rest
    → drop (pos + length bytes) buf ≡ rest
drop_on buf pos bytes rest e =
    sym (drop-drop pos (length bytes) buf)
    ∙ ap (drop (length bytes)) e
    ∙ drop_append_self bytes rest

read_trivial_whole :
    (old buf : List ℕ) (pos : ℕ) (bytes rest : List ℕ)
    → length old ≡ length bytes
    → drop pos buf ≡ bytes ++ rest
    → read_trivial (length bytes) old buf pos ≡ (bytes, pos + length bytes)
unfolding read_trivial
read_trivial_whole old buf pos bytes rest size e =
    let got : take (length bytes) (drop pos buf) ≡ bytes =
      ap (take (length bytes)) e ∙ take_append_self bytes rest in
    rw (got, drop_all (length bytes) old (omega (arith, size)))
      (ap (λ b. (b, pos + length bytes)) (append_nil bytes))

read_size_whole :
    (n : ℕ) (buf : List ℕ) (pos : ℕ) (rest : List ℕ)
    → n < 2 ^ 64
    → drop pos buf ≡ size_bytes n ++ rest
    → read_size buf pos ≡ (n, pos + 8)
unfolding read_size
read_size_whole n buf pos rest small e =
    let zeros : List ℕ = 0 ∷ 0 ∷ 0 ∷ 0 ∷ 0 ∷ 0 ∷ 0 ∷ 0 ∷ [] in
    ap (λ r. (read_number r.0, r.1)) (read_trivial_whole zeros buf pos (size_bytes n) rest refl e)
    ∙ ap (λ k. (k, pos + 8)) (read_number-size_bytes n small)

-- Wherever the bytes of a value stand, reading there gives the value and ends behind them.
abbrev pub Reads :
    {A : Type 0}
    → (A → List ℕ → ℕ → Option (A × ℕ))
    → (A → List ℕ)
    → (A → Type 0)
    → (A → Type 0)
    → Type 0
Reads {A} f g P Q =
    (v old : A) (buf : List ℕ) (pos : ℕ) (rest : List ℕ)
    → P v
    → Q old
    → drop pos buf ≡ g v ++ rest
    → f old buf pos ≡ some (v, pos + length (g v))

-- Values that are read back one by one are read back together.
refill-each :
    {A : Type 0} (f : A → List ℕ → ℕ → Option (A × ℕ)) (g : A → List ℕ) (P Q : A → Type 0)
    → Reads f g P Q
    → (vs olds : List A) (buf : List ℕ) (pos : ℕ) (rest : List ℕ) → length olds ≡ length vs
    → All P vs
    → All Q olds
    → drop pos buf ≡ each g vs ++ rest
    → refill f olds buf pos ≡ some (vs, pos + length (each g vs))
unfolding refill
refill-each f g P Q back [] [] buf pos rest n h k e = ap (λ p. some ([], p)) (omega arith)
refill-each f g P Q back [] (old ∷ olds) buf pos rest n h k e = absurd (omega (arith, n))
refill-each f g P Q back (v ∷ vs) [] buf pos rest n h k e = absurd (omega (arith, n))
refill-each f g P Q back (v ∷ vs) (old ∷ olds) buf pos rest n h k e =
    let e' = e ∙ append_assoc (g v) (each g vs) rest in
    let first = back v old buf pos (each g vs ++ rest) h.0 k.0 e' in
    let others =
      refill-each f g P Q back vs olds buf (pos + length (g v)) rest (omega (arith, n)) h.1 k.1
        (drop_on buf pos (g v) (each g vs ++ rest) e') in
    rw (first, others) (ap (λ p. some (v ∷ vs, p)) (omega (arith, length-append (g v) (each g vs))))

-- A container's size is read back, and then its values.
module _ {A : Type 0} (f : A → List ℕ → ℕ → Option (A × ℕ)) (g : A → List ℕ) (P Q : A → Type 0)
    (back : Reads f g P Q) where
  container_back :
      (vs : List A) (olds : ℕ → List A) (buf : List ℕ) (pos : ℕ) (rest : List ℕ)
      → (length vs < 2 ^ 64) × All P vs
      → length (olds (length vs)) ≡ length vs
      → All Q (olds (length vs))
      → drop pos buf ≡ (size_bytes (length vs) ++ each g vs) ++ rest
      → refill f (olds (read_size buf pos).0) buf (read_size buf pos).1
        ≡ some (vs, pos + length (size_bytes (length vs) ++ each g vs))
  container_back vs olds buf pos rest h n k e =
      let e' = e ∙ append_assoc (size_bytes (length vs)) (each g vs) rest in
      let size = read_size_whole (length vs) buf pos (each g vs ++ rest) h.0 e' in
      rw size (
        refill-each f g P Q back vs (olds (length vs)) buf (pos + 8) rest n h.1 k
          (drop_on buf pos (size_bytes (length vs)) (each g vs ++ rest) e')
        ∙ ap (λ p. some (vs, p)) (omega arith))

module _ (initial : (s : Shape) → Value s) (initial-Clean : (s : Shape) → Clean s (initial s)) where
  deserialize-Reads : (s : Shape) → Reads (deserialize initial s) (serialize s) (Fits s) (Clean s)
  unfolding deserialize serialize
  deserialize-Reads (trivial n) v old buf pos rest h k e = ap some (
      ap (λ w. read_trivial w old buf pos) (sym h)
      ∙ read_trivial_whole old buf pos v rest (k ∙ sym h) e)
  deserialize-Reads text v old buf pos rest h k e =
      let e' = e ∙ append_assoc (size_bytes (length v)) v rest in
      let size = read_size_whole (length v) buf pos (v ++ rest) h e' in
      let behind = drop_on buf pos (size_bytes (length v)) (v ++ rest) e' in
      let there : leb (pos + 8 + length v) (length buf) ≡ true =
        ground (arith, length-drop pos buf, ap length e', length-append v rest) in
      rw (size, there, behind, take_append_self v rest) (ap (λ p. some (v, p)) (omega arith))
  deserialize-Reads (pair a b) v old buf pos rest h k e =
      let e' = e ∙ append_assoc (serialize a v.0) (serialize b v.1) rest in
      let first = deserialize-Reads a v.0 old.0 buf pos (serialize b v.1 ++ rest) h.0 k.0 e' in
      let second =
        deserialize-Reads b v.1 old.1 buf (pos + length (serialize a v.0)) rest h.1 k.1
          (drop_on buf pos (serialize a v.0) (serialize b v.1 ++ rest) e') in
      rw (first, second)
        (ap (λ p. some (v, p)) (omega (arith, length-append (serialize a v.0) (serialize b v.1))))
  deserialize-Reads (vector a) v old buf pos rest h k e =
      container_back (deserialize initial a) (serialize a) (Fits a) (Clean a) (deserialize-Reads a)
        v (λ n. resize n (initial a) old) buf pos rest h
        (omega (
          arith,
          length-append (take (length v) old) (replicate (length v - length old) (initial a)),
          length-take (length v) old,
          length-replicate (length v - length old) (initial a),
        ))
        (All-append (Clean a) (take (length v) old) (replicate (length v - length old) (initial a))
          (All-take (Clean a) (length v) old k)
          (All-replicate (Clean a) (length v - length old) (initial a) (initial-Clean a)))
        e
  deserialize-Reads (linked a) v old buf pos rest h k e =
      container_back (deserialize initial a) (serialize a) (Fits a) (Clean a) (deserialize-Reads a)
        v (λ n. replicate n (initial a)) buf pos rest h (length-replicate (length v) (initial a))
        (All-replicate (Clean a) (length v) (initial a) (initial-Clean a)) e
  deserialize-Reads (forward a) v old buf pos rest h k e =
      let r =
        container_back (deserialize initial a) (serialize a) (Fits a) (Clean a)
          (deserialize-Reads a) v (λ n. replicate n (initial a)) buf pos rest h
          (length-replicate (length v) (initial a))
          (All-replicate (Clean a) (length v) (initial a) (initial-Clean a)) e in
      rw (r, k)
        (ap (λ w. some (w, pos + length (size_bytes (length v) ++ each (serialize a) v)))
          (append_nil v))

  -- Where fresh values are clean: a value that fits its type is read back from what is written of it,
  -- wherever that stands, into any clean value, and the reading ends behind it.
  pub deserialize-serialize :
      (s : Shape) (v old : Value s) (before behind : List ℕ)
      → Fits s v
      → Clean s old
      → deserialize initial s old (before ++ (serialize s v ++ behind)) (length before)
        ≡ some (v, length before + length (serialize s v))
  deserialize-serialize s v old before behind h k =
      deserialize-Reads s v old (before ++ (serialize s v ++ behind)) (length before) behind h k
        (drop_append_self before (serialize s v ++ behind))
