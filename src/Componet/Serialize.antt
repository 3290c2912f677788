-- ===== src/Componet/Serialize.antt =====
-- `Serialize` and `Deserialize` (water/componet/serialize.h) on values whose type is made of trivially
-- copyable ones, texts, pairs, and the containers that keep their order: vectors, lists and deques, and
-- the lists with one direction. A machine puts the lowest byte of a number first.
pub mod RoundTrip
use casual_game.Prelude.{
  ℕ, zero, suc, ◌+◌, ◌-◌, ◌*◌, ◌/◌, ◌%◌, ◌^◌, Bool, true, false, Option, none, some, List, [], ◌∷◌,
  ◌++◌, length, take, drop, replicate, ◌-◌, leb, ◌>>=◌, if◌then◌else◌,
}

-- The types: `trivial n` has values of `n` bytes.
pub data Shape : Type 0 where
  trivial : ℕ → Shape
  text : Shape
  pair : Shape → Shape → Shape
  vector linked forward : Shape → Shape

abbrev pub Value : Shape → Type 0
Value (trivial n) = List ℕ
Value text = List ℕ
Value (pair a b) = Value a × Value b
Value (vector a) = List (Value a)
Value (linked a) = List (Value a)
Value (forward a) = List (Value a)

-- A `size_t`.
abbrev pub number_bytes : ℕ → ℕ → List ℕ
number_bytes zero n = []
number_bytes (suc w) n = n % 256 ∷ number_bytes w (n / 256)

abbrev pub read_number : List ℕ → ℕ
read_number [] = 0
read_number (b ∷ bs) = b + 256 * read_number bs

abbrev pub size_bytes : ℕ → List ℕ
size_bytes n = number_bytes 8 (n % 2 ^ 64)

abbrev pub each : {A : Type 0} → (A → List ℕ) → List A → List ℕ
each f [] = []
each f (x ∷ xs) = f x ++ each f xs

-- `operator <<`: what is appended to the buffer.
unfoldable pub serialize : (s : Shape) → Value s → List ℕ
serialize (trivial n) v = v
serialize text v = size_bytes (length v) ++ v
serialize (pair a b) v = serialize a v.0 ++ serialize b v.1
serialize (vector a) v = size_bytes (length v) ++ each (serialize a) v
serialize (linked a) v = size_bytes (length v) ++ each (serialize a) v
serialize (forward a) v = size_bytes (length v) ++ each (serialize a) v

-- `operator >>` of a trivially copyable value over `old`: the bytes that are there.
unfoldable pub read_trivial : ℕ → List ℕ → List ℕ → ℕ → List ℕ × ℕ
read_trivial n old buf pos =
    let got = take n (drop pos buf) in (got ++ drop (length got) old, pos + length got)

unfoldable pub read_size : List ℕ → ℕ → ℕ × ℕ
read_size buf pos =
    let (bytes, pos') = read_trivial 8 (0 ∷ 0 ∷ 0 ∷ 0 ∷ 0 ∷ 0 ∷ 0 ∷ 0 ∷ []) buf pos in
    (read_number bytes, pos')

-- One value after the other.
unfoldable pub refill :
    {A : Type 0} → (A → List ℕ → ℕ → Option (A × ℕ)) → List A → List ℕ → ℕ → Option (List A × ℕ)
refill f [] buf pos = some ([], pos)
refill f (old ∷ olds) buf pos =
    f old buf pos >>= λ r. refill f olds buf r.1 >>= λ rs. some (r.0 ∷ rs.0, rs.1)

abbrev pub resize : {A : Type 0} → ℕ → A → List A → List A
resize n x old = take n old ++ replicate (n - length old) x

-- `operator >>` into `old`, with what a fresh value of each type holds; `none` is a text that is read
-- past the end of the buffer. A list with one direction is not emptied before.
module _ (initial : (s : Shape) → Value s) where
  unfoldable pub deserialize : (s : Shape) → Value s → List ℕ → ℕ → Option (Value s × ℕ)
  deserialize (trivial n) old buf pos = some (read_trivial n old buf pos)
  deserialize text old buf pos =
      let (size, pos') = read_size buf pos in
      if leb (pos' + size) (length buf) then some (take size (drop pos' buf), pos' + size) else none
  deserialize (pair a b) old buf pos = deserialize a old.0 buf pos >>= λ x.
      deserialize b old.1 buf x.1 >>= λ y. some ((x.0, y.0), y.1)
  deserialize (vector a) old buf pos =
      let (size, pos') = read_size buf pos in
      refill (deserialize a) (resize size (initial a) old) buf pos'
  deserialize (linked a) old buf pos =
      let (size, pos') = read_size buf pos in
      refill (deserialize a) (replicate size (initial a)) buf pos'
  deserialize (forward a) old buf pos =
      let (size, pos') = read_size buf pos in
      refill (deserialize a) (replicate size (initial a)) buf pos' >>= λ r. some (r.0 ++ old, r.1)
