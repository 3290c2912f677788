-- ===== src/Net/ConnectionBuffer.antt =====
-- `ConnectionBuffer` and the buffered sending and receiving over it (water/net/buffered_connection.h
-- and buffered_connection.cpp). A pointer into the buffer is its index; the socket's answers are
-- arguments.
pub mod Contents
pub mod Writing
pub mod Socket
use casual_game.Prelude.{
  ℕ, zero, suc, ◌+◌, ◌-◌, ◌%◌, ◌^◌, Bool, true, false, not, ◌&&◌, ◌||◌, Option, none, some, List,
  [], ◌∷◌, ◌++◌, length, take, drop, replicate, ltb, ◌==◌, if◌then◌else◌, min,
}

-- Subtraction of `uint32_t` and of `size_t`.
abbrev pub sub_u32 : ℕ → ℕ → ℕ
sub_u32 a b = (a + 2 ^ 32 - b) % 2 ^ 32

abbrev pub sub_size : ℕ → ℕ → ℕ
sub_size a b = (a + 2 ^ 64 - b) % 2 ^ 64

pub record ConnectionBuffer : Type 0 where
  pub buf : List ℕ
  pub data_begin : ℕ
  pub data_end : ℕ

unfoldable pub create : ℕ → ConnectionBuffer
create size_limit = record { buf = replicate size_limit 0; data_begin = 0; data_end = 0 }

abbrev pub full : ConnectionBuffer → Bool
full b = (length b.buf == b.data_end) && (b.data_begin == 0)

abbrev pub empty : ConnectionBuffer → Bool
empty b = b.data_end == 0

-- `readable`: where the bytes begin, and their number.
unfoldable pub readable : ConnectionBuffer → ℕ × ℕ
readable b = (b.data_begin, sub_u32 b.data_end b.data_begin)

unfoldable pub commit_read : ℕ → ConnectionBuffer → ConnectionBuffer × Bool
commit_read size b =
    if ltb (sub_u32 b.data_end b.data_begin) size
    then (b, false)
    else let begin = (b.data_begin + size) % 2 ^ 32 in
      if begin == b.data_end
      then (record b { data_begin = 0; data_end = 0 }, true)
      else (record b { data_begin = begin }, true)

-- The buffer with the bytes `xs` written from index `i` on.
abbrev pub overwrite : ℕ → List ℕ → List ℕ → List ℕ
overwrite i xs buf = take i buf ++ (xs ++ drop (i + length xs) buf)

-- `writeable`: where to write, how much fits there, and the buffer, whose bytes may have moved.
unfoldable pub writeable : ℕ → ConnectionBuffer → ℕ × ℕ × ConnectionBuffer
writeable size b =
    if ltb (sub_size (length b.buf) b.data_end) size || (length b.buf == b.data_end)
    then (if full b
        then (b.data_end, 0, b)
        else (let data_size = sub_u32 b.data_end b.data_begin in
            let moved = overwrite 0 (take data_size (drop b.data_begin b.buf)) b.buf in
            (
              data_size,
              sub_size (length b.buf) data_size,
              record { buf = moved; data_begin = 0; data_end = data_size },
            )))
    else (b.data_end, sub_size (length b.buf) b.data_end, b)

unfoldable pub commit_write : ℕ → ConnectionBuffer → ConnectionBuffer × Bool
commit_write size b =
    if ltb (sub_size (length b.buf) b.data_end) size
    then (b, false)
    else (record b { data_end = (b.data_end + size) % 2 ^ 32 }, true)

-- `BufferedConnection::trySend`: the socket is busy (`none`), or takes up to a number of the bytes
-- that it is given.
unfoldable pub try_send : Option ℕ → ConnectionBuffer → ConnectionBuffer × Bool
try_send answer b = if (readable b).1 == 0 then (b, true) else elim answer [
  | none ↦ (b, false)
  | some n ↦ let b' = (commit_read (min n (readable b).1) b).0 in (b', empty b')
]

-- The bytes that went out with it.
unfoldable pub sent : Option ℕ → ConnectionBuffer → List ℕ
sent answer b = if (readable b).1 == 0 then [] else elim answer [
  | none ↦ []
  | some n ↦ take (min n (readable b).1) (drop (readable b).0 b.buf)
]

-- What the socket has for `recv`: nothing at present, the end of the connection, or at least one byte,
-- of which `recv` gives what fits.
pub data Received : Type 0 where
  nothing closed : Received
  bytes : ℕ → List ℕ → Received

-- `BufferedConnection::tryRecv`; `none` is the exception `ReadClosedConnection`.
unfoldable pub try_recv : Received → ConnectionBuffer → Option (ConnectionBuffer × Bool)
try_recv r b =
    let (at_index, room, b') = writeable 0 b in
    if room == 0 then some (b', not (empty b')) else elim r [
      | nothing ↦ some (b', not (empty b'))
      | closed ↦ none
      | bytes x xs ↦
          let got = take room (x ∷ xs) in
          some (
            (commit_write (length got) (record b' { buf = overwrite at_index got b'.buf })).0,
            true,
          )
    ]

-- The bytes that came in with it.
unfoldable pub received : Received → ConnectionBuffer → List ℕ
received r b =
    let (at_index, room, b') = writeable 0 b in
    if room == 0 then [] else elim r [ bytes x xs ↦ take room (x ∷ xs) | _ ↦ [] ]
