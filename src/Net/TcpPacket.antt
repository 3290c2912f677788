-- ===== src/Net/TcpPacket.antt =====
-- `Packet` and `TcpPacket` (water/net/packet.cpp, tcp_packet.h, tcp_packet.cpp): a packet is its bytes,
-- four of which, the lowest first, hold the size of the content behind them.
pub mod Parsing
use casual_game.Prelude.{
  ℕ, zero, suc, ◌+◌, ◌-◌, ◌*◌, ◌/◌, ◌%◌, ◌^◌, Bool, true, false, ◌&&◌, Option, none, some, List, [],
  ◌∷◌, ◌++◌, length, take, drop, replicate, ltb, leb, ◌==◌, if◌then◌else◌, min,
}

abbrev pub Packet : Type 0
Packet = List ℕ

-- `Packet::append`, and how many bytes it takes.
unfoldable pub append : List ℕ → Packet → ℕ × Packet
append bytes p = (length bytes, p ++ bytes)

unfoldable pub pop : ℕ → Packet → Packet
pop size p = if leb (length p) size then [] else drop size p

-- `Packet::copy`: what is copied into room for `max_size` bytes; its length is what the call returns.
unfoldable pub copy : ℕ → Packet → List ℕ
copy max_size p = take (if ltb max_size (length p) then max_size else length p) p

-- `*reinterpret_cast<const SizeType*>(data)`, on a machine that puts the lowest byte first.
abbrev pub read_u32 : List ℕ → ℕ
read_u32 (a ∷ b ∷ c ∷ d ∷ _) = a + 256 * b + 65536 * c + 16777216 * d
read_u32 _ = 0

abbrev pub u32_bytes : ℕ → List ℕ
u32_bytes n = n % 256 ∷ n / 256 % 256 ∷ n / 65536 % 256 ∷ n / 16777216 % 256 ∷ []

unfoldable pub content_size : Packet → ℕ
content_size p = if ltb (length p) 4 then 0 else read_u32 p

unfoldable pub complete : Packet → Bool
unfolding content_size
complete p = leb 4 (length p) && leb (content_size p + 4) (length p)

-- `content()`: the bytes behind the size; `none` is `nullptr`.
unfoldable pub content : Packet → Option (List ℕ)
content p = if ltb (length p) 4 then none else some (drop 4 p)

-- `TcpPacket(contentSize)`, where the sum is one of `size_t`, cut to 32 bits for the buffer; `none`
-- is a write past its end.
unfoldable pub create : ℕ → Option Packet
create size =
    if ltb ((size + 4) % 2 ^ 32) 4
    then none
    else some (u32_bytes size ++ replicate ((size + 4) % 2 ^ 32 - 4) 0)

-- `setContent`, likewise.
unfoldable pub set_content : List ℕ → Option Packet
set_content bytes =
    if ltb (length bytes + 4) (2 ^ 32) then some (u32_bytes (length bytes) ++ bytes) else none

-- "fill body" of `parse`: `size` is the completed size, cut to 32 bits.
unfoldable pub fill_body : ℕ → List ℕ → Packet → ℕ × Packet
fill_body used buf p =
    let complete_size = (read_u32 p + 4) % 2 ^ 32 in
    let deficiency = (complete_size + 2 ^ 32 - length p) % 2 ^ 32 in
    let n = if ltb deficiency (length buf) then deficiency else length buf in
    (used + n, p ++ take n buf)

-- `parse`: the bytes taken, and the packet with them.
unfoldable pub parse : List ℕ → Packet → ℕ × Packet
unfolding complete fill_body
parse buf p =
    if complete p
    then (0, p)
    else if length p == 0
    then (if ltb (length buf) 4
        then (0, p)
        else (let read_len = (read_u32 buf + 4) % 2 ^ 32 in
            let n = if ltb (length buf) read_len then length buf else read_len in (n, take n buf)))
    else if ltb (length p) 4
    then (if ltb (length buf) (4 - length p)
        then (0, p)
        else fill_body (4 - length p) (drop (4 - length p) buf) (p ++ take (4 - length p) buf))
    else fill_body 0 buf p

-- `tryParse`; `none` is `nullptr`.
unfoldable pub try_parse : List ℕ → Option Packet
unfolding parse
try_parse buf = let p = (parse buf []).1 in if complete p then some p else none
