-- ===== src/Net/TcpPacket/Parsing.antt =====
-- A packet is parsed out of a stream, in whatever portions it comes (water/net/tcp_packet.cpp).
use casual_game.Prelude.{
  ℕ, zero, suc, ◌+◌, ◌-◌, ◌%◌, ◌^◌, ◌≤◌, ◌<◌, ◌≡◌, ◌∙◌, ◌⊎◌, inl, inr, refl, sym, ap, true, false,
  ◌&&◌, some, List, [], ◌∷◌, ◌++◌, length, take, drop, ltb, leb, ◌==◌, if◌then◌else◌, min,
  Bool-cases, arith, length-take, length-drop, length-append, take_front, take_all, take-take-drop,
  append_nil,
}
use casual_game.Net.TcpPacket.{
  Packet, read_u32, u32_bytes, complete, content, set_content, parse, try_parse,
}

-- The packet with the content `xs`.
abbrev pub frame : List ℕ → Packet
frame xs = u32_bytes (length xs) ++ xs

pub length-frame : (xs : List ℕ) → length (frame xs) ≡ length xs + 4
length-frame xs = omega arith

read-frame : (xs : List ℕ) → length xs < 2 ^ 32 → read_u32 (frame xs) ≡ length xs
read-frame xs h = omega arith

-- The size stands in the first four bytes.
read-take : (k : ℕ) (p : List ℕ) → 4 ≤ k → read_u32 (take k p) ≡ read_u32 p
read-take (suc (suc (suc (suc k)))) (a ∷ b ∷ c ∷ d ∷ p) h = refl
read-take (suc (suc (suc (suc k)))) (a ∷ b ∷ c ∷ []) h = refl
read-take (suc (suc (suc (suc k)))) (a ∷ b ∷ []) h = refl
read-take (suc (suc (suc (suc k)))) (a ∷ []) h = refl
read-take (suc (suc (suc (suc k)))) [] h = refl
read-take (suc (suc (suc zero))) p h = absurd (omega arith)
read-take (suc (suc zero)) p h = absurd (omega arith)
read-take (suc zero) p h = absurd (omega arith)
read-take zero p h = absurd (omega arith)

-- How many bytes `parse` takes with `k` of the frame's bytes there and `len` offered.
abbrev pub taken : ℕ → ℕ → ℕ → ℕ
taken k size len = if (k == 0) && ltb len 4 then 0 else min len (size + 4 - k)

-- Where the size is there, the rest of the packet is taken as far as it goes.
parse_body :
    (buf p : List ℕ) (size : ℕ)
    → 4 ≤ length p
    → length p ≤ size + 4
    → size + 4 < 2 ^ 32
    → read_u32 p ≡ size
    → parse buf p ≡ (
      min (length buf) (size + 4 - length p),
      p ++ take (min (length buf) (size + 4 - length p)) buf,
    )
unfolding parse
parse_body buf p size four within small e =
    let big : ltb (length p) 4 ≡ false = ground arith in
    let nonzero : (length p == 0) ≡ false = ground arith in
    let header : leb 4 (length p) ≡ true = ground arith in
    elim (Bool-cases (leb (size + 4) (length p))) [
      | inl y ↦
          let none_left : min (length buf) (size + 4 - length p) ≡ 0 = ground (arith, y) in
          rw (big, e, header, y, none_left) (ap (λ q. (0, q)) (sym (append_nil p)))
      | inr n ↦
          let want : ((size + 4) % 2 ^ 32 + 2 ^ 32 - length p) % 2 ^ 32 ≡ size + 4 - length p =
            omega arith in
          let count : (if ltb (size + 4 - length p) (length buf)
                then size + 4 - length p
                else length buf)
              ≡ min (length buf) (size + 4 - length p) =
            ground arith in
          rw (big, e, header, n, nonzero, want, count)
            (ap (λ m. (m, p ++ take (min (length buf) (size + 4 - length p)) buf)) (omega arith))
    ]

module _ (xs buf more rest : List ℕ) (small : length xs + 4 < 2 ^ 32) where
  abbrev f : Packet
  f = frame xs

  -- The bytes offered are the next ones of the frame, and what comes behind it.
  module _ (k : ℕ) (in_frame : k ≤ length xs + 4)
      (follows : buf ++ more ≡ drop k (frame xs) ++ rest) where
    next_bytes :
        (n : ℕ) → n ≤ length buf → n ≤ length xs + 4 - k → take k f ++ take n buf ≡ take (k + n) f
    next_bytes n p q =
        let left : length (drop k f) ≡ length xs + 4 - k =
          omega (arith, length-drop k f, length-frame xs) in
        let same : take n buf ≡ take n (drop k f) =
          sym (take_front n buf more p)
          ∙ ap (take n) follows
          ∙ take_front n (drop k f) rest (omega (arith, left)) in
        rw same (take-take-drop k n f)

    length_there : length (take k f) ≡ k
    length_there = omega (arith, length-take k f, length-frame xs)

  -- Where nothing of a packet of a size that 32 bits hold has come, or its first four bytes and maybe more,
  -- and the bytes offered go on in the stream behind that, `parse` takes the bytes that belong to the
  -- packet, none where fewer than the first four are offered, and puts them behind what has come.
  pub parse-frame :
      (k : ℕ)
      → (k ≡ 0) ⊎ (4 ≤ k)
      → k ≤ length xs + 4
      → buf ++ more ≡ drop k (frame xs) ++ rest
      → parse buf (take k (frame xs))
        ≡ (taken k (length xs) (length buf), take (k + taken k (length xs) (length buf)) (frame xs))
  unfolding parse
  parse-frame zero start in_frame follows = elim (Bool-cases (ltb (length buf) 4)) [
    | inl y ↦ rw y refl
    | inr n ↦
        let four : 4 ≤ length buf = ground (arith, n) in
        let size : read_u32 buf ≡ length xs =
          sym (read-take 4 buf (omega arith))
          ∙ ap read_u32 (next_bytes 0 in_frame follows 4 four (omega arith))
          ∙ read-frame xs (omega arith) in
        let count : (read_u32 buf + 4) % 2 ^ 32 ≡ length xs + 4 = omega (arith, size) in
        let n_is : (if ltb (length buf) (length xs + 4) then length buf else length xs + 4)
            ≡ min (length buf) (length xs + 4 - 0) =
          ground arith in
        rw (n, count, n_is)
          (ap (λ p. (min (length buf) (length xs + 4 - 0), p))
            (next_bytes 0 in_frame follows (min (length buf) (length xs + 4 - 0)) (omega arith)
              (omega arith)))
  ]
  parse-frame (suc k) (inl e) in_frame follows = absurd (omega (arith, e))
  parse-frame (suc k) (inr four) in_frame follows =
      let there = length_there (suc k) in_frame follows in
      let size : read_u32 (take (suc k) f) ≡ length xs =
        read-take (suc k) f four ∙ read-frame xs (omega arith) in
      let step =
        parse_body buf (take (suc k) f) (length xs) (omega (arith, there)) (omega (arith, there))
          small size in
      let count : length xs + 4 - length (take (suc k) f) ≡ length xs + 4 - suc k =
        omega (arith, there) in
      let known : (suc k == 0) ≡ false = ground arith in
      step
      ∙ rw (count, known)
          (ap (λ p. (min (length buf) (length xs + 4 - suc k), p))
            (next_bytes (suc k) in_frame follows (min (length buf) (length xs + 4 - suc k))
              (omega arith) (omega arith)))

-- A part of a frame is complete when all of it is there.
pub complete-frame :
    (xs : List ℕ) (k : ℕ)
    → length xs + 4 < 2 ^ 32
    → (k ≡ 0) ⊎ (4 ≤ k)
    → k ≤ length xs + 4
    → complete (take k (frame xs)) ≡ (k == length xs + 4)
unfolding complete
complete-frame xs zero small start h = ground arith
complete-frame xs (suc k) small (inl e) h = absurd (omega (arith, e))
complete-frame xs (suc k) small (inr four) h =
    let there : length (take (suc k) (frame xs)) ≡ suc k =
      omega (arith, length-take (suc k) (frame xs), length-frame xs) in
    let size : read_u32 (take (suc k) (frame xs)) ≡ length xs =
      read-take (suc k) (frame xs) four ∙ read-frame xs (omega arith) in
    complete_at (take (suc k) (frame xs)) size there
  where
    complete_at :
        (p : Packet)
        → read_u32 p ≡ length xs
        → length p ≡ suc k
        → complete p ≡ (suc k == length xs + 4)
    complete_at p e l =
        let big : ltb (length p) 4 ≡ false = ground (arith, l, four) in
        rw (big, e, l) (ground (arith, four, h))

pub set_content-frame :
    (xs : List ℕ) {p : Packet} → set_content xs ≡ some p → (p ≡ frame xs) × (length xs + 4 < 2 ^ 32)
unfolding set_content
set_content-frame xs e = (ground (arith, e), ground (arith, e))

-- A packet that is made of a content, with whatever bytes behind it, is parsed to itself, and gives
-- its content back.
pub try_parse-set_content :
    (xs rest : List ℕ) {p : Packet}
    → set_content xs ≡ some p
    → (try_parse (p ++ rest) ≡ some p) × (content p ≡ some xs)
unfolding try_parse content
try_parse-set_content xs rest {p} e =
    let (same, small) = set_content-frame xs e in
    let whole : take (length xs + 4) (frame xs) ≡ frame xs =
      take_all (length xs + 4) (frame xs) (omega (arith, length-frame xs)) in
    let parsed =
      parse-frame xs (frame xs ++ rest) [] rest small 0 (inl refl) (omega arith)
        (append_nil (frame xs ++ rest)) in
    let count : 0 + taken 0 (length xs) (length (frame xs ++ rest)) ≡ length xs + 4 =
      ground (arith, length-append (frame xs) rest, length-frame xs) in
    let done = complete-frame xs (length xs + 4) small (inr (omega arith)) (omega arith) in
    let full : complete (frame xs) ≡ true = ap complete (sym whole) ∙ done ∙ ground arith in
    let result : (parse (frame xs ++ rest) []).1 ≡ frame xs =
      ap (λ r. r.1) parsed ∙ rw count whole in
    let headed : ltb (length (frame xs)) 4 ≡ false = ground arith in
    rw (same, result, full, headed) (refl, refl)
