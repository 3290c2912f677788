-- ===== src/Base/ProcessId.antt =====
-- `ProcessId` (base/process_id.h and process_id.cpp): its test, over the names of the types that the
-- configuration gives, and its bytes in memory. A text is the list of its bytes.
use native.Mathlib.Nat.{pow-succ', zero-add, suc-add}
use casual_game.Prelude.{
  ℕ, ◌+◌, ◌*◌, ◌/◌, ◌%◌, ◌∙◌, zero, suc, if◌then◌else◌, ◌||◌, ◌≡◌, ◌<◌, ◌^◌, refl, Bool, true,
  false, not, ◌&&◌, Option, none, some, List, [], ◌∷◌, ◌++◌, take, drop, get_elem?, ◌==◌, arith,
}
use casual_game.Componet.Serialize.{number_bytes, read_number}

pub record ProcessId : Type 0 where
  pub process_type : ℕ
  pub num : ℕ

abbrev pub same_text : List ℕ → List ℕ → Bool
same_text [] [] = true
same_text [] (y ∷ ys) = false
same_text (x ∷ xs) [] = false
same_text (x ∷ xs) (y ∷ ys) = (x == y) && same_text xs ys

-- `"none"`.
abbrev pub none_name : List ℕ
none_name = 110 ∷ 111 ∷ 110 ∷ 101 ∷ []

abbrev pub name_or_none : Option (List ℕ) → List ℕ
name_or_none none = none_name
name_or_none (some name) = name

-- `typeToString`, with the texts of `s_type2Name`.
unfoldable pub type_to_string : List (List ℕ) → ℕ → List ℕ
type_to_string names t = name_or_none (get_elem? names t)

unfoldable pub is_valid : List (List ℕ) → ProcessId → Bool
is_valid names p =
    not (same_text (type_to_string names p.process_type) none_name) && not (p.num == 0)

-- The digits of two numbers joined, as `|` does, the lowest first.
unfoldable pub or_digits : ℕ → ℕ → ℕ → ℕ
or_digits zero a b = 0
or_digits (suc w) a b =
    (if (a % 2 == 1) || (b % 2 == 1) then 1 else 0) + 2 * or_digits w (a / 2) (b / 2)

-- `value`: the type from the ninth digit on, and the number.
unfoldable pub value : ProcessId → ℕ
value p = or_digits 32 (p.process_type * 256 % 2 ^ 32) p.num

unfoldable pub set_value : ℕ → ProcessId
set_value v = record { process_type = v / 256 % 256; num = v % 256 }

-- Two words of 32 bits, the lowest byte first.
unfoldable pub id_bytes : ProcessId → List ℕ
id_bytes p = number_bytes 4 p.process_type ++ number_bytes 4 p.num

unfoldable pub read_id : List ℕ → ProcessId
read_id bytes = record {
  process_type = read_number (take 4 bytes);
  num = read_number (take 4 (drop 4 bytes));
}

read_number-number_bytes : (n : ℕ) → n < 2 ^ 32 → read_number (number_bytes 4 n) ≡ n
read_number-number_bytes n h = omega arith

pub read_id-id_bytes :
    (p : ProcessId) (behind : List ℕ)
    → p.process_type < 2 ^ 32
    → p.num < 2 ^ 32
    → read_id (id_bytes p ++ behind) ≡ p
unfolding read_id id_bytes
read_id-id_bytes p behind h k =
    rw (read_number-number_bytes p.process_type h, read_number-number_bytes p.num k) refl

or_digits-zero : (w a : ℕ) → a < 2 ^ w → or_digits w a 0 ≡ a
unfolding or_digits
or_digits-zero zero a h = omega (arith, h)
or_digits-zero (suc w) a h =
    let half : a / 2 < 2 ^ w = omega (arith, h, rw (pow-succ' 2 w) at h) in
    rw (or_digits-zero w (a / 2) half) (ground arith)

-- A step where the lowest digit of the first number is 0.
or_digits-even :
    (w a b c : ℕ) → or_digits w a (b / 2) ≡ c → or_digits (suc w) (2 * a) b ≡ b % 2 + 2 * c
unfolding or_digits
or_digits-even w a b c e =
    let half : 2 * a / 2 ≡ a = omega arith in
    let even : 2 * a % 2 ≡ 0 = omega arith in rw (half, even, e) (ground arith)

abbrev shifted : ℕ → ℕ → ℕ
shifted zero a = a
shifted (suc k) a = 2 * shifted k a

or_digits-shifted :
    (k w a b : ℕ) → a < 2 ^ w → b < 2 ^ k → or_digits (k + w) (shifted k a) b ≡ shifted k a + b
or_digits-shifted zero w a b h k =
    let none_left : b ≡ 0 = omega (arith, k) in
    rw (zero-add w, none_left) (or_digits-zero w a h ∙ omega arith)
or_digits-shifted (suc k) w a b h below =
    let half : b / 2 < 2 ^ k = omega (arith, rw (pow-succ' 2 k) at below) in
    rw (suc-add k w) (
      or_digits-even (k + w) (shifted k a) b (shifted k a + b / 2)
        (or_digits-shifted k w a (b / 2) h half)
      ∙ omega arith)

pub value-low :
    (p : ProcessId) → p.process_type < 256 → p.num < 256 → value p ≡ p.process_type * 256 + p.num
unfolding value
value-low p h k =
    let word : p.process_type * 256 % 2 ^ 32 ≡ shifted 8 p.process_type = omega (arith, h) in
    rw word (or_digits-shifted 8 24 p.process_type p.num (omega (arith, h)) k ∙ omega arith)

-- An id whose type and number fit their bytes is found back in its value.
pub set_value-value : (p : ProcessId) → p.process_type < 256 → p.num < 256 → set_value (value p) ≡ p
unfolding set_value
set_value-value p h k =
    let same = value-low p h k in
    let type : value p / 256 % 256 ≡ p.process_type = omega (arith, same, h, k) in
    let number : value p % 256 ≡ p.num = omega (arith, same, h, k) in rw (type, number) refl
