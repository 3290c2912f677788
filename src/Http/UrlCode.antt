-- ===== src/Http/UrlCode.antt =====
-- `UrlCode` (processes/http/url_en_decode.cpp): a text is the list of its bytes, of fewer than 2^31,
-- since the source counts them with an `int`.
pub mod RoundTrip
use casual_game.Prelude.{
  ℕ, zero, suc, ◌+◌, ◌-◌, ◌*◌, ◌/◌, ◌%◌, Bool, true, false, not, ◌&&◌, ◌||◌, List, [], ◌∷◌, ◌++◌,
  ltb, leb, ◌==◌, get_or, if◌then◌else◌,
}

-- `isupper`, `tolower` and `isxdigit` of the C locale.
abbrev pub is_upper : ℕ → Bool
is_upper c = leb b'A' c && leb c b'Z'

abbrev pub to_lower : ℕ → ℕ
to_lower c = if is_upper c then c + 32 else c

abbrev pub is_digit : ℕ → Bool
is_digit c = leb b'0' c && leb c b'9'

abbrev pub is_xdigit : ℕ → Bool
is_xdigit c = is_digit c || ((leb b'a' c && leb c b'f') || (leb b'A' c && leb c b'F'))

-- The value of one digit; a letter below `a` does not occur.
unfoldable pub digit_value : ℕ → ℕ
digit_value c = if is_digit c then c - b'0' else c - b'a' + 10

unfoldable pub php_htoi : ℕ → ℕ → ℕ
unfolding digit_value
php_htoi s0 s1 = digit_value (to_lower s0) * 16 + digit_value (to_lower s1)

abbrev pub hex : List ℕ
hex =
    b'0' ∷ b'1' ∷ b'2' ∷ b'3' ∷ b'4' ∷ b'5' ∷ b'6' ∷ b'7' ∷ b'8' ∷ b'9' ∷ b'A' ∷ b'B' ∷ b'C' ∷ b'D'
    ∷ b'E' ∷ b'F' ∷ []

-- The bytes that are written as `%` and two digits.
unfoldable pub is_escaped : ℕ → Bool
is_escaped c =
    (ltb c b'0' && (not (c == b'-') && not (c == b'.')))
    || ((ltb c b'A' && ltb b'9' c)
        || ((ltb b'Z' c && (ltb c b'a' && not (c == b'_'))) || ltb b'z' c))

-- The body of the loop of `urlEncode`.
unfoldable pub encode_byte : ℕ → List ℕ
unfolding is_escaped
encode_byte c =
    if c == b' '
    then b'+' ∷ []
    else if is_escaped c
    then b'%' ∷ get_or hex (c / 16) 0 ∷ get_or hex (c % 16) 0 ∷ []
    else c ∷ []

unfoldable pub url_encode : List ℕ → List ℕ
unfolding encode_byte
url_encode [] = []
url_encode (c ∷ src) = encode_byte c ++ url_encode src

-- A byte of its own, in `urlDecode`.
unfoldable pub decode_byte : ℕ → ℕ
decode_byte c = if c == b'+' then b' ' else c

-- `*data == '%' && isxdigit(data[1]) && isxdigit(data[2])`.
unfoldable pub is_escape : ℕ → ℕ → ℕ → Bool
is_escape c d e = (c == b'%') && (is_xdigit d && is_xdigit e)

-- The loop of `urlDecode`: two bytes must be left behind a `%`.
unfoldable pub url_decode : List ℕ → List ℕ
unfolding decode_byte is_escape php_htoi
url_decode [] = []
url_decode (c ∷ []) = decode_byte c ∷ []
url_decode (c ∷ d ∷ []) = decode_byte c ∷ url_decode (d ∷ [])
url_decode (c ∷ d ∷ e ∷ src) = elim (is_escape c d e) [
  | true ↦ php_htoi d e % 256 ∷ url_decode src
  | false ↦ decode_byte c ∷ url_decode (d ∷ e ∷ src)
]
