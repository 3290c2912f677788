-- ===== src/Http/UrlCode/RoundTrip.antt =====
-- What comes back of an encoded text, and which bytes an encoded text has.
use casual_game.Prelude.{
  ℕ, zero, suc, ◌/◌, ◌%◌, ◌≤◌, ◌<◌, ◌≡◌, refl, inl, inr, Bool, true, false, ◌&&◌, List, [], ◌∷◌,
  ◌++◌, ◌==◌, if◌then◌else◌, ==_iff, get_or, Bool-cases, arith,
}
use casual_game.Http.UrlCode.{
  is_xdigit, php_htoi, hex, is_escaped, encode_byte, url_encode, url_decode,
}

-- A test of all bytes up to `last`, from the last one down.
tested_to : (ℕ → Bool) → ℕ → Bool
tested_to test zero = test 0
tested_to test (suc last) = if test (suc last) then tested_to test last else false

tested_at :
    (test : ℕ → Bool) (last : ℕ) → tested_to test last ≡ true → (c : ℕ) → c ≤ last → test c ≡ true
unfolding tested_to
tested_at test zero passed c within = let it : c ≡ 0 = omega (arith, within) in rw it passed
tested_at test (suc last) passed c within = elim (Bool-cases (test (suc last))) [
  | inl y ↦ elim (Bool-cases (c == suc last)) [
    | inl it ↦ let same : c ≡ suc last = (==_iff c (suc last)).0 it in rw same y
    | inr other ↦ tested_at test last (rw y at passed) c (ground (arith, other, within))
  ]
  | inr n ↦ absurd (cc (rw n at passed))
]

abbrev pub AllBytes : List ℕ → Type 0
AllBytes [] = Unit
AllBytes (c ∷ cs) = (c < 256) × AllBytes cs

abbrev upper : ℕ → ℕ
upper c = get_or hex (c / 16) 0

abbrev lower : ℕ → ℕ
lower c = get_or hex (c % 16) 0

hex_table :
    tested_to
      (λ c. is_xdigit (upper c) && (is_xdigit (lower c) && (php_htoi (upper c) (lower c) == c)))
      255
    ≡ true
unfolding tested_to php_htoi
hex_table = refl

-- A byte whose encoding is itself comes back, whatever follows it.
decode_plain :
    (c : ℕ) (rest : List ℕ)
    → (c == b'%') ≡ false
    → (c == b'+') ≡ false
    → url_decode (c ∷ rest) ≡ c ∷ url_decode rest
unfolding url_decode
decode_plain c [] p q = rw q refl
decode_plain c (d ∷ []) p q = rw q refl
decode_plain c (d ∷ e ∷ rest) p q = rw (p, q, url_decode) refl

decode_plus : (rest : List ℕ) → url_decode (b'+' ∷ rest) ≡ b' ' ∷ url_decode rest
unfolding url_decode
decode_plus [] = refl
decode_plus (d ∷ []) = refl
decode_plus (d ∷ e ∷ rest) = refl

decode_escape :
    (d e : ℕ) (rest : List ℕ)
    → is_xdigit d ≡ true
    → is_xdigit e ≡ true
    → url_decode (b'%' ∷ d ∷ e ∷ rest) ≡ php_htoi d e % 256 ∷ url_decode rest
unfolding url_decode
decode_escape d e rest p q = rw (p, q, url_decode) refl

both : (a b : Bool) → (a && b) ≡ true → (a ≡ true) × (b ≡ true)
both true true h = (refl, refl)
both true false h = cc
both false b h = cc

decode_escaped :
    (c : ℕ) (rest : List ℕ)
    → c < 256
    → url_decode (b'%' ∷ upper c ∷ lower c ∷ rest) ≡ c ∷ url_decode rest
decode_escaped c rest h =
    let (p, t) = both (is_xdigit (upper c)) _ (tested_at _ 255 hex_table c (omega (arith, h))) in
    let (q, v) = both (is_xdigit (lower c)) (php_htoi (upper c) (lower c) == c) t in
    let same : php_htoi (upper c) (lower c) ≡ c = (==_iff _ c).0 v in
    let byte : php_htoi (upper c) (lower c) % 256 ≡ c = omega arith in
    rw (decode_escape (upper c) (lower c) rest p q, byte) refl

unescaped-plain : (c : ℕ) → is_escaped c ≡ false → ((c == b'%') ≡ false) × ((c == b'+') ≡ false)
unfolding is_escaped
unescaped-plain c h = ground arith

decode-encode_byte :
    (c : ℕ) (rest : List ℕ) → c < 256 → url_decode (encode_byte c ++ rest) ≡ c ∷ url_decode rest
unfolding encode_byte
decode-encode_byte c rest h = elim (Bool-cases (c == b' ')) [
  | inl y ↦ rw (y, decode_plus rest) (ground (arith, y))
  | inr n ↦ elim (Bool-cases (is_escaped c)) [
    | inl y ↦ rw (n, y) (decode_escaped c rest h)
    | inr y ↦ let (p, q) = unescaped-plain c y in rw (n, y) (decode_plain c rest p q)
  ]
]

-- Decoding an encoded text gives the text back, whatever bytes it has, `%` and `+` included.
pub url_decode-url_encode : (src : List ℕ) → AllBytes src → url_decode (url_encode src) ≡ src
unfolding url_encode url_decode
url_decode-url_encode [] h = refl
url_decode-url_encode (c ∷ src) h =
    rw (decode-encode_byte c (url_encode src) h.0, url_decode-url_encode src h.1) refl
