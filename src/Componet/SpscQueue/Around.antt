-- ===== src/Componet/SpscQueue/Around.antt =====
-- Places in a circle of cells (water/componet/lock_free_circular_queue_ss.h).
use native.Mathlib.Nat.{
  mod-lt, mod-add-mod, mod-eq_of_lt, mod-eq-sub-mod, mod-mod_of_dvd, add-zero, mul-one, mul_assoc,
  pow-suc,
}
use Prim.Native.Nat.{◌∣◌}
use casual_game.Prelude.{
  ℕ, zero, suc, ◌+◌, ◌-◌, ◌*◌, ◌%◌, ◌^◌, ◌≤◌, ◌<◌, ◌≡◌, ◌≢◌, ◌∙◌, sym, ap, inl, inr, ◌⊎◌, false,
  ltb, ◌==◌, Bool-cases, arith,
}

around :
    (n r i : ℕ) → r < n → i < n → ((r + i) % n ≡ r + i) ⊎ ((n ≤ r + i) × ((r + i) % n ≡ r + i - n))
around n r i p q = elim (Bool-cases (ltb (r + i) n)) [
  | inl y ↦ inl (mod-eq_of_lt {n = r + i} {m = n} (ground (arith, y)))
  | inr k ↦
      let le : n ≤ r + i = ground (arith, k) in
      inr (
        le,
        mod-eq-sub-mod {n = r + i} {m = n} le ∙ mod-eq_of_lt {n = r + i - n} {m = n} (omega arith),
      )
]

-- Two steps from a place that are less than once around do not meet.
pub around-injective : (n b i j : ℕ) → i < n → j < n → (b + i) % n ≡ (b + j) % n → i ≡ j
around-injective n b i j p q e =
    let r = mod-lt b {m = n} (omega arith) in
    let e' : (b % n + i) % n ≡ (b % n + j) % n = mod-add-mod b n i ∙ e ∙ sym (mod-add-mod b n j) in
    elim (around n (b % n) i r p) [
      | inl x ↦ elim (around n (b % n) j r q) [
        | inl y ↦ omega (arith, x, y, e')
        | inr (h, y) ↦ omega (arith, x, y, e', h)
      ]
      | inr (k, x) ↦ elim (around n (b % n) j r q) [
        | inl y ↦ omega (arith, x, y, e', k)
        | inr (h, y) ↦ omega (arith, x, y, e', h, k)
      ]
    ]

pub around-ne : (n b i j : ℕ) → i < n → j < n → i ≢ j → ((b + i) % n == (b + j) % n) ≡ false
around-ne n b i j p q other = elim (Bool-cases ((b + i) % n == (b + j) % n)) [
  | inl y ↦ absurd (other (around-injective n b i j p q (ground (arith, y))))
  | inr k ↦ k
]

-- A counter of 64 bits meets the same places as one that does not end.
pub counter-mod : (n c : ℕ) → n ∣ 2 ^ 64 → c % 2 ^ 64 % n ≡ c % n
counter-mod n c d = mod-mod_of_dvd n {b = 2 ^ 64} c d

pub counter_next : (c : ℕ) → (c % 2 ^ 64 + 1) % 2 ^ 64 ≡ (c + 1) % 2 ^ 64
counter_next c = omega arith

pow-add : (k j : ℕ) → 2 ^ (k + j) ≡ 2 ^ k * 2 ^ j
pow-add k zero = ap (λ e. 2 ^ e) (add-zero k) ∙ sym (mul-one (2 ^ k))
pow-add k (suc j) =
    ap (λ e. 2 ^ e) (omega arith)
    ∙ pow-suc 2 (k + j)
    ∙ ap (λ e. e * 2) (pow-add k j)
    ∙ mul_assoc (2 ^ k) (2 ^ j) 2
    ∙ ap (λ e. 2 ^ k * e) (sym (pow-suc 2 j))

pub power-dvd : (k : ℕ) → k ≤ 24 → 2 ^ k ∣ 2 ^ 64
power-dvd k h =
    let whole : 64 ≡ k + (64 - k) = omega (arith, h) in
    ∣ (2 ^ (64 - k), ap (λ e. 2 ^ e) whole ∙ pow-add k (64 - k)) ∣₁
