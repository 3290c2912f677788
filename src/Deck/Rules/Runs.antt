-- ===== src/Deck/Rules/Runs.antt =====
-- The tests of `brand5` (deck.cpp) for straights and flushes, by counts and extremes.
use Prim.Native.Nat.{min, max}
use casual_game.Deck.Rules.Neighbours.{pairs5, IsOrdered}
use casual_game.Prelude.{
  ℕ, ◌+◌, ◌≤◌, ◌≡◌, Bool, true, not, ◌&&◌, ◌||◌, inl, inr, Bool-cases, [], ◌∷◌, arith,
  Bool-eq_of_iff, ==_iff, ◌==◌, if◌then◌else◌,
}
use casual_game.Deck.Row5.{Row5, is_straight, is_wheel, consecutive, all_same, ranks5}

abbrev pub count5 : ℕ → Row5 → ℕ
count5 r h =
    (if r == r0 then 1 else 0)
    + ((if r == r1 then 1 else 0)
        + ((if r == r2 then 1 else 0)
            + ((if r == r3 then 1 else 0) + ((if r == r4 then 1 else 0) + 0))))
  where
    open h use {r0, r1, r2, r3, r4}

abbrev pub counts_of_wheel : Row5 → Bool
counts_of_wheel h =
    (count5 0 h == 1)
    && ((count5 1 h == 1) && ((count5 2 h == 1) && ((count5 3 h == 1) && (count5 12 h == 1))))

count_first : (h : Row5) → IsOrdered h → count5 0 h ≡ 1 → (h.r0 ≡ 0) × (1 ≤ h.r1)
count_first h o e = ground arith

count_second :
    (h : Row5) → IsOrdered h → h.r0 ≡ 0 → 1 ≤ h.r1 → count5 1 h ≡ 1 → (h.r1 ≡ 1) × (2 ≤ h.r2)
count_second h o z l e = ground arith

count_third :
    (h : Row5) → IsOrdered h → h.r1 ≡ 1 → 2 ≤ h.r2 → count5 2 h ≡ 1 → (h.r2 ≡ 2) × (3 ≤ h.r3)
count_third h o z l e = ground arith

count_fourth : (h : Row5) → IsOrdered h → h.r2 ≡ 2 → 3 ≤ h.r3 → count5 3 h ≡ 1 → h.r3 ≡ 3
count_fourth h o z l e = ground arith

count_last : (h : Row5) → IsOrdered h → h.r4 ≤ 12 → count5 12 h ≡ 1 → h.r4 ≡ 12
count_last h o z e = ground arith

counts_of_wheel_sound :
    (h : Row5) → IsOrdered h → h.r4 ≤ 12 → counts_of_wheel h ≡ true → is_wheel h ≡ true
unfolding is_wheel
counts_of_wheel_sound h o l e =
    let (e0, e1, e2, e3, e4) = five_parts _ _ _ _ _ e in
    let (z0, g1) = count_first h o e0 in
    let (z1, g2) = count_second h o z0 g1 e1 in
    let (z2, g3) = count_third h o z1 g2 e2 in
    let z3 = count_fourth h o z2 g3 e3 in let z4 = count_last h o l e4 in ground arith
  where
    five_parts :
        (a b c d e : ℕ)
        → ((a == 1) && ((b == 1) && ((c == 1) && ((d == 1) && (e == 1))))) ≡ true
        → (a ≡ 1) × (b ≡ 1) × (c ≡ 1) × (d ≡ 1) × (e ≡ 1)
    five_parts a b c d e h = ground arith

counts_of_wheel_complete : (h : Row5) → is_wheel h ≡ true → counts_of_wheel h ≡ true
unfolding is_wheel
counts_of_wheel_complete h e = ground arith

pairs5-zero :
    (h : Row5)
    → IsOrdered h
    → (pairs5 h == 0)
      ≡ not ((h.r0 == h.r1) || ((h.r1 == h.r2) || ((h.r2 == h.r3) || (h.r3 == h.r4))))
pairs5-zero h o = ground arith

consecutive_lem :
    (h : Row5)
    → IsOrdered h
    → consecutive (ranks5 h) ≡ (
        not ((h.r0 == h.r1) || ((h.r1 == h.r2) || ((h.r2 == h.r3) || (h.r3 == h.r4))))
        && (h.r4 == h.r0 + 4))
consecutive_lem h o = ground arith

pub is_straight_of_ordered :
    (h : Row5)
    → IsOrdered h
    → h.r4 ≤ 12
    → is_straight h ≡ (((pairs5 h == 0) && (h.r4 == h.r0 + 4)) || counts_of_wheel h)
unfolding is_straight
is_straight_of_ordered h o l = elim (Bool-cases (is_wheel h)) [
  | inl e ↦ rw (e, counts_of_wheel_complete h e) (ground arith)
  | inr e ↦ elim (Bool-cases (counts_of_wheel h)) [
    | inl f ↦ absurd (cc (counts_of_wheel_sound h o l f))
    | inr f ↦ rw (e, f, consecutive_lem h o, pairs5-zero h o) (ground arith)
  ]
]

pub top_of_ordered :
    (h : Row5) → IsOrdered h → max h.r0 (max h.r1 (max h.r2 (max h.r3 (max h.r4 0)))) ≡ h.r4
top_of_ordered h o = omega arith

pub bottom_of_ordered :
    (h : Row5)
    → IsOrdered h
    → h.r4 ≤ 12
    → min h.r0 (min h.r1 (min h.r2 (min h.r3 (min h.r4 51)))) ≡ h.r0
bottom_of_ordered h o l = omega arith

pub all_same-extremes :
    (a b c d e : ℕ)
    → a ≤ 51
    → b ≤ 51
    → c ≤ 51
    → d ≤ 51
    → e ≤ 51
    → all_same (a ∷ b ∷ c ∷ d ∷ e ∷ [])
      ≡ (max a (max b (max c (max d (max e 0)))) == min a (min b (min c (min d (min e 51)))))
all_same-extremes a b c d e ha hb hc hd he =
    Bool-eq_of_iff _ _ (λ t. (==_iff _ _).1 (go1 t)) (λ t. go2 ((==_iff _ _).0 t))
  where
    all_equal : all_same (a ∷ b ∷ c ∷ d ∷ e ∷ []) ≡ true → (a ≡ b) × (b ≡ c) × (c ≡ d) × (d ≡ e)
    all_equal t = ground arith

    go1 :
        all_same (a ∷ b ∷ c ∷ d ∷ e ∷ []) ≡ true
        → max a (max b (max c (max d (max e 0)))) ≡ min a (min b (min c (min d (min e 51))))
    go1 t = let eqs = all_equal t in omega arith

    go2 :
        max a (max b (max c (max d (max e 0)))) ≡ min a (min b (min c (min d (min e 51))))
        → all_same (a ∷ b ∷ c ∷ d ∷ e ∷ []) ≡ true
    go2 t =
        let ab : a ≡ b = omega arith in
        let bc : b ≡ c = omega arith in
        let cd : c ≡ d = omega arith in
        let de : d ≡ e = omega arith in ground (arith, ab, bc, cd, de)
