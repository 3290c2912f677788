-- ===== src/Deck/Rules/Neighbours.antt =====
-- The tests of `brand5` (deck.cpp) over ordered ranks, by the tests on neighbours.
use casual_game.Prelude.{
  ℕ, ◌+◌, ◌≤◌, ◌≡◌, refl, Bool, true, false, ◌&&◌, ◌||◌, arith, ◌==◌, if◌then◌else◌,
}
use casual_game.Deck.Brands.{
  Brand, five_of_kind, straight_flush, four_of_kind, full_house, flush, straight, three_of_kind,
  two_pairs, one_pair, hight_card,
}
use casual_game.Deck.Shape.{named}
use casual_game.Deck.Row5.{Row5, brand5_of, is_straight, is_flush, pair_brand}

-- On ascending numbers the outer two are equal exactly if both neighbours are.
==-through : (a b c : ℕ) → a ≤ b → b ≤ c → (a == c) ≡ ((a == b) && (b == c))
==-through a b c h k = ground arith

-- The tests of `brand5` past the straights and flushes, where each is said by the four tests on
-- neighbours.
shape_by_neighbours :
    (e1 e2 e3 e4 run one_suit : Bool) {last : Brand}
    → last ≡ (if e1 || (e2 || (e3 || e4)) then one_pair else hight_card)
    → (if e1 && (e2 && (e3 && e4))
        then five_of_kind
        else if run && one_suit
        then straight_flush
        else if (e1 && (e2 && e3)) || (e2 && (e3 && e4))
        then four_of_kind
        else if ((e1 && e2) && e4) || ((e3 && e4) && e1)
        then full_house
        else if one_suit
        then flush
        else if run
        then straight
        else if (e1 && e2) || ((e3 && e4) || (e2 && e3))
        then three_of_kind
        else if (e1 && e3) || ((e1 && e4) || (e2 && e4))
        then two_pairs
        else last)
      ≡ named
          ((if e1 then 1 else 0)
            + ((if e1 && e2 then 1 else 0)
                + ((if e1 && (e2 && e3) then 1 else 0)
                    + ((if e1 && (e2 && (e3 && e4)) then 1 else 0) + 0)))
            + ((if e2 then 1 else 0)
                + ((if e2 && e3 then 1 else 0) + ((if e2 && (e3 && e4) then 1 else 0) + 0))
                + ((if e3 then 1 else 0)
                    + ((if e3 && e4 then 1 else 0) + 0)
                    + ((if e4 then 1 else 0) + 0 + (0 + 0)))))
          run
          one_suit
shape_by_neighbours true true true true run one_suit e = refl
shape_by_neighbours true true true false run one_suit e = refl
shape_by_neighbours true true false true run one_suit e = refl
shape_by_neighbours true true false false run one_suit e = refl
shape_by_neighbours true false true true run one_suit e = refl
shape_by_neighbours true false true false run one_suit e = refl
shape_by_neighbours true false false true run one_suit e = refl
shape_by_neighbours true false false false run one_suit e = rw e
shape_by_neighbours false true true true run one_suit e = refl
shape_by_neighbours false true true false run one_suit e = refl
shape_by_neighbours false true false true run one_suit e = refl
shape_by_neighbours false true false false run one_suit e = rw e
shape_by_neighbours false false true true run one_suit e = refl
shape_by_neighbours false false true false run one_suit e = rw e
shape_by_neighbours false false false true run one_suit e = rw e
shape_by_neighbours false false false false run one_suit e = rw e

abbrev pub pairs5 : Row5 → ℕ
pairs5 h =
    (if r0 == r1 then 1 else 0)
    + ((if r0 == r2 then 1 else 0)
        + ((if r0 == r3 then 1 else 0) + ((if r0 == r4 then 1 else 0) + 0)))
    + ((if r1 == r2 then 1 else 0)
        + ((if r1 == r3 then 1 else 0) + ((if r1 == r4 then 1 else 0) + 0))
        + ((if r2 == r3 then 1 else 0)
            + ((if r2 == r4 then 1 else 0) + 0)
            + ((if r3 == r4 then 1 else 0) + 0 + (0 + 0))))
  where
    open h use {r0, r1, r2, r3, r4}

pub record IsOrdered (h : Row5) : Type 0 where
  pub o1 : h.r0 ≤ h.r1
  pub o2 : h.r1 ≤ h.r2
  pub o3 : h.r2 ≤ h.r3
  pub o4 : h.r3 ≤ h.r4

pair_brand_lem :
    (h : Row5)
    → pair_brand h ≡ (
        if (h.r0 == h.r1) || ((h.r1 == h.r2) || ((h.r2 == h.r3) || (h.r3 == h.r4)))
        then one_pair
        else hight_card)
unfolding pair_brand
pair_brand_lem h = ground arith

pub shape_of_ordered :
    (h : Row5) → IsOrdered h → brand5_of h ≡ named (pairs5 h) (is_straight h) (is_flush h)
unfolding brand5_of
shape_of_ordered h o =
    rw
      (
        ==-through h.r0 h.r1 h.r4 (omega arith) (omega arith),
        ==-through h.r1 h.r2 h.r4 (omega arith) (omega arith),
        ==-through h.r2 h.r3 h.r4 (omega arith) (omega arith),
        ==-through h.r0 h.r1 h.r3 (omega arith) (omega arith),
        ==-through h.r1 h.r2 h.r3 (omega arith) (omega arith),
        ==-through h.r0 h.r1 h.r2 (omega arith) (omega arith),
      )
      (shape_by_neighbours (h.r0 == h.r1) (h.r1 == h.r2) (h.r2 == h.r3) (h.r3 == h.r4)
        (is_straight h) (is_flush h) (pair_brand_lem h))
