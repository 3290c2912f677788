-- ===== src/Game13/Round.antt =====
-- `Game13::calcRound` (game13.cpp): the brands of each player, the comparison of each two players,
-- and the settlement of what they won from one another.
pub mod Totals
pub mod ZeroSum
pub mod Scores
pub mod RowScores
pub mod TwoPlayers
pub mod Faults
use casual_game.Prelude.{
  ℕ, zero, suc, ◌+◌, ◌-◌, ◌%◌, Bool, true, false, not, ◌&&◌, Option, none, some, List, [], ◌∷◌, map,
  ltb, ◌==◌, length, get_or, set, take, drop, ◌>>=◌, if◌then◌else◌,
}
use casual_game.Prelude.Int.{ℤ, pos, negsuc, ◌+ℤ◌, ◌-ℤ◌, ◌*ℤ◌, ltb_ℤ}
use casual_game.Prelude.Words.{to_u32, to_i32}
use casual_game.Deck.Cards.{sort_cards}
use casual_game.Deck.Brands.{
  Brand, BrandInfo, five_of_kind, straight_flush, four_of_kind, full_house, three_of_kind,
  hight_card, same_brand, cmp_brand_info,
}
use casual_game.Deck.Row5.{brand_info}
use casual_game.Deck.Special.{
  SpecialBrand, special_value, same_special, special_brand, flush_straight, royal,
  triple_straight_flush, triple_bombs,
}

-- `<price, 打枪>`: what is won from a loser, and 1 where all three rows were won.
pub record Loser : Type 0 where
  pub price : ℤ
  pub shot : ℕ

-- `std::map<uint32_t, std::array<int32_t, 2>>`, ascending in its keys.
abbrev pub Losers : Type 0
Losers = List (ℕ × Loser)

unfoldable pub put : ℕ → Loser → Losers → Losers
put k e [] = (k, e) ∷ []
put k e ((j, f) ∷ m) =
    if k == j then (k, e) ∷ m else if ltb k j then (k, e) ∷ (j, f) ∷ m else (j, f) ∷ put k e m

-- `RoundSettleData::PlayerData`, less the name, which nothing reads.
pub record PlayerData : Type 0 where
  pub cuid : ℕ
  pub cards : List ℕ
  pub dun0 : BrandInfo
  pub dun1 : BrandInfo
  pub dun2 : BrandInfo
  pub spec : SpecialBrand
  pub prize : ℤ
  pub losers : Losers
  pub quan_lei_da : Bool

-- The part of `m_attr` that the settlement reads.
pub record Rules : Type 0 where
  pub da_qiang : ℕ
  pub quan_lei_da : Bool
  pub player_size : ℕ

abbrev pub no_info : BrandInfo
no_info = record { b = hight_card; point = 0 }

abbrev pub blank : PlayerData
blank = record {
  cuid = 0;
  cards = [];
  dun0 = no_info;
  dun1 = no_info;
  dun2 = no_info;
  spec = SpecialBrand.none;
  prize = pos 0;
  losers = [];
  quan_lei_da = false;
}

-- `datas[i]`; the loops below stay within the players.
abbrev pub at : List PlayerData → ℕ → PlayerData
at datas i = get_or datas i blank

-- The first loop: the brands of one player. Each call sorts the part of the cards that it reads, and
-- the special brand sorts them all. `none`: an assertion on a card ended the process.
unfoldable pub player_data : ℕ → List ℕ → Option PlayerData
player_data cuid cards = do
  d0 ← brand_info (take 3 cards) 3
  d1 ← brand_info (take 5 (drop 3 cards)) 5
  d2 ← brand_info (take 5 (drop 8 cards)) 5
  some (record {
    cuid = cuid;
    cards = sort_cards cards;
    dun0 = d0;
    dun1 = d1;
    dun2 = d2;
    spec = special_brand cards d1.b d2.b;
    prize = pos 0;
    losers = [];
    quan_lei_da = false;
  })

unfoldable pub players_data : List (ℕ × List ℕ) → Option (List PlayerData)
players_data [] = some []
players_data ((cuid, cards) ∷ rest) = do
  d ← player_data cuid cards
  ds ← players_data rest
  some (d ∷ ds)

-- `datas[w].losers[k] = e`.
unfoldable pub put_loser : ℕ → ℕ → Loser → List PlayerData → List PlayerData
put_loser w k e datas =
    let winner = at datas w in set datas w (record winner { losers = put k e winner.losers })

-- The `switch` on the special brand of the winner.
unfoldable pub special_prize : SpecialBrand → ℤ
special_prize flush_straight = pos 104
special_prize SpecialBrand.straight = pos 52
special_prize royal = pos 26
special_prize triple_straight_flush = pos 26
special_prize triple_bombs = pos 26
special_prize SpecialBrand.none = pos 0
special_prize _ = pos 6

-- Two players of different special brands.
unfoldable pub settle_special : ℕ → ℕ → List PlayerData → List PlayerData
settle_special i j datas =
    let vi = special_value (at datas i).spec % 10 in
    let vj = special_value (at datas j).spec % 10 in
    if vi == vj
    then datas
    else if ltb vj vi
    then put_loser i i (record { price = special_prize (at datas i).spec; shot = 0 }) datas
    else put_loser j j (record { price = special_prize (at datas j).spec; shot = 0 }) datas

-- Rules 1 to 3: the `switch` on the comparison of a row.
unfoldable pub base_score : ℕ → ℤ
base_score cmp = if cmp == 1 then pos 1 else if cmp == 2 then negsuc 0 else pos 0

-- Rules 4 to 8: the winner of a row has `extra` for a row of the brand `b`.
unfoldable pub bonus : ℕ → Brand → Brand → Brand → ℕ → ℤ
bonus cmp bi bj b extra =
    if (cmp == 1) && same_brand bi b
    then pos extra
    else if (cmp == 2) && same_brand bj b
    then pos 0 -ℤ pos extra
    else pos 0

-- The three comparisons, as the code writes them.
unfoldable pub dun_cmps : PlayerData → PlayerData → ℕ × ℕ × ℕ
dun_cmps di dj =
    (cmp_brand_info di.dun0 dj.dun0, cmp_brand_info di.dun1 dj.dun2, cmp_brand_info di.dun1 dj.dun2)

-- `dunPrize`.
unfoldable pub dun_prizes : PlayerData → PlayerData → ℤ × ℤ × ℤ
unfolding dun_cmps base_score bonus
dun_prizes di dj =
    let (c0, c1, c2) = dun_cmps di dj in
    let b1 = bonus c1 di.dun1.b dj.dun1.b in
    let b2 = bonus c2 di.dun2.b dj.dun2.b in
    (
      base_score c0 +ℤ bonus c0 di.dun0.b dj.dun0.b three_of_kind 2,
      base_score c1
          +ℤ b1 full_house 1
          +ℤ b1 five_of_kind 19
          +ℤ b1 straight_flush 9
          +ℤ b1 four_of_kind 7,
      base_score c2 +ℤ b2 five_of_kind 9 +ℤ b2 straight_flush 4 +ℤ b2 four_of_kind 3,
    )

-- `prize`, a `uint32_t`.
unfoldable pub rows_prize : PlayerData → PlayerData → ℕ
rows_prize di dj = let (p0, p1, p2) = dun_prizes di dj in to_u32 (p0 +ℤ p1 +ℤ p2)

-- The condition of 打枪, which the code repeats for the other player as it stands.
unfoldable pub all_rows_won : PlayerData → PlayerData → Bool
all_rows_won di dj =
    let (p0, p1, p2) = dun_prizes di dj in
    ltb_ℤ (pos 0) p0 && (ltb_ℤ (pos 0) p1 && ltb_ℤ (pos 0) p2)

-- Rule 9, 打枪, and the plain settlement; `true` is the `break` that leaves the loop over `j`.
unfoldable pub settle_rows : ℕ → ℕ → List PlayerData → List PlayerData × Bool
settle_rows i j datas =
    let di = at datas i in
    let dj = at datas j in
    let prize = rows_prize di dj in
    if all_rows_won di dj
    then (put_loser i j (record { price = to_i32 prize; shot = 1 }) datas, false)
    else if all_rows_won di dj
    then (put_loser j i (record { price = to_i32 prize; shot = 1 }) datas, false)
    else if prize == 0
    then (datas, true)
    else if ltb 0 prize
    then (put_loser i j (record { price = to_i32 prize; shot = 0 }) datas, false)
    else (put_loser j i (record { price = to_i32 prize; shot = 0 }) datas, false)

-- The body of the double loop.
unfoldable pub settle_pair : Rules → ℕ → ℕ → List PlayerData → List PlayerData × Bool
settle_pair rules i j datas =
    if not (same_special (at datas i).spec (at datas j).spec)
    then (settle_special i j datas, false)
    else if rules.da_qiang == 0
    then (datas, false)
    else settle_rows i j datas

-- The loop over `j`, with the rounds left.
unfoldable pub inner_loop : Rules → ℕ → ℕ → ℕ → List PlayerData → List PlayerData
inner_loop rules i zero j datas = datas
inner_loop rules i (suc n) j datas =
    let (datas', stop) = settle_pair rules i j datas in
    elim stop [ true ↦ datas' | false ↦ inner_loop rules i n (j + 1) datas' ]

-- The loop over `i`.
unfoldable pub outer_loop : Rules → ℕ → ℕ → List PlayerData → List PlayerData
outer_loop rules zero i datas = datas
outer_loop rules (suc n) i datas =
    outer_loop rules n (i + 1) (inner_loop rules i (length datas - (i + 1)) (i + 1) datas)

-- Rule 10, 全垒打: the loop that clears the flag where a loser was not shot.
unfoldable pub clear_unshot : Losers → Bool → Bool
clear_unshot [] flag = flag
clear_unshot ((k, e) ∷ m) flag = if e.shot == 0 then false else clear_unshot m flag

unfoldable pub is_quan_lei_da : Rules → List PlayerData → Losers → Bool
unfolding clear_unshot
is_quan_lei_da rules datas losers =
    if rules.quan_lei_da && (ltb 2 rules.player_size && (length losers + 1 == length datas))
    then clear_unshot losers false
    else false

-- `winner.prize += prize; loser.prize -= prize`, where the two may be one player.
unfoldable pub transfer : ℕ → ℕ → ℤ → List PlayerData → List PlayerData
transfer w l x datas =
    let winner = at datas w in
    let paid = set datas w (record winner { prize = winner.prize +ℤ x }) in
    let loser = at paid l in set paid l (record loser { prize = loser.prize -ℤ x })

unfoldable pub price_of : Bool → Loser → ℤ
price_of quan_lei_da e =
    let shot = if ltb 0 e.shot then e.price *ℤ pos 2 else e.price in
    if quan_lei_da then shot *ℤ pos 2 else shot

-- The loop over the losers of the player `w`.
unfoldable pub pay_losers : ℕ → Bool → Losers → List PlayerData → List PlayerData
pay_losers w quan_lei_da [] datas = datas
pay_losers w quan_lei_da ((l, e) ∷ m) datas =
    pay_losers w quan_lei_da m (transfer w l (price_of quan_lei_da e) datas)

unfoldable pub settle_player : Rules → ℕ → List PlayerData → List PlayerData
settle_player rules w datas =
    let winner = at datas w in
    let flag = is_quan_lei_da rules datas winner.losers in
    pay_losers w flag winner.losers (set datas w (record winner { quan_lei_da = flag }))

unfoldable pub settle_loop : Rules → ℕ → ℕ → List PlayerData → List PlayerData
settle_loop rules zero i datas = datas
settle_loop rules (suc n) i datas = settle_loop rules n (i + 1) (settle_player rules i datas)

unfoldable pub calc_datas : Rules → List PlayerData → List PlayerData
calc_datas rules datas =
    let compared = outer_loop rules (length datas) 0 datas in
    settle_loop rules (length datas) 0 compared

-- `none`: an assertion on a card of a player ended the process.
unfoldable pub calc_round : Rules → List (ℕ × List ℕ) → Option (List PlayerData)
calc_round rules players = do datas ← players_data players; some (calc_datas rules datas)
