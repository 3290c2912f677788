-- ===== src/Game13/Dealing.antt =====
-- `Game13::tryStartRound` (game13.cpp): the deck, the deal, the fee of the first round.
use casual_game.Prelude.{
  ℕ, zero, suc, ◌+◌, Bool, true, false, not, ◌&&◌, Option, none, some, List, [], ◌∷◌, length, set,
  take, drop, ltb, leb, ◌==◌, if◌then◌else◌, ◌>>=◌,
}
use casual_game.Prelude.Int.{ℤ, pos, negsuc, ◌+ℤ◌}
use casual_game.Game13.Table.{
  Client, get_by_cuid, update_client, add_money, Status, is_ready, is_compare, PlayerInfo,
  GameStatus, Game, Session, gp_52, pay_banker, pay_share_equ,
}
use casual_game.Game13.Actions.{is_prepare, is_settle}

-- `from, from + 1, …`, `n` numbers.
abbrev pub range_from : ℕ → ℕ → List ℕ
range_from from zero = []
range_from from (suc n) = from ∷ range_from (from + 1) n

-- The loops `cards[i] = i + first` for `i` from 0 below `n`.
abbrev pub fill : ℕ → List ℕ → List ℕ → List ℕ
fill i [] deck = deck
fill i (c ∷ cs) deck = fill (i + 1) cs (set deck i c)

-- The deck of a round. For the play type 52 the deck is resized to 52 cards and filled; for the other
-- type it is only reserved, so both loops write into the cards that an earlier game has left, and
-- into no card at all, which is undefined behaviour (`none`), where there is none.
unfoldable pub init_deck : ℕ → List ℕ → Option (List ℕ)
init_deck play_type deck =
    if play_type == gp_52
    then some (range_from 1 52)
    else if leb 52 (length deck)
    then some (fill 0 (range_from 40 13) (fill 0 (range_from 1 52) deck))
    else none

-- `std::sort(info.cards.begin(), info.cards.end())`.
unfoldable pub insert_number : ℕ → List ℕ → List ℕ
insert_number x [] = x ∷ []
insert_number x (y ∷ ys) = if ltb y x then y ∷ insert_number x ys else x ∷ y ∷ ys

unfoldable pub sort_numbers : List ℕ → List ℕ
unfolding insert_number
sort_numbers [] = []
sort_numbers (x ∷ xs) = insert_number x (sort_numbers xs)

-- The fee of the first round for one player who is online: who pays, and how much.
unfoldable pub fee : Game → Client → ℤ
fee g c =
    if (g.attr.payor == pay_banker) && (c.cuid == g.owner_cuid)
    then negsuc 9
    else if g.attr.payor == pay_share_equ
    then negsuc 4
    else pos 0

-- The body of the loop over the players: the next 13 cards, sorted, and the fee. The game's rounds are
-- counted already. Reading past the deck is undefined behaviour (`none`).
unfoldable pub deal_player :
    Game → PlayerInfo → List Client → List ℕ → Option (PlayerInfo × List Client)
deal_player g p clients deck =
    if ltb (length deck) 13
    then none
    else let dealt = record p { cards = sort_numbers (take 13 deck); status = Status.sort } in
      elim (get_by_cuid clients p.cuid) [
        | none ↦ some (dealt, clients)
        | some c ↦
            if g.rounds == 1
            then some (
              record dealt { money = p.money +ℤ fee g c },
              update_client p.cuid (add_money (fee g c)) clients,
            )
            else some (dealt, clients)
      ]

unfoldable pub deal :
    Game → List PlayerInfo → List Client → List ℕ → Option (List PlayerInfo × List Client)
deal g [] clients deck = some ([], clients)
deal g (p ∷ ps) clients deck = do
  (p', clients') ← deal_player g p clients deck
  (ps', clients'') ← deal g ps clients' (drop 13 deck)
  some (p' ∷ ps', clients'')

-- `ClientManager::getByCuid(cuid) != nullptr`.
unfoldable pub is_online : List Client → ℕ → Bool
unfolding get_by_cuid
is_online clients cuid = elim (get_by_cuid clients cuid) [ none ↦ false | some c ↦ true ]

-- The loops that return unless everybody is ready and online, or unless everybody has compared.
unfoldable pub all_ready : List Client → List PlayerInfo → Bool
all_ready clients [] = true
all_ready clients (p ∷ ps) =
    (not (p.cuid == 0) && (is_ready p.status && is_online clients p.cuid)) && all_ready clients ps

unfoldable pub all_compare : List PlayerInfo → Bool
all_compare [] = true
all_compare (p ∷ ps) = (not (p.cuid == 0) && is_compare p.status) && all_compare ps

unfoldable pub may_start : Session → Bool
may_start s =
    if is_prepare s.game.status
    then all_ready s.clients s.game.players
    else if not (is_settle s.game.status)
    then all_compare s.game.players
    else true

-- `std::shuffle` with a random generator: any function, of which the laws assume that it permutes.
module _ (shuffle : List ℕ → List ℕ) where
  -- The round itself, past the checks.
  unfoldable pub start_round : Session → Option Session
  start_round s =
      let g = record (s.game) { rounds = s.game.rounds + 1 } in
      do
        filled ← init_deck g.attr.play_type s.deck
        (players, clients) ← deal g g.players s.clients (shuffle filled)
        some (record {
          clients = clients;
          deck = shuffle filled;
          game = record g { players = players; status = GameStatus.play };
        })

  -- `tryStartRound`.
  unfoldable pub try_start_round : Session → Option Session
  try_start_round s = if may_start s then start_round s else some s
