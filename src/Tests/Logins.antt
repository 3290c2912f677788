-- ===== src/Tests/Logins.antt =====
-- Logins of two players.
use casual_game.Prelude.{ℕ, ◌≡◌, refl, none, some, [], ◌∷◌, arith}
use casual_game.Componet.FastTravelMap.{find, find_at, insert_at, create, with_place}
use casual_game.Componet.FastTravelMap
use casual_game.Componet.FastTravelMap.Places.{IsValid, create-IsValid}
use casual_game.Clients.{
  Player, Manager, insert, get_by_openid, reg_failed, login_new, login_with, login_quest,
}
use casual_game.Clients.Consistent.{Key, openid, cuid, ccid, table, IsConsistent}
use casual_game.Clients.Login.{LogsIn, all_keys, login_quest-LogsIn}
use casual_game.Clients.Taken.{login_quest-drops}

abbrev nobody : Manager
nobody = record {
  openid2_clients = create;
  cuid2_clients = create;
  ccid2_clients = create;
  unique_id_counter = 0;
}

no_client : (t : Key) (k : ℕ) (c : Player) → find k (table t nobody) ≡ some c → ⊥
unfolding create find find_at
no_client openid k c e = cc e
no_client cuid k c e = cc e
no_client ccid k c e = cc e

nobody-IsConsistent : IsConsistent nobody
nobody-IsConsistent = record {
  valid = all_keys (λ t. IsValid (table t nobody)) create-IsValid create-IsValid create-IsValid;
  own = λ t k c e. absurd (no_client t k c e);
  in_all = λ t u k c e. absurd (no_client t k c e);
  counted = λ k c e. absurd (no_client cuid k c e);
}

abbrev first : Player
first = record { openid = 5; cuid = 1; ccid = 9 }

-- After the first login.
abbrev one : Manager
one = (login_quest 5 9 nobody).0

one-LogsIn : LogsIn 5 9 nobody (login_quest 5 9 nobody)
unfolding create find find_at
one-LogsIn = login_quest-LogsIn nobody 5 9 nobody-IsConsistent (omega arith) refl

login_quest-LogsIn_example : LogsIn 5 10 one (login_quest 5 10 one)
unfolding create find find_at login_quest login_with login_new get_by_openid insert
    FastTravelMap.insert insert_at
login_quest-LogsIn_example = login_quest-LogsIn one 5 10 one-LogsIn.consistent (omega arith) refl

login_quest-drops_example :
    let after = login_quest 6 9 one in
    (after.1 ≡ reg_failed (record { openid = 6; cuid = 2; ccid = 9 }) ∷ [])
    × (find 9 after.0.ccid2_clients ≡ none)
    × (find 5 after.0.openid2_clients ≡ some first)
unfolding create find find_at login_quest login_with login_new get_by_openid insert
    FastTravelMap.insert insert_at
login_quest-drops_example =
    login_quest-drops one 6 9 first one-LogsIn.consistent (omega arith) refl refl
