-- ===== src/Clients/Taken.antt =====
-- A login of a new player on a connection that another one has (processes/lobby/client_manager.cpp).
use casual_game.Prelude.{
  ℕ, ◌+◌, ◌%◌, ◌^◌, ◌<◌, ◌≡◌, ◌≢◌, ◌∙◌, refl, ap, false, none, some, [], ◌∷◌, arith,
}
use casual_game.Componet.FastTravelMap.{FastTravelMap, find}
use casual_game.Componet.FastTravelMap
use casual_game.Componet.FastTravelMap.Refinement.{is_none, find-insert}
use casual_game.Clients.{
  Player, Manager, insert, erase, get_by_openid, reg_failed, login_new, login_with, login_quest,
}
use casual_game.Clients.Consistent.{
  none_or_other, openid, cuid, ccid, IsConsistent, insert-Added, erase-Removed,
}
use casual_game.Clients.Login.{new_id}

-- Where the three maps are in step and the counter does not wrap, the login of a new player on a connection that another player has fails, and that player is then not
-- found by the connection any more, but still by its open id.
pub login_quest-drops :
    (m : Manager) (open_id connection : ℕ) (d : Player)
    → IsConsistent m
    → m.unique_id_counter + 1 < 2 ^ 32
    → find open_id m.openid2_clients ≡ none
    → find connection m.ccid2_clients ≡ some d
    → let after = login_quest open_id connection m in
      (after.1
        ≡ reg_failed
            (record { openid = open_id; cuid = m.unique_id_counter + 1; ccid = connection })
          ∷ [])
      × (find connection after.0.ccid2_clients ≡ none)
      × (find d.openid after.0.openid2_clients ≡ some d)
unfolding login_quest get_by_openid login_with login_new insert erase
login_quest-drops m open_id connection d s small absent taken =
    let count : (m.unique_id_counter + 1) % 2 ^ 32 ≡ m.unique_id_counter + 1 =
      omega (arith, small) in
    let c : Player = record {
      openid = open_id;
      cuid = m.unique_id_counter + 1;
      ccid = connection;
    } in
    let by_openid = insert-Added m.openid2_clients open_id c (s.valid openid) absent in
    let by_cuid =
      insert-Added m.cuid2_clients (m.unique_id_counter + 1) c (s.valid cuid) (new_id m s) in
    let (valid, flag, values) = find-insert m.ccid2_clients (s.valid ccid) connection c in
    let refused : (FastTravelMap.insert connection c m.ccid2_clients).1 ≡ false =
      flag ∙ ap is_none taken in
    let once = erase-Removed _ open_id by_openid.valid in
    let twice = erase-Removed _ open_id once.valid in
    let there : find d.openid m.openid2_clients ≡ some d =
      s.in_all ccid openid connection d taken in
    let other : d.openid ≢ open_id = none_or_other m.openid2_clients there absent in
    rw (absent, count, by_openid.flag, by_cuid.flag, refused)
      (
        refl,
        (erase-Removed _ connection valid).gone,
        twice.old d.openid other ∙ once.old d.openid other ∙ by_openid.old d.openid other ∙ there,
      )
