-- ===== src/Clients/Login.antt =====
-- A login keeps the three maps of the lobby's clients in step (processes/lobby/client_manager.cpp).
use casual_game.Prelude.{
  ℕ, ◌+◌, ◌%◌, ◌^◌, ◌<◌, ◌≡◌, ◌≢◌, ◌∙◌, ◌⊎◌, inl, inr, refl, sym, ap, Option, none, some, List, [],
  ◌∷◌, arith,
}
use casual_game.Componet.FastTravelMap.{find}
use casual_game.Clients.{
  Player, Manager, erase, get_by_openid, Message, client_be_replaced, success, login_new,
  login_again, login_with, login_quest,
}
use casual_game.Clients.Consistent.{
  none_or_other, Key, openid, cuid, ccid, key, table, IsConsistent, insert-free, has_it, keeps,
  with_client-IsConsistent, no_more, stays, same_counter, erase-IsConsistent,
}

-- What a login gives.
pub record LogsIn (open_id connection : ℕ) (m : Manager)
    (after : Manager × List Message × Option Player) : Type 0 where
  pub consistent : IsConsistent after.0
  pub player : Player
  pub its_openid : player.openid ≡ open_id
  pub its_ccid : player.ccid ≡ connection
  pub online : after.2 ≡ some player
  pub messages :
      (after.1 ≡ success player ∷ [])
      ⊎ ((old : Player) × (after.1 ≡ client_be_replaced old ∷ success player ∷ []))
  pub found : (t : Key) → find (key t player) (table t after.0) ≡ some player
  pub others :
      (d : Player)
      → d.openid ≢ open_id
      → find d.openid m.openid2_clients ≡ some d
      → (t : Key) → find (key t d) (table t after.0) ≡ some d

pub all_keys : (P : Key → Type 0) → P openid → P cuid → P ccid → (t : Key) → P t
all_keys P a b c openid = a
all_keys P a b c cuid = b
all_keys P a b c ccid = c

abbrev pub counted_on : Manager → Manager
counted_on m = record m { unique_id_counter = m.unique_id_counter + 1 }

same_tables : (m : Manager) (t : Key) → table t (counted_on m) ≡ table t m
same_tables m openid = refl
same_tables m cuid = refl
same_tables m ccid = refl

pub counted_on-IsConsistent : (m : Manager) → IsConsistent m → IsConsistent (counted_on m)
counted_on-IsConsistent m s = record {
  valid = λ t. rw (same_tables m t) (s.valid t);
  own = λ t k d e. s.own t k d (rw (same_tables m t) at e);
  in_all = λ t u k d e. rw (same_tables m u) (s.in_all t u k d (rw (same_tables m t) at e));
  counted = λ k d e. omega (arith, s.counted k d e);
}

module _ (m : Manager) (s : IsConsistent m) where
  pub new_id : find (m.unique_id_counter + 1) m.cuid2_clients ≡ none
  new_id = by_result (find (m.unique_id_counter + 1) m.cuid2_clients) refl
    where
      by_result :
          (o : Option Player)
          → find (m.unique_id_counter + 1) m.cuid2_clients ≡ o
          → find (m.unique_id_counter + 1) m.cuid2_clients ≡ none
      by_result none e = e
      by_result (some d) e = absurd (omega (arith, s.counted (m.unique_id_counter + 1) d e))

module _ (m : Manager) (s : IsConsistent m) (connection : ℕ)
    (free : find connection m.ccid2_clients ≡ none) where
  login_new-LogsIn :
      (open_id : ℕ)
      → m.unique_id_counter + 1 < 2 ^ 32
      → find open_id m.openid2_clients ≡ none
      → LogsIn open_id connection m (login_new open_id connection m)
  unfolding login_new
  login_new-LogsIn open_id small absent =
      let count : (m.unique_id_counter + 1) % 2 ^ 32 ≡ m.unique_id_counter + 1 =
        omega (arith, small) in
      let c : Player = record {
        openid = open_id;
        cuid = m.unique_id_counter + 1;
        ccid = connection;
      } in
      let s' = counted_on-IsConsistent m s in
      let all_free : (t : Key) → find (key t c) (table t (counted_on m)) ≡ none =
        all_keys (λ t. find (key t c) (table t (counted_on m)) ≡ none) absent (new_id m s) free in
      rw (count, insert-free (counted_on m) s' c all_free)
        (record {
          consistent = with_client-IsConsistent (counted_on m) s' c all_free (omega arith);
          player = c;
          its_openid = refl;
          its_ccid = refl;
          online = refl;
          messages = inl refl;
          found = has_it (counted_on m) s' c all_free;
          others = λ d other e t.
              keeps (counted_on m) s' c all_free t (key t d)
                (rw (same_tables m t) (s.in_all openid t d.openid d e));
        })

  login_again-LogsIn :
      (open_id : ℕ) (c : Player)
      → find open_id m.openid2_clients ≡ some c
      → LogsIn open_id connection m (login_again c connection m)
  unfolding login_again
  login_again-LogsIn open_id c e =
      let c' : Player = record c { ccid = connection } in
      let s' = erase-IsConsistent m s c openid open_id e in
      let stood : (t : Key) → find (key t c) (table t m) ≡ some c =
        λ t. s.in_all openid t open_id c e in
      let other : connection ≢ c.ccid =
        λ (q : connection ≡ c.ccid). none_or_other m.ccid2_clients (stood ccid) free (sym q) in
      let all_free : (t : Key) → find (key t c') (table t (erase c m)) ≡ none =
        all_keys (λ t. find (key t c') (table t (erase c m)) ≡ none) (no_more m s c openid)
          (no_more m s c cuid) (stays m s c ccid connection other ∙ free) in
      rw (insert-free (erase c m) s' c' all_free) (record {
        consistent =
            with_client-IsConsistent (erase c m) s' c' all_free
              (omega (arith, same_counter m s c, s.counted c.cuid c (stood cuid)));
        player = c';
        its_openid = s.own openid open_id c e;
        its_ccid = refl;
        online = refl;
        messages = inr (c, refl);
        found = has_it (erase c m) s' c' all_free;
        others = λ d not_it at t.
            let there = s.in_all openid t d.openid d at in
            let apart : key t d ≢ key t c = λ (q : key t d ≡ key t c).
              let same : d ≡ c = cc (sym there ∙ ap (λ i. find i (table t m)) q ∙ stood t) in
              not_it (ap (λ p. p.openid) same ∙ s.own openid open_id c e) in
            keeps (erase c m) s' c' all_free t (key t d) (stays m s c t (key t d) apart ∙ there);
      })

-- Where the three maps are in step: after a login on a connection that no client has, while the counter does not wrap, the three maps are
-- in step again. The player with the open id is online on the connection and is found by each of its
-- keys; the success is the last message to the gateway, after at most the notice that the player was
-- replaced; and every other player is found by its keys as before.
pub login_quest-LogsIn :
    (m : Manager) (open_id connection : ℕ)
    → IsConsistent m
    → m.unique_id_counter + 1 < 2 ^ 32
    → find connection m.ccid2_clients ≡ none
    → LogsIn open_id connection m (login_quest open_id connection m)
unfolding login_quest get_by_openid login_with
login_quest-LogsIn m open_id connection s small free =
    by_result (find open_id m.openid2_clients) refl
  where
    by_result :
        (o : Option Player)
        → find open_id m.openid2_clients ≡ o
        → LogsIn open_id connection m (login_with o open_id connection m)
    by_result none e = login_new-LogsIn m s connection free open_id small e
    by_result (some c) e = login_again-LogsIn m s connection free open_id c e
