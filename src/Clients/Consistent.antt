-- ===== src/Clients/Consistent.antt =====
-- The three maps of the lobby's clients in step, and a client more or less (processes/lobby/client_manager.cpp).
use casual_game.Prelude.{
  ℕ, ◌≤◌, ◌≡◌, ◌≢◌, ◌∙◌, ◌⊎◌, inl, inr, refl, sym, ap, true, false, none, some, ◌==◌, Bool-cases,
  arith,
}
use casual_game.Componet.FastTravelMap.{FastTravelMap, find}
use casual_game.Componet.FastTravelMap
use casual_game.Componet.FastTravelMap.Places.{IsValid}
use casual_game.Componet.FastTravelMap.Refinement.{is_none, find-insert, find-erase}
use casual_game.Clients.{Player, Manager, insert, erase}

-- A map with a value for a new key.
pub record Added (f : FastTravelMap Player) (k : ℕ) (c : Player) : Type 0 where
  pub valid : IsValid (FastTravelMap.insert k c f).0
  pub flag : (FastTravelMap.insert k c f).1 ≡ true
  pub self : find k (FastTravelMap.insert k c f).0 ≡ some c
  pub old : (j : ℕ) → j ≢ k → find j (FastTravelMap.insert k c f).0 ≡ find j f

pub insert-Added :
    (f : FastTravelMap Player) (k : ℕ) (c : Player) → IsValid f → find k f ≡ none → Added f k c
insert-Added f k c s free =
    let (valid, flag, values) = find-insert f s k c in
    record {
      valid = valid;
      flag = flag ∙ ap is_none free;
      self = values k ∙ rw free (ground arith);
      old = λ j other.
          let apart : (j == k) ≡ false = ground (arith, other) in values j ∙ rw apart refl;
    }

pub record Removed (f : FastTravelMap Player) (k : ℕ) : Type 0 where
  pub valid : IsValid (FastTravelMap.erase k f)
  pub gone : find k (FastTravelMap.erase k f) ≡ none
  pub old : (j : ℕ) → j ≢ k → find j (FastTravelMap.erase k f) ≡ find j f

pub erase-Removed : (f : FastTravelMap Player) (k : ℕ) → IsValid f → Removed f k
erase-Removed f k s =
    let (valid, values) = find-erase f s k in
    record {
      valid = valid;
      gone = values k ∙ ground arith;
      old = λ j other.
          let apart : (j == k) ≡ false = ground (arith, other) in values j ∙ rw apart refl;
    }

pub data Key : Type 0 where
  openid cuid ccid : Key

abbrev pub key : Key → Player → ℕ
key openid c = c.openid
key cuid c = c.cuid
key ccid c = c.ccid

abbrev pub table : Key → Manager → FastTravelMap Player
table openid m = m.openid2_clients
table cuid m = m.cuid2_clients
table ccid m = m.ccid2_clients

-- Each map has a client under its own key, and every client of one map is in all three; the counter
-- has passed every id that is in use.
pub record IsConsistent (m : Manager) : Type 0 where
  pub valid : (t : Key) → IsValid (table t m)
  pub own : (t : Key) (k : ℕ) (c : Player) → find k (table t m) ≡ some c → key t c ≡ k
  pub in_all :
      (t u : Key) (k : ℕ) (c : Player)
      → find k (table t m) ≡ some c
      → find (key u c) (table u m) ≡ some c
  pub counted : (k : ℕ) (c : Player) → find k m.cuid2_clients ≡ some c → k ≤ m.unique_id_counter

pub none_or_other :
    (f : FastTravelMap Player) {j k : ℕ} {d : Player} → find j f ≡ some d → find k f ≡ none → j ≢ k
none_or_other f e free q = cc (sym e ∙ ap (λ i. find i f) q ∙ free)

-- The three maps with one client more.
abbrev pub with_client : Player → Manager → Manager
with_client c m = record m {
  openid2_clients = (FastTravelMap.insert c.openid c m.openid2_clients).0;
  cuid2_clients = (FastTravelMap.insert c.cuid c m.cuid2_clients).0;
  ccid2_clients = (FastTravelMap.insert c.ccid c m.ccid2_clients).0;
}

module _ (m : Manager) (s : IsConsistent m) (c : Player) where
  module _ (free : (t : Key) → find (key t c) (table t m) ≡ none) where
    added : (t : Key) → Added (table t m) (key t c) c
    added t = insert-Added (table t m) (key t c) c (s.valid t) (free t)

    pub insert-free : insert c m ≡ (with_client c m, true)
    unfolding insert
    insert-free = rw ((added openid).flag, (added cuid).flag, (added ccid).flag) refl

    table_with :
        (t : Key) → table t (with_client c m) ≡ (FastTravelMap.insert (key t c) c (table t m)).0
    table_with openid = refl
    table_with cuid = refl
    table_with ccid = refl

    pub has_it : (t : Key) → find (key t c) (table t (with_client c m)) ≡ some c
    has_it t = rw (table_with t) (added t).self

    pub keeps :
        (t : Key) (k : ℕ) {d : Player}
        → find k (table t m) ≡ some d
        → find k (table t (with_client c m)) ≡ some d
    keeps t k e = rw (table_with t) ((added t).old k (none_or_other (table t m) e (free t)) ∙ e)

    -- A client of the maps with one more is that one, or was there.
    one_more :
        (t : Key) (k : ℕ) (d : Player)
        → find k (table t (with_client c m)) ≡ some d
        → ((k ≡ key t c) × (c ≡ d)) ⊎ (find k (table t m) ≡ some d)
    one_more t k d e =
        let e' : find k (FastTravelMap.insert (key t c) c (table t m)).0 ≡ some d =
          rw (table_with t) at e in
        elim (Bool-cases (k == key t c)) [
          | inl y ↦
              let same : k ≡ key t c = ground (arith, y) in
              inl (
                same,
                cc (
                    sym (added t).self
                    ∙ ap (λ i. find i (FastTravelMap.insert (key t c) c (table t m)).0) (sym same)
                    ∙ e'),
              )
          | inr n ↦
              inr (sym ((added t).old k (λ (q : k ≡ key t c). absurd (ground (arith, n, q)))) ∙ e')
        ]

    pub with_client-IsConsistent : c.cuid ≤ m.unique_id_counter → IsConsistent (with_client c m)
    with_client-IsConsistent counted = record {
      valid = λ t. rw (table_with t) (added t).valid;
      own = λ t k d e. elim (one_more t k d e) [
        | inl (at, same) ↦ ap (key t) (sym same) ∙ sym at
        | inr before ↦ s.own t k d before
      ];
      in_all = λ t u k d e. elim (one_more t k d e) [
        | inl (at, same) ↦ rw (← same) (has_it u)
        | inr before ↦ keeps u (key u d) (s.in_all t u k d before)
      ];
      counted = λ k d e. elim (one_more cuid k d e) [
        | inl (at, same) ↦ omega (arith, at, counted)
        | inr before ↦ s.counted k d before
      ];
    }

  table-erase : (t : Key) → table t (erase c m) ≡ FastTravelMap.erase (key t c) (table t m)
  unfolding erase
  table-erase openid = refl
  table-erase cuid = refl
  table-erase ccid = refl

  removed : (t : Key) → Removed (table t m) (key t c)
  removed t = erase-Removed (table t m) (key t c) (s.valid t)

  pub no_more : (t : Key) → find (key t c) (table t (erase c m)) ≡ none
  no_more t = rw (table-erase t) (removed t).gone

  -- A client of the maps with one less was there, under another key.
  was_there :
      (t : Key) (k : ℕ) (d : Player)
      → find k (table t (erase c m)) ≡ some d
      → (k ≢ key t c) × (find k (table t m) ≡ some d)
  was_there t k d e =
      let other : k ≢ key t c = none_or_other (table t (erase c m)) e (no_more t) in
      let e' : find k (FastTravelMap.erase (key t c) (table t m)) ≡ some d =
        rw (table-erase t) at e in
      (other, sym ((removed t).old k other) ∙ e')

  pub stays : (t : Key) (k : ℕ) → k ≢ key t c → find k (table t (erase c m)) ≡ find k (table t m)
  stays t k other = rw (table-erase t) ((removed t).old k other)

  pub same_counter : (erase c m).unique_id_counter ≡ m.unique_id_counter
  unfolding erase
  same_counter = refl

  pub erase-IsConsistent :
      (t : Key) (k : ℕ) → find k (table t m) ≡ some c → IsConsistent (erase c m)
  erase-IsConsistent u l there = record {
    valid = λ t. rw (table-erase t) (removed t).valid;
    own = λ t k d e. s.own t k d (was_there t k d e).1;
    in_all = λ t v k d e.
        let (not_c, before) = was_there t k d e in
        let stood = s.in_all t v k d before in
        let other : key v d ≢ key v c = λ (q : key v d ≡ key v c).
          let same : d ≡ c =
            cc (sym stood ∙ ap (λ i. find i (table v m)) q ∙ s.in_all u v l c there) in
          not_c (sym (s.own t k d before) ∙ ap (key t) same) in
        stays v (key v d) other ∙ stood;
    counted = λ k d e. omega (arith, same_counter, s.counted k d (was_there cuid k d e).1);
  }
