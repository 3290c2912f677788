-- ===== src/Base/Connections/Changes.antt =====
-- The sets of connections with an entry more or less (base/tcp_connection_manager.cpp).
use casual_game.Prelude.{
  ℕ, ◌≡◌, ◌≢◌, ◌∙◌, inl, inr, refl, sym, ap, false, ◌&&◌, Option, none, ◌==◌, Bool-cases, arith,
}
use casual_game.Base.ProcessId.{ProcessId, set_value}
use casual_game.Base.Connections.{private_type, public_type, Entry, Sets, with_entry, with_private}
use casual_game.Base.Connections.InStep.{
  Name, process, client, name_by, name_of, process_name, lookup, InStep, Changed, number_cases,
}

with_entry_self : (k : ℕ) (o : Option Entry) (f : ℕ → Option Entry) → with_entry k o f k ≡ o
with_entry_self k o f = ground arith

with_entry-other :
    (k j : ℕ) (o : Option Entry) (f : ℕ → Option Entry) → j ≢ k → with_entry k o f j ≡ f j
with_entry-other k j o f n = let apart : (j == k) ≡ false = ground (arith, n) in rw apart refl

with_private_self :
    (p : ProcessId) (o : Option Entry) (f : ℕ → ℕ → Option Entry)
    → with_private p o f p.process_type p.num ≡ o
with_private_self p o f = ground arith

with_private-other :
    (p : ProcessId) (t n : ℕ) (o : Option Entry) (f : ℕ → ℕ → Option Entry)
    → process t n ≢ process_name p
    → with_private p o f t n ≡ f t n
with_private-other p t n o f apart = elim (number_cases t p.process_type) [
  | inr m ↦ let no : (t == p.process_type) ≡ false = ground (arith, m) in rw no refl
  | inl y ↦ elim (number_cases n p.num) [
    | inr m ↦
        let no : (n == p.num) ≡ false = ground (arith, m) in
        elim (Bool-cases (t == p.process_type)) [ inl z ↦ rw (z, no) refl | inr z ↦ rw z refl ]
    | inl z ↦ absurd (apart (ap (process t) z ∙ ap (λ u. process u p.num) y))
  ]
]

-- The sets with `o` for a connection of a process, or of a client.
pub set_private-Changed :
    (s : Sets) (e : Entry) (p : ProcessId) (o : Option Entry)
    → e.kind ≡ private_type
    → set_value e.id ≡ p
    → Changed s e o (record s {
      all_conns = with_entry e.fd o s.all_conns;
      private_conns = with_private p o s.private_conns;
    })
set_private-Changed s e p o kind same =
    let name : name_of e ≡ process_name p = ap (λ k. name_by k e.id) kind ∙ ap process_name same in
    record {
      at_fd = with_entry_self e.fd o s.all_conns;
      at_name = rw name (with_private_self p o s.private_conns);
      other_fd = λ fd n. with_entry-other e.fd fd o s.all_conns n;
      other_name = λ n apart. by_name n (λ k. apart (k ∙ sym name));
    }
  where
    by_name :
        (n : Name)
        → n ≢ process_name p
        → lookup
            (record s {
              all_conns = with_entry e.fd o s.all_conns;
              private_conns = with_private p o s.private_conns;
            })
            n
          ≡ lookup s n
    by_name (process t n) apart = with_private-other p t n o s.private_conns apart
    by_name (client id) apart = refl

pub set_public-Changed :
    (s : Sets) (e : Entry) (o : Option Entry)
    → e.kind ≡ public_type
    → Changed s e o (record s {
      all_conns = with_entry e.fd o s.all_conns;
      public_conns = with_entry e.id o s.public_conns;
    })
set_public-Changed s e o kind =
    let name : name_of e ≡ client e.id = ap (λ k. name_by k e.id) kind in
    record {
      at_fd = with_entry_self e.fd o s.all_conns;
      at_name = rw name (with_entry_self e.id o s.public_conns);
      other_fd = λ fd n. with_entry-other e.fd fd o s.all_conns n;
      other_name = λ n apart. by_name n (λ k. apart (k ∙ sym name));
    }
  where
    by_name :
        (n : Name)
        → n ≢ client e.id
        → lookup
            (record s {
              all_conns = with_entry e.fd o s.all_conns;
              public_conns = with_entry e.id o s.public_conns;
            })
            n
          ≡ lookup s n
    by_name (process t n) apart = refl
    by_name (client id) apart = with_entry-other e.id id o s.public_conns (λ k. apart (ap client k))

-- Sets that have the same connections.
pub same-InStep :
    (s s' : Sets)
    → InStep s
    → ((fd : ℕ) → s'.all_conns fd ≡ s.all_conns fd)
    → ((n : Name) → lookup s' n ≡ lookup s n)
    → InStep s'
same-InStep s s' v fds names = record {
  known = λ fd e h.
      let (at, fits, there) = v.known fd e (sym (fds fd) ∙ h) in
      (at, fits, names (name_of e) ∙ there);
  named = λ n e h. let (there, is_n) = v.named n e (sym (names n) ∙ h) in (fds e.fd ∙ there, is_n);
}

-- What was put where nothing was is taken back.
pub with_entry-back :
    (k : ℕ) (o : Option Entry) (f : ℕ → Option Entry)
    → f k ≡ none
    → (j : ℕ) → with_entry k none (with_entry k o f) j ≡ f j
with_entry-back k o f free j = elim (number_cases j k) [
  | inl y ↦ with_entry-at y ∙ sym (ap f y ∙ free)
  | inr n ↦ with_entry-other k j none (with_entry k o f) n ∙ with_entry-other k j o f n
]
  where
    with_entry-at : j ≡ k → with_entry k none (with_entry k o f) j ≡ none
    with_entry-at y =
        ap (with_entry k none (with_entry k o f)) y ∙ with_entry_self k none (with_entry k o f)

pub with_private-back :
    (p : ProcessId) (o : Option Entry) (f : ℕ → ℕ → Option Entry)
    → f p.process_type p.num ≡ none
    → (t n : ℕ) → with_private p none (with_private p o f) t n ≡ f t n
with_private-back p o f free t n = elim (Bool-cases ((t == p.process_type) && (n == p.num))) [
  | inl y ↦
      let same_type : t ≡ p.process_type = ground (arith, y) in
      let same_num : n ≡ p.num = ground (arith, y) in
      rw y (sym (ap (λ u. f u n) same_type ∙ ap (f p.process_type) same_num ∙ free))
  | inr m ↦ rw m refl
]
