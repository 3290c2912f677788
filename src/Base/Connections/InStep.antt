-- ===== src/Base/Connections/InStep.antt =====
-- The sets of connections in step, and a connection more or less (base/tcp_connection_manager.cpp).
use casual_game.Prelude.{
  ℕ, ◌^◌, ◌≤◌, ◌<◌, ◌≡◌, ◌≢◌, ◌∙◌, ◌⊎◌, inl, inr, sym, ap, Option, none, some, ◌==◌, Bool-cases,
  arith,
}
use casual_game.Base.ProcessId.{ProcessId, set_value}
use casual_game.Base.Connections.{ConnKind, private_type, public_type, Entry, Sets}

-- What a connection is found by, next to its descriptor.
pub data Name : Type 0 where
  process : ℕ → ℕ → Name
  client : ℕ → Name

abbrev pub process_name : ProcessId → Name
process_name p = process p.process_type p.num

abbrev pub name_by : ConnKind → ℕ → Name
name_by private_type id = process_name (set_value id)
name_by public_type id = client id

abbrev pub name_of : Entry → Name
name_of e = name_by e.kind e.id

abbrev pub lookup : Sets → Name → Option Entry
lookup s (process t n) = s.private_conns t n
lookup s (client id) = s.public_conns id

-- The ids of processes have 16 bits, those of clients are above them.
abbrev pub IdFits : ConnKind → ℕ → Type 0
IdFits private_type id = id < 2 ^ 16
IdFits public_type id = 2 ^ 16 ≤ id

-- A connection that is known by its descriptor is known by its name, and the other way round.
pub record InStep (s : Sets) : Type 0 where
  pub known :
      (fd : ℕ) (e : Entry)
      → s.all_conns fd ≡ some e
      → (e.fd ≡ fd) × IdFits e.kind e.id × (lookup s (name_of e) ≡ some e)
  pub named :
      (n : Name) (e : Entry) → lookup s n ≡ some e → (s.all_conns e.fd ≡ some e) × (name_of e ≡ n)

pub number_cases : (a b : ℕ) → (a ≡ b) ⊎ (a ≢ b)
number_cases a b = elim (Bool-cases (a == b)) [
  | inl y ↦ inl (ground (arith, y))
  | inr n ↦ inr (λ e. absurd (ground (arith, n, e)))
]

abbrev type_in : Name → ℕ
type_in (process t n) = t
type_in (client id) = 0

abbrev pub number_in : Name → ℕ
number_in (process t n) = n
number_in (client id) = id

pub name_cases : (a b : Name) → (a ≡ b) ⊎ (a ≢ b)
name_cases (process t n) (client id) = inr (λ e. cc e)
name_cases (client id) (process t n) = inr (λ e. cc e)
name_cases (client id) (client id') = elim (number_cases id id') [
  | inl y ↦ inl (ap client y)
  | inr n ↦ inr (λ e. n (ap number_in e))
]
name_cases (process t n) (process t' n') = elim (number_cases t t') [
  | inr n ↦ inr (λ e. n (ap type_in e))
  | inl y ↦ elim (number_cases n n') [
    | inl z ↦ inl (ap (process t) z ∙ ap (λ u. process u n') y)
    | inr m ↦ inr (λ e. m (ap number_in e))
  ]
]

some_not_none : {e : Entry} {o : Option Entry} → o ≡ some e → o ≢ none
some_not_none h k = cc (sym h ∙ k)

pub same_entry : {e f : Entry} {o : Option Entry} → o ≡ some e → o ≡ some f → e ≡ f
same_entry h k = cc (sym h ∙ k)

-- The sets with one connection changed, at its descriptor and its name.
pub record Changed (s : Sets) (e : Entry) (o : Option Entry) (s' : Sets) : Type 0 where
  pub at_fd : s'.all_conns e.fd ≡ o
  pub at_name : lookup s' (name_of e) ≡ o
  pub other_fd : (fd : ℕ) → fd ≢ e.fd → s'.all_conns fd ≡ s.all_conns fd
  pub other_name : (n : Name) → n ≢ name_of e → lookup s' n ≡ lookup s n

pub added-InStep :
    (s s' : Sets) (e : Entry)
    → InStep s
    → s.all_conns e.fd ≡ none
    → lookup s (name_of e) ≡ none
    → IdFits e.kind e.id
    → Changed s e (some e) s'
    → InStep s'
added-InStep s s' e v free_fd free_name fits c = record {
  known = λ fd f h. elim (number_cases fd e.fd) [
    | inl y ↦
        let same : e ≡ f = same_entry c.at_fd (ap s'.all_conns (sym y) ∙ h) in
        rw (sym same) (sym y, fits, c.at_name)
    | inr n ↦
        let (at, f_fits, there) = v.known fd f (sym (c.other_fd fd n) ∙ h) in
        let apart : name_of f ≢ name_of e =
          λ k. some_not_none there (ap (lookup s) k ∙ free_name) in
        (at, f_fits, c.other_name (name_of f) apart ∙ there)
  ];
  named = λ n f h. elim (name_cases n (name_of e)) [
    | inl y ↦
        let same : e ≡ f = same_entry c.at_name (ap (lookup s') (sym y) ∙ h) in
        rw (sym same) (c.at_fd, sym y)
    | inr m ↦
        let (there, is_n) = v.named n f (sym (c.other_name n m) ∙ h) in
        let apart : f.fd ≢ e.fd = λ k. some_not_none there (ap s.all_conns k ∙ free_fd) in
        (c.other_fd f.fd apart ∙ there, is_n)
  ];
}

pub removed-InStep :
    (s s' : Sets) (e : Entry)
    → InStep s
    → s.all_conns e.fd ≡ some e
    → lookup s (name_of e) ≡ some e
    → Changed s e none s'
    → InStep s'
removed-InStep s s' e v at_fd at_name c = record {
  known = λ fd f h. elim (number_cases fd e.fd) [
    | inl y ↦ absurd (some_not_none h (ap s'.all_conns y ∙ c.at_fd))
    | inr n ↦
        let (at, f_fits, there) = v.known fd f (sym (c.other_fd fd n) ∙ h) in
        let apart : name_of f ≢ name_of e =
          λ k. n (sym at ∙ ap Entry.fd (same_entry there (ap (lookup s) k ∙ at_name))) in
        (at, f_fits, c.other_name (name_of f) apart ∙ there)
  ];
  named = λ n f h. elim (name_cases n (name_of e)) [
    | inl y ↦ absurd (some_not_none h (ap (lookup s') y ∙ c.at_name))
    | inr m ↦
        let (there, is_n) = v.named n f (sym (c.other_name n m) ∙ h) in
        let apart : f.fd ≢ e.fd =
          λ k. m (sym is_n ∙ ap name_of (same_entry there (ap s.all_conns k ∙ at_fd))) in
        (c.other_fd f.fd apart ∙ there, is_n)
  ];
}
