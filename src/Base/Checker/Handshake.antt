-- ===== src/Base/Checker/Handshake.antt =====
-- Which connections are confirmed, on either side (base/private_connection_checker.cpp).
use mathlib.Core.Path.{subst}
use mathlib.Core.List.{append_assoc}
use casual_game.Prelude.{
  ℕ, ◌<◌, ◌^◌, ◌≡◌, ◌∙◌, refl, sym, ap, inl, inr, Bool, true, List, [], ◌∷◌, ◌++◌, length, take,
  ltb, Bool-cases, take_append_self,
}
use casual_game.Net.ConnectionBuffer
use casual_game.Net.ConnectionBuffer.{ConnectionBuffer, readable, writeable, Received}
use casual_game.Net.ConnectionBuffer.Contents.{contents, create-IsValid}
use casual_game.Base.ProcessId.{ProcessId, is_valid, id_bytes, read_id, read_id-id_bytes}
use casual_game.Base.Checker.{
  ConnType, incoming, outgoing, ConnState, recv_id, send_ret, send_id, recv_ret, ConnInfo, Answers,
  Visit, kept, confirmed, dropped, ret_bytes, fresh, add_unchecked_connection, visit_in, visits,
}
use casual_game.Base.Checker.Flow.{put_bytes-contents}
use casual_game.Base.Checker.Stages.{type_of, Stage, Greeted, Ends, length-ret_bytes, joined}
use casual_game.Base.Checker.Incoming.{ret_sent-Ends, id_came-Ends}
use casual_game.Base.Checker.Outgoing.{ret_came-Ends, id_sent-Ends}

contents-create : (size : ℕ) → contents (ConnectionBuffer.create size) ≡ []
unfolding ConnectionBuffer.create
contents-create size = refl

length-id_bytes : (p : ProcessId) → length (id_bytes p) ≡ 8
unfolding id_bytes
length-id_bytes p = refl

module _ (names : List (List ℕ)) (own : ProcessId) (padding : ℕ × ℕ × ℕ) where
  visit_in-Ends :
      (type : ConnType) (a : Answers) (c : ConnInfo)
      → Ends names own padding type (kept c)
      → Ends names own padding type (visit_in names own padding a c c.state)
  unfolding visit_in
  visit_in-Ends type a c (s, at, of_type, stage) =
      subst (λ z. Ends names own padding type (visit_in names own padding a c z)) (sym at)
        (by_state s type at of_type stage)
    where
      by_state :
          (s : ConnState) (type : ConnType)
          → c.state ≡ s
          → type_of s ≡ type
          → Stage names own padding s c
          → Ends names own padding type (visit_in names own padding a c s)
      by_state recv_id type at of_type stage =
          rw (sym of_type) (id_came-Ends names own padding c a at stage)
      by_state send_ret type at of_type stage =
          rw (sym of_type) (ret_sent-Ends names own padding c a.on_send at stage)
      by_state send_id type at of_type stage =
          rw (sym of_type) (id_sent-Ends names own padding c a at stage)
      by_state recv_ret type at of_type stage =
          rw (sym of_type) (ret_came-Ends names own padding c a.on_recv at stage)

  visits-Ends :
      (type : ConnType) (answers : List Answers) (v : Visit)
      → Ends names own padding type v
      → Ends names own padding type (visits names own padding answers v)
  unfolding visits
  visits-Ends type [] v h = h
  visits-Ends type (a ∷ answers) (kept c) h =
      visits-Ends type answers (visit_in names own padding a c c.state) (visit_in-Ends type a c h)
  visits-Ends type (a ∷ answers) (confirmed c) h = h
  visits-Ends type (a ∷ answers) dropped h = h

  add_unchecked_connection-Ends :
      (unset : Bool) (type : ConnType) (size : ℕ)
      → size < 2 ^ 32
      → Ends names own padding type (add_unchecked_connection own unset (fresh size) type)
  unfolding add_unchecked_connection
  add_unchecked_connection-Ends unset incoming size small =
      let v = create-IsValid size small in
      let empty = contents-create size in (recv_id, refl, refl, ((v, v), sym empty, empty))
  add_unchecked_connection-Ends unset outgoing size small =
      let v = create-IsValid size small in
      let empty = contents-create size in
      elim (Bool-cases (ltb (writeable 8 (ConnectionBuffer.create size)).1 8)) [
        | inl y ↦ rw y tt
        | inr n ↦
            let (v', out) =
              put_bytes-contents (id_bytes own) 8 (ConnectionBuffer.create size) v
                (length-id_bytes own) n in
            rw n (send_id, refl, refl, ((v, v'), sym empty, joined [] _ _ (id_bytes own) empty out))
      ]

  -- On buffers below 2^32 bytes, and whatever the sockets answer: a connection that came in is confirmed
  -- only with the id that its first eight bytes give, which is valid, and after the whole reply went out;
  -- a connection to another process only with the id in the first twelve bytes that came, which say that
  -- it accepts, and after this process's id went out. What came behind these bytes is kept.
  pub visits-Greeted :
      (unset : Bool) (type : ConnType) (size : ℕ) (answers : List Answers) (c : ConnInfo)
      → size < 2 ^ 32
      → visits names own padding answers (add_unchecked_connection own unset (fresh size) type)
        ≡ confirmed c
      → Greeted names own padding type c
  visits-Greeted unset type size answers c small e = rw e at (
      visits-Ends type answers (add_unchecked_connection own unset (fresh size) type)
        (add_unchecked_connection-Ends unset type size small))

same_front :
    (xs ys rest others : List ℕ) → length xs ≡ length ys → xs ++ rest ≡ ys ++ others → xs ≡ ys
same_front xs ys rest others same e =
    sym (take_append_self xs rest) ∙ rw same (ap (take (length ys)) e ∙ take_append_self ys others)

began_with :
    (first rest on_way came bytes out later : List ℕ)
    → came ≡ first ++ rest
    → out ≡ bytes
    → length first ≡ length bytes
    → came ++ on_way ≡ out ++ later
    → first ≡ bytes
began_with first rest on_way came bytes out later began whole same e =
    same_front first bytes (rest ++ on_way) later same
      (sym (append_assoc first rest on_way) ∙ rw (began, whole) at e)

reply-read_id :
    (q : ProcessId) (padding : ℕ × ℕ × ℕ)
    → q.process_type < 2 ^ 32
    → q.num < 2 ^ 32
    → read_id (take 8 (ret_bytes q true padding)) ≡ q
unfolding ret_bytes id_bytes
reply-read_id q (x, y, z) h k = read_id-id_bytes q [] h k

-- Where a process p calls a process q, on buffers below 2^32 bytes, the words of their ids below 2^32, and
-- the sockets give on either side a beginning of what the other side sends, in its order: if both confirm
-- the connection, p knows it as that of q, q knows it as that of p, and q holds the id of p for valid.
pub visits-agree :
    (names names' : List (List ℕ)) (p q : ProcessId) (padding padding' : ℕ × ℕ × ℕ)
    (unset unset' : Bool) (size size' : ℕ) (answers answers' : List Answers) (c d : ConnInfo)
    (on_way later on_way' later' : List ℕ)
    → size < 2 ^ 32
    → size' < 2 ^ 32
    → (p.process_type < 2 ^ 32) × (p.num < 2 ^ 32)
    → (q.process_type < 2 ^ 32) × (q.num < 2 ^ 32)
    → visits names p padding answers (add_unchecked_connection p unset (fresh size) outgoing)
      ≡ confirmed c
    → visits names' q padding' answers' (add_unchecked_connection q unset' (fresh size') incoming)
      ≡ confirmed d
    → c.conn.came_in ++ on_way ≡ d.conn.went_out ++ later
    → d.conn.came_in ++ on_way' ≡ c.conn.went_out ++ later'
    → (c.remote_id ≡ q) × (d.remote_id ≡ p) × (is_valid names' p ≡ true)
unfolding id_bytes
visits-agree names names' p q padding padding' unset unset' size size' answers answers' c d on_way
      later on_way' later' small small' (pt, pn) (qt, qn) e e' to_p to_q =
    let (first, count, began, remote, _, out) =
      visits-Greeted names p padding unset outgoing size answers c small e in
    let (first', count', began', remote', valid', out') =
      visits-Greeted names' q padding' unset' incoming size' answers' d small' e' in
    let reply =
      began_with first (contents c.conn.recv_buf) on_way c.conn.came_in (ret_bytes q true padding')
        d.conn.went_out later began out' (count ∙ sym (length-ret_bytes q true padding')) to_p in
    let greeting =
      began_with first' (contents d.conn.recv_buf) on_way' d.conn.came_in (id_bytes p)
        c.conn.went_out later' began' out (count' ∙ sym (length-id_bytes p)) to_q in
    let is_p : d.remote_id ≡ p = remote' ∙ ap read_id greeting ∙ read_id-id_bytes p [] pt pn in
    (
      remote ∙ ap (λ xs. read_id (take 8 xs)) reply ∙ reply-read_id q padding' qt qn,
      is_p,
      sym (ap (is_valid names') is_p) ∙ valid',
    )
