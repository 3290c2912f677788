-- ===== src/Base/Checker/Stages.antt =====
-- What a connection has received and sent at each state of its check
-- (base/private_connection_checker.cpp).
use casual_game.Prelude.{
  ℕ, ◌≡◌, ◌∙◌, refl, sym, ap, Bool, true, List, [], ◌∷◌, ◌++◌, length, take, drop, append_nil,
}
use casual_game.Net.ConnectionBuffer.Contents.{contents, IsValid}
use casual_game.Base.ProcessId.{ProcessId, is_valid, id_bytes, read_id}
use casual_game.Base.Checker.{
  ConnType, incoming, outgoing, ConnState, recv_id, send_ret, send_id, recv_ret, ConnInfo, Visit,
  kept, confirmed, dropped, ret_bytes, first_result,
}

abbrev pub type_of : ConnState → ConnType
type_of recv_id = incoming
type_of send_ret = incoming
type_of send_id = outgoing
type_of recv_ret = outgoing

abbrev pub Buffers : ConnInfo → Type 0
Buffers c = IsValid c.conn.recv_buf × IsValid c.conn.send_buf

-- What came in began with some bytes, and the rest is in the buffer.
abbrev pub Began : List ℕ → ConnInfo → Type 0
Began first c = c.conn.came_in ≡ first ++ contents c.conn.recv_buf

-- All that is to be sent so far has gone out or is in the buffer.
abbrev pub Sending : List ℕ → ConnInfo → Type 0
Sending bytes c = c.conn.went_out ++ contents c.conn.send_buf ≡ bytes

pub length-ret_bytes :
    (pid : ProcessId) (result : Bool) (padding : ℕ × ℕ × ℕ)
    → length (ret_bytes pid result padding) ≡ 12
unfolding ret_bytes id_bytes
length-ret_bytes pid result (a, b, c) = refl

pub joined :
    (out held new bytes : List ℕ) → out ++ held ≡ [] → new ≡ held ++ bytes → out ++ new ≡ bytes
joined [] held new bytes h e = e ∙ ap (λ xs. xs ++ bytes) h
joined (x ∷ out) held new bytes h e = absurd (cc h)

pub sent_whole :
    {bytes : List ℕ} (c : ConnInfo)
    → Sending bytes c
    → contents c.conn.send_buf ≡ []
    → c.conn.went_out ≡ bytes
sent_whole c sending gone =
    sym (append_nil c.conn.went_out) ∙ ap (λ xs. c.conn.went_out ++ xs) (sym gone) ∙ sending

module _ (names : List (List ℕ)) (own : ProcessId) (padding : ℕ × ℕ × ℕ) where
  abbrev pub Stage : ConnState → ConnInfo → Type 0
  Stage recv_id c = Buffers c × Began [] c × Sending [] c
  Stage send_ret c =
      Buffers c
      × (c.check_result ≡ is_valid names c.remote_id)
      × Sending (ret_bytes own c.check_result padding) c
      × ((first : List ℕ) × (length first ≡ 8) × Began first c × (c.remote_id ≡ read_id first))
  Stage send_id c = Buffers c × Began [] c × Sending (id_bytes own) c
  Stage recv_ret c =
      Buffers c × Began [] c × Sending (id_bytes own) c × (contents c.conn.send_buf ≡ [])

  -- A connection that is confirmed: who came in gave a valid id in its first eight bytes, and has the
  -- whole reply that it is accepted; who was called has the whole id of this process, and its first
  -- twelve bytes were its id and that it accepts. What came behind these bytes is in the buffer.
  abbrev pub Greeted : ConnType → ConnInfo → Type 0
  Greeted incoming c =
      (first : List ℕ) × (length first ≡ 8)
      × Began first c
      × (c.remote_id ≡ read_id first)
      × (is_valid names c.remote_id ≡ true)
      × (c.conn.went_out ≡ ret_bytes own true padding)
  Greeted outgoing c =
      (first : List ℕ) × (length first ≡ 12)
      × Began first c
      × (c.remote_id ≡ read_id (take 8 first))
      × (first_result (drop 8 first) ≡ true)
      × (c.conn.went_out ≡ id_bytes own)

  abbrev pub Ends : ConnType → Visit → Type 0
  Ends type (kept c) = (s : ConnState) × (c.state ≡ s) × (type_of s ≡ type) × Stage s c
  Ends type (confirmed c) = Greeted type c
  Ends type dropped = Unit
