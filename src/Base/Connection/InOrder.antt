-- ===== src/Base/Connection/InOrder.antt =====
-- The packets that a connection puts into the queue are those that were sent, in their order, in whatever
-- portions the bytes come (the event `read`, base/tcp_connection_manager.cpp).
use mathlib.Core.Path.{subst}
use mathlib.Core.List.{append_assoc}
use casual_game.Prelude.{
  ℕ, ◌-◌, ◌+◌, ◌≡◌, ◌∙◌, refl, sym, ap, Bool, true, false, Option, none, some, List, [], ◌∷◌, ◌++◌,
  length, if◌then◌else◌, arith,
}
use casual_game.Net.ConnectionBuffer.{received}
use casual_game.Net.ConnectionBuffer.Contents.{IsValid}
use casual_game.Net.TcpPacket.{Packet}
use casual_game.Net.TcpPacket.Parsing.{frame}
use casual_game.Base.Connection.{
  Holder, Turn, stop, pushed, hang_up, read_turn, turns_after, Answer, read_loop,
}
use casual_game.Base.Connection.Receiving.{Small, Awaits, Delivered, Outcome, read_turn-Outcome}
use casual_game.Base.Connection.Trace.{
  Trace, GoesIn, read_turn-GoesIn, trace_after, loop_trace, arrives, pushes,
}

abbrev pub frames : List (List ℕ) → List Packet
frames [] = []
frames (c ∷ cs) = frame c ∷ frames cs

-- The packets that are marked.
abbrev pub chosen : List Bool → List Packet → List Packet
chosen (true ∷ marks) (p ∷ packets) = p ∷ chosen marks packets
chosen (false ∷ marks) (p ∷ packets) = chosen marks packets
chosen _ _ = []

-- The packets are those of the first ones sent for which there was room, and what was sent behind these
-- first ones is awaited while the connection lasts.
pub record InOrder (cs : List (List ℕ)) (future : List ℕ) (room : List Bool) (packets : List Packet)
    (last : Option Holder) : Type 0 where
  pub come : List (List ℕ)
  pub ahead : List (List ℕ)
  pub all : cs ≡ come ++ ahead
  pub counted : length room ≡ length come
  pub packets_in : packets ≡ chosen room (frames come)
  pub waits : (h : Holder) → last ≡ some h → IsValid h.recv_buf × Awaits ahead future h

pub nothing_come :
    (cs : List (List ℕ)) (future : List ℕ) (last : Option Holder)
    → ((h : Holder) → last ≡ some h → IsValid h.recv_buf × Awaits cs future h)
    → InOrder cs future [] [] last
nothing_come cs future last waits = record {
  come = [];
  ahead = cs;
  all = refl;
  counted = refl;
  packets_in = refl;
  waits = waits;
}

pub waits_at :
    (cs : List (List ℕ)) (future : List ℕ) (h : Holder)
    → IsValid h.recv_buf × Awaits cs future h
    → (h' : Holder) → some h ≡ some h'
    → IsValid h'.recv_buf × Awaits cs future h'
waits_at cs future h v h' e =
    subst (λ o. IsValid o.recv_buf × Awaits cs future o) (ground (arith, e)) v

-- One more packet, with or without room for it.
pushed-InOrder :
    (cs : List (List ℕ)) (future next : List ℕ) (p : Packet) (h : Holder) (room : Bool)
    (rooms : List Bool) (packets : List Packet) (last : Option Holder)
    → Small cs
    → Delivered cs next p h
    → ((rest : List (List ℕ))
        → Small rest
        → IsValid h.recv_buf
        → Awaits rest next h
        → InOrder rest future rooms packets last)
    → InOrder cs future (room ∷ rooms) (if room then p ∷ packets else packets) last
unfolding Delivered
pushed-InOrder [] future next p h room rooms packets last small d go_on = absurd d
pushed-InOrder (c ∷ cs) future next p h room rooms packets last (_, small) (same, valid, at) go_on =
    let i = go_on cs small valid at in
    record {
      come = c ∷ i.come;
      ahead = i.ahead;
      all = ap (◌∷◌ c) i.all;
      counted = omega (arith, i.counted);
      packets_in = by_room i.come room i.packets_in;
      waits = i.waits;
    }
  where
    by_room :
        (come : List (List ℕ)) (room : Bool)
        → packets ≡ chosen rooms (frames come)
        → (if room then p ∷ packets else packets) ≡ chosen (room ∷ rooms) (frames (c ∷ come))
    by_room come true e = ap (λ q. q ∷ packets) same ∙ ap (◌∷◌ (frame c)) e
    by_room come false e = e

pub loop-InOrder :
    (answers : List Answer) (waiting : ℕ) (cs : List (List ℕ)) (future : List ℕ) (h : Holder)
    → Small cs
    → IsValid h.recv_buf
    → Awaits cs (arrives (loop_trace answers waiting h) ++ future) h
    → let (packets, last) = read_loop answers waiting h in
      InOrder cs future (pushes (loop_trace answers waiting h)) packets last
unfolding read_loop turns_after loop_trace trace_after Outcome
loop-InOrder [] waiting cs future h small v at =
    nothing_come cs future (some h) (waits_at cs future h (v, at))
loop-InOrder (a ∷ answers) waiting cs future h small v at =
    by_turn (loop-InOrder answers) (read_turn a.on_recv left h) outcome
      (read_turn-GoesIn a.on_recv left h)
  where
    left : ℕ
    left = waiting - a.taken

    tail : Turn → Trace
    tail = trace_after (loop_trace answers) left

    outcome :
        Outcome cs
          (arrives (tail (read_turn a.on_recv left h)) ++ future)
          (read_turn a.on_recv left h)
    outcome = read_turn-Outcome a.on_recv cs _ left h small v (
        subst (λ l. Awaits cs l h)
          (append_assoc (received a.on_recv h.recv_buf)
            (arrives (tail (read_turn a.on_recv left h))) future)
          at)

    by_turn :
        ((waiting : ℕ) (cs : List (List ℕ)) (future : List ℕ) (h : Holder)
          → Small cs
          → IsValid h.recv_buf
          → Awaits cs (arrives (loop_trace answers waiting h) ++ future) h
          → InOrder cs future
              (pushes (loop_trace answers waiting h))
              (read_loop answers waiting h).0
              (read_loop answers waiting h).1)
        → (t : Turn) → Outcome cs (arrives (tail t) ++ future) t
        → GoesIn left t
        → InOrder cs future
            (pushes ((received a.on_recv h.recv_buf, left, t) ∷ tail t))
            (turns_after (read_loop answers) left t).0
            (turns_after (read_loop answers) left t).1
    by_turn go_on (stop h') o g = nothing_come cs future (some h') (waits_at cs future h' o)
    by_turn go_on hang_up o g = nothing_come cs future none (λ h' e. cc e)
    by_turn go_on (pushed true p h') o g = rw (sym g) (
        pushed-InOrder cs future _ p h' true _ _ _ small o
          (λ rest small' v' at'. go_on (left + 1) rest future h' small' v' at'))
    by_turn go_on (pushed false p h') o g = rw (sym g) (
        pushed-InOrder cs future _ p h' false _ _ _ small o
          (λ rest small' v' at'. go_on left rest future h' small' v' at'))
