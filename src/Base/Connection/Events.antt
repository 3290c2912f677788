-- ===== src/Base/Connection/Events.antt =====
-- The events `read` of a connection, from the packets sent to those in the queue
-- (base/tcp_connection_manager.cpp).
use mathlib.Core.Path.{subst}
use mathlib.Core.List.{append_assoc}
use casual_game.Prelude.{
  ℕ, ◌≡◌, ◌∙◌, refl, sym, ap, inl, inr, Bool, true, false, Option, none, some, List, [], ◌∷◌, ◌++◌,
  length, ltb, Bool-cases, length-append, arith,
}
use casual_game.Net.ConnectionBuffer.Contents.{contents, IsValid}
use casual_game.Net.TcpPacket.{Packet}
use casual_game.Net.TcpPacket.Parsing.{frame}
use casual_game.Base.Connection.{
  Holder, ReadEvent, recv_limit, read_event, events_after, read_events,
}
use casual_game.Base.Connection.Receiving.{stream, Small, Awaits, between}
use casual_game.Base.Connection.Trace.{
  Trace, event_trace, traces_after, events_trace, arrives, pushes, arrives-append, pushes-append,
  AllTrue, HasRoom, events_trace-AllTrue,
}
use casual_game.Prelude.{append_nil}
use casual_game.Base.Connection.InOrder.{
  frames, chosen, InOrder, nothing_come, waits_at, loop-InOrder,
}

frames-append : (xs ys : List (List ℕ)) → frames (xs ++ ys) ≡ frames xs ++ frames ys
frames-append [] ys = refl
frames-append (x ∷ xs) ys = ap (◌∷◌ (frame x)) (frames-append xs ys)

chosen-append :
    (marks others : List Bool) (xs : List (List ℕ)) (packets : List Packet)
    → length marks ≡ length xs
    → chosen (marks ++ others) (frames xs ++ packets)
      ≡ chosen marks (frames xs) ++ chosen others packets
chosen-append [] others [] packets e = refl
chosen-append [] others (x ∷ xs) packets e = absurd (omega (arith, e))
chosen-append (m ∷ marks) others [] packets e = absurd (omega (arith, e))
chosen-append (true ∷ marks) others (x ∷ xs) packets e =
    ap (◌∷◌ (frame x)) (chosen-append marks others xs packets (omega (arith, e)))
chosen-append (false ∷ marks) others (x ∷ xs) packets e =
    chosen-append marks others xs packets (omega (arith, e))

Small-behind : (xs ys : List (List ℕ)) → Small (xs ++ ys) → Small ys
Small-behind [] ys small = small
Small-behind (x ∷ xs) ys (_, small) = Small-behind xs ys small

-- The events behind an event go on with what is left.
joined-InOrder :
    (cs : List (List ℕ)) (future next : List ℕ) (room rooms : List Bool)
    (packets others : List Packet) (h : Holder) (last : Option Holder)
    → Small cs
    → InOrder cs next room packets (some h)
    → ((rest : List (List ℕ))
        → Small rest
        → IsValid h.recv_buf
        → Awaits rest next h
        → InOrder rest future rooms others last)
    → InOrder cs future (room ++ rooms) (packets ++ others) last
joined-InOrder cs future next room rooms packets others h last small i go_on =
    let (valid, at) = i.waits h refl in
    let j = go_on i.ahead (Small-behind i.come i.ahead (subst Small i.all small)) valid at in
    record {
      come = i.come ++ j.come;
      ahead = j.ahead;
      all = i.all ∙ ap (λ l. i.come ++ l) j.all ∙ sym (append_assoc i.come j.come j.ahead);
      counted =
          omega
            (arith, length-append room rooms, length-append i.come j.come, i.counted, j.counted);
      packets_in =
          ap (λ l. l ++ others) i.packets_in
          ∙ ap (λ l. chosen room (frames i.come) ++ l) j.packets_in
          ∙ sym (chosen-append room rooms i.come (frames j.come) i.counted)
          ∙ ap (chosen (room ++ rooms)) (sym (frames-append i.come j.come));
      waits = j.waits;
    }

event-InOrder :
    (e : ReadEvent) (cs : List (List ℕ)) (future : List ℕ) (h : Holder)
    → Small cs
    → IsValid h.recv_buf
    → Awaits cs (arrives (event_trace e h) ++ future) h
    → InOrder cs future (pushes (event_trace e h)) (read_event e h).0 (read_event e h).1
unfolding read_event event_trace
event-InOrder e cs future h small v at = elim (Bool-cases (ltb e.waiting recv_limit)) [
  | inl y ↦ rw y (loop-InOrder e.answers e.waiting cs future h small v (rw y at at))
  | inr n ↦ rw n (nothing_come cs future (some h) (waits_at cs future h (v, rw n at at)))
]

awaited-InOrder :
    (events : List ReadEvent) (cs : List (List ℕ)) (future : List ℕ) (h : Holder)
    → Small cs
    → IsValid h.recv_buf
    → Awaits cs (arrives (events_trace events h) ++ future) h
    → InOrder cs future
        (pushes (events_trace events h))
        (read_events events h).0
        (read_events events h).1
unfolding read_events events_trace traces_after events_after
awaited-InOrder [] cs future h small v at =
    nothing_come cs future (some h) (waits_at cs future h (v, at))
awaited-InOrder (e ∷ events) cs future h small v at =
    subst (λ l. InOrder cs future l (read_events (e ∷ events) h).0 (read_events (e ∷ events) h).1)
      (sym (pushes-append (event_trace e h) behind))
      (by_last (awaited-InOrder events) (read_event e h).0 (read_event e h).1 first)
  where
    behind : Trace
    behind = traces_after (events_trace events) (read_event e h).1

    first :
        InOrder cs
          (arrives behind ++ future)
          (pushes (event_trace e h))
          (read_event e h).0
          (read_event e h).1
    first = event-InOrder e cs (arrives behind ++ future) h small v (
        subst (λ l. Awaits cs l h)
          (ap (λ l. l ++ future) (arrives-append (event_trace e h) behind)
            ∙ append_assoc (arrives (event_trace e h)) (arrives behind) future)
          at)

    by_last :
        ((cs : List (List ℕ)) (future : List ℕ) (h : Holder)
          → Small cs
          → IsValid h.recv_buf
          → Awaits cs (arrives (events_trace events h) ++ future) h
          → InOrder cs future
              (pushes (events_trace events h))
              (read_events events h).0
              (read_events events h).1)
        → (packets : List Packet) (o : Option Holder)
        → InOrder cs
            (arrives (traces_after (events_trace events) o) ++ future)
            (pushes (event_trace e h))
            packets
            o
        → InOrder cs future
            (pushes (event_trace e h) ++ pushes (traces_after (events_trace events) o))
            (events_after (read_events events) (packets, o)).0
            (events_after (read_events events) (packets, o)).1
    by_last go_on packets none i = record {
      come = i.come;
      ahead = i.ahead;
      all = i.all;
      counted = ap length (append_nil (pushes (event_trace e h))) ∙ i.counted;
      packets_in =
          i.packets_in
          ∙ ap (λ l. chosen l (frames i.come)) (sym (append_nil (pushes (event_trace e h))));
      waits = λ h' k. cc k;
    }
    by_last go_on packets (some h') i =
        joined-InOrder cs future (arrives (events_trace events h') ++ future)
          (pushes (event_trace e h)) (pushes (events_trace events h')) packets
          (read_events events h').0 h' (read_events events h').1 small i
          (λ rest small' v' at'. go_on rest future h' small' v' at')

-- A connection with a well-formed buffer starts with no part of a packet, and is sent packets with the
-- contents `cs`, each of a size that 32 bits hold with its head. Whatever its socket answers and however
-- full the queue is: of the first of these packets, it puts into the queue, whole and in their order, those
-- for which the queue has room when they are complete, and loses the others; and while it lasts its buffer
-- is well formed and it is left where the bytes that are still to come continue the packets behind the
-- first ones.
pub read_events-InOrder :
    (events : List ReadEvent) (cs : List (List ℕ)) (future : List ℕ) (h : Holder)
    → Small cs
    → IsValid h.recv_buf
    → h.recv_packet ≡ []
    → contents h.recv_buf ++ (arrives (events_trace events h) ++ future) ≡ stream cs
    → InOrder cs future
        (pushes (events_trace events h))
        (read_events events h).0
        (read_events events h).1
read_events-InOrder events cs future h small v none_yet sent =
    awaited-InOrder events cs future h small v
      (between cs (arrives (events_trace events h) ++ future) h none_yet sent)

chosen_all :
    (marks : List Bool) (xs : List (List ℕ))
    → AllTrue marks
    → length marks ≡ length xs
    → chosen marks (frames xs) ≡ frames xs
chosen_all [] [] h e = refl
chosen_all [] (x ∷ xs) h e = absurd (omega (arith, e))
chosen_all (m ∷ marks) [] h e = absurd (omega (arith, e))
chosen_all (true ∷ marks) (x ∷ xs) (_, h) e =
    ap (◌∷◌ (frame x)) (chosen_all marks xs h (omega (arith, e)))
chosen_all (false ∷ marks) (x ∷ xs) (h, _) e = absurd (cc h)

-- A connection with a well-formed buffer starts with no part of a packet, and is sent packets with the
-- contents `cs`, each of a size that 32 bits hold with its head. Where at each event the packets that wait
-- in the queue and one more for each turn of its loop are at most its 1024 cells, none is lost: the
-- packets that go into the queue are the first of those sent, whole and in their order, and while the
-- connection lasts its buffer is well formed and the rest is awaited.
pub read_events-frames :
    (events : List ReadEvent) (cs : List (List ℕ)) (future : List ℕ) (h : Holder)
    → Small cs
    → IsValid h.recv_buf
    → h.recv_packet ≡ []
    → contents h.recv_buf ++ (arrives (events_trace events h) ++ future) ≡ stream cs
    → HasRoom events
    → (come : List (List ℕ)) × (ahead : List (List ℕ)) × (cs ≡ come ++ ahead)
      × ((read_events events h).0 ≡ frames come)
      × ((h' : Holder)
          → (read_events events h).1 ≡ some h'
          → IsValid h'.recv_buf × Awaits ahead future h')
read_events-frames events cs future h small v none_yet sent room =
    let i = read_events-InOrder events cs future h small v none_yet sent in
    let all_in =
      chosen_all (pushes (events_trace events h)) i.come (events_trace-AllTrue events h room)
        i.counted in
    (i.come, i.ahead, i.all, i.packets_in ∙ all_in, i.waits)
