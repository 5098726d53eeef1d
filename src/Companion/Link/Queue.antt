-- ===== src/Companion/Link/Queue.antt =====
-- companion/link.py: what becomes of the packets that `send_packet` was given.
use meshelle.Prelude.{
  All, Bool, Bytes, List, [], ap, append-nil, append_assoc, arith, false, if◌then◌else◌, inl, inr,
  leb, length, refl, sym, true, ℕ, ◌&&◌, ◌++◌, ◌+◌, ◌<◌, ◌∙◌, ◌∷◌, ◌≡◌, ◌≤◌, ◌⊎◌,
}
use meshelle.Proto.Text.{Text}
use meshelle.Companion.Link.{
  LinkError, Outbound, Turn, closed, dropped, send_packet, send_turn, sent, waiting,
}

-- A call of `send_packet`, or a round of the send loop, on this connection or a later one.
pub data Event : Type 0 where
  call : ℕ → Bytes → ℕ → ℕ → Text → Event
  round : ℕ → Bool → Event

-- The queue after a call; where it raised, the queue is as it was.
abbrev pub queue_after : List Outbound → LinkError ⊎ List Outbound → List Outbound
queue_after before (inl raised) = before
queue_after before (inr queue) = queue

-- What the rounds did, with their times, and the queue at the end.
unfoldable pub run : List Event → List Outbound → List (ℕ × Turn) × List Outbound
run [] queue = ([], queue)
run (call now raw priority ttl description ∷ events) queue =
    run events (queue_after queue (send_packet now raw priority ttl description queue))
run (round now takes ∷ events) queue =
    let turn = send_turn now takes queue in
    let later = run events turn.1 in ((now, turn.0) ∷ later.0, later.1)

-- The packets that calls may queue: those that fit the node's frame buffer, at a priority of a byte.
unfoldable pub accepted : List Event → List Outbound
accepted [] = []
accepted (call now raw priority ttl description ∷ events) =
    let later = accepted events in
    if leb (length raw) 174 && leb priority 255
    then record { payload = 65 ∷ priority ∷ raw; expires_at = now + ttl; description = description }
      ∷ later
    else later
accepted (round now takes ∷ events) = accepted events

-- The packet that leaves the queue.
abbrev pub leaves : Turn → List Outbound
leaves waiting = []
leaves closed = []
leaves (dropped item) = item ∷ []
leaves (sent item) = item ∷ []

unfoldable pub all_leave : List (ℕ × Turn) → List Outbound
all_leave [] = []
all_leave ((now, turn) ∷ turns) = leaves turn ++ all_leave turns

-- A packet is dropped only after its time, and sent only within it.
abbrev pub IsTimely : ℕ × Turn → Type 0
IsTimely (now, waiting) = Unit {0}
IsTimely (now, closed) = Unit {0}
IsTimely (now, dropped item) = item.expires_at < now
IsTimely (now, sent item) = now ≤ item.expires_at

-- The queue after a call holds the packet at its end, if the call may queue it.
call-accepted :
    (now : ℕ) (raw : Bytes) (priority ttl : ℕ) (description : Text) (events : List Event)
    (queue : List Outbound)
    → queue_after queue (send_packet now raw priority ttl description queue) ++ accepted events
      ≡ queue ++ accepted (call now raw priority ttl description ∷ events)
unfolding send_packet accepted
call-accepted now raw priority ttl description events queue =
    let one : Outbound = record {
      payload = 65 ∷ priority ∷ raw;
      expires_at = now + ttl;
      description = description;
    } in
    let joined : (queue ++ one ∷ []) ++ accepted events ≡ queue ++ one ∷ accepted events =
      append_assoc queue (one ∷ []) (accepted events) in
    ground arith

-- A round takes at most the first packet, in its time.
send_turn-Timely :
    (now : ℕ) (takes : Bool) (queue : List Outbound)
    → (leaves (send_turn now takes queue).0 ++ (send_turn now takes queue).1 ≡ queue)
      × IsTimely (now, (send_turn now takes queue).0)
unfolding send_turn
send_turn-Timely now takes [] = (refl, tt)
send_turn-Timely now false (item ∷ rest) = (ground arith, ground arith)
send_turn-Timely now true (item ∷ rest) = (ground arith, ground arith)

-- Whatever calls and rounds follow each other, over however many connections: the packets that were
-- sent or dropped, in that order, and those still queued are the ones that were queued at first and
-- those that calls with a packet and a priority in range added, in their order; none is lost,
-- repeated or overtaken. A packet is sent only within its time to live, and dropped only after it.
pub run-IsOrdered :
    (events : List Event) (queue : List Outbound)
    → (all_leave (run events queue).0 ++ (run events queue).1 ≡ queue ++ accepted events)
      × All IsTimely (run events queue).0
unfolding run accepted all_leave
run-IsOrdered [] queue = (sym (append-nil queue), tt)
run-IsOrdered (call now raw priority ttl description ∷ events) queue =
    let after = queue_after queue (send_packet now raw priority ttl description queue) in
    let (ordered, timely) = run-IsOrdered events after in
    (ordered ∙ call-accepted now raw priority ttl description events queue, timely)
run-IsOrdered (round now takes ∷ events) queue =
    let turn = send_turn now takes queue in
    let (first, in_time) = send_turn-Timely now takes queue in
    let (ordered, timely) = run-IsOrdered events turn.1 in
    (
      append_assoc (leaves turn.0) (all_leave (run events turn.1).0) (run events turn.1).1
          ∙ ap (λ more. leaves turn.0 ++ more) ordered
          ∙ sym (append_assoc (leaves turn.0) turn.1 (accepted events))
          ∙ ap (λ before. before ++ accepted events) first,
      (in_time, timely),
    )
