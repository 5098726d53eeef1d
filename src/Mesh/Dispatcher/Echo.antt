-- ===== src/Mesh/Dispatcher/Echo.antt =====
-- Packets that come back: our own transmissions and duplicates.
use meshelle.Prelude.{
  Bool, Bytes, List, Option, false, inl, inr, length, refl, true, ℕ, ◌+◌, ◌<◌, ◌≡◌,
}
use meshelle.Proto.Error.{Result-cases, ok}
use meshelle.Proto.Crypto.{Primitives}
use meshelle.Proto.Packet.{Packet}
use meshelle.Mesh.Dedupe.{check_and_mark, mark}
use meshelle.Mesh.Dedupe.Recall.{Within, check_and_mark-marked, mark_all}
use meshelle.Mesh.Dispatcher.{
  Dispatcher, ReceivedPacket, count_duplicate, count_received, dispatch, hash_of, send,
}
use meshelle.Proto.Packet

module _ (c : Primitives) {Room Rest : Type 0} (node_hash : Room → ℕ)
    (handle : Room → Packet → ReceivedPacket → Dispatcher × Rest → Bool × Dispatcher × Rest) where
  -- Two packets of one kind and payload, however they came, have one hash.
  hash_of-same :
      (p q : Packet) → p.kind ≡ q.kind → p.payload ≡ q.payload → hash_of c p ≡ hash_of c q
  hash_of-same p q same_kind same_payload = rw (same_kind, same_payload) refl

  -- What the dispatcher answers to a packet that it knows: the mark and the counters are all that
  -- changes.
  abbrev pub ignored : ℕ → Packet → ReceivedPacket → Dispatcher → Rest → Bool × Dispatcher × Rest
  ignored now p received d rest = (
    false,
    record d {
      seen = mark now (hash_of c p) d.seen;
      radio = count_duplicate p (count_received p received d.radio);
    },
    rest,
  )

  dispatch-known :
      (now : ℕ) (rooms : List Room) (received : ReceivedPacket) (d : Dispatcher) (rest : Rest)
      (p : Packet)
      → Packet.decode received.raw ≡ ok p
      → (check_and_mark now (hash_of c p) d.seen).0 ≡ true
      → dispatch c node_hash handle now rooms received (d, rest) ≡ ignored now p received d rest
  unfolding dispatch check_and_mark
  dispatch-known now rooms received d rest p read known = rw (read, dispatch, known) refl

  send-seen :
      (t : ℕ) (p : Packet) (priority : ℕ) (ttl : Option ℕ) (d : Dispatcher)
      → (send c t p priority ttl d).1.seen ≡ mark t (hash_of c p) d.seen
  unfolding send
  send-seen t p priority ttl d = elim (Result-cases (Packet.encode p)) [
    | inl (raw, e) ↦ rw (e, send) refl
    | inr (raised, e) ↦ rw (e, send) refl
  ]

  -- After a packet is sent, a received frame of the same kind and payload, whatever its path, is
  -- ignored: no room is offered it. That holds until the packet's time to live has passed, where
  -- fewer marks than the table's capacity were made between.
  pub dispatch-send :
      (t now : ℕ) (rooms : List Room) (received : ReceivedPacket) (d : Dispatcher) (rest : Rest)
      (marks : List (ℕ × Bytes)) (p q : Packet) (priority : ℕ) (ttl : Option ℕ)
      → Within t d.seen.ttl marks
      → now < t + d.seen.ttl
      → length marks < d.seen.capacity
      → Packet.decode received.raw ≡ ok q
      → q.kind ≡ p.kind
      → q.payload ≡ p.payload
      → let sent = (send c t p priority ttl d).1 in
        let later : Dispatcher = record sent { seen = mark_all marks sent.seen } in
        dispatch c node_hash handle now rooms received (later, rest)
        ≡ ignored now q received later rest
  dispatch-send t now rooms received d rest marks p q priority ttl within fresh room read k l =
      let sent = (send c t p priority ttl d).1 in
      let later : Dispatcher = record sent { seen = mark_all marks sent.seen } in
      dispatch-known now rooms received later rest q read (
        rw (hash_of-same q p k l, send-seen t p priority ttl d)
          (check_and_mark-marked (hash_of c p) t now marks d.seen within fresh room))
