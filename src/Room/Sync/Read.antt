-- ===== src/Room/Sync/Read.antt =====
-- A push of room/server.py from its start to the client, and back.
use meshelle.Prelude.{
  Bool-cases, Bytes, IsByte, List, [], ap, arith, get_or, inl, inr, length, length-append, refl,
  some, sym, true, ℕ, ◌++◌, ◌-◌, ◌∙◌, ◌∷◌, ◌≡◌, ◌≤◌, ◌⊎◌,
}
use meshelle.Proto.Error.{>>=-eq-ok, err, ok, pack_u32}
use meshelle.Proto.Constants.{PayloadType, direct, flood, txt_msg, v1}
use meshelle.Proto.Crypto.{IsSound, Primitives, padded}
use meshelle.Proto.Datagram.RoundTrip.{received, received-seal}
use meshelle.Store.Model.{Post, post_push}
use meshelle.Store.Posts.{next_unsynced_post}
use meshelle.Store.Clients.{advance_sync}
use meshelle.Store.Counters.{increment_counter}
use meshelle.Room.Session.{ClientSession, has_out_path, session_hash_size}
use meshelle.Room.Server.{
  Moment, Server, addressed, may_push, node_hash, on_ack, plainly, push_packet, push_to,
}
use meshelle.Room.Sync.Awaited.{AwaitedIn, synced, waiting}
use meshelle.Room.Sync.Round.{push_message, push_to-Pushed}
use meshelle.Proto.Packet.{Packet}
use meshelle.Proto.TextMessage.{TextMessage}
use meshelle.Proto.Crypto
use meshelle.Proto.Datagram
use meshelle.Proto.Packet
use meshelle.Proto.TextMessage

-- What the client reads of a sent packet: the hashes of the keys that it goes to and comes from, and
-- the message's plaintext, up to the cipher's padding.
abbrev pub ReadAs : Primitives → Server → ClientSession → Bytes → Packet → Type 0
ReadAs c sv s plaintext p =
    (p.kind ≡ txt_msg)
    × (received c s.shared_secret p.payload
        ≡ ok (get_or s.public_key 0 0, node_hash sv, padded plaintext))

make-same : (q p : Packet) → Packet.make q ≡ ok p → q ≡ p
unfolding Packet.make
make-same q p e =
    let (done, checked, made) = >>=-eq-ok (Packet.check q) (λ u. ok q) e in
    ap {B = Packet} (λ r. elim r [ ok x ↦ x | err _ ↦ q ]) made

addressed-payload :
    (s : ClientSession) (kind : PayloadType) (payload : Bytes) (p : Packet)
    → addressed s kind payload ≡ ok p
    → (p.kind ≡ kind) × (p.payload ≡ payload)
unfolding addressed
addressed-payload s kind payload p e = elim (Bool-cases (has_out_path s)) [
  | inl routed ↦
      let q : Packet = record {
        route = direct;
        kind = kind;
        payload = payload;
        path = s.out_path;
        path_hash_size = session_hash_size s;
        transport_codes = (0, 0);
        version = v1;
      } in
      let made : addressed s kind payload ≡ Packet.make q = rw (addressed, routed) refl in
      let same = make-same q p (sym made ∙ e) in
      (ap (λ q. q.kind) (sym same), ap (λ q. q.payload) (sym same))
  | inr flooded ↦
      let q : Packet = record {
        route = flood;
        kind = kind;
        payload = payload;
        path = [];
        path_hash_size = 1;
        transport_codes = (0, 0);
        version = v1;
      } in
      let made : addressed s kind payload ≡ Packet.make q = rw (addressed, flooded) refl in
      let same = make-same q p (sym made ∙ e) in
      (ap (λ q. q.kind) (sym same), ap (λ q. q.payload) (sym same))
]

length-encode_text :
    (t : TextMessage) (plaintext : Bytes)
    → TextMessage.encode t ≡ ok plaintext
    → 1 ≤ length plaintext
unfolding TextMessage.encode
length-encode_text t plaintext e =
    let (stamp, packed, made) = >>=-eq-ok (pack_u32 t.timestamp) _ e in
    let same = ap {B = ℕ} (λ x. elim x [ ok b ↦ length b | err _ ↦ 0 ]) made in
    omega (arith, same, length-append stamp (TextMessage.flags t.kind t.attempt ∷ t.text))

module _ (c : Primitives) (sound : IsSound c) where
  -- The push of a post: the client opens the packet, and computes the acknowledgement that the
  -- session waits for.
  abbrev pub PushRead :
      Moment
      → Server
      → List ClientSession
      → ClientSession
      → List ClientSession
      → Post
      → Server
      → Type 0
  PushRead m sv before s later post after =
      (plaintext : Bytes) × (timeout : ℕ) × (p : Packet) × (TextMessage.encode
          (push_message m s post)
        ≡ ok plaintext)
      × ReadAs c sv s plaintext p
      × (TextMessage.ack_hash c (push_message m s post) s.public_key
          ≡ ok (Crypto.ack_hash c plaintext s.public_key))
      × (after ≡ record sv {
        sessions =
            before
            ++ waiting s (Crypto.ack_hash c plaintext s.public_key) post.post_ts timeout ∷ later;
        sent = sv.sent ++ plainly p ∷ [];
        db = increment_counter sv.db sv.room_id post_push 1;
      })
      × (AwaitedIn (Crypto.ack_hash c plaintext s.public_key) before
          ⊎ (on_ack (Crypto.ack_hash c plaintext s.public_key) after ≡ (
            true,
            record after {
              sessions = before ++ synced s post.post_ts timeout ∷ later;
              db = advance_sync after.db after.room_id s.public_key post.post_ts;
            },
          )))

  push_packet-ReadAs :
      (sv : Server) (s : ClientSession) (plaintext : Bytes) (p : Packet)
      → IsByte (get_or s.public_key 0 0)
      → IsByte (node_hash sv)
      → length s.shared_secret ≡ 32
      → 1 ≤ length plaintext
      → push_packet c sv s plaintext ≡ ok p
      → ReadAs c sv s plaintext p
  unfolding push_packet
  push_packet-ReadAs sv s plaintext p dest src full some_text e =
      let (d, sealed, e1) =
        >>=-eq-ok
          (Datagram.seal c (get_or s.public_key 0 0) (node_hash sv) s.shared_secret plaintext) _
          e in
      let (payload, encoded, e2) = >>=-eq-ok (Datagram.encode d) _ e1 in
      let (kind, same) = addressed-payload s txt_msg payload p e2 in
      let opened =
        received-seal c sound (get_or s.public_key 0 0) (node_hash sv) s.shared_secret plaintext
          dest src full some_text in
      (kind, ap (received c s.shared_secret) same ∙ (sym (rw (sealed, encoded) refl) ∙ opened))

  -- A client that may be pushed to, that has been welcomed, and that is owed a settled post: if the
  -- push goes out, it is a text message that the client opens, with the oldest post that is due in
  -- it. It changes that client's session alone, which now waits for the acknowledgement that the
  -- client computes of the message; and, unless an earlier session waits for the same one, its
  -- arrival moves the client's cursor to that post, in memory and in the database, and changes no
  -- other session. The client's secret has 32 bytes, and the keys are of bytes.
  pub push_to-PushRead :
      (m : Moment) (sv : Server) (before later : List ClientSession) (s : ClientSession)
      (post : Post) (after : Server)
      → sv.sessions ≡ before ++ s ∷ later
      → may_push c sv.timings s ≡ true
      → s.welcome ≡ []
      → next_unsynced_post sv.db sv.room_id s.public_key s.sync_since
          (m.now - sv.timings.post_sync_delay)
        ≡ some post
      → IsByte (get_or s.public_key 0 0)
      → IsByte (node_hash sv)
      → length s.shared_secret ≡ 32
      → push_to c m (length before) s sv ≡ (ok true, after)
      → PushRead m sv before s later post after
  unfolding TextMessage.ack_hash
  push_to-PushRead m sv before later s post after same may welcomed next dest src full went =
      let (plaintext, timeout, p, made, packet, state, acked) =
        push_to-Pushed c m sv before later s post after same may welcomed next went in
      let some_text = length-encode_text (push_message m s post) plaintext made in
      (
        plaintext,
        timeout,
        p,
        made,
        push_packet-ReadAs sv s plaintext p dest src full some_text packet,
        rw made refl,
        state,
        acked,
      )
