-- ===== src/Room/Handlers/Claims.antt =====
-- What `handle` of room/server.py says of a packet.
use meshelle.Prelude.{
  Bool, Bool-cases, Bytes, List, [], false, if◌then◌else◌, inl, inr, refl, true, ◌==◌, ◌∷◌, ◌≡◌,
}
use meshelle.Proto.Error.{Result, err, is_packet_error, ok}
use meshelle.Room.Server.{Moment, Server, node_hash}
use meshelle.Room.Server.Acks.{on_ack-Answered}
use meshelle.Room.Exec.{Exec, caught, continue, heard, is_decryption_error, lift, return, ◌>>=◌}
use meshelle.Room.Handlers.Paths.{claim}
use meshelle.Proto.Constants.{PayloadType, ack, anon_req, path, req, response, txt_msg}
use meshelle.Proto.Crypto.{Primitives}
use meshelle.Proto.Packet.{Packet}
use meshelle.Room.Session.{ClientSession}
use meshelle.Room.Server.Responses.{open_anon}
use meshelle.Room.Handlers.Logins.{log_in, on_anon_request}
use meshelle.Room.Handlers.{
  candidate_sessions, forgiven, handle, handle_kind, on_bare_ack, on_datagram, on_opened,
  try_sessions,
}
use meshelle.Proto.Datagram.{Datagram, open_with}
use meshelle.Proto.AnonRequest
use meshelle.Proto.LoginRequest
use meshelle.Proto.Datagram
use meshelle.Proto.Ack

-- A packet that is not claimed has changed nothing.
abbrev pub Spares : Server → Result Bool × Server → Type 0
Spares sv (claimed, after) = claimed ≡ ok false → after ≡ sv

Spares-lifted {ℓ} :
    {A : Type ℓ} (sv : Server) (r : Result A) (rest : A → Exec Bool)
    → ((x : A) → Spares sv (rest x sv))
    → Spares sv ((lift r >>= rest) sv)
Spares-lifted sv (err raised) rest k = λ e. refl
Spares-lifted sv (ok x) rest k = k x

Spares-caught {ℓ} :
    {A : Type ℓ} (sv : Server) (r : Result A) (other : Exec Bool) (rest : A → Exec Bool)
    → Spares sv (other sv)
    → ((x : A) → Spares sv (rest x sv))
    → Spares sv (caught r other rest sv)
Spares-caught sv (ok x) other rest h k = k x
Spares-caught sv (err raised) other rest h k = elim (Bool-cases (is_decryption_error raised)) [
  | inl e ↦ rw e h
  | inr e ↦ rw e (λ f. refl)
]

Spares-if :
    (sv : Server) (b : Bool) (first second : Exec Bool)
    → Spares sv (first sv)
    → Spares sv (second sv)
    → Spares sv ((if b then first else second) sv)
Spares-if sv true first second h k = h
Spares-if sv false first second h k = k

-- A method whose answer is yes.
Spares-claimed {ℓ} :
    {A : Type ℓ} (sv : Server) (o : Result A × Server) → Spares sv (continue o (λ x. return true))
Spares-claimed sv (err raised, after) = λ e. cc
Spares-claimed sv (ok x, after) = λ e. cc

Spares-claim : (checksum : Bytes) (sv : Server) → Spares sv (claim checksum sv)
Spares-claim checksum sv e = elim (on_ack-Answered checksum sv) [
  | inl (unclaimed, same, none_waits) ↦ same
  | inr (s, claimed, heard, same) ↦ cc
]

module _ (c : Primitives) where
  on_anon_request-Spares :
      (m : Moment) (packet : Packet) (sv : Server) → Spares sv (on_anon_request c m packet sv)
  unfolding on_anon_request
  on_anon_request-Spares m packet sv = Spares-lifted sv (AnonRequest.decode packet.payload) _ (λ a.
      Spares-if sv (a.dest_hash == node_hash sv) _ _
        (Spares-caught sv (open_anon c sv a) (return false) _ (λ e. refl)
          (λ opened.
            Spares-lifted sv (LoginRequest.decode opened.1) _ (λ login.
              Spares-claimed sv (log_in c m packet a.sender_public_key opened.0 login sv))))
        (λ e. refl))

  try_sessions-Spares :
      (m : Moment) (packet : Packet) (d : Datagram) (ss : List ClientSession) (sv : Server)
      → Spares sv (try_sessions c m packet d ss sv)
  unfolding try_sessions
  try_sessions-Spares m packet d [] sv = λ e. refl
  try_sessions-Spares m packet d (s ∷ ss) sv =
      Spares-caught sv (open_with c s.shared_secret d) (try_sessions c m packet d ss) _
        (try_sessions-Spares m packet d ss sv)
        (λ plaintext. Spares-claimed sv (on_opened c m packet packet.kind s plaintext sv))

  on_datagram-Spares :
      (m : Moment) (packet : Packet) (sv : Server) → Spares sv (on_datagram c m packet sv)
  unfolding on_datagram
  on_datagram-Spares m packet sv = Spares-lifted sv (Datagram.decode packet.payload) _ (λ d.
      Spares-if sv (d.dest_hash == node_hash sv) _ _
        (try_sessions-Spares m packet d (candidate_sessions d.src_hash sv.sessions) sv) (λ e. refl))

  handle_kind-Spares :
      (m : Moment) (packet : Packet) (kind : PayloadType) (sv : Server)
      → Spares sv (handle_kind c m packet kind sv)
  unfolding handle_kind on_bare_ack
  handle_kind-Spares m packet ack sv =
      Spares-lifted sv (Ack.decode packet.payload) _ (λ a. Spares-claim a.checksum sv)
  handle_kind-Spares m packet anon_req sv = on_anon_request-Spares m packet sv
  handle_kind-Spares m packet req sv = on_datagram-Spares m packet sv
  handle_kind-Spares m packet txt_msg sv = on_datagram-Spares m packet sv
  handle_kind-Spares m packet path sv = on_datagram-Spares m packet sv
  handle_kind-Spares m packet response sv = on_datagram-Spares m packet sv
  handle_kind-Spares m packet _ sv = λ e. refl

  -- What comes out of `handle`.
  abbrev pub Outcome : Server → Result Bool × Server → Type 0
  Outcome sv (err raised, after) = is_packet_error raised ≡ false
  Outcome sv (ok true, after) = Unit {0}
  Outcome sv (ok false, after) = after ≡ sv

  forgiven-Outcome :
      (sv : Server) (o : Result Bool × Server) → Spares sv o → Outcome sv (forgiven o)
  forgiven-Outcome sv (ok true, after) h = tt
  forgiven-Outcome sv (ok false, after) h = h refl
  forgiven-Outcome sv (err raised, after) h = elim (Bool-cases (is_packet_error raised)) [
    | inl e ↦ rw e tt
    | inr e ↦ rw e e
  ]

  -- However a packet's handling ends: no exception of a malformed packet gets out of it, and a room
  -- that does not claim the packet is as it was.
  pub handle-Outcome :
      (m : Moment) (packet : Packet) (sv : Server) → Outcome sv (handle c m packet sv)
  unfolding handle
  handle-Outcome m packet sv =
      forgiven-Outcome sv (handle_kind c m packet packet.kind sv)
        (handle_kind-Spares m packet packet.kind sv)
