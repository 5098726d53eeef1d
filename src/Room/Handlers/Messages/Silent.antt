-- ===== src/Room/Handlers/Messages/Silent.antt =====
-- Messages of room/server.py that leave the database as it is.
use meshelle.Prelude.{
  Bool, Bool-cases, Bytes, arith, false, inl, inr, ltb, not, refl, true, update_where, ◌==◌, ◌=b=◌,
  ◌||◌, ◌∙◌, ◌≡◌, ◌⊎◌,
}
use meshelle.Proto.Error.{ok}
use meshelle.Config.Model.{Role, admin, guest, may_post, read_only, read_write}
use meshelle.Proto.Constants.{TxtType, cli_data, plain, signed_plain}
use meshelle.Proto.Crypto.{Primitives}
use meshelle.Proto.TextMessage.{TextMessage}
use meshelle.Room.Session.{ClientSession}
use meshelle.Room.Server.{Moment, Server}
use meshelle.Room.Exec.{change, heard}
use meshelle.Room.Exec.Kept.{IsPreorder, Keeps, Keeps->>=, Keeps-lifted}
use meshelle.Room.Handlers.Messages.{
  accept_post, answer_text, is_admin, is_handled, on_text, run_cli, take_text,
}
use meshelle.Room.Handlers.Messages.Answer.{send_answer-Keeps}
use meshelle.Proto.TextMessage

abbrev KeepsDb : Server → Server → Type 0
KeepsDb sv after = after.db ≡ sv.db

abbrev order : IsPreorder KeepsDb
order = record { reflexive = λ sv. refl; transitive = λ h k. k ∙ h }

-- One who may not post is no administrator.
not_admin : (r : Role) → may_post r ≡ false → is_admin r ≡ false
not_admin guest h = refl
not_admin read_only h = refl
not_admin read_write h = refl
not_admin admin h = h

-- Messages that are not acted on: from one who may not post, or heard before.
abbrev pub IsIdle : ClientSession → Bool → Type 0
IsIdle s is_retry = (may_post s.role ≡ false) ⊎ (is_retry ≡ true)

accept_post-db :
    (m : Moment) (s : ClientSession) (message : TextMessage) (is_retry : Bool)
    → IsIdle s is_retry
    → Keeps KeepsDb order (accept_post m s message is_retry)
unfolding accept_post
accept_post-db m s message is_retry (inl barred) sv = rw barred refl
accept_post-db m s message is_retry (inr again) sv = elim (Bool-cases (may_post s.role)) [
  | inl may ↦ rw (may, again) refl
  | inr barred ↦ rw barred refl
]

module _ (c : Primitives) where
  run_cli-db :
      (m : Moment) (s : ClientSession) (message : TextMessage) (is_retry : Bool)
      → IsIdle s is_retry
      → Keeps KeepsDb order (run_cli c m s message is_retry)
  unfolding run_cli
  run_cli-db m s message is_retry (inl barred) sv = rw (not_admin s.role barred) refl
  run_cli-db m s message is_retry (inr again) sv = elim (Bool-cases (is_admin s.role)) [
    | inl may ↦ rw (may, again) refl
    | inr barred ↦ rw barred refl
  ]

  answer_text-db :
      (m : Moment) (s : ClientSession) (message : TextMessage) (is_retry : Bool) (kind : TxtType)
      → IsIdle s is_retry
      → Keeps KeepsDb order (answer_text c m s message is_retry kind)
  unfolding answer_text
  answer_text-db m s message is_retry cli_data idle =
      Keeps->>= KeepsDb order (run_cli c m s message is_retry) _
        (run_cli-db m s message is_retry idle) (λ reply sv. refl)
  answer_text-db m s message is_retry plain idle =
      Keeps->>= KeepsDb order (accept_post m s message is_retry) _
        (accept_post-db m s message is_retry idle) (λ to_ack sv. refl)
  answer_text-db m s message is_retry signed_plain idle =
      Keeps->>= KeepsDb order (accept_post m s message is_retry) _
        (accept_post-db m s message is_retry idle) (λ to_ack sv. refl)

  take_text-db :
      (m : Moment) (s : ClientSession) (message : TextMessage)
      → IsIdle s (message.timestamp == s.last_timestamp)
      → Keeps KeepsDb order (take_text c m s message)
  unfolding take_text change
  take_text-db m s message idle sv =
      Keeps-lifted KeepsDb order (TextMessage.ack_hash c message s.public_key) _
        (λ checksum.
          Keeps->>= KeepsDb order
            (answer_text c m s message (message.timestamp == s.last_timestamp) message.kind) _
            (answer_text-db m s message (message.timestamp == s.last_timestamp) message.kind idle)
            (λ answer.
              send_answer-Keeps KeepsDb order (λ t o q n. refl) c m s message checksum answer))
        (record sv {
          sessions =
              update_where (λ t. t.public_key =b= s.public_key) (heard message.timestamp m.now)
                sv.sessions;
        })

  -- A text message whose sender may not post, or whose timestamp is the last one that was heard of
  -- the sender, so that it is a retry, changes nothing in the database.
  pub on_text-db :
      (m : Moment) (s : ClientSession) (plaintext : Bytes) (message : TextMessage) (sv : Server)
      → TextMessage.decode plaintext ≡ ok message
      → (may_post s.role ≡ false) ⊎ (message.timestamp ≡ s.last_timestamp)
      → (on_text c m s plaintext sv).1.db ≡ sv.db
  unfolding on_text
  on_text-db m s plaintext message sv decoded idle =
      let is_retry = message.timestamp == s.last_timestamp in
      let idle_retry : IsIdle s is_retry = elim idle [
        | inl barred ↦ inl barred
        | inr again ↦ inr (ground arith)
      ] in
      elim (Bool-cases
        (not (is_handled c message.kind) || ltb message.timestamp s.last_timestamp)) [
          | inl ignored ↦ rw (decoded, on_text, ignored) refl
          | inr taken ↦ rw (decoded, on_text, taken) (take_text-db m s message idle_retry sv)
        ]
