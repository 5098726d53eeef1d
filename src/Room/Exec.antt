-- ===== src/Room/Exec.antt =====
-- A method of `RoomServer` in room/server.py as a function of the room's state. What it wrote before
-- it raised an exception stays written.
pub mod Kept
use meshelle.Prelude.{
  Bool, Bytes, List, [], false, if◌then◌else◌, true, update_where, ℕ, ◌=b=◌, ◌∷◌,
}
use meshelle.Proto.Error.{Error, Result, decryption_error, err, ok}
use meshelle.Room.Session.{ClientSession}
use meshelle.Room.Server.{Moment, Server}
use meshelle.Mesh.Clock

abbrev pub Exec {ℓ} : Type ℓ → Type ℓ
Exec A = Server → Result A × Server

-- The rest of a method runs where no exception was raised.
abbrev pub continue {ℓ κ} :
    {A : Type ℓ} {B : Type κ} → Result A × Server → (A → Exec B) → Result B × Server
continue (err raised, sv) rest = (err raised, sv)
continue (ok a, sv) rest = rest a sv

infixl 5 ◌>>=◌
abbrev pub ◌>>=◌ {ℓ κ} : {A : Type ℓ} {B : Type κ} → Exec A → (A → Exec B) → Exec B
first >>= rest = λ sv. continue (first sv) rest

infixl 5 ◌>>◌
abbrev pub ◌>>◌ {κ} : {B : Type κ} → Exec (Unit {0}) → Exec B → Exec B
first >> rest = first >>= λ done. rest

abbrev pub return {ℓ} : {A : Type ℓ} → A → Exec A
return a = λ sv. (ok a, sv)

-- A call of pure code that may raise.
abbrev pub lift {ℓ} : {A : Type ℓ} → Result A → Exec A
lift r = λ sv. (r, sv)

abbrev pub state : Exec Server
state = λ sv. (ok sv, sv)

abbrev pub modify : (Server → Server) → Exec (Unit {0})
modify f = λ sv. (ok tt, f sv)

-- `self._clock.unique_now()`
abbrev pub next_unique : Moment → Exec ℕ
next_unique m = λ sv.
    let stamp = Clock.unique_now sv.last_unique m.now in
    (ok stamp, record sv { last_unique = stamp })

abbrev pub is_decryption_error : Error → Bool
is_decryption_error decryption_error = true
is_decryption_error _ = false

-- A call of pure code, and what is done where it raised `DecryptionError`.
abbrev pub caught {ℓ κ} : {A : Type ℓ} {B : Type κ} → Result A → Exec B → (A → Exec B) → Exec B
caught (ok a) other rest = rest a
caught (err raised) other rest =
    if is_decryption_error raised then other else (λ sv. (err raised, sv))

-- The session object of a key, in the dictionary of the sessions, is changed.
unfoldable pub change : Bytes → (ClientSession → ClientSession) → Exec (Unit {0})
change key f =
    modify (λ sv. record sv { sessions = update_where (λ t. t.public_key =b= key) f sv.sessions })

-- `self._sessions[public_key] = session`
unfoldable pub put_session : Bytes → ClientSession → List ClientSession → List ClientSession
put_session key s [] = s ∷ []
put_session key s (t ∷ ts) =
    let rest = put_session key s ts in if t.public_key =b= key then s ∷ ts else t ∷ rest

-- A session that has just been heard, at a timestamp of the client's clock.
abbrev pub heard : ℕ → ℕ → ClientSession → ClientSession
heard timestamp now s = record s {
  last_timestamp = timestamp;
  last_activity = now;
  push_failures = 0;
}
