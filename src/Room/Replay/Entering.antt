-- ===== src/Room/Replay/Entering.antt =====
-- Logins of room/server.py: the session that a login leaves, among the others.
use meshelle.Prelude.{
  =b=_refl, =b=→eq, Bool, Bool-cases, Bytes, In, List, Option, [], ap, arith, false, inl, inr, none,
  refl, some, sym, true, ℕ, ◌=b=◌, ◌∙◌, ◌∷◌, ◌≡◌, ◌≢◌, ◌⊎◌,
}
use meshelle.Room.Session.{ClientSession}
use meshelle.Room.Exec.{put_session}
use meshelle.Room.Replay.{
  Derived, Derived-Followed, Derived-In, Derived-IsDistinct, Follows, IsDistinct, NoneOf,
}
use meshelle.Proto.LoginRequest.{LoginRequest}
use meshelle.Room.Acl.{Grant}
use meshelle.Room.Handlers.Logins.{is_replay, login_session, session_of}
use mathlib.Core.Path.{subst}
use mathlib.Core.Bool.{false≢true}

-- What a session follows: one from before, or none has its key.
abbrev pub Precedes : List ClientSession → ClientSession → Type 0
Precedes ss t = ((s : ClientSession) × In s ss × Follows s t) ⊎ NoneOf t.public_key ss

-- What the dictionary holds under a key.
abbrev pub Found : Bytes → List ClientSession → Option ClientSession → Type 0
Found key ss none = NoneOf key ss
Found key ss (some s) = In s ss × (s.public_key ≡ key)

Found-later :
    (key : Bytes) (s : ClientSession) (ss : List ClientSession) (o : Option ClientSession)
    → s.public_key ≢ key
    → Found key ss o
    → Found key (s ∷ ss) o
Found-later key s ss none other h = (other, h)
Found-later key s ss (some r) other (h, e) = (inr h, e)

pub session_of-Found : (key : Bytes) (ss : List ClientSession) → Found key ss (session_of key ss)
session_of-Found key [] = tt
session_of-Found key (s ∷ ss) = elim (Bool-cases (s.public_key =b= key)) [
  | inl hit ↦ rw hit (inl refl, =b=→eq s.public_key key hit)
  | inr miss ↦ rw miss (
      Found-later key s ss (session_of key ss) (λ e. false≢true (sym miss ∙ (rw e (=b=_refl key))))
        (session_of-Found key ss))
]

put_session-hit :
    (key : Bytes) (s r : ClientSession) (ss : List ClientSession)
    → (r.public_key =b= key) ≡ true
    → put_session key s (r ∷ ss) ≡ s ∷ ss
unfolding put_session
put_session-hit key s r ss e = rw e refl

put_session-miss :
    (key : Bytes) (s r : ClientSession) (ss : List ClientSession)
    → (r.public_key =b= key) ≡ false
    → put_session key s (r ∷ ss) ≡ r ∷ put_session key s ss
unfolding put_session
put_session-miss key s r ss e = rw e refl

In-put_session :
    (key : Bytes) (s t : ClientSession) (ss : List ClientSession)
    → In t (put_session key s ss)
    → (t ≡ s) ⊎ In t ss
unfolding put_session
In-put_session key s t [] (inl e) = inl (sym e)
In-put_session key s t [] (inr i) = elim i [ ]
In-put_session key s t (r ∷ ss) i = elim (Bool-cases (r.public_key =b= key)) [
  | inl hit ↦ elim (subst (In t) (put_session-hit key s r ss hit) i) [
    | inl e ↦ inl (sym e)
    | inr j ↦ inr (inr j)
  ]
  | inr miss ↦ elim (subst (In t) (put_session-miss key s r ss miss) i) [
    | inl e ↦ inr (inl e)
    | inr j ↦ elim (In-put_session key s t ss j) [ inl e ↦ inl e | inr k ↦ inr (inr k) ]
  ]
]

NoneOf-put_session :
    (key other : Bytes) (s : ClientSession) (ss : List ClientSession)
    → s.public_key ≢ other
    → NoneOf other ss
    → NoneOf other (put_session key s ss)
unfolding put_session
NoneOf-put_session key other s [] h k = (h, tt)
NoneOf-put_session key other s (r ∷ ss) h (k, ks) = elim (Bool-cases (r.public_key =b= key)) [
  | inl hit ↦ rw hit (h, ks)
  | inr miss ↦ rw miss (k, NoneOf-put_session key other s ss h ks)
]

IsDistinct-put_session :
    (key : Bytes) (s : ClientSession) (ss : List ClientSession)
    → s.public_key ≡ key
    → IsDistinct ss
    → IsDistinct (put_session key s ss)
unfolding put_session
IsDistinct-put_session key s [] e d = (tt, tt)
IsDistinct-put_session key s (r ∷ ss) e (d, ds) = elim (Bool-cases (r.public_key =b= key)) [
  | inl hit ↦ rw hit (subst (λ k. NoneOf k ss) (=b=→eq r.public_key key hit ∙ sym e) d, ds)
  | inr miss ↦
      let other : s.public_key ≢ r.public_key =
        λ f. false≢true (sym miss ∙ (rw (sym f ∙ e) (=b=_refl key))) in
      rw miss
        (NoneOf-put_session key r.public_key s ss other d, IsDistinct-put_session key s ss e ds)
]

-- The key and the timestamp of the session that a login leaves.
pub login_session-fields :
    (now : ℕ) (by_flood : Bool) (key secret : Bytes) (login : LoginRequest) (grant : Grant)
    (since : ℕ) (ss : List ClientSession) (existing : Option ClientSession)
    → Found key ss existing
    → let s = login_session now by_flood key secret login grant since existing in
      (s.public_key ≡ key) × (s.last_timestamp ≡ login.timestamp)
login_session-fields now true key secret login grant since ss none h = (refl, refl)
login_session-fields now false key secret login grant since ss none h = (refl, refl)
login_session-fields now true key secret login grant since ss (some e) h = (h.1, refl)
login_session-fields now false key secret login grant since ss (some e) h = (h.1, refl)

-- A session that was there still is, or the one that is put in has its place.
put_session-In :
    (key : Bytes) (s r : ClientSession) (ss : List ClientSession)
    → In r ss
    → In r (put_session key s ss) ⊎ ((session_of key ss ≡ some r) × In s (put_session key s ss))
unfolding put_session
put_session-In key s r [] i = elim i [ ]
put_session-In key s r (t ∷ ss) i = elim (Bool-cases (t.public_key =b= key)) [
  | inl hit ↦ elim i [
    | inl same ↦ rw hit (inr (ap some same, inl refl))
    | inr j ↦ rw hit (inl (inr j))
  ]
  | inr miss ↦ elim i [
    | inl same ↦ rw miss (inl (inl same))
    | inr j ↦ elim (put_session-In key s r ss j) [
      | inl there ↦ rw miss (inl (inr there))
      | inr (found, there) ↦ rw miss (inr (found, inr there))
    ]
  ]
]

-- Over the keys whose sessions may be dropped.
module _ (D : Bytes → Type 0) where
  -- A session is followed by one, or may have been dropped.
  abbrev pub Survives : ClientSession → List ClientSession → Type 0
  Survives s ts = ((t : ClientSession) × In t ts × Follows s t) ⊎ D s.public_key

  -- The sessions afterwards each follow one, or are new; those from before survive; and a dictionary
  -- stays one.
  unfoldable pub Raises : List ClientSession → List ClientSession → Type 0
  Raises ss ts =
      ((t : ClientSession) → In t ts → Precedes ss t)
      × ((s : ClientSession) → In s ss → Survives s ts)
      × (IsDistinct ss → IsDistinct ts)

  pub Raises-Derived : (ss ts : List ClientSession) → Derived D ss ts → Raises ss ts
  unfolding Raises
  Raises-Derived ss ts h = (
    λ t i. inl (Derived-In D ss ts t h i),
    λ s i. Derived-Followed D ss ts s h i,
    (Derived-IsDistinct D) ss ts h,
  )

  pub Raises-then : (ss ts us : List ClientSession) → Raises ss ts → Derived D ts us → Raises ss us
  unfolding Raises
  Raises-then ss ts us (h, lives, k) d = (
    λ u i.
        let (t, j, (e, le)) = Derived-In D ts us u d i in
        elim (h t j) [
          | inl (s, l, (f, ls)) ↦ inl (s, l, (f ∙ e, omega arith))
          | inr fresh ↦ inr (subst (λ key. NoneOf key ss) e fresh)
        ],
    λ s i. elim (lives s i) [
      | inl (t, j, (e, le)) ↦ elim (Derived-Followed D ts us t d j) [
        | inl (u, l, (f, ls)) ↦ inl (u, l, (e ∙ f, omega arith))
        | inr may ↦ inr (subst D (sym e) may)
      ]
      | inr may ↦ inr may
    ],
    λ distinct. Derived-IsDistinct D ts us d (k distinct),
  )

  -- A session that is no replay is put among the others.
  pub put_session-Raises :
      (key : Bytes) (s : ClientSession) (ss : List ClientSession)
      → is_replay s.last_timestamp (session_of key ss) ≡ false
      → s.public_key ≡ key
      → Raises ss (put_session key s ss)
  unfolding Raises
  put_session-Raises key s ss fresh e = (
    λ t i. elim (In-put_session key s t ss i) [
      | inl same ↦
          subst (Precedes ss) (sym same)
            (precedes (session_of key ss) (session_of-Found key ss) fresh)
      | inr j ↦ inl (t, j, (refl, omega arith))
    ],
    λ r i. elim (put_session-In key s r ss i) [
      | inl there ↦ inl (r, there, (refl, omega arith))
      | inr (found, there) ↦
          let (listed, same) = subst (Found key ss) found (session_of-Found key ss) in
          let later = sym (ap (is_replay s.last_timestamp) found) ∙ fresh in
          inl (s, there, (same ∙ sym e, ground arith))
    ],
    IsDistinct-put_session key s ss e,
  )
    where
      precedes :
          (o : Option ClientSession)
          → Found key ss o
          → is_replay s.last_timestamp o ≡ false
          → Precedes ss s
      precedes none h f = inr (subst (λ k. NoneOf k ss) (sym e) h)
      precedes (some r) (h, g) f = inl (r, h, (g ∙ sym e, ground arith))
