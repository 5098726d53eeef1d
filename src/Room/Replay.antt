-- ===== src/Room/Replay.antt =====
-- The sessions of the room between two states: what room/server.py may do to the timestamps that
-- guard against replayed packets.
pub mod Forgotten
pub mod Steps
pub mod Hearing
pub mod Entering
pub mod Handled
use meshelle.Prelude.{
  All, All-In, Bool, Bool-cases, Bytes, In, List, [], ap, arith, false, filter, inl, inr, refl, sym,
  true, update_where, ◌++◌, ◌∙◌, ◌∷◌, ◌≡◌, ◌≢◌, ◌≤◌, ◌⊎◌,
}
use meshelle.Room.Session.{ClientSession}
use meshelle.Room.Server.{Server}
use meshelle.Room.Exec.Kept.{IsPreorder}
use mathlib.Core.Path.{subst}
use mathlib.Core.Bool.{false≢true}

-- A session stays its client's, and has heard nothing older than before.
abbrev pub Follows : ClientSession → ClientSession → Type 0
Follows s t = (s.public_key ≡ t.public_key) × (s.last_timestamp ≤ t.last_timestamp)

Follows-trans : (s t u : ClientSession) → Follows s t → Follows t u → Follows s u
Follows-trans s t u (e, h) (f, k) = (e ∙ f, omega arith)

-- No session has the key.
abbrev pub NoneOf : Bytes → List ClientSession → Type 0
NoneOf key ss = All (λ s. s.public_key ≢ key) ss

-- The keys of a dictionary are distinct.
abbrev pub IsDistinct : List ClientSession → Type 0
IsDistinct [] = Unit {0}
IsDistinct (s ∷ ss) = NoneOf s.public_key ss × IsDistinct ss

-- Two sessions with one key are the same.
pub IsDistinct-same :
    (ss : List ClientSession) (s t : ClientSession)
    → IsDistinct ss
    → In s ss
    → In t ss
    → t.public_key ≡ s.public_key
    → s ≡ t
IsDistinct-same [] s t d i j e = elim i [ ]
IsDistinct-same (r ∷ ss) s t (d, ds) (inl e) (inl f) same = sym e ∙ f
IsDistinct-same (r ∷ ss) s t (d, ds) (inl e) (inr j) same =
    absurd
      (All-In (λ u. u.public_key ≢ r.public_key) ss t d j (same ∙ ap (λ u. u.public_key) (sym e)))
IsDistinct-same (r ∷ ss) s t (d, ds) (inr i) (inl f) same =
    absurd (
      All-In (λ u. u.public_key ≢ r.public_key) ss s d i
        (sym same ∙ ap (λ u. u.public_key) (sym f)))
IsDistinct-same (r ∷ ss) s t (d, ds) (inr i) (inr j) same = IsDistinct-same ss s t ds i j same

-- Over the keys whose sessions may be dropped.
module _ (D : Bytes → Type 0) where
  -- Sessions are dropped that may be, and the others follow theirs, in the same order.
  abbrev pub Derived : List ClientSession → List ClientSession → Type 0
  Derived [] [] = Unit {0}
  Derived [] (t ∷ ts) = ⊥
  Derived (s ∷ ss) [] = D s.public_key × Derived ss []
  Derived (s ∷ ss) (t ∷ ts) = (Follows s t × Derived ss ts) ⊎ (D s.public_key × Derived ss (t ∷ ts))

  pub Derived-refl : (ss : List ClientSession) → Derived ss ss
  Derived-refl [] = tt
  Derived-refl (s ∷ ss) = inl ((refl, omega arith), Derived-refl ss)

  pub Derived-trans :
      (ss ts us : List ClientSession) → Derived ss ts → Derived ts us → Derived ss us
  Derived-trans [] [] us h k = k
  Derived-trans [] (t ∷ ts) us h k = elim h [ ]
  Derived-trans (s ∷ ss) [] [] h k = h
  Derived-trans (s ∷ ss) [] (u ∷ us) h k = elim k [ ]
  Derived-trans (s ∷ ss) (t ∷ ts) [] (inl (f, h)) (may, k) =
      (subst D (sym f.0) may, Derived-trans ss ts [] h k)
  Derived-trans (s ∷ ss) (t ∷ ts) [] (inr (may, h)) k = (may, Derived-trans ss (t ∷ ts) [] h k)
  Derived-trans (s ∷ ss) (t ∷ ts) (u ∷ us) (inr (may, h)) k =
      inr (may, Derived-trans ss (t ∷ ts) (u ∷ us) h k)
  Derived-trans (s ∷ ss) (t ∷ ts) (u ∷ us) (inl (f, h)) (inl (g, k)) =
      inl (Follows-trans s t u f g, Derived-trans ss ts us h k)
  Derived-trans (s ∷ ss) (t ∷ ts) (u ∷ us) (inl (f, h)) (inr (may, k)) =
      inr (subst D (sym f.0) may, Derived-trans ss ts (u ∷ us) h k)

  -- Every session afterwards follows one that there was.
  pub Derived-In :
      (ss ts : List ClientSession) (t : ClientSession)
      → Derived ss ts
      → In t ts
      → (s : ClientSession) × In s ss × Follows s t
  Derived-In ss [] t h i = elim i [ ]
  Derived-In [] (u ∷ us) t h i = elim h [ ]
  Derived-In (s ∷ ss) (u ∷ us) t (inl (f, h)) (inl e) = (s, inl refl, subst (Follows s) e f)
  Derived-In (s ∷ ss) (u ∷ us) t (inl (f, h)) (inr i) =
      let (r, j, g) = Derived-In ss us t h i in (r, inr j, g)
  Derived-In (s ∷ ss) (u ∷ us) t (inr (may, h)) i =
      let (r, j, g) = Derived-In ss (u ∷ us) t h i in (r, inr j, g)

  pub Derived-NoneOf :
      (key : Bytes) (ss ts : List ClientSession) → Derived ss ts → NoneOf key ss → NoneOf key ts
  Derived-NoneOf key ss [] h k = tt
  Derived-NoneOf key [] (t ∷ ts) h k = elim h [ ]
  Derived-NoneOf key (s ∷ ss) (t ∷ ts) (inl ((e, f), h)) (k, ks) =
      (λ same. k (e ∙ same), Derived-NoneOf key ss ts h ks)
  Derived-NoneOf key (s ∷ ss) (t ∷ ts) (inr (may, h)) (k, ks) = Derived-NoneOf key ss (t ∷ ts) h ks

  pub Derived-IsDistinct :
      (ss ts : List ClientSession) → Derived ss ts → IsDistinct ss → IsDistinct ts
  Derived-IsDistinct ss [] h k = tt
  Derived-IsDistinct [] (t ∷ ts) h k = elim h [ ]
  Derived-IsDistinct (s ∷ ss) (t ∷ ts) (inl ((e, f), h)) (k, ks) = (
    Derived-NoneOf t.public_key ss ts h (subst (λ key. NoneOf key ss) e k),
    Derived-IsDistinct ss ts h ks,
  )
  Derived-IsDistinct (s ∷ ss) (t ∷ ts) (inr (may, h)) (k, ks) = Derived-IsDistinct ss (t ∷ ts) h ks

  -- A change of the sessions that pass a test.
  pub Derived-update_where :
      (p : ClientSession → Bool) (f : ClientSession → ClientSession) (ss : List ClientSession)
      → ((t : ClientSession) → In t ss → p t ≡ true → Follows t (f t))
      → Derived ss (update_where p f ss)
  Derived-update_where p f [] h = tt
  Derived-update_where p f (s ∷ ss) h =
      let rest = Derived-update_where p f ss (λ t i. h t (inr i)) in
      elim (Bool-cases (p s)) [
        | inl e ↦ rw e (inl (h s (inl refl) e, rest))
        | inr e ↦ rw e (inl ((refl, omega arith), rest))
      ]

  Derived-drop :
      (s : ClientSession) (ss ts : List ClientSession)
      → D s.public_key
      → Derived ss ts
      → Derived (s ∷ ss) ts
  Derived-drop s ss [] may h = (may, h)
  Derived-drop s ss (t ∷ ts) may h = inr (may, h)

  pub Derived-filter :
      (p : ClientSession → Bool) (ss : List ClientSession)
      → ((t : ClientSession) → In t ss → p t ≡ false → D t.public_key)
      → Derived ss (filter p ss)
  Derived-filter p [] may = tt
  Derived-filter p (s ∷ ss) may =
      let rest = Derived-filter p ss (λ t i. may t (inr i)) in
      elim (Bool-cases (p s)) [
        | inl e ↦ rw e (inl ((refl, omega arith), rest))
        | inr e ↦ rw e (Derived-drop s ss (filter p ss) (may s (inl refl) e) rest)
      ]

  -- A session is followed, or may have been dropped.
  pub Derived-Followed :
      (ss ts : List ClientSession) (s : ClientSession)
      → Derived ss ts
      → In s ss
      → ((t : ClientSession) × In t ts × Follows s t) ⊎ D s.public_key
  Derived-Followed [] ts s h i = elim i [ ]
  Derived-Followed (r ∷ ss) [] s (may, h) (inl e) = inr (subst (λ x. D x.public_key) e may)
  Derived-Followed (r ∷ ss) [] s (may, h) (inr i) = Derived-Followed ss [] s h i
  Derived-Followed (r ∷ ss) (t ∷ ts) s (inl (f, h)) (inl e) =
      inl (t, inl refl, subst (λ x. Follows x t) e f)
  Derived-Followed (r ∷ ss) (t ∷ ts) s (inl (f, h)) (inr i) = elim (Derived-Followed ss ts s h i) [
    | inl (u, j, g) ↦ inl (u, inr j, g)
    | inr may ↦ inr may
  ]
  Derived-Followed (r ∷ ss) (t ∷ ts) s (inr (may, h)) (inl e) =
      inr (subst (λ x. D x.public_key) e may)
  Derived-Followed (r ∷ ss) (t ∷ ts) s (inr (may, h)) (inr i) = Derived-Followed ss (t ∷ ts) s h i

  pub Derived-middle :
      (before later : List ClientSession) (s t : ClientSession)
      → Follows s t
      → Derived (before ++ s ∷ later) (before ++ t ∷ later)
  Derived-middle [] later s t h = inl (h, Derived-refl later)
  Derived-middle (r ∷ before) later s t h =
      inl ((refl, omega arith), Derived-middle before later s t h)

  -- The relation between two states.
  abbrev pub KeepsFloors : Server → Server → Type 0
  KeepsFloors sv after = Derived sv.sessions after.sessions

  pub KeepsFloors-IsPreorder : IsPreorder KeepsFloors
  KeepsFloors-IsPreorder = record {
    reflexive = λ sv. Derived-refl sv.sessions;
    transitive = λ {a} {b} {d} h k. Derived-trans a.sessions b.sessions d.sessions h k;
  }
