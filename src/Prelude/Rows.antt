-- ===== src/Prelude/Rows.antt =====
-- Rows of a table: membership, filters, and changes of those that pass a test.
use mathlib.Core.Path.{◌≡◌, refl, sym, ◌∙◌, subst}
use mathlib.Core.Logic.{◌↔◌, ◌⊎◌, inl, inr}
use mathlib.Core.Bool.{Bool, true, false, ◌||◌, false≢true}
use mathlib.Core.Option.{Option, none, some}
use mathlib.Core.List.{List, [], ◌∷◌, map}
use meshelle.Prelude.Tests.{if◌then◌else◌}
use meshelle.Prelude.Lists.{All}

-- Membership with its place kept.
module _ {A : Type 0} where
  abbrev pub In : A → List A → Type 0
  In a [] = ⊥
  In a (x ∷ xs) = (x ≡ a) ⊎ In a xs

  pub All-In {κ} : (P : A → Type κ) (xs : List A) (a : A) → All P xs → In a xs → P a
  All-In P [] a h i = elim i [ ]
  All-In P (x ∷ xs) a h (inl e) = subst P e h.0
  All-In P (x ∷ xs) a h (inr i) = All-In P xs a h.1 i

  pub All-from {κ} : (P : A → Type κ) (xs : List A) → ((a : A) → In a xs → P a) → All P xs
  All-from P [] h = tt
  All-from P (x ∷ xs) h = (h x (inl refl), All-from P xs (λ a i. h a (inr i)))

-- Rows under a Boolean test: those that pass it, and a change of those that pass it.
module _ {A : Type 0} where
  abbrev pub filter : (A → Bool) → List A → List A
  filter p [] = []
  filter p (x ∷ xs) = let rest = filter p xs in if p x then x ∷ rest else rest

  abbrev pub update_where : (A → Bool) → (A → A) → List A → List A
  update_where p f [] = []
  update_where p f (x ∷ xs) = (if p x then f x else x) ∷ update_where p f xs

  abbrev pub find : (A → Bool) → List A → Option A
  find p [] = none
  find p (x ∷ xs) = let rest = find p xs in if p x then some x else rest

  abbrev pub any : (A → Bool) → List A → Bool
  any p [] = false
  any p (x ∷ xs) = p x || any p xs

  All-filter_step {ℓ} :
      (P : A → Type ℓ) (q : A → Bool) (x : A) (xs : List A) (b : Bool)
      → q x ≡ b
      → (All P (filter q xs) ↔ All (λ y. q y ≡ true → P y) xs)
      → All P (if b then x ∷ filter q xs else filter q xs) ↔ All (λ y. q y ≡ true → P y) (x ∷ xs)
  All-filter_step P q x xs true e r = (λ h. (λ _. h.0, r.0 h.1), λ h. (h.0 e, r.1 h.1))
  All-filter_step P q x xs false e r =
      (λ h. (λ t. absurd (false≢true (sym e ∙ t)), r.0 h), λ h. r.1 h.1)

  In-filter_step :
      (a : A) (q : A → Bool) (x : A) (xs : List A) (b : Bool)
      → q x ≡ b
      → (In a (filter q xs) ↔ (In a xs × (q a ≡ true)))
      → In a (if b then x ∷ filter q xs else filter q xs) ↔ (In a (x ∷ xs) × (q a ≡ true))
  In-filter_step a q x xs true e r = (
    elim [
      | inl same ↦ (inl same, subst (λ y. q y ≡ true) same e)
      | inr i ↦ (inr (r.0 i).0, (r.0 i).1)
    ],
    λ h. elim h.0 [ inl same ↦ inl same | inr i ↦ inr (r.1 (i, h.1)) ],
  )
  In-filter_step a q x xs false e r = (
    λ i. (inr (r.0 i).0, (r.0 i).1),
    λ h. elim h.0 [
      | inl same ↦ absurd (false≢true (sym e ∙ subst (λ y. q y ≡ true) (sym same) h.1))
      | inr i ↦ r.1 (i, h.1)
    ],
  )

  pub All-map {ℓ κ} :
      (P : A → Type ℓ) (Q : A → Type κ)
      → ((a : A) → P a → Q a)
      → (xs : List A) → All P xs
      → All Q xs
  All-map P Q f [] h = tt
  All-map P Q f (x ∷ xs) h = (f x h.0, All-map P Q f xs h.1)

  pub All-always {ℓ} : (P : A → Type ℓ) → ((a : A) → P a) → (xs : List A) → All P xs
  All-always P f [] = tt
  All-always P f (x ∷ xs) = (f x, All-always P f xs)

  -- Of the rows that pass, and of all rows where they pass.
  pub All-filter_iff {ℓ} :
      (P : A → Type ℓ) (q : A → Bool) (xs : List A)
      → All P (filter q xs) ↔ All (λ x. q x ≡ true → P x) xs
  All-filter_iff P q [] = (λ h. tt, λ h. tt)
  All-filter_iff P q (x ∷ xs) = All-filter_step P q x xs (q x) refl (All-filter_iff P q xs)

  pub All-mapped {ℓ} :
      {B : Type 0} (P : B → Type ℓ) (f : A → B) (xs : List A)
      → All P (map f xs) ↔ All (λ x. P (f x)) xs
  All-mapped P f [] = (λ h. tt, λ h. tt)
  All-mapped P f (x ∷ xs) = let r = All-mapped P f xs in (λ h. (h.0, r.0 h.1), λ h. (h.0, r.1 h.1))

  -- What the filter returns is in the list and passes.
  pub In-filter_iff :
      (a : A) (q : A → Bool) (xs : List A) → In a (filter q xs) ↔ (In a xs × (q a ≡ true))
  In-filter_iff a q [] = (λ i. elim i [ ], λ i. elim i.0 [ ])
  In-filter_iff a q (x ∷ xs) = In-filter_step a q x xs (q x) refl (In-filter_iff a q xs)
