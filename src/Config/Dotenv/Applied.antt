-- ===== src/Config/Dotenv/Applied.antt =====
-- `apply_dotenv` of config/dotenv.py.
use meshelle.Prelude.{
  =b=→eq, All, Bool, Bool-cases, In, List, Option, [], false, if◌then◌else◌, inl, inr, map, none,
  refl, some, sym, true, ℕ, ◌++◌, ◌=b=◌, ◌∙◌, ◌∷◌, ◌≡◌,
}
use meshelle.Proto.Text.{Text}
use meshelle.Config.Dotenv.{DotenvEntry}
use mathlib.Core.Option.{none-ne-some}

abbrev pub Environ : Type 0
Environ = List (Text × Text)

abbrev pub value_of : Text → Environ → Option Text
value_of name [] = none
value_of name ((other, value) ∷ rest) =
    let found = value_of name rest in if other =b= name then some value else found

abbrev pub is_set : Text → Environ → Bool
is_set name environ = elim (value_of name environ) [ none ↦ false | some v ↦ true ]

-- `target.pop(name, None)`
abbrev pub pop : Text → Environ → Environ
pop name [] = []
pop name ((other, value) ∷ rest) =
    let kept = pop name rest in if other =b= name then kept else (other, value) ∷ kept

-- `for name in owned: target.pop(name, None)`
unfoldable pub pop_all : List Text → Environ → Environ
pop_all [] environ = environ
pop_all (name ∷ names) environ = pop_all names (pop name environ)

-- What loading changed, and the environment then. A source is the line of an applied name.
pub record DotenvResult : Type 0 where
  pub environ : Environ
  pub applied : List Text
  pub shadowed : List Text
  pub sources : List (Text × ℕ)

-- One round of the loop over the entries.
unfoldable pub apply_entry : DotenvEntry → DotenvResult → DotenvResult
apply_entry entry r =
    if is_set entry.name r.environ
    then record r { shadowed = r.shadowed ++ entry.name ∷ [] }
    else record r {
      environ = r.environ ++ (entry.name, entry.value) ∷ [];
      applied = r.applied ++ entry.name ∷ [];
      sources = r.sources ++ (entry.name, entry.line) ∷ [];
    }

unfoldable pub apply_entries : List DotenvEntry → DotenvResult → DotenvResult
unfolding apply_entry
apply_entries [] r = r
apply_entries (entry ∷ entries) r = apply_entries entries (apply_entry entry r)

unfoldable pub apply_dotenv : List DotenvEntry → Environ → List Text → DotenvResult
unfolding apply_entries pop_all
apply_dotenv entries environ owned =
    apply_entries entries
      (record { environ = pop_all owned environ; applied = []; shadowed = []; sources = [] })

-- The first binding of a name, before what others give.
first_some :
    (b : Bool) (w v : Text) (found other : Option Text)
    → (if b then some w else found) ≡ some v
    → (found ≡ some v → other ≡ some v)
    → (if b then some w else other) ≡ some v
first_some true w v found other h k = h
first_some false w v found other h k = k h

first_none :
    (b : Bool) (w : Text) (found other : Option Text)
    → (if b then some w else found) ≡ none
    → (found ≡ none → other ≡ none)
    → (if b then some w else other) ≡ none
first_none true w found other h k = absurd (none-ne-some w (sym h))
first_none false w found other h k = k h

-- A value that is there stays, whatever is put behind it.
value_of-append :
    (name v : Text) (environ more : Environ)
    → value_of name environ ≡ some v
    → value_of name (environ ++ more) ≡ some v
value_of-append name v [] more h = absurd (none-ne-some v h)
value_of-append name v ((other, w) ∷ rest) more h =
    first_some (other =b= name) w v (value_of name rest) (value_of name (rest ++ more)) h
      (value_of-append name v rest more)

value_of-append_none :
    (name other w : Text) (environ : Environ)
    → (other =b= name) ≡ false
    → value_of name environ ≡ none
    → value_of name (environ ++ (other, w) ∷ []) ≡ none
value_of-append_none name other w [] differs h = rw differs refl
value_of-append_none name other w ((first, x) ∷ rest) differs h =
    first_none (first =b= name) x (value_of name rest) (value_of name (rest ++ (other, w) ∷ [])) h
      (value_of-append_none name other w rest differs)

-- Another name's value is not touched by `pop`, and the name's own is gone.
value_of-pop :
    (name other : Text) (environ : Environ)
    → (other =b= name) ≡ false
    → value_of name (pop other environ) ≡ value_of name environ
value_of-pop name other [] differs = refl
value_of-pop name other ((first, w) ∷ rest) differs =
    let later = value_of-pop name other rest differs in
    elim (Bool-cases (first =b= other)) [
      | inl popped ↦
          let same = =b=→eq first other popped in
          let passed : (first =b= name) ≡ false = rw same differs in rw (popped, passed) later
      | inr kept ↦ rw (kept, later) refl
    ]

value_of-pop_self : (name : Text) (environ : Environ) → value_of name (pop name environ) ≡ none
value_of-pop_self name [] = refl
value_of-pop_self name ((first, w) ∷ rest) = elim (Bool-cases (first =b= name)) [
  | inl popped ↦ rw popped (value_of-pop_self name rest)
  | inr kept ↦ rw (kept, kept) (value_of-pop_self name rest)
]

-- No name of a list is this one.
abbrev pub NoneNamed : Text → List Text → Type 0
NoneNamed name names = All (λ other. (other =b= name) ≡ false) names

pop_all-others :
    (name : Text) (owned : List Text) (environ : Environ)
    → NoneNamed name owned
    → value_of name (pop_all owned environ) ≡ value_of name environ
unfolding pop_all
pop_all-others name [] environ h = refl
pop_all-others name (other ∷ owned) environ (differs, hs) =
    pop_all-others name owned (pop other environ) hs ∙ value_of-pop name other environ differs

pop_all-none :
    (name : Text) (owned : List Text) (environ : Environ)
    → value_of name environ ≡ none
    → value_of name (pop_all owned environ) ≡ none
unfolding pop_all
pop_all-none name [] environ h = h
pop_all-none name (other ∷ owned) environ h =
    pop_all-none name owned (pop other environ) (elim (Bool-cases (other =b= name)) [
      | inl same ↦ let e = =b=→eq other name same in rw e (value_of-pop_self name environ)
      | inr differs ↦ value_of-pop name other environ differs ∙ h
    ])

pop_all-owned :
    (name : Text) (owned : List Text) (environ : Environ)
    → In name owned
    → value_of name (pop_all owned environ) ≡ none
unfolding pop_all
pop_all-owned name [] environ i = elim i [ ]
pop_all-owned name (other ∷ owned) environ (inl e) =
    pop_all-none name owned (pop other environ) (rw e (value_of-pop_self name environ))
pop_all-owned name (other ∷ owned) environ (inr i) = pop_all-owned name owned (pop other environ) i

apply_entry-some :
    (name v : Text) (entry : DotenvEntry) (r : DotenvResult)
    → value_of name r.environ ≡ some v
    → value_of name (apply_entry entry r).environ ≡ some v
unfolding apply_entry
apply_entry-some name v entry r h = elim (Bool-cases (is_set entry.name r.environ)) [
  | inl set ↦ rw set h
  | inr unset ↦ rw unset (value_of-append name v r.environ ((entry.name, entry.value) ∷ []) h)
]

apply_entries-some :
    (name v : Text) (entries : List DotenvEntry) (r : DotenvResult)
    → value_of name r.environ ≡ some v
    → value_of name (apply_entries entries r).environ ≡ some v
unfolding apply_entries
apply_entries-some name v [] r h = h
apply_entries-some name v (entry ∷ entries) r h =
    apply_entries-some name v entries (apply_entry entry r) (apply_entry-some name v entry r h)

apply_entry-none :
    (name : Text) (entry : DotenvEntry) (r : DotenvResult)
    → (entry.name =b= name) ≡ false
    → value_of name r.environ ≡ none
    → value_of name (apply_entry entry r).environ ≡ none
unfolding apply_entry
apply_entry-none name entry r differs h = elim (Bool-cases (is_set entry.name r.environ)) [
  | inl set ↦ rw set h
  | inr unset ↦ rw unset (value_of-append_none name entry.name entry.value r.environ differs h)
]

apply_entries-none :
    (name : Text) (entries : List DotenvEntry) (r : DotenvResult)
    → NoneNamed name (map (λ e. e.name) entries)
    → value_of name r.environ ≡ none
    → value_of name (apply_entries entries r).environ ≡ none
unfolding apply_entries
apply_entries-none name [] r differs h = h
apply_entries-none name (entry ∷ entries) r (differs, others) h =
    apply_entries-none name entries (apply_entry entry r) others
      (apply_entry-none name entry r differs h)

-- Loading a file never changes a variable that the environment has and that no earlier load set.
pub apply_dotenv-keeps :
    (entries : List DotenvEntry) (environ : Environ) (owned : List Text) (name v : Text)
    → NoneNamed name owned
    → value_of name environ ≡ some v
    → value_of name (apply_dotenv entries environ owned).environ ≡ some v
unfolding apply_dotenv
apply_dotenv-keeps entries environ owned name v others h =
    apply_entries-some name v entries _ (pop_all-others name owned environ others ∙ h)

-- A variable that an earlier load set, and that the file has no more, is gone after a reload.
pub apply_dotenv-forgets :
    (entries : List DotenvEntry) (environ : Environ) (owned : List Text) (name : Text)
    → In name owned
    → NoneNamed name (map (λ e. e.name) entries)
    → value_of name (apply_dotenv entries environ owned).environ ≡ none
unfolding apply_dotenv
apply_dotenv-forgets entries environ owned name i others =
    apply_entries-none name entries _ others (pop_all-owned name owned environ i)
