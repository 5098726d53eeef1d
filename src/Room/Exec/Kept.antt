-- ===== src/Room/Exec/Kept.antt =====
-- A relation between the room's states before and after a method: it holds of a method that is built
-- from methods of which it holds.
use meshelle.Prelude.{Bool, false, if◌then◌else◌, refl, true, ◌≡◌}
use meshelle.Proto.Error.{Result, err, ok}
use meshelle.Room.Server.{Server}
use meshelle.Room.Exec.{Exec, continue, lift, return, ◌>>=◌}

pub record IsPreorder (Kept : Server → Server → Type 0) : Type 0 where
  pub reflexive : (sv : Server) → Kept sv sv
  pub transitive : {a b d : Server} → Kept a b → Kept b d → Kept a d

module _ (Kept : Server → Server → Type 0) (order : IsPreorder Kept) where
  abbrev pub Keeps {ℓ} : {A : Type ℓ} → Exec A → Type 0
  Keeps first = (sv : Server) → Kept sv (first sv).1

  Keeps-continue {ℓ κ} :
      {A : Type ℓ} {B : Type κ} (a : Server) (o : Result A × Server) (rest : A → Exec B)
      → Kept a o.1
      → ((x : A) → Keeps (rest x))
      → Kept a (continue o rest).1
  Keeps-continue a (err raised, b) rest h k = h
  Keeps-continue a (ok x, b) rest h k = order.transitive h (k x b)

  pub Keeps->>= {ℓ κ} :
      {A : Type ℓ} {B : Type κ} (first : Exec A) (rest : A → Exec B)
      → Keeps first
      → ((x : A) → Keeps (rest x))
      → Keeps (first >>= rest)
  Keeps->>= first rest h k sv = Keeps-continue sv (first sv) rest (h sv) k

  pub Keeps-return {ℓ} : {A : Type ℓ} (x : A) → Keeps (return x)
  Keeps-return x sv = order.reflexive sv

  pub Keeps-lift {ℓ} : {A : Type ℓ} (r : Result A) → Keeps (lift r)
  Keeps-lift r sv = order.reflexive sv

  -- Pure code, and then a method, from one state.
  pub Keeps-lifted_at {ℓ κ} :
      {A : Type ℓ} {B : Type κ} (sv : Server) (r : Result A) (rest : A → Exec B)
      → ((x : A) → r ≡ ok x → Kept sv (rest x sv).1)
      → Kept sv ((lift r >>= rest) sv).1
  Keeps-lifted_at sv (err raised) rest k = order.reflexive sv
  Keeps-lifted_at sv (ok x) rest k = k x refl

  -- Pure code, and then a method.
  pub Keeps-lifted {ℓ κ} :
      {A : Type ℓ} {B : Type κ} (r : Result A) (rest : A → Exec B)
      → ((x : A) → Keeps (rest x))
      → Keeps (lift r >>= rest)
  Keeps-lifted r rest k = Keeps->>= (lift r) rest (Keeps-lift r) k

  pub Keeps-if {ℓ} :
      {A : Type ℓ} (b : Bool) (first second : Exec A)
      → Keeps first
      → Keeps second
      → Keeps (if b then first else second)
  Keeps-if true first second h k = h
  Keeps-if false first second h k = k
