-- ===== src/Room/Acl/Declared.antt =====
-- What the validator of the members in config/model.py means for the logins of room/acl.py.
use meshelle.Prelude.{
  =b=_refl, All, All-map, Bytes, In, List, [], any, arith, false, refl, some, sym, true, ◌=b=◌, ◌∷◌,
  ◌≡◌, ◌≢◌,
}
use meshelle.Config.Model.{Member, RoomSettings}
use meshelle.Config.Checks.{members_are_unique, unseen}
use meshelle.Room.Acl.{member, resolve}
use meshelle.Room.Acl.Resolution.{UniqueKeys, resolve_listed}

-- A key that no seen key equals.
abbrev IsFresh : List Bytes → Bytes → Type 0
IsFresh seen key = All (λ k. k ≢ key) seen

any-IsFresh :
    (seen : List Bytes) (key : Bytes) → any (λ k. k =b= key) seen ≡ false → IsFresh seen key
any-IsFresh [] key e = tt
any-IsFresh (k ∷ seen) key e = (
  λ same. let found : (k =b= key) ≡ true = rw (same, =b=_refl key) refl in ground arith,
  any-IsFresh seen key (ground arith),
)

unseen-UniqueKeys :
    (seen : List Bytes) (ms : List Member)
    → unseen seen ms ≡ true
    → UniqueKeys ms × All (λ m. IsFresh seen m.pubkey) ms
unfolding unseen
unseen-UniqueKeys seen [] e = (tt, tt)
unseen-UniqueKeys seen (m ∷ ms) e =
    let fresh : any (λ k. k =b= m.pubkey) seen ≡ false = ground arith in
    let rest : unseen (m.pubkey ∷ seen) ms ≡ true = ground arith in
    let (unique, others) = unseen-UniqueKeys (m.pubkey ∷ seen) ms rest in
    (
      (
        All-map (λ n. IsFresh (m.pubkey ∷ seen) n.pubkey) (λ n. n.pubkey ≢ m.pubkey)
            (λ n h same. h.0 (sym same)) ms others,
        unique,
      ),
      (
        any-IsFresh seen m.pubkey fresh,
        All-map (λ n. IsFresh (m.pubkey ∷ seen) n.pubkey) (λ n. IsFresh seen n.pubkey) (λ n h. h.1)
            ms others,
      ),
    )

-- Where the validator accepts the members, each of them gets its declared role, whatever password
-- it offers.
pub resolve_declared :
    (room : RoomSettings) (m : Member) (secret : Bytes)
    → members_are_unique room ≡ true
    → In m room.members
    → resolve room m.pubkey secret ≡ some (record { role = m.role; source = member })
unfolding members_are_unique
resolve_declared room m secret accepted listed =
    resolve_listed room m secret (unseen-UniqueKeys [] room.members accepted).0 listed
