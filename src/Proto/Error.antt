-- ===== src/Proto/Error.antt =====
-- The exceptions of the protocol code, and the values that stand for a call that may raise one.
use meshelle.Prelude.{
  Bool, Bytes, [], false, if◌then◌else◌, inl, inr, le_bytes, ltb, refl, true, ℕ, ◌^◌, ◌∷◌, ◌≡◌, ◌⊎◌,
}

-- The first constructors are the `PacketError`s, one for each message. `value_error` is Python's
-- `ValueError`, `struct_error` is `struct.error`, `decryption_error` is `DecryptionError`,
-- `identity_error` is `IdentityError` and `integrity_error` the database's. `out_of_fuel` is no
-- exception: it stands where a model's fuel ends.
pub data Error : Type 0 where
  short_packet reserved_type truncated_codes missing_path_length reserved_hash_size : Error
  long_path truncated_path no_payload long_payload : Error
  bad_hash_size ragged_path too_many_hops empty_payload : Error
  short_datagram short_anon_request bad_public_key : Error
  short_text unsupported_text short_login short_request : Error
  empty_path_return bad_checksum short_ack : Error
  bad_signature short_advert long_appdata empty_appdata truncated_appdata : Error
  bad_login_response : Error
  value_error struct_error decryption_error : Error
  identity_error integrity_error out_of_fuel : Error

-- Whether `except PacketError` catches it.
abbrev pub is_packet_error : Error → Bool
is_packet_error value_error = false
is_packet_error struct_error = false
is_packet_error decryption_error = false
is_packet_error identity_error = false
is_packet_error integrity_error = false
is_packet_error out_of_fuel = false
is_packet_error _ = true

pub data Result {ℓ} (A : Type ℓ) : Type ℓ where
  err : Error → Result A
  ok : A → Result A

-- The rest of a function runs where no exception was raised.
infixl 5 ◌>>=◌
abbrev pub ◌>>=◌ {ℓ κ} :
    {Value : Type ℓ} {Out : Type κ} → Result Value → (Value → Result Out) → Result Out
err raised >>= rest = err raised
ok value >>= rest = rest value

infixl 5 ◌>>◌
abbrev pub ◌>>◌ {κ} : {Out : Type κ} → Result (Unit {0}) → Result Out → Result Out
effect >> rest = effect >>= λ done. rest

-- `if not test: raise e`
abbrev pub guard : Bool → Error → Result (Unit {0})
guard false raised = err raised
guard true raised = ok tt

-- `bytes([n])`
abbrev pub byte_of : ℕ → Result Bytes
byte_of n = if ltb n 256 then ok (n ∷ []) else err value_error

-- `struct.pack("<H", n)` and `struct.pack("<I", n)`
abbrev pub pack_u16 : ℕ → Result Bytes
pack_u16 n = if ltb n (2 ^ 16) then ok (le_bytes 2 n) else err struct_error

abbrev pub pack_u32 : ℕ → Result Bytes
pack_u32 n = if ltb n (2 ^ 32) then ok (le_bytes 4 n) else err struct_error

pub >>=-eq-ok {ℓ κ} :
    {Value : Type ℓ} {Out : Type κ} (first : Result Value) (rest : Value → Result Out) {out : Out}
    → (first >>= rest) ≡ ok out
    → (value : Value) × (first ≡ ok value) × (rest value ≡ ok out)
>>=-eq-ok (err raised) rest returned = cc
>>=-eq-ok (ok value) rest returned = (value, refl, returned)

pub Result-cases {ℓ} :
    {A : Type ℓ} (r : Result A) → ((a : A) × (r ≡ ok a)) ⊎ ((raised : Error) × (r ≡ err raised))
Result-cases (err raised) = inr (raised, refl)
Result-cases (ok a) = inl (a, refl)
