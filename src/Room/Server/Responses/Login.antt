-- ===== src/Room/Server/Responses/Login.antt =====
-- The login response's layout.
use meshelle.Prelude.{
  Bytes, [], arith, from_le, from_le-le_bytes_4, get_or, le_bytes, length, length-append, lt→ltb,
  refl, take, true, ℕ, ◌++◌, ◌<◌, ◌==◌, ◌^◌, ◌∷◌, ◌≡◌,
}
use meshelle.Proto.Error.{ok}
use meshelle.Proto.Constants.{
  firmware_ver_level, login_response_len, permission_code, resp_server_login_ok,
}
use meshelle.Config.Model.{Role, permission}
use meshelle.Room.Server.Responses.{legacy_admin, login_response}

-- With four random bytes and a 32-bit clock, the response is built. It has thirteen bytes: the
-- timestamp in the first four, zeros in bytes 4 and 5, and in byte 7 the permission of the role that
-- was granted.
pub login_response_lem :
    (role : Role) (stamp : ℕ) (random : Bytes)
    → stamp < 2 ^ 32
    → length random ≡ 4
    → (response : Bytes) × (login_response role stamp random ≡ ok response)
      × (length response ≡ 13)
      × (from_le (take 4 response) ≡ stamp)
      × (get_or response 4 1 ≡ 0)
      × (get_or response 5 1 ≡ 0)
      × (get_or response 7 0 ≡ permission_code (permission role))
unfolding login_response
login_response_lem role stamp random fits four =
    let last = length-append random (firmware_ver_level ∷ []) in
    let response =
      le_bytes 4 stamp
      ++ (resp_server_login_ok
          ∷ 0
          ∷ legacy_admin (permission role)
          ∷ permission_code (permission role)
          ∷ [])
      ++ random
      ++ firmware_ver_level ∷ [] in
    let size : length response ≡ 13 = omega arith in
    let whole : (length response == login_response_len) ≡ true = ground arith in
    (
      response,
      rw (lt→ltb stamp (2 ^ 32) fits, whole) refl,
      size,
      from_le-le_bytes_4 stamp fits,
      refl,
      refl,
      refl,
    )
