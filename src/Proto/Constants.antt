-- ===== src/Proto/Constants.antt =====
-- proto/constants.py: the sizes, masks and enumerations that the modelled code reads.
use meshelle.Prelude.{Bool, arith, false, if◌then◌else◌, refl, true, ℕ, ◌-◌, ◌<◌, ◌==◌, ◌≡◌}
use meshelle.Proto.Error.{Result, err, ok, value_error}

abbrev pub pub_key_size : ℕ
pub_key_size = 32

abbrev pub prv_key_size : ℕ
prv_key_size = 64

abbrev pub seed_size : ℕ
seed_size = 32

abbrev pub signature_size : ℕ
signature_size = 64

abbrev pub cipher_mac_size : ℕ
cipher_mac_size = 2

abbrev pub cipher_key_size : ℕ
cipher_key_size = 16

abbrev pub cipher_block_size : ℕ
cipher_block_size = 16

abbrev pub max_hash_size : ℕ
max_hash_size = 8

abbrev pub max_packet_payload : ℕ
max_packet_payload = 184

abbrev pub max_path_size : ℕ
max_path_size = 64

abbrev pub max_advert_data_size : ℕ
max_advert_data_size = 32

abbrev pub max_text_len : ℕ
max_text_len = 160

abbrev pub max_post_text_len : ℕ
max_post_text_len = max_text_len - 9

abbrev pub ph_route_mask : ℕ
ph_route_mask = 0x03

abbrev pub ph_type_shift : ℕ
ph_type_shift = 2

abbrev pub ph_type_mask : ℕ
ph_type_mask = 0x0f

abbrev pub ph_ver_shift : ℕ
ph_ver_shift = 6

abbrev pub ph_ver_mask : ℕ
ph_ver_mask = 0x03

abbrev pub transport_codes_size : ℕ
transport_codes_size = 4

abbrev pub path_hop_count_mask : ℕ
path_hop_count_mask = 0x3f

abbrev pub path_hash_size_shift : ℕ
path_hash_size_shift = 6

abbrev pub path_hash_size_mask : ℕ
path_hash_size_mask = 0x03

abbrev pub out_path_unknown : ℕ
out_path_unknown = 0xff

abbrev pub txt_flags_type_shift : ℕ
txt_flags_type_shift = 2

abbrev pub txt_attempt_mask : ℕ
txt_attempt_mask = 0x03

abbrev pub signed_author_prefix_len : ℕ
signed_author_prefix_len = 4

abbrev pub resp_server_login_ok : ℕ
resp_server_login_ok = 0

abbrev pub firmware_ver_level : ℕ
firmware_ver_level = 1

abbrev pub login_response_len : ℕ
login_response_len = 13

abbrev pub max_frame_size : ℕ
max_frame_size = 176

abbrev pub max_raw_tx_packet : ℕ
max_raw_tx_packet = max_frame_size - 2

abbrev pub adv_latlon_mask : ℕ
adv_latlon_mask = 0x10

abbrev pub adv_feat1_mask : ℕ
adv_feat1_mask = 0x20

abbrev pub adv_feat2_mask : ℕ
adv_feat2_mask = 0x40

abbrev pub adv_name_mask : ℕ
adv_name_mask = 0x80

pub data AdvertType : Type 0 where
  nothing chat repeater room sensor : AdvertType

abbrev pub advert_code : AdvertType → ℕ
advert_code nothing = 0
advert_code chat = 1
advert_code repeater = 2
advert_code room = 3
advert_code sensor = 4

pub data RouteType : Type 0 where
  transport_flood flood direct transport_direct : RouteType

pub data PayloadType : Type 0 where
  req response txt_msg ack advert grp_txt grp_data anon_req path trace : PayloadType
  multipart control raw_custom : PayloadType

pub data PayloadVersion : Type 0 where
  v1 v2 v3 v4 : PayloadVersion

pub data TxtType : Type 0 where
  plain cli_data signed_plain : TxtType

pub data Permission : Type 0 where
  guest read_only read_write admin : Permission

abbrev pub is_flood : RouteType → Bool
is_flood transport_flood = true
is_flood flood = true
is_flood _ = false

abbrev pub is_direct : RouteType → Bool
is_direct direct = true
is_direct transport_direct = true
is_direct _ = false

abbrev pub has_transport_codes : RouteType → Bool
has_transport_codes transport_flood = true
has_transport_codes transport_direct = true
has_transport_codes _ = false

-- The integer of a member, and `RouteType(n)`, which raises `ValueError` on any other integer.
abbrev pub route_code : RouteType → ℕ
route_code transport_flood = 0
route_code flood = 1
route_code direct = 2
route_code transport_direct = 3

unfoldable pub route_type : ℕ → Result RouteType
route_type n =
    if n == 0
    then ok transport_flood
    else if n == 1
    then ok flood
    else if n == 2
    then ok direct
    else if n == 3
    then ok transport_direct
    else err value_error

abbrev pub payload_code : PayloadType → ℕ
payload_code req = 0x00
payload_code response = 0x01
payload_code txt_msg = 0x02
payload_code ack = 0x03
payload_code advert = 0x04
payload_code grp_txt = 0x05
payload_code grp_data = 0x06
payload_code anon_req = 0x07
payload_code path = 0x08
payload_code trace = 0x09
payload_code multipart = 0x0a
payload_code control = 0x0b
payload_code raw_custom = 0x0f

unfoldable pub payload_type : ℕ → Result PayloadType
payload_type n =
    if n == 0x00
    then ok req
    else if n == 0x01
    then ok response
    else if n == 0x02
    then ok txt_msg
    else if n == 0x03
    then ok ack
    else if n == 0x04
    then ok advert
    else if n == 0x05
    then ok grp_txt
    else if n == 0x06
    then ok grp_data
    else if n == 0x07
    then ok anon_req
    else if n == 0x08
    then ok path
    else if n == 0x09
    then ok trace
    else if n == 0x0a
    then ok multipart
    else if n == 0x0b
    then ok control
    else if n == 0x0f
    then ok raw_custom
    else err value_error

abbrev pub version_code : PayloadVersion → ℕ
version_code v1 = 0
version_code v2 = 1
version_code v3 = 2
version_code v4 = 3

unfoldable pub payload_version : ℕ → Result PayloadVersion
payload_version n =
    if n == 0
    then ok v1
    else if n == 1
    then ok v2
    else if n == 2
    then ok v3
    else if n == 3
    then ok v4
    else err value_error

abbrev pub txt_code : TxtType → ℕ
txt_code plain = 0
txt_code cli_data = 1
txt_code signed_plain = 2

unfoldable pub txt_type : ℕ → Result TxtType
txt_type n =
    if n == 0
    then ok plain
    else if n == 1
    then ok cli_data
    else if n == 2
    then ok signed_plain
    else err value_error

abbrev pub permission_code : Permission → ℕ
permission_code guest = 0
permission_code read_only = 1
permission_code read_write = 2
permission_code admin = 3

abbrev pub req_get_status : ℕ
req_get_status = 0x01

abbrev pub req_keep_alive : ℕ
req_keep_alive = 0x02

abbrev pub req_get_access_list : ℕ
req_get_access_list = 0x05

-- A member's integer names the member again.
pub route_type-route_code : (r : RouteType) → route_type (route_code r) ≡ ok r
unfolding route_type
route_type-route_code r = ground arith

pub payload_type-payload_code : (p : PayloadType) → payload_type (payload_code p) ≡ ok p
unfolding payload_type
payload_type-payload_code req = refl
payload_type-payload_code _ = refl

pub payload_version-version_code : (v : PayloadVersion) → payload_version (version_code v) ≡ ok v
unfolding payload_version
payload_version-version_code v = ground arith

pub txt_type-txt_code : (t : TxtType) → txt_type (txt_code t) ≡ ok t
unfolding txt_type
txt_type-txt_code t = ground arith

-- An integer that names a member is the member's.
pub route_code-route_type : (n : ℕ) (r : RouteType) → route_type n ≡ ok r → route_code r ≡ n
unfolding route_type
route_code-route_type n r h = ground arith

pub payload_code-payload_type :
    (n : ℕ) (p : PayloadType) → payload_type n ≡ ok p → payload_code p ≡ n
unfolding payload_type
payload_code-payload_type n p h = ground arith

pub version_code-payload_version :
    (n : ℕ) (v : PayloadVersion) → payload_version n ≡ ok v → version_code v ≡ n
unfolding payload_version
version_code-payload_version n v h = ground arith

pub txt_code-txt_type : (n : ℕ) (t : TxtType) → txt_type n ≡ ok t → txt_code t ≡ n
unfolding txt_type
txt_code-txt_type n t h = ground arith

pub route_code-lt : (r : RouteType) → route_code r < 4
route_code-lt transport_flood = omega arith
route_code-lt _ = omega arith

pub payload_code-lt : (p : PayloadType) → payload_code p < 16
payload_code-lt req = omega arith
payload_code-lt _ = omega arith

pub version_code-lt : (v : PayloadVersion) → version_code v < 4
version_code-lt v1 = omega arith
version_code-lt _ = omega arith

pub txt_code-lt : (t : TxtType) → txt_code t < 3
txt_code-lt plain = omega arith
txt_code-lt _ = omega arith
