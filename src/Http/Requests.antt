-- ===== src/Http/Requests.antt =====
-- The bodies of the requests and their decoding: helper.go, and the types with their `Validate` in
-- register.go, login.go and refresh.go.
use frimo_messenger.Base.{
  String, Bool, true, false, Option, none, some, str_eq, ◌==◌, if◌then◌else◌,
}
use frimo_messenger.Errors.{Error, Result, ok, err}
use frimo_messenger.Domain.{Uuid, Address}

pub record RegisterRequest : Type 0 where
  pub email : String
  pub password : String

pub record LoginRequest : Type 0 where
  pub email : String
  pub password : String
  pub device_name : String

pub record RefreshRequest : Type 0 where
  pub operation_id : Uuid
  pub refresh_token : String

-- What `json.UnmarshalRead` makes of a body, and `netip.ParseAddr` and the address of
-- `netip.ParseAddrPort` of a text.
pub record Decoders : Type 0 where
  pub unmarshal_register : String → Result RegisterRequest
  pub unmarshal_login : String → Result LoginRequest
  pub unmarshal_refresh : String → Result RefreshRequest
  pub unmarshal_resend : String → Result String
  pub parse_addr : String → Option Address
  pub parse_addr_port : String → Option Address

-- The errors of `decodeJSON`: one of the decoder, an `errors.New`, and the package's
-- `ValidationError` with its field and its code, as a value and as a pointer, which `errors.As`
-- tells apart.
pub data RequestError : Type 0 where
  unreadable : Error → RequestError
  message : String → RequestError
  validation_value validation_pointer : String → String → RequestError

abbrev pub is_validation_pointer : RequestError → Bool
is_validation_pointer (unreadable e) = false
is_validation_pointer (message m) = false
is_validation_pointer (validation_value field code) = false
is_validation_pointer (validation_pointer field code) = true

-- `registerRequest.Validate` and `refreshRequest.Validate`: the error, if there is one.
abbrev pub validate_register : RegisterRequest → Option RequestError
validate_register r =
    if str_eq r.email ""
    then some (message "operation_id is required")
    else if str_eq r.password ""
    then some (message "refresh_token is required")
    else none

abbrev pub validate_refresh : RefreshRequest → Option RequestError
validate_refresh r =
    if r.operation_id == 0
    then some (validation_value "operation_id" "required")
    else if str_eq r.refresh_token ""
    then some (validation_value "refresh_token" "required")
    else none

-- What `decodeJSON` gives: the request, or the first error.
pub data Decoded (R : Type 0) : Type 0 where
  request : R → Decoded R
  refused : RequestError → Decoded R

module _ {R : Type 0} where
  abbrev checked : R → Option RequestError → Decoded R
  checked r none = request r
  checked r (some e) = refused e

  abbrev pub decode_json : (R → Option RequestError) → Result R → Decoded R
  decode_json validate (ok r) = checked r (validate r)
  decode_json validate (err e) = refused (unreadable e)
