-- ===== src/Forge/TokenResponse.antt =====
-- What a token endpoint answers (forge/runtime/token.go): parseTokenResponse and jwtExp. An int64 is
-- its bit pattern. A decoded number is the int64 that it converts to.
use rysh_cli_shared.Prelude.{
  ℕ, String, Bool, Option, none, some, List, [], ◌∷◌, ◌==◌, if◌then◌else◌, Map, lookup, split_at,
}

mutual
  -- A decoded JSON value; null, Booleans and arrays are alike here.
  pub data Json : Type 0 where
    json_text : String → Json
    json_number : ℕ → Json
    json_object : Members → Json
    json_other : Json

  pub data Members : Type 0 where
    no_members : Members
    member : String → Json → Members → Members

-- The packages that only decode: encoding/json, net/url, strconv and encoding/base64.
pub record Decoding : Type 0 where
  pub decode_object : String → Option Members
  pub parse_query : String → Option (Map String)
  pub parse_int : String → ℕ
  pub is_int : String → Bool
  pub raw_url : String → Option String
  pub padded_url : String → Option String
  pub claims_exp : String → Option ℕ

-- The field paths of a token response.
pub record Fields : Type 0 where
  pub access_token_field : String
  pub refresh_token_field : String
  pub expires_in_field : String

pub record TokenResponse : Type 0 where
  pub access : String
  pub refresh : String
  pub expires_in : ℕ

-- orDefault
abbrev pub or_default : String → String → String
or_default s def = if s == "" then def else s

-- m[p], or nil
unfoldable pub field : String → Members → Option Json
field p no_members = none
field p (member q v ms) = let rest = field p ms in if q == p then some v else rest

abbrev pub step_into : String → Option Json → Option Json
step_into p (some (json_object ms)) = field p ms
step_into p _ = none

-- The loop of getPath.
unfoldable pub walk : Option Json → List String → Option Json
walk cur [] = cur
walk cur (p ∷ ps) = walk (step_into p cur) ps

-- getPath
abbrev pub get_path : Members → String → Option Json
get_path ms path = walk (some (json_object ms)) (split_at b'.' path)

-- asString
abbrev pub as_text : Option Json → String
as_text (some (json_text s)) = s
as_text _ = ""

-- asInt64
abbrev pub as_int64 : Decoding → Option Json → ℕ
as_int64 d (some (json_number n)) = n
as_int64 d (some (json_text s)) = d.parse_int s
as_int64 d _ = 0

abbrev pub access_name : Fields → String
access_name f = or_default f.access_token_field "access_token"

abbrev pub refresh_name : Fields → String
refresh_name f = or_default f.refresh_token_field "refresh_token"

abbrev pub expires_name : Fields → String
expires_name f = or_default f.expires_in_field "expires_in"

-- vals.Get
abbrev pub first_value : Option String → String
first_value none = ""
first_value (some s) = s

abbrev pub from_object : Decoding → Fields → Members → TokenResponse
from_object d f ms = record {
  access = as_text (get_path ms (access_name f));
  refresh = as_text (get_path ms (refresh_name f));
  expires_in = as_int64 d (get_path ms (expires_name f));
}

abbrev pub from_values : Decoding → Fields → Map String → TokenResponse
from_values d f vals =
    let n = first_value (lookup (expires_name f) vals) in
    record {
      access = first_value (lookup (access_name f) vals);
      refresh = first_value (lookup (refresh_name f) vals);
      expires_in = if d.is_int n then d.parse_int n else 0;
    }

-- The form-encoded fallback.
abbrev pub from_query : Decoding → Fields → Option (Map String) → Option TokenResponse
from_query d f none = none
from_query d f (some vals) = let r = from_values d f vals in if r.access == "" then none else some r

abbrev pub or_query : Decoding → Fields → String → Option Members → Option TokenResponse
or_query d f body none = from_query d f (d.parse_query body)
or_query d f body (some ms) = some (from_object d f ms)

-- parseTokenResponse
unfoldable pub parse_token_response : Decoding → Fields → String → Option TokenResponse
parse_token_response d f body = or_query d f body (d.decode_object body)

abbrev pub or_padded : Option String → Option String → Option String
or_padded none b = b
or_padded (some a) b = some a

abbrev pub exp_claim : Decoding → Option String → ℕ
exp_claim d none = 0
exp_claim d (some payload) = or_zero (d.claims_exp payload)
  where
    or_zero : Option ℕ → ℕ
    or_zero none = 0
    or_zero (some n) = n

abbrev pub exp_of_parts : Decoding → List String → ℕ
exp_of_parts d (h ∷ p ∷ s ∷ []) = exp_claim d (or_padded (d.raw_url p) (d.padded_url p))
exp_of_parts d _ = 0

-- jwtExp
unfoldable pub jwt_exp : Decoding → String → ℕ
jwt_exp d token = exp_of_parts d (split_at b'.' token)
