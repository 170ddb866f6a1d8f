-- ===== src/Forge/Token.antt =====
-- TokenManager (forge/runtime/token.go). The lock is held through each call. A time is in nanoseconds
-- since the zero time; a duration and an int64 are bit patterns. The answers of a token endpoint and
-- the time are functions of a clock that counts them; `requests` has what was sent, the last first.
pub mod Answers
use rysh_cli_shared.Prelude.{
  ℕ, suc, ◌+◌, ◌-◌, ◌*◌, ◌%◌, String, Bool, true, false, ◌&&◌, ◌||◌, not, Option, none, some, List,
  [], ◌∷◌, ◌==◌, ◌<>◌, if◌then◌else◌, Result, ok, err, Map, lookup, insert, ltb, leb, eqb, slt,
  two_64, show_int,
}
use rysh_cli_shared.Forge.TokenResponse.{
  Decoding, Fields, TokenResponse, parse_token_response, jwt_exp, first_value,
}

pub record AuthConfig : Type 0 where
  pub kind : String
  pub token_url : String
  pub refresh_url : String
  pub content_type : String
  pub username_env : String
  pub password_env : String
  pub client_id_env : String
  pub client_secret_env : String
  pub access_token_env : String
  pub refresh_token_env : String
  pub scope : String
  pub fields : Fields
  pub expiry_margin : String

pub record TokenRequest : Type 0 where
  pub url : String
  pub content_type : String
  pub form : Map String
  pub basic : Option (String × String)

pub record AuthWorld : Type 0 where
  pub getenv : String → String
  pub parse_duration : String → Option ℕ
  pub decoding : Decoding
  pub now : ℕ → ℕ
  pub respond : ℕ → TokenRequest → Result String (ℕ × String)

pub record TokenManager : Type 0 where
  pub cfg : AuthConfig
  pub margin : ℕ
  pub username : String
  pub password : String
  pub client_id : String
  pub client_secret : String
  pub static_access : String
  pub static_refresh : String
  pub access : String
  pub refresh : String
  pub expiry : ℕ
  pub clock : ℕ
  pub requests : List TokenRequest

-- AuthConfig.IsTokenFlow
unfoldable pub is_token_flow : AuthConfig → Bool
is_token_flow c =
    c.kind == "static"
    || c.kind == "jwt_login"
    || c.kind == "oauth2_password"
    || c.kind == "oauth2_client_credentials"

abbrev pub one_second : ℕ
one_second = 1000000000

abbrev pub default_expiry_margin : ℕ
default_expiry_margin = 30 * one_second

abbrev pub margin_from : Option ℕ → Result String ℕ
margin_from none = err "auth: invalid expiry_margin"
margin_from (some d) = ok (if slt 0 d then d else default_expiry_margin)

abbrev pub margin_of : AuthWorld → AuthConfig → Result String ℕ
margin_of w c =
    if c.expiry_margin == ""
    then ok default_expiry_margin
    else margin_from (w.parse_duration c.expiry_margin)

abbrev pub resolved : AuthWorld → AuthConfig → ℕ → TokenManager
resolved w c margin = record {
  cfg = c;
  margin = margin;
  username = w.getenv c.username_env;
  password = w.getenv c.password_env;
  client_id = w.getenv c.client_id_env;
  client_secret = w.getenv c.client_secret_env;
  static_access = w.getenv c.access_token_env;
  static_refresh = w.getenv c.refresh_token_env;
  access = "";
  refresh = "";
  expiry = 0;
  clock = 0;
  requests = [];
}

abbrev pub checked : TokenManager → Result String (Option TokenManager)
checked t =
    if t.cfg.kind == "static"
    then if t.static_access == ""
      then err "auth: static type needs access_token_env"
      else ok (some t)
    else if t.cfg.token_url == ""
    then err ("auth: " <> (t.cfg.kind <> " needs a token_url"))
    else ok (some t)

-- NewTokenManager
unfoldable pub new_token_manager : AuthWorld → AuthConfig → Result String (Option TokenManager)
new_token_manager w c = if is_token_flow c then with_margin (margin_of w c) else ok none
  where
    with_margin : Result String ℕ → Result String (Option TokenManager)
    with_margin (err e) = err e
    with_margin (ok m) = checked (resolved w c m)

-- time.Time.Add
abbrev pub add_duration : ℕ → ℕ → ℕ
add_duration time d = if slt d 0 then time - (two_64 - d) else time + d

-- valid; t.expiry.Add(-t.margin), where a margin is positive
unfoldable pub is_valid : AuthWorld → TokenManager → Bool
is_valid w t = eqb t.expiry 0 || ltb (w.now t.clock) (t.expiry - t.margin)

-- time.Unix(sec, 0)
abbrev pub unix_time : ℕ → ℕ
unix_time sec = (62135596800 + sec) * one_second

abbrev pub expiry_of : AuthWorld → ℕ → TokenResponse → ℕ
expiry_of w clock r =
    if slt 0 r.expires_in
    then add_duration (w.now clock) ((r.expires_in * one_second) % two_64)
    else if slt 0 (jwt_exp w.decoding r.access)
    then unix_time (jwt_exp w.decoding r.access)
    else 0

abbrev pub missing_token : String
missing_token = "auth: token response missing access token"

-- store, with the parsed response
unfoldable pub keep : AuthWorld → Option TokenResponse → TokenManager → Option String × TokenManager
keep w none t = (some missing_token, t)
keep w (some r) t = if r.access == "" then (some missing_token, t) else (
  none,
  record t {
    access = r.access;
    refresh = if r.refresh == "" then t.refresh else r.refresh;
    expiry = expiry_of w t.clock r;
  },
)

-- store
abbrev pub store : AuthWorld → String → TokenManager → Option String × TokenManager
store w body t = keep w (parse_token_response w.decoding t.cfg.fields body) t

abbrev pub take_response :
    AuthWorld → Result String (ℕ × String) → TokenManager → Option String × TokenManager
take_response w (err e) t = (some ("auth: token request failed: " <> e), t)
take_response w (ok (status, body)) t =
    if ltb status 200 || leb 300 status
    then (some ("auth: token endpoint returned HTTP " <> show_int status), t)
    else store w body t

-- do
unfoldable pub send : AuthWorld → TokenRequest → TokenManager → Option String × TokenManager
send w r t =
    take_response w (w.respond t.clock r)
      (record t { clock = suc t.clock; requests = r ∷ t.requests })

-- postJSON
abbrev pub post_json : AuthWorld → String → Map String → TokenManager → Option String × TokenManager
post_json w endpoint body t =
    send w (record { url = endpoint; content_type = "application/json"; form = body; basic = none })
      t

abbrev pub basic_auth : TokenManager → Map String → Option (String × String)
basic_auth t form =
    if not (t.client_id == "") && first_value (lookup "client_id" form) == ""
    then some (t.client_id, t.client_secret)
    else none

-- postToken
unfoldable pub post_token :
    AuthWorld → String → Map String → TokenManager → Option String × TokenManager
post_token w endpoint form t =
    if t.cfg.content_type == "json"
    then post_json w endpoint form t
    else send w
        (record {
          url = endpoint;
          content_type = "application/x-www-form-urlencoded";
          form = form;
          basic = basic_auth t form;
        })
        t

abbrev pub set_unless_empty : String → String → Map String → Map String
set_unless_empty k v form = if v == "" then form else insert k v form

-- addClientAndScope
abbrev pub add_client_and_scope : TokenManager → Map String → Map String
add_client_and_scope t form = set_unless_empty "scope" t.cfg.scope (
    set_unless_empty "client_secret" t.client_secret
      (set_unless_empty "client_id" t.client_id form))

abbrev pub re_authenticate : String → String
re_authenticate why = "auth: re-authentication required (" <> (why <> ")")

-- acquireLocked
unfoldable pub acquire_locked : AuthWorld → TokenManager → Option String × TokenManager
acquire_locked w t =
    if t.cfg.kind == "static"
    then if t.static_access == ""
      then (some (re_authenticate "static access token unavailable"), t)
      else (none, record t { access = t.static_access; refresh = t.static_refresh; expiry = 0 })
    else if t.cfg.kind == "oauth2_password"
    then if t.username == ""
      then (some (re_authenticate "username env empty"), t)
      else post_token w t.cfg.token_url
          (add_client_and_scope t
            (("grant_type", "password") ∷ ("username", t.username) ∷ ("password", t.password) ∷ []))
          t
    else if t.cfg.kind == "oauth2_client_credentials"
    then if t.client_id == ""
      then (some (re_authenticate "client_id env empty"), t)
      else post_token w t.cfg.token_url
          (add_client_and_scope t (("grant_type", "client_credentials") ∷ [])) t
    else if t.cfg.kind == "jwt_login"
    then if t.username == ""
      then (some (re_authenticate "username env empty"), t)
      else post_json w t.cfg.token_url (("username", t.username) ∷ ("password", t.password) ∷ []) t
    else (some ("auth: unsupported grant type " <> t.cfg.kind), t)

abbrev pub refresh_endpoint : AuthConfig → String
refresh_endpoint c = if c.refresh_url == "" then c.token_url else c.refresh_url

-- doRefreshLocked
unfoldable pub do_refresh_locked : AuthWorld → TokenManager → Option String × TokenManager
do_refresh_locked w t =
    if t.refresh == ""
    then (some "auth: no refresh token", t)
    else if refresh_endpoint t.cfg == ""
    then (some "auth: no refresh/token URL", t)
    else if t.cfg.kind == "jwt_login"
    then post_json w (refresh_endpoint t.cfg) (("refresh_token", t.refresh) ∷ []) t
    else post_token w (refresh_endpoint t.cfg)
        (add_client_and_scope t
          (("grant_type", "refresh_token") ∷ ("refresh_token", t.refresh) ∷ []))
        t

abbrev pub answer_of : Option String × TokenManager → Result String String × TokenManager
answer_of (none, t) = (ok t.access, t)
answer_of (some e, t) = (err e, t)

-- The access token if there is no error, or a login.
abbrev pub or_acquire :
    AuthWorld → Option String × TokenManager → Result String String × TokenManager
or_acquire w (none, t) = (ok t.access, t)
or_acquire w (some e, t) = answer_of (acquire_locked w t)

-- ensureLocked
unfoldable pub ensure_locked : AuthWorld → TokenManager → Result String String × TokenManager
ensure_locked w t =
    if t.refresh == "" then answer_of (acquire_locked w t) else or_acquire w (do_refresh_locked w t)

-- Refresh, whose body is that of ensureLocked
abbrev pub refresh_token : AuthWorld → TokenManager → Result String String × TokenManager
refresh_token w t = ensure_locked w t

-- Token
unfoldable pub token : AuthWorld → TokenManager → Result String String × TokenManager
token w t =
    let t1 = record t { clock = suc t.clock } in
    if not (t.access == "") && is_valid w t then (ok t.access, t1) else ensure_locked w t1
