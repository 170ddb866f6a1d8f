-- ===== src/Forge/Tests.antt =====
-- The theorems on forge/runtime/token.go at a small manager.
use rysh_cli_shared.Prelude.{suc, ◌*◌, true, none, some, ◌≡◌, refl, ok, split_at, prepend_first}
use rysh_cli_shared.Forge.TokenResponse.{
  json_text, json_number, no_members, member, Decoding, parse_token_response, field, walk,
}
use rysh_cli_shared.Forge.Token.{
  AuthConfig, AuthWorld, TokenManager, resolved, token, refresh_token, ensure_locked,
  acquire_locked, post_token, send, keep, is_valid, one_second,
}
use rysh_cli_shared.Forge.Token.Answers.{Answered, token-Answered, token-token}

abbrev decoding : Decoding
decoding = record {
  decode_object = λ body.
      some (
        member "access_token" (json_text body) (member "expires_in" (json_number 3600) no_members));
  parse_query = λ body. none;
  parse_int = λ s. 0;
  is_int = λ s. true;
  raw_url = λ s. none;
  padded_url = λ s. none;
  claims_exp = λ s. none;
}

abbrev config : AuthConfig
config = record {
  kind = "oauth2_client_credentials";
  token_url = "https://login";
  refresh_url = "";
  content_type = "form";
  username_env = "";
  password_env = "";
  client_id_env = "ID";
  client_secret_env = "SECRET";
  access_token_env = "";
  refresh_token_env = "";
  scope = "";
  fields = record { access_token_field = ""; refresh_token_field = ""; expires_in_field = "" };
  expiry_margin = "";
}

-- Each second has one answer.
abbrev world : AuthWorld
world = record {
  getenv = λ s. s;
  parse_duration = λ s. none;
  decoding = decoding;
  now = λ time. time * one_second;
  respond = λ time r. ok (200, "abc");
}

abbrev manager : TokenManager
manager = resolved world config (30 * one_second)

token-Answered_example :
    Answered manager 2 (token world manager) × Answered manager 2 (refresh_token world manager)
token-Answered_example = token-Answered world manager

token-token_example :
    token world (token world manager).1
    ≡ (ok "abc", record (token world manager).1 { clock = suc (token world manager).1.clock })
unfolding token ensure_locked acquire_locked post_token send keep is_valid parse_token_response
    field walk split_at prepend_first
token-token_example = token-token world manager (token world manager).1 "abc" refl refl
