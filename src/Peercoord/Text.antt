-- ===== src/Peercoord/Text.antt =====
-- The checks on texts and credentials at the top of peercoord/engine.go. Requests are decoded from
-- JSON, whose decoder replaces what is no UTF-8, so each text is valid UTF-8 here by construction.
use Prim.Native.Char.{code}
use rysh_cli_shared.Prelude.{
  ℕ, String, len, Bool, false, ◌&&◌, ◌||◌, not, Option, none, some, List, [], ◌∷◌, leb, eqb, ◌==◌,
  length, all, between, is_space,
}
use rysh_cli_shared.Peercoord.Types.{Env, Auth, max_text}

-- The runes of a string.
unfoldable pub runes : String → List ℕ
runes String.[] = []
runes (String.◌∷◌ c s) = code c ∷ runes s

abbrev is_name_head : ℕ → Bool
is_name_head c = between b'a' b'z' c || between b'0' b'9' c

abbrev is_name_rune : ℕ → Bool
is_name_rune c = is_name_head c || eqb c b'_' || eqb c b'-'

matches_name : List ℕ → Bool
matches_name [] = false
matches_name (c ∷ cs) = is_name_head c && all is_name_rune cs && leb (length cs) 63

-- ValidName: ^[a-z0-9][a-z0-9_-]{0,63}$
unfoldable pub valid_name : String → Bool
unfolding runes matches_name
valid_name s = matches_name (runes s)

abbrev nil_uuid : String
nil_uuid = "00000000-0000-0000-0000-000000000000"

is_canonical : String → Option String → Bool
is_canonical s none = false
is_canonical s (some u) = not (u == nil_uuid) && u == s

-- ValidID
unfoldable pub valid_id : Env → String → Bool
unfolding is_canonical
valid_id env s = is_canonical s (env.parse_uuid s)

-- tokenMatches(s, h)
unfoldable pub token_matches : Env → String → String → Bool
token_matches env s h = leb 32 (len s) && eqb (len h) 64 && env.sha256_hex s == h

-- unicode.IsControl
abbrev is_control : ℕ → Bool
is_control c = leb c 0x1f || between 0x7f 0x9f c

-- strings.TrimSpace(s) == ""
is_blank : String → Bool
unfolding runes
is_blank s = all is_space (runes s)

-- validLabel
unfoldable pub valid_label : String → Bool
unfolding runes is_blank
valid_label s = not (is_blank s) && leb (len s) 128 && all (λ c. not (is_control c)) (runes s)

-- validText
unfoldable pub valid_text : String → Bool
unfolding runes is_blank
valid_text s = not (is_blank s) && leb (len s) max_text && all (λ c. not (eqb c 0)) (runes s)

-- isAdmin
unfoldable pub is_admin : Auth → Bool
is_admin a = a.workspace_role == "owner" || a.workspace_role == "admin"
