-- ===== src/Agentic/Permissions.antt =====
-- PermissionPolicy (agentic/permissions.go). A glob is walked by its bytes; the regular expression
-- that it becomes is a list of code points.
use Prim.Native.Char.{code}
use rysh_cli_shared.Prelude.{
  ℕ, ◌+◌, ◌/◌, ◌%◌, String, Bool, true, false, ◌&&◌, ◌||◌, not, Option, none, some, List, [], ◌∷◌,
  ◌++◌, any, ltb, eqb, if◌then◌else◌, ◌==◌,
}

pub data PermDecision : Type 0 where
  perm_ask perm_allow perm_deny : PermDecision

pub record PermissionRule : Type 0 where
  pub tool : String
  pub pattern : String
  pub decision : PermDecision

pub record PermissionPolicy : Type 0 where
  pub rules : List PermissionRule

-- NewPermissionPolicy
abbrev pub new_permission_policy : List PermissionRule → PermissionPolicy
new_permission_policy rules = record { rules = rules }

-- The fields of a tool's parameters that are globbed, where the JSON decodes.
pub record Probe : Type 0 where
  pub file_path : String
  pub command : String
  pub url : String
  pub query : String

-- The packages encoding/json, path/filepath and regexp: json.Unmarshal; filepath.Match; and
-- MatchString of the expression, where it compiles.
pub record Matching : Type 0 where
  pub probe : String → Option Probe
  pub path_match : String → String → Option Bool
  pub regexp_match : List ℕ → String → Option Bool

abbrev pub probed : String → Option Probe → String
probed tool none = ""
probed tool (some p) =
    if tool == "bash" || tool == "bash_background"
    then p.command
    else if tool == "web_fetch"
    then p.url
    else if tool == "web_search" || tool == "grep"
    then p.query
    else p.file_path

-- permissionPath
unfoldable pub permission_path : Matching → String → String → String
permission_path m tool params = if params == "" then "" else probed tool (m.probe params)

-- The bytes of a code point in UTF-8.
abbrev pub utf8 : ℕ → List ℕ
utf8 c =
    if ltb c 0x80
    then c ∷ []
    else if ltb c 0x800
    then (0xc0 + c / 64) ∷ (0x80 + c % 64) ∷ []
    else if ltb c 0x10000
    then (0xe0 + c / 4096) ∷ (0x80 + (c / 64) % 64) ∷ (0x80 + c % 64) ∷ []
    else (0xf0 + c / 262144)
      ∷ (0x80 + (c / 4096) % 64)
      ∷ (0x80 + (c / 64) % 64)
      ∷ (0x80 + c % 64)
      ∷ []

-- The bytes of a text.
unfoldable pub bytes : String → List ℕ
bytes String.[] = []
bytes (String.◌∷◌ c s) = utf8 (code c) ++ bytes s

abbrev pub text_codes : String → List ℕ
text_codes String.[] = []
text_codes (String.◌∷◌ c s) = code c ∷ text_codes s

-- regexp.QuoteMeta, of one character
unfoldable pub quote_meta : ℕ → List ℕ
quote_meta c = if any (eqb c) (text_codes "\\.+*?()|[]{}^$") then b'\\' ∷ c ∷ [] else c ∷ []

-- string(pattern[i]), quoted: the byte as a code point.
abbrev pub quoted : ℕ → List ℕ
quoted b =
    if eqb b b'*'
    then text_codes "[^/]*"
    else if eqb b b'?'
    then text_codes "[^/]"
    else quote_meta b

-- The loop of globToRegexp.
unfoldable pub glob_body : List ℕ → List ℕ
glob_body [] = []
glob_body (a ∷ []) = quoted a
glob_body (a ∷ b ∷ []) =
    let rest = quoted a ++ glob_body (b ∷ []) in
    if eqb a b'*' && eqb b b'*' then text_codes ".*" else rest
glob_body (a ∷ b ∷ c ∷ s) =
    let parts = text_codes "(?:.*/)?" ++ glob_body s in
    let chars = text_codes ".*" ++ glob_body (c ∷ s) in
    let rest = quoted a ++ glob_body (b ∷ c ∷ s) in
    if eqb a b'*' && eqb b b'*' then (if eqb c b'/' then parts else chars) else rest

-- globToRegexp, as the text that is compiled
unfoldable pub glob_to_regexp : String → List ℕ
glob_to_regexp pattern = b'^' ∷ (glob_body (bytes pattern) ++ b'$' ∷ [])

abbrev pub holds : Option Bool → Bool
holds none = false
holds (some b) = b

-- matchDoublestar
unfoldable pub match_doublestar : Matching → String → String → Bool
match_doublestar m pattern value = holds (m.regexp_match (glob_to_regexp pattern) value)

-- strings.HasPrefix and strings.HasSuffix, on the bytes; strings.Contains, of "**".
abbrev pub starts_with : List ℕ → List ℕ → Bool
starts_with s [] = true
starts_with [] (b ∷ p) = false
starts_with (a ∷ s) (b ∷ p) = eqb a b && starts_with s p

unfoldable pub has_doublestar : List ℕ → Bool
has_doublestar [] = false
has_doublestar (b ∷ s) = starts_with (b ∷ s) (text_codes "**") || has_doublestar s

-- strings.TrimSuffix where strings.HasSuffix holds: the text before the suffix.
abbrev pub before : List ℕ → List ℕ → Option (List ℕ)
before suffix [] = none
before suffix (b ∷ s) =
    let rest = before suffix s in
    if starts_with (b ∷ s) suffix && starts_with suffix (b ∷ s) then some [] else prepend b rest
  where
    prepend : ℕ → Option (List ℕ) → Option (List ℕ)
    prepend b none = none
    prepend b (some s) = some (b ∷ s)

abbrev pub same_bytes : List ℕ → List ℕ → Bool
same_bytes s t = starts_with s t && starts_with t s

-- The convenience for a pattern that ends in " *".
abbrev pub word_prefix : List ℕ → Option (List ℕ) → Bool
word_prefix value none = false
word_prefix value (some p) = same_bytes value p || starts_with value (p ++ text_codes " ")

-- The convenience for a pattern that ends in "*".
abbrev pub open_prefix : List ℕ → List ℕ → Option (List ℕ) → Bool
open_prefix pattern value none = false
open_prefix pattern value (some p) =
    not (any (eqb b'?') pattern || any (eqb b'[') pattern) && starts_with value p

-- matchGlob
unfoldable pub match_glob : Matching → String → String → Bool
match_glob m pattern value =
    if pattern == "" || pattern == value
    then true
    else if has_doublestar (bytes pattern)
    then match_doublestar m pattern value
    else holds (m.path_match pattern value)
      || word_prefix (bytes value) (before (text_codes " *") (bytes pattern))
      || open_prefix (bytes pattern) (bytes value) (before (text_codes "*") (bytes pattern))

-- The tests of Decide on a rule.
unfoldable pub applies : Matching → String → String → PermissionRule → Bool
applies m tool target r =
    (r.tool == "" || r.tool == tool) && (r.pattern == "" || match_glob m r.pattern target)

-- The loop of Decide.
unfoldable pub first_rule : Matching → String → String → List PermissionRule → PermDecision
first_rule m tool target [] = perm_ask
first_rule m tool target (r ∷ rs) =
    let rest = first_rule m tool target rs in if applies m tool target r then r.decision else rest

-- PermissionPolicy.Decide; a nil policy is `none`.
unfoldable pub permit : Matching → Option PermissionPolicy → String → String → PermDecision
permit m none tool params = perm_ask
permit m (some p) tool params = first_rule m tool (permission_path m tool params) p.rules
