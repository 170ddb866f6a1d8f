-- ===== src/Agentic/PatchParse.antt =====
-- The targets of a unified diff (agentic/patch_parse.go), and the paths of a tool's parameters
-- (agentic/read_tracker.go). A line is at most 4 MB long, so that the scanner does not fail.
use Prim.Native.Char.{code}
use rysh_cli_shared.Prelude.{
  String, ◌&&◌, not, Option, none, some, List, [], ◌∷◌, Result, ok, err, ◌==◌, if◌then◌else◌,
  trim_space, split_at, strip_prefix, eqb,
}

pub data PatchKind : Type 0 where
  patch_modify patch_create patch_delete : PatchKind

pub record PatchTarget : Type 0 where
  pub path : String
  pub kind : PatchKind

abbrev pub first_text : List String → String
first_text [] = ""
first_text (s ∷ ss) = s

-- The loop over the prefixes.
unfoldable pub strip_one : List String → String → String
strip_one [] p = p
strip_one (x ∷ xs) p = found (strip_prefix x p) (strip_one xs p)
  where
    found : List String → String → String
    found [] rest = rest
    found (s ∷ ss) rest = s

-- stripPatchPathPrefix
unfoldable pub strip_patch_path_prefix : String → String
strip_patch_path_prefix p =
    let q = first_text (split_at b'\t' p) in
    if q == "/dev/null" then q else strip_one ("a/" ∷ "b/" ∷ "i/" ∷ "w/" ∷ "c/" ∷ "o/" ∷ []) q

-- classifyTarget
unfoldable pub classify_target : String → String → Option PatchTarget
classify_target minus plus =
    if minus == "/dev/null" && not (plus == "/dev/null") && not (plus == "")
    then some (record { path = plus; kind = patch_create })
    else if plus == "/dev/null" && not (minus == "/dev/null") && not (minus == "")
    then some (record { path = minus; kind = patch_delete })
    else if not (minus == "")
        && not (plus == "")
        && not (minus == "/dev/null")
        && not (plus == "/dev/null")
    then some (record { path = plus; kind = patch_modify })
    else none

-- stripPatchPathPrefix(strings.TrimSpace(line[4:]))
abbrev pub header_path : String → String
header_path rest = strip_patch_path_prefix (trim_space rest)

abbrev pub no_minus : String
no_minus = "patch: `+++` line without preceding `---`"

unfoldable pub add_target :
    Option PatchTarget → Result String (List PatchTarget) → Result String (List PatchTarget)
add_target none rest = rest
add_target (some t) (ok ts) = ok (t ∷ ts)
add_target (some t) (err e) = err e

-- The switch on a line, with what follows it: the rest after "--- " and after "+++ ", where it starts
-- so.
abbrev pub scan_line :
    Option String
    → List String
    → List String
    → (Option String → Result String (List PatchTarget))
    → Result String (List PatchTarget)
scan_line minus (rest ∷ _) plus next = next (some (header_path rest))
scan_line minus [] [] next = next minus
scan_line none [] (rest ∷ _) next = err no_minus
scan_line (some m) [] (rest ∷ _) next =
    add_target (classify_target m (header_path rest)) (next none)

-- The loop over the lines; the option is curMinus, where haveMinus holds.
unfoldable pub scan : Option String → List String → Result String (List PatchTarget)
scan minus [] = ok []
scan minus (l ∷ ls) =
    scan_line minus (strip_prefix "--- " l) (strip_prefix "+++ " l) (λ m. scan m ls)

-- A carriage return at the end of a line is dropped.
unfoldable pub drop_return : String → String
drop_return String.[] = ""
drop_return (String.◌∷◌ c s) =
    let rest = String.◌∷◌ c (drop_return s) in if eqb (code c) b'\r' && s == "" then "" else rest

-- The lines of bufio.ScanLines, which drops a carriage return at the end of a line and the empty text
-- after the last newline.
unfoldable pub scan_lines : List String → List String
scan_lines [] = []
scan_lines (l ∷ []) = if l == "" then [] else drop_return l ∷ []
scan_lines (l ∷ m ∷ ls) = drop_return l ∷ scan_lines (m ∷ ls)

-- ParsePatchTargets
unfoldable pub parse_patch_targets : String → Result String (List PatchTarget)
parse_patch_targets patch =
    if trim_space patch == "" then ok [] else scan none (scan_lines (split_at b'\n' patch))

-- What json.Unmarshal into a struct of one text field gives, where it succeeds; "" for a field that
-- is not there.
pub record Params : Type 0 where
  pub text_field : String → String → Option String

abbrev pub or_blank : Option String → String
or_blank none = ""
or_blank (some s) = s

-- extractFilePath
unfoldable pub extract_file_path : Params → String → String
extract_file_path j params = if params == "" then "" else or_blank (j.text_field "file_path" params)

-- The loop of extractFilePaths.
unfoldable pub existing : List PatchTarget → List String
existing [] = []
existing (t ∷ ts) = keep t.kind t.path (existing ts)
  where
    keep : PatchKind → String → List String → List String
    keep patch_create p ps = ps
    keep patch_modify p ps = p ∷ ps
    keep patch_delete p ps = p ∷ ps

abbrev pub patched_paths : Result String (List PatchTarget) → List String
patched_paths (err e) = []
patched_paths (ok ts) = existing ts

abbrev pub patch_paths : Option String → List String
patch_paths none = []
patch_paths (some patch) = patched_paths (parse_patch_targets patch)

-- extractFilePaths
unfoldable pub extract_file_paths : Params → String → String → List String
extract_file_paths j tool params =
    if tool == "apply_patch"
    then patch_paths (j.text_field "patch" params)
    else if extract_file_path j params == ""
    then []
    else extract_file_path j params ∷ []
