-- ===== src/Agentic/Tests.antt =====
-- The theorems on agentic/read_tracker.go and agentic/approval_memory.go at small states.
use rysh_cli_shared.Prelude.{
  ℕ, String, false, Option, none, some, List, [], ◌∷◌, ◌≡◌, ◌≢◌, refl, arith, eq_iff, ◌<>◌, len,
  lookup, insert,
}
use rysh_cli_shared.Agentic.ReadTracker.{
  ReadTracker, FileInfo, World, new_read_tracker, record_file, stale_check, changed,
}
use rysh_cli_shared.Agentic.ReadTracker.Protection.{Step, read_file, check_file, steps}
use rysh_cli_shared.Agentic.ReadTracker.Edits.{
  Names, MayEdit, stale_check-MayEdit, stale_check-unchanged,
}

-- Both files have these contents and this time of modification.
abbrev world : ℕ → String → World
world time content = record {
  absolute = λ p. some ("/" <> p);
  stat = λ p. some (record { is_dir = false; mod_time = time; size = len content });
  read = λ p. some content;
  sha256_hex = λ c. "hash of " <> c;
}

abbrev info_at : ℕ → FileInfo
info_at time = record { is_dir = false; mod_time = time; size = 3 }

abbrev between : List Step
between = read_file (world 11 "def") "b" ∷ check_file (world 12 "abc") "a" ∷ []

abbrev tracker : Option ReadTracker
tracker = steps between (record_file (world 10 "abc") "a" (some new_read_tracker))

refused : (stale_check (world 13 "longer") "a" tracker).0 ≡ some (changed 3 6)
unfolding stale_check record_file lookup insert
refused = refl

names : (time : ℕ) → Names (world time "abc") "a" "/a" (info_at time) "abc"
names time = record { given = refl; located = refl; found = refl; is_file = refl; readable = refl }

apart : (world 11 "def").absolute "b" ≢ some "/a"
apart e = ground (arith, eq_iff "/b" "/a", e)

stale_check-MayEdit_example : MayEdit (world 12 "abc") "/a" "hash of abc" 3 tracker
unfolding stale_check record_file lookup insert
stale_check-MayEdit_example =
    stale_check-MayEdit (world 10 "abc") (world 12 "abc") "a" "a" "/a" "abc" (info_at 10) between
      new_read_tracker (names 10) (apart, (tt, tt)) refl refl refl

stale_check-unchanged_example : (stale_check (world 13 "abc") "a" tracker).0 ≡ none
stale_check-unchanged_example =
    stale_check-unchanged (world 10 "abc") (world 13 "abc") "a" "a" "/a" "abc" (info_at 10)
      (info_at 13) between new_read_tracker (names 10) (apart, (tt, tt)) refl (names 13)
