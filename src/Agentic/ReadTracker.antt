-- ===== src/Agentic/ReadTracker.antt =====
-- ReadTracker (agentic/read_tracker.go): which files the model has read, and whether one has changed
-- since. A nil tracker is `none`.
pub mod Protection
pub mod Edits
use rysh_cli_shared.Prelude.{
  ℕ, String, Bool, true, false, ◌&&◌, Option, none, some, [], Map, lookup, insert, delete, eqb,
  if◌then◌else◌, ◌==◌,
}

pub record ReadRecord : Type 0 where
  pub path : String
  pub mod_sec : ℕ
  pub sha256 : String
  pub size : ℕ

pub record ReadTracker : Type 0 where
  pub files : Map ReadRecord

-- What os.Stat tells of a file.
pub record FileInfo : Type 0 where
  pub is_dir : Bool
  pub mod_time : ℕ
  pub size : ℕ

-- The world at the time of a call: filepath.Abs, os.Stat and the contents of a file where they
-- succeed, and SHA-256 in hexadecimal.
pub record World : Type 0 where
  pub absolute : String → Option String
  pub stat : String → Option FileInfo
  pub read : String → Option String
  pub sha256_hex : String → String

abbrev pub hashed : World → Option String → Option String
hashed w none = none
hashed w (some content) = some (w.sha256_hex content)

-- hashFile
abbrev pub hash_file : World → String → Option String
hash_file w path = hashed w (w.read path)

-- NewReadTracker
abbrev pub new_read_tracker : ReadTracker
new_read_tracker = record { files = [] }

abbrev pub stamp : String → FileInfo → Option String → ReadTracker → ReadTracker
stamp path info none t = t
stamp path info (some hash) t = record {
  files =
      insert path (record { path = path; mod_sec = info.mod_time; sha256 = hash; size = info.size })
        t.files;
}

abbrev pub stamp_file : String → Option FileInfo → Option String → ReadTracker → ReadTracker
stamp_file path none hash t = t
stamp_file path (some info) hash t = if info.is_dir then t else stamp path info hash t

abbrev pub record_absolute : World → Option String → ReadTracker → ReadTracker
record_absolute w none t = t
record_absolute w (some path) t = stamp_file path (w.stat path) (hash_file w path) t

-- ReadTracker.Record
unfoldable pub record_file : World → String → Option ReadTracker → Option ReadTracker
record_file w path none = none
record_file w path (some t) = some (if path == "" then t else record_absolute w (w.absolute path) t)

-- ReadTracker.Refresh
abbrev pub refresh : World → String → Option ReadTracker → Option ReadTracker
refresh w path t = record_file w path t

abbrev pub forget_absolute : Option String → ReadTracker → ReadTracker
forget_absolute none t = t
forget_absolute (some path) t = record { files = delete path t.files }

-- ReadTracker.Forget
unfoldable pub forget : World → String → Option ReadTracker → Option ReadTracker
forget w path none = none
forget w path (some t) = some (if path == "" then t else forget_absolute (w.absolute path) t)

-- The two outputs that refuse an edit, the second with the sizes then and now.
pub data StaleRead : Type 0 where
  missing : StaleRead
  changed : ℕ → ℕ → StaleRead

abbrev pub touch : String → ReadRecord → FileInfo → ReadTracker → ReadTracker
touch path rec info t = record {
  files = insert path (record rec { mod_sec = info.mod_time }) t.files;
}

-- The comparison by contents.
abbrev pub compare_hash :
    String → ReadRecord → FileInfo → Option String → ReadTracker → Option StaleRead × ReadTracker
compare_hash path rec info none t = (none, t)
compare_hash path rec info (some hash) t =
    if hash == rec.sha256
    then (none, touch path rec info t)
    else (some (changed rec.size info.size), t)

abbrev pub compare_file :
    World → String → ReadRecord → Option FileInfo → ReadTracker → Option StaleRead × ReadTracker
compare_file w path rec none t = (some missing, t)
compare_file w path rec (some info) t =
    if eqb info.mod_time rec.mod_sec && eqb info.size rec.size
    then (none, t)
    else compare_hash path rec info (hash_file w path) t

abbrev pub compare_record :
    World → String → Option ReadRecord → ReadTracker → Option StaleRead × ReadTracker
compare_record w path none t = (none, t)
compare_record w path (some rec) t = compare_file w path rec (w.stat path) t

abbrev pub check_absolute : World → Option String → ReadTracker → Option StaleRead × ReadTracker
check_absolute w none t = (none, t)
check_absolute w (some path) t = compare_record w path (lookup path t.files) t

-- ReadTracker.staleCheck
unfoldable pub stale_check :
    World → String → Option ReadTracker → Option StaleRead × Option ReadTracker
stale_check w path none = (none, none)
stale_check w path (some t) =
    let (stale, t') = check_absolute w (w.absolute path) t in
    if path == "" then (none, some t) else (stale, some t')
