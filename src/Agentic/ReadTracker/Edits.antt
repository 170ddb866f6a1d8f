-- ===== src/Agentic/ReadTracker/Edits.antt =====
-- What staleCheck lets through (agentic/read_tracker.go).
use rysh_cli_shared.Prelude.{
  ℕ, String, false, ◌&&◌, Option, none, some, List, ◌≡◌, ◌⊎◌, inl, inr, refl, sym, subst, ◌∙◌,
  lookup, eqb, if◌then◌else◌, ◌==◌, lookup-insert, eq_iff, eq_refl, arith, Option-cases, Bool-cases,
}
use rysh_cli_shared.Agentic.ReadTracker.{
  ReadRecord, ReadTracker, FileInfo, World, hash_file, record_file, compare_hash, compare_file,
  stale_check,
}
use rysh_cli_shared.Agentic.ReadTracker.Protection.{Tracks, Step, steps, AllElsewhere, steps-Tracks}

-- In the world w the name p is that of the file at this path, with this state and these contents.
pub record Names (w : World) (p path : String) (info : FileInfo) (content : String) : Type 0 where
  pub given : (p == "") ≡ false
  pub located : w.absolute p ≡ some path
  pub found : w.stat path ≡ some info
  pub is_file : info.is_dir ≡ false
  pub readable : w.read path ≡ some content

recorded-Tracks :
    (w : World) (p path content : String) (info : FileInfo) (t : ReadTracker)
    → Names w p path info content
    → Tracks path (w.sha256_hex content) info.size (record_file w p (some t))
unfolding record_file
recorded-Tracks w p path content info t n =
    rw (n.given, n.located, n.found, n.is_file, n.readable)
      (
        record {
          path = path;
          mod_sec = info.mod_time;
          sha256 = w.sha256_hex content;
          size = info.size;
        },
        ground (
          arith,
          lookup-insert path path
              (record {
                path = path;
                mod_sec = info.mod_time;
                sha256 = w.sha256_hex content;
                size = info.size;
              })
              t.files,
          eq_refl path,
        ),
        refl,
        refl,
      )

-- The tracker's record of the file has this time of modification.
abbrev pub HasTime : String → ℕ → Option ReadTracker → Type 0
HasTime path time none = ⊥
HasTime path time (some t) =
    (rec : ReadRecord) × (lookup path t.files ≡ some rec) × (rec.mod_sec ≡ time)

-- What lets an edit of the file through, against the hash and the size of the last read and the
-- tracker: the file is there, and has the same size and the time of the tracker's record, or cannot be
-- read, or has contents of the same hash.
abbrev pub MayEdit : World → String → String → ℕ → Option ReadTracker → Type 0
MayEdit w path hash size t =
    (info : FileInfo) × (w.stat path ≡ some info)
    × (((info.size ≡ size) × HasTime path info.mod_time t)
        ⊎ ((w.read path ≡ none) ⊎ (hash_file w path ≡ some hash)))

stale_check-compare_file :
    (w : World) (p path : String) (t : ReadTracker) {rec : ReadRecord}
    → (p == "") ≡ false
    → w.absolute p ≡ some path
    → lookup path t.files ≡ some rec
    → (stale_check w p (some t)).0 ≡ (compare_file w path rec (w.stat path) t).0
unfolding stale_check
stale_check-compare_file w p path t g l q = rw (g, l, q) refl

compare_file-MayEdit :
    (w : World) (path : String) (rec : ReadRecord) (o : Option FileInfo) (t : ReadTracker)
    → w.stat path ≡ o
    → lookup path t.files ≡ some rec
    → (compare_file w path rec o t).0 ≡ none
    → MayEdit w path rec.sha256 rec.size (some t)
compare_file-MayEdit w path rec none t o l h = absurd (ground arith)
compare_file-MayEdit w path rec (some info) t o l h =
    elim (Bool-cases (eqb info.mod_time rec.mod_sec && eqb info.size rec.size)) [
      | inl d ↦ (info, o, inl (ground arith, (rec, l, ground arith)))
      | inr d ↦ elim (Option-cases (w.read path)) [
        | inl r ↦ (info, o, inr (inl r))
        | inr (c, r) ↦ (info, o, inr (inr (ground (arith, eq_iff (w.sha256_hex c) rec.sha256))))
      ]
    ]

checked-MayEdit :
    (w : World) (p path hash : String) (size : ℕ) (t : Option ReadTracker)
    → (p == "") ≡ false
    → w.absolute p ≡ some path
    → Tracks path hash size t
    → (stale_check w p t).0 ≡ none
    → MayEdit w path hash size t
unfolding stale_check
checked-MayEdit w p path hash size none g l k h = absurd k
checked-MayEdit w p path hash size (some t) g l (rec, q, e, f) h =
    let k =
      compare_file-MayEdit w path rec (w.stat path) t refl q
        (sym (stale_check-compare_file w p path t g l q) ∙ h) in
    subst (λ x. MayEdit w path x size (some t)) e
      (subst (λ x. MayEdit w path rec.sha256 x (some t)) f k)

-- Once a file has been read, then after any further steps that do not read or forget it, an edit of
-- it passes staleCheck only if the file is there, and has the size that it had and the time of
-- modification that the tracker has for it, or cannot be read, or has contents of the hash that it had.
pub stale_check-MayEdit :
    (w0 w : World) (p0 p path content : String) (info : FileInfo) (ss : List Step) (t : ReadTracker)
    → Names w0 p0 path info content
    → AllElsewhere path ss
    → (p == "") ≡ false
    → w.absolute p ≡ some path
    → (stale_check w p (steps ss (record_file w0 p0 (some t)))).0 ≡ none
    → MayEdit w path (w0.sha256_hex content) info.size (steps ss (record_file w0 p0 (some t)))
stale_check-MayEdit w0 w p0 p path content info ss t n a g l h =
    checked-MayEdit w p path (w0.sha256_hex content) info.size
      (steps ss (record_file w0 p0 (some t))) g l
      (steps-Tracks path (w0.sha256_hex content) info.size ss (record_file w0 p0 (some t)) a
        (recorded-Tracks w0 p0 path content info t n))
      h

same_hash :
    (info : FileInfo) (rec : ReadRecord) (hash path : String) (t : ReadTracker)
    → rec.sha256 ≡ hash
    → (if eqb info.mod_time rec.mod_sec && eqb info.size rec.size
        then (none, t)
        else compare_hash path rec info (some hash) t).0
      ≡ none
same_hash info rec hash path t e = ground (arith, eq_iff hash rec.sha256)

unchanged-passes :
    (w : World) (p path content : String) (info : FileInfo) (size : ℕ) (t : Option ReadTracker)
    → Names w p path info content
    → Tracks path (w.sha256_hex content) size t
    → (stale_check w p t).0 ≡ none
unfolding stale_check
unchanged-passes w p path content info size none n k = absurd k
unchanged-passes w p path content info size (some t) n (rec, q, e, f) =
    stale_check-compare_file w p path t n.given n.located q
    ∙ rw (n.found, n.readable) (same_hash info rec (w.sha256_hex content) path t e)

-- Once a file has been read, then after any further steps that do not read or forget it, an edit of
-- it passes staleCheck if the file is there with the contents that it had, whatever its time of
-- modification.
pub stale_check-unchanged :
    (w0 w : World) (p0 p path content : String) (info info' : FileInfo) (ss : List Step)
    (t : ReadTracker)
    → Names w0 p0 path info content
    → AllElsewhere path ss
    → w.sha256_hex content ≡ w0.sha256_hex content
    → Names w p path info' content
    → (stale_check w p (steps ss (record_file w0 p0 (some t)))).0 ≡ none
stale_check-unchanged w0 w p0 p path content info info' ss t n a e m =
    unchanged-passes w p path content info' info.size (steps ss (record_file w0 p0 (some t))) m (
      subst (λ h. Tracks path h info.size (steps ss (record_file w0 p0 (some t)))) (sym e)
        (steps-Tracks path (w0.sha256_hex content) info.size ss (record_file w0 p0 (some t)) a
          (recorded-Tracks w0 p0 path content info t n)))
