-- ===== src/Agentic/ReadTracker/Protection.antt =====
-- The protection of edits over a run of an orchestrator (agentic/read_tracker.go).
use rysh_cli_shared.Prelude.{
  ℕ, String, ◌&&◌, Option, none, some, List, [], ◌∷◌, ◌≡◌, ◌≢◌, inl, inr, refl, sym, subst,
  str_eq→eq, ap, Map, lookup, eqb, ◌==◌, lookup-insert, lookup-delete, eq_iff, arith, Option-cases,
  Bool-cases,
}
use rysh_cli_shared.Agentic.ReadTracker.{
  ReadRecord, ReadTracker, FileInfo, World, hash_file, stamp, record_absolute, record_file, forget,
  forget_absolute, touch, compare_hash, compare_record, check_absolute, stale_check,
}

-- The tracker has a record of the file with this hash and this size.
abbrev pub Tracks : String → String → ℕ → Option ReadTracker → Type 0
Tracks path hash size none = ⊥
Tracks path hash size (some t) =
    (rec : ReadRecord) × (lookup path t.files ≡ some rec) × (rec.sha256 ≡ hash) × (rec.size ≡ size)

-- What an orchestrator does with its tracker, each time in the world as it is then.
pub data Step : Type 0 where
  read_file : World → String → Step
  forget_file : World → String → Step
  check_file : World → String → Step

abbrev pub step : Step → Option ReadTracker → Option ReadTracker
step (read_file w p) t = record_file w p t
step (forget_file w p) t = forget w p t
step (check_file w p) t = (stale_check w p t).1

abbrev pub steps : List Step → Option ReadTracker → Option ReadTracker
steps [] t = t
steps (s ∷ ss) t = steps ss (step s t)

-- The step does not read or forget the file.
abbrev pub IsElsewhere : String → Step → Type 0
IsElsewhere path (read_file w p) = w.absolute p ≢ some path
IsElsewhere path (forget_file w p) = w.absolute p ≢ some path
IsElsewhere path (check_file w p) = Unit

abbrev pub AllElsewhere : String → List Step → Type 0
AllElsewhere path [] = Unit
AllElsewhere path (s ∷ ss) = IsElsewhere path s × AllElsewhere path ss

stamp-Tracks :
    (path hash q : String) (size : ℕ) (info : FileInfo) (h : Option String) (t : ReadTracker)
    → q ≢ path
    → Tracks path hash size (some t)
    → Tracks path hash size (some (stamp q info h t))
stamp-Tracks path hash q size info none t n k = k
stamp-Tracks path hash q size info (some h) t n (rec, l, e, f) = (
  rec,
  ground (
    arith,
    lookup-insert path q
        (record { path = q; mod_sec = info.mod_time; sha256 = h; size = info.size }) t.files,
    eq_iff q path,
  ),
  e,
  f,
)

record_absolute-Tracks :
    (w : World) (o : Option String) (path hash : String) (size : ℕ) (t : ReadTracker)
    → o ≢ some path
    → Tracks path hash size (some t)
    → Tracks path hash size (some (record_absolute w o t))
record_absolute-Tracks w none path hash size t n k = k
record_absolute-Tracks w (some q) path hash size t n k = elim (Option-cases (w.stat q)) [
  | inl e ↦ rw e k
  | inr (info, e) ↦ elim (Bool-cases info.is_dir) [
    | inl d ↦ rw (e, d) k
    | inr d ↦
        rw (e, d) (stamp-Tracks path hash q size info (hash_file w q) t (λ x. n (ap some x)) k)
  ]
]

record_file-Tracks :
    (w : World) (p path hash : String) (size : ℕ) (t : Option ReadTracker)
    → w.absolute p ≢ some path
    → Tracks path hash size t
    → Tracks path hash size (record_file w p t)
unfolding record_file
record_file-Tracks w p path hash size none n h = h
record_file-Tracks w p path hash size (some t) n h = elim (Bool-cases (p == "")) [
  | inl e ↦ rw e h
  | inr e ↦ rw e (record_absolute-Tracks w (w.absolute p) path hash size t n h)
]

forget_absolute-Tracks :
    (o : Option String) (path hash : String) (size : ℕ) (t : ReadTracker)
    → o ≢ some path
    → Tracks path hash size (some t)
    → Tracks path hash size (some (forget_absolute o t))
forget_absolute-Tracks none path hash size t n k = k
forget_absolute-Tracks (some q) path hash size t n (rec, l, e, f) =
    let m : q ≢ path = λ x. n (ap some x) in
    (rec, ground (arith, lookup-delete path q t.files, eq_iff q path), e, f)

forget-Tracks :
    (w : World) (p path hash : String) (size : ℕ) (t : Option ReadTracker)
    → w.absolute p ≢ some path
    → Tracks path hash size t
    → Tracks path hash size (forget w p t)
unfolding forget
forget-Tracks w p path hash size none n h = h
forget-Tracks w p path hash size (some t) n h = elim (Bool-cases (p == "")) [
  | inl e ↦ rw e h
  | inr e ↦ rw e (forget_absolute-Tracks (w.absolute p) path hash size t n h)
]

same_record :
    (q path : String) (m : Map ReadRecord) {a b : ReadRecord}
    → q ≡ path
    → lookup q m ≡ some a
    → lookup path m ≡ some b
    → a ≡ b
same_record q path m {a} {b} e h k =
    let h' : lookup path m ≡ some a = subst (λ x. lookup x m ≡ some a) e h in ground (arith, h', k)

touch-Tracks :
    (path hash q : String) (size : ℕ) (old : ReadRecord) (info : FileInfo) (t : ReadTracker)
    → lookup q t.files ≡ some old
    → Tracks path hash size (some t)
    → Tracks path hash size (some (touch q old info t))
touch-Tracks path hash q size old info t o (rec, l, e, f) =
    let new : ReadRecord = record old { mod_sec = info.mod_time } in
    elim (Bool-cases (q == path)) [
      | inl x ↦
          let y = same_record q path t.files (str_eq→eq q path x) o l in
          (
            new,
            ground (arith, lookup-insert path q new t.files, eq_iff q path),
            subst (λ r. r.sha256 ≡ hash) (sym y) e,
            subst (λ r. r.size ≡ size) (sym y) f,
          )
      | inr x ↦ (rec, ground (arith, lookup-insert path q new t.files, eq_iff q path), e, f)
    ]

compare_hash-Tracks :
    (path hash q : String) (size : ℕ) (old : ReadRecord) (info : FileInfo) (h : Option String)
    (t : ReadTracker)
    → lookup q t.files ≡ some old
    → Tracks path hash size (some t)
    → Tracks path hash size (some (compare_hash q old info h t).1)
compare_hash-Tracks path hash q size old info none t o k = k
compare_hash-Tracks path hash q size old info (some h) t o k = elim (Bool-cases (h == old.sha256)) [
  | inl e ↦ rw e (touch-Tracks path hash q size old info t o k)
  | inr e ↦ rw e k
]

compare_record-Tracks :
    (w : World) (path hash q : String) (size : ℕ) (o : Option ReadRecord) (t : ReadTracker)
    → lookup q t.files ≡ o
    → Tracks path hash size (some t)
    → Tracks path hash size (some (compare_record w q o t).1)
compare_record-Tracks w path hash q size none t o k = k
compare_record-Tracks w path hash q size (some old) t o k = elim (Option-cases (w.stat q)) [
  | inl e ↦ rw e k
  | inr (info, e) ↦ elim (Bool-cases (eqb info.mod_time old.mod_sec && eqb info.size old.size)) [
    | inl d ↦ rw (e, d) k
    | inr d ↦ rw (e, d) (compare_hash-Tracks path hash q size old info (hash_file w q) t o k)
  ]
]

check_absolute-Tracks :
    (w : World) (o : Option String) (path hash : String) (size : ℕ) (t : ReadTracker)
    → Tracks path hash size (some t)
    → Tracks path hash size (some (check_absolute w o t).1)
check_absolute-Tracks w none path hash size t k = k
check_absolute-Tracks w (some q) path hash size t k =
    compare_record-Tracks w path hash q size (lookup q t.files) t refl k

stale_check-Tracks :
    (w : World) (p path hash : String) (size : ℕ) (t : Option ReadTracker)
    → Tracks path hash size t
    → Tracks path hash size (stale_check w p t).1
unfolding stale_check
stale_check-Tracks w p path hash size none h = h
stale_check-Tracks w p path hash size (some t) h = elim (Bool-cases (p == "")) [
  | inl e ↦ rw e h
  | inr e ↦ rw e (check_absolute-Tracks w (w.absolute p) path hash size t h)
]

pub steps-Tracks :
    (path hash : String) (size : ℕ) (ss : List Step) (t : Option ReadTracker)
    → AllElsewhere path ss
    → Tracks path hash size t
    → Tracks path hash size (steps ss t)
steps-Tracks path hash size [] t a h = h
steps-Tracks path hash size (read_file w p ∷ ss) t (n, a) h =
    steps-Tracks path hash size ss (record_file w p t) a
      (record_file-Tracks w p path hash size t n h)
steps-Tracks path hash size (forget_file w p ∷ ss) t (n, a) h =
    steps-Tracks path hash size ss (forget w p t) a (forget-Tracks w p path hash size t n h)
steps-Tracks path hash size (check_file w p ∷ ss) t (n, a) h =
    steps-Tracks path hash size ss (stale_check w p t).1 a
      (stale_check-Tracks w p path hash size t h)
