-- ===== src/Secretnat/Mapping/Listing.antt =====
-- The sorted listings of a MappingTable (secretnat/mapping.go). Each of the two orders puts texts that
-- differ one before the other, and the keys of a map differ, so that any sorting gives this list.
use rysh_cli_shared.Prelude.{
  ℕ, ◌≤◌, String, len, Bool, true, false, ◌||◌, none, some, List, [], ◌∷◌, ◌≡◌, refl, ◌∙◌, map, Map,
  lookup, eqb, ltb, if◌then◌else◌, ◌==◌, contains, arith,
}
use Prim.Native.String.{compare}
use text.Mathlib.Text.{is_lt}
use rysh_cli_shared.Secretnat.Mapping.{MappingRecord, MappingEntry, MappingTable, records, is_token}

module _ {A : Type 0} (less : A → A → Bool) where
  abbrev insert_sorted : A → List A → List A
  insert_sorted x [] = x ∷ []
  insert_sorted x (y ∷ ys) = if less x y then x ∷ y ∷ ys else y ∷ insert_sorted x ys

  -- sort.Slice
  abbrev sort : List A → List A
  sort [] = []
  sort (x ∷ xs) = insert_sorted x (sort xs)

-- a < b, on strings
abbrev text_less : String → String → Bool
text_less a b = is_lt (compare a b)

abbrev longer : String → String → Bool
longer a b = if eqb (len a) (len b) then text_less a b else ltb (len b) (len a)

abbrev keys : Map ℕ → List String
keys [] = []
keys ((k, i) ∷ m) = k ∷ keys m

-- MappingTable.Tokens
unfoldable pub tokens : MappingTable → List String
tokens t = sort longer (keys t.token_to_rec)

abbrev entry_of : MappingRecord → MappingEntry
entry_of r = record { token = r.token; detector = r.detector; hits = r.hits }

-- MappingTable.Entries
unfoldable pub entries : MappingTable → List MappingEntry
entries t = sort (λ a b. text_less a.token b.token) (map entry_of (records t.heap t.token_to_rec))

-- No text is longer than the one before it.
abbrev pub IsDescending : List String → Type 0
IsDescending [] = Unit
IsDescending (x ∷ []) = Unit
IsDescending (x ∷ y ∷ ys) = (len y ≤ len x) × IsDescending (y ∷ ys)

insert-IsDescending :
    (x : String) (ys : List String) → IsDescending ys → IsDescending (insert_sorted longer x ys)
insert-IsDescending x [] d = tt
insert-IsDescending x (y ∷ []) d = ground arith
insert-IsDescending x (y ∷ z ∷ zs) (h, d) = ground (arith, insert-IsDescending x (z ∷ zs) d)

sort-IsDescending : (xs : List String) → IsDescending (sort longer xs)
sort-IsDescending [] = tt
sort-IsDescending (x ∷ xs) = insert-IsDescending x (sort longer xs) (sort-IsDescending xs)

contains-insert_sorted :
    (x k : String) (ys : List String)
    → contains (insert_sorted longer x ys) k ≡ ((x == k) || contains ys k)
contains-insert_sorted x k [] = refl
contains-insert_sorted x k (y ∷ ys) = ground (arith, contains-insert_sorted x k ys)

contains-keys :
    (k : String) (m : Map ℕ)
    → contains (sort longer (keys m)) k ≡ (elim (lookup k m) [ none ↦ false | some i ↦ true ])
unfolding lookup
contains-keys k [] = refl
contains-keys k ((j, i) ∷ m) =
    contains-insert_sorted j k (sort longer (keys m)) ∙ ground (arith, contains-keys k m)

-- Tokens lists exactly the tokens of the table, and the longer before the shorter.
pub tokens-IsDescending :
    (t : MappingTable)
    → IsDescending (tokens t) × ((k : String) → contains (tokens t) k ≡ is_token k t)
unfolding tokens is_token
tokens-IsDescending t =
    (sort-IsDescending (keys t.token_to_rec), λ k. contains-keys k t.token_to_rec)
