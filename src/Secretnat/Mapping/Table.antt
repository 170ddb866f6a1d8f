-- ===== src/Secretnat/Mapping/Table.antt =====
-- What holds of a MappingTable between two calls (secretnat/mapping.go).
use rysh_cli_shared.Prelude.{
  ℕ, String, none, some, List, [], ◌∷◌, ◌++◌, ◌≡◌, ◌≢◌, refl, sym, subst, ◌∙◌, lookup, insert,
  length, get_elem?, update_at, lookup-insert, lookup-insert_cases, Map, arith, inl, inr, ◌⊎◌,
  get_elem?-new, get_elem?-old, get_elem?-update_at, get_elem?-update_other, eq_iff,
}
use rysh_cli_shared.Secretnat.Mapping.{
  MappingRecord, MappingTable, new_mapping_table, hit, hit_table, add_record,
}

-- A record at the pointer, with this value and this token.
pub record Holds (heap : List MappingRecord) (i : ℕ) (value token : String) : Type 0 where
  pub rec : MappingRecord
  pub stored : get_elem? heap i ≡ some rec
  pub has_value : rec.value ≡ value
  pub has_token : rec.token ≡ token

-- Each of the two maps undoes the other.
pub record IsTable (t : MappingTable) : Type 0 where
  pub forth :
      (v : String) (i : ℕ)
      → lookup v t.value_to_rec ≡ some i
      → (k : String) × Holds t.heap i v k × (lookup k t.token_to_rec ≡ some i)
  pub back :
      (k : String) (i : ℕ)
      → lookup k t.token_to_rec ≡ some i
      → (v : String) × Holds t.heap i v k × (lookup v t.value_to_rec ≡ some i)

pub new_mapping_table-IsTable : (now : ℕ) → IsTable (new_mapping_table now)
unfolding lookup
new_mapping_table-IsTable now = record {
  forth = λ v i h. absurd (ground arith);
  back = λ k i h. absurd (ground arith);
}

eq_or_not : (i j : ℕ) → (i ≡ j) ⊎ (i ≢ j)
eq_or_not i j = ground arith

pub hit-Holds :
    (heap : List MappingRecord) (i j : ℕ) {v k : String}
    → Holds heap j v k
    → Holds (update_at i hit heap) j v k
hit-Holds heap i j h = elim (eq_or_not i j) [
  | inl e ↦ record {
    rec = hit h.rec;
    stored =
        subst (λ x. get_elem? (update_at x hit heap) j ≡ some (hit h.rec)) (sym e)
          (get_elem?-update_at heap hit j h.stored);
    has_value = h.has_value;
    has_token = h.has_token;
  }
  | inr n ↦ record {
    rec = h.rec;
    stored = get_elem?-update_other heap hit i j n ∙ h.stored;
    has_value = h.has_value;
    has_token = h.has_token;
  }
]

pub new-Holds :
    (heap : List MappingRecord) (r : MappingRecord) (j : ℕ) {v k : String}
    → Holds heap j v k
    → Holds (heap ++ r ∷ []) j v k
new-Holds heap r j h = record {
  rec = h.rec;
  stored = get_elem?-old heap r j h.stored;
  has_value = h.has_value;
  has_token = h.has_token;
}

pub hit_table-IsTable : (i : ℕ) (t : MappingTable) → IsTable t → IsTable (hit_table i t)
hit_table-IsTable i t w = record {
  forth = λ v j h. let (k, g, q) = w.forth v j h in (k, hit-Holds t.heap i j g, q);
  back = λ k j h. let (v, g, q) = w.back k j h in (v, hit-Holds t.heap i j g, q);
}

-- A pointer that is new in both maps.
module _ (value token detector : String) (t : MappingTable) where
  abbrev pub new_record : MappingRecord
  new_record = record { value = value; token = token; detector = detector; hits = 1 }

  pub added-Holds : Holds (t.heap ++ new_record ∷ []) (length t.heap) value token
  added-Holds = record {
    rec = new_record;
    stored = get_elem?-new t.heap new_record;
    has_value = refl;
    has_token = refl;
  }

  pub added-lookup :
      (k : String) (i : ℕ) (m : Map ℕ) (s : String) (n : ℕ)
      → lookup s m ≡ none
      → lookup k m ≡ some i
      → lookup k (insert s n m) ≡ some i
  added-lookup k i m s n e h = ground (arith, lookup-insert k s n m, eq_iff s k)

  pub added_self : (s : String) (n : ℕ) (m : Map ℕ) → lookup s (insert s n m) ≡ some n
  added_self s n m = ground (arith, lookup-insert s s n m, eq_iff s s)

  pub add_record-IsTable :
      lookup value t.value_to_rec ≡ none
      → lookup token t.token_to_rec ≡ none
      → IsTable t
      → IsTable (add_record value token detector t)
  add_record-IsTable e f w = record {
    forth = λ v j h. elim (lookup-insert_cases v value (length t.heap) t.value_to_rec h) [
      | inl (p, q) ↦ (
        token,
        subst (λ x. Holds (t.heap ++ new_record ∷ []) j x token) p
            (subst (λ x. Holds (t.heap ++ new_record ∷ []) x value token) (sym q) added-Holds),
        subst (λ x. lookup token (insert token (length t.heap) t.token_to_rec) ≡ some x) (sym q)
            (added_self token (length t.heap) t.token_to_rec),
      )
      | inr (p, q) ↦
          let (k, g, r) = w.forth v j q in
          (
            k,
            new-Holds t.heap new_record j g,
            added-lookup k j t.token_to_rec token (length t.heap) f r,
          )
    ];
    back = λ k j h. elim (lookup-insert_cases k token (length t.heap) t.token_to_rec h) [
      | inl (p, q) ↦ (
        value,
        subst (λ x. Holds (t.heap ++ new_record ∷ []) j value x) p
            (subst (λ x. Holds (t.heap ++ new_record ∷ []) x value token) (sym q) added-Holds),
        subst (λ x. lookup value (insert value (length t.heap) t.value_to_rec) ≡ some x) (sym q)
            (added_self value (length t.heap) t.value_to_rec),
      )
      | inr (p, q) ↦
          let (v, g, r) = w.back k j q in
          (
            v,
            new-Holds t.heap new_record j g,
            added-lookup v j t.value_to_rec value (length t.heap) e r,
          )
    ];
  }
