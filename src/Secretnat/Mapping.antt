-- ===== src/Secretnat/Mapping.antt =====
-- MappingTable (secretnat/mapping.go): the map between secret values and the tokens that stand for
-- them. The two Go maps share their records, so a record is a pointer into a heap. Lengths of texts
-- and numbers of records stay in the range of an int.
pub mod Table
pub mod Tokens
pub mod Listing
use rysh_cli_shared.Prelude.{
  ℕ, ◌+◌, ◌%◌, String, len, Bool, true, false, ◌&&◌, not, Option, none, some, List, [], ◌∷◌, ◌++◌,
  map, Map, lookup, insert, length, get_elem?, update_at, inc64, ltb, eqb, two_64, if◌then◌else◌,
  ◌==◌,
}
use Prim.Native.String.{compare}
use text.Mathlib.Text.{is_lt}

pub record MappingRecord : Type 0 where
  pub value : String
  pub token : String
  pub detector : String
  pub hits : ℕ

pub record MappingEntry : Type 0 where
  pub token : String
  pub detector : String
  pub hits : ℕ

-- `heap` holds the records that the values of the maps point at.
pub record MappingTable : Type 0 where
  pub heap : List MappingRecord
  pub value_to_rec : Map ℕ
  pub token_to_rec : Map ℕ
  pub seq : ℕ
  pub restored : ℕ
  pub last_used : ℕ
  pub max_token_len : ℕ

-- NewMappingTable, at a time
abbrev pub new_mapping_table : ℕ → MappingTable
new_mapping_table now = record {
  heap = [];
  value_to_rec = [];
  token_to_rec = [];
  seq = 0;
  restored = 0;
  last_used = now;
  max_token_len = 0;
}

-- rec.hits++
abbrev pub hit : MappingRecord → MappingRecord
hit r = record r { hits = inc64 r.hits }

abbrev pub hit_table : ℕ → MappingTable → MappingTable
hit_table i t = record t { heap = update_at i hit t.heap }

abbrev pub token_at : Option MappingRecord → String
token_at none = ""
token_at (some r) = r.token

-- The record that the lookup found, or a new one with the token of the next number.
abbrev pub add_record : String → String → String → MappingTable → MappingTable
add_record value token detector t = record t {
  heap = t.heap ++ (record { value = value; token = token; detector = detector; hits = 1 }) ∷ [];
  value_to_rec = insert value (length t.heap) t.value_to_rec;
  token_to_rec = insert token (length t.heap) t.token_to_rec;
  seq = inc64 t.seq;
  max_token_len = if ltb t.max_token_len (len token) then len token else t.max_token_len;
}

abbrev pub token_from :
    Option ℕ → String → String → (ℕ → String) → MappingTable → String × MappingTable
token_from (some i) value detector mint t = (token_at (get_elem? t.heap i), hit_table i t)
token_from none value detector mint t =
    let token = mint (inc64 t.seq) in (token, add_record value token detector t)

-- MappingTable.TokenFor
unfoldable pub token_for : ℕ → String → String → (ℕ → String) → MappingTable → String × MappingTable
token_for now value detector mint t =
    token_from (lookup value t.value_to_rec) value detector mint (record t { last_used = now })

-- MappingTable.IsToken
unfoldable pub is_token : String → MappingTable → Bool
is_token s t = elim (lookup s t.token_to_rec) [ none ↦ false | some i ↦ true ]

abbrev pub value_at : List MappingRecord → Option ℕ → Option String
value_at heap none = none
value_at heap (some i) = elim (get_elem? heap i) [ none ↦ none | some r ↦ some r.value ]

-- MappingTable.RevealToken
unfoldable pub reveal_token : String → MappingTable → Option String
reveal_token s t = value_at t.heap (lookup s t.token_to_rec)

-- MappingTable.Size, RestoredCount, MaxTokenLen and LastUsed
abbrev pub size : MappingTable → ℕ
size t = length t.token_to_rec

abbrev pub restored_count : MappingTable → ℕ
restored_count t = t.restored

abbrev pub longest_token_len : MappingTable → ℕ
longest_token_len t = t.max_token_len

abbrev pub last_use : MappingTable → ℕ
last_use t = t.last_used

-- The records that a `range` over tokenToRec visits.
unfoldable pub records : List MappingRecord → Map ℕ → List MappingRecord
records heap [] = []
records heap ((k, i) ∷ m) =
    let rest = records heap m in elim (get_elem? heap i) [ none ↦ rest | some r ↦ r ∷ rest ]

-- out[detector] += hits
abbrev pub add_hits : String → ℕ → Map ℕ → Map ℕ
add_hits d n out = insert d (((elim (lookup d out) [ none ↦ 0 | some h ↦ h ]) + n) % two_64) out

unfoldable pub sum_hits : List MappingRecord → Map ℕ → Map ℕ
sum_hits [] out = out
sum_hits (r ∷ rs) out = sum_hits rs (add_hits r.detector r.hits out)

-- MappingTable.PerDetector
unfoldable pub per_detector : MappingTable → Map ℕ
per_detector t = sum_hits (records t.heap t.token_to_rec) []
