-- ===== src/Secretnat/Mapping/Tokens.antt =====
-- TokenFor and RevealToken (secretnat/mapping.go).
use rysh_cli_shared.Prelude.{
  ℕ, String, none, some, List, [], ◌∷◌, ◌≡◌, sym, subst, lookup, length, update_at, inc64, arith,
  inl, inr, Option-cases,
}
use rysh_cli_shared.Secretnat.Mapping.{MappingTable, hit, token_for, reveal_token}
use rysh_cli_shared.Secretnat.Mapping.Table.{
  Holds, IsTable, hit_table-IsTable, add_record-IsTable, new-Holds, hit-Holds, added-lookup,
  added_self, added-Holds, new_record,
}

-- The token that mint makes for the next number is new.
abbrev pub IsNew : (ℕ → String) → MappingTable → Type 0
IsNew mint t = lookup (mint (inc64 t.seq)) t.token_to_rec ≡ none

-- The token k stands for the value v.
abbrev pub Stands : MappingTable → String → String → Type 0
Stands t v k =
    (i : ℕ) × (lookup v t.value_to_rec ≡ some i)
    × Holds t.heap i v k
    × (lookup k t.token_to_rec ≡ some i)

Stands-reveal_token : (t : MappingTable) (v k : String) → Stands t v k → reveal_token k t ≡ some v
unfolding reveal_token
Stands-reveal_token t v k (i, p, h, q) = rw q (ground (arith, h.stored, h.has_value))

reveal_token-Stands :
    (t : MappingTable) (v k : String) → IsTable t → reveal_token k t ≡ some v → Stands t v k
unfolding reveal_token
reveal_token-Stands t v k w e = elim (Option-cases (lookup k t.token_to_rec)) [
  | inl n ↦ absurd (ground arith)
  | inr (i, q) ↦
      let (v', h, p) = w.back k i q in
      let x : v' ≡ v = ground (arith, h.stored, h.has_value) in
      (i, subst (λ u. lookup u t.value_to_rec ≡ some i) x p, subst (λ u. Holds t.heap i u k) x h, q)
]

module _ (now : ℕ) (value detector : String) (mint : ℕ → String) (t : MappingTable) where
  -- TokenFor keeps the two maps inverse to each other, if the token that it mints is new.
  pub token_for-IsTable : IsTable t → IsNew mint t → IsTable (token_for now value detector mint t).1
  unfolding token_for
  token_for-IsTable w n = elim (Option-cases (lookup value t.value_to_rec)) [
    | inl e ↦ rw e (
        add_record-IsTable value (mint (inc64 t.seq)) detector (record t { last_used = now }) e n
          (record { forth = w.forth; back = w.back }))
    | inr (i, e) ↦ rw e (
        hit_table-IsTable i (record t { last_used = now })
          (record { forth = w.forth; back = w.back }))
  ]

  token_for-Stands :
      IsTable t
      → IsNew mint t
      → Stands (token_for now value detector mint t).1 value (token_for now value detector mint t).0
  unfolding token_for
  token_for-Stands w n = elim (Option-cases (lookup value t.value_to_rec)) [
    | inl e ↦ rw e (
      length t.heap,
      added_self value (mint (inc64 t.seq)) detector t value (length t.heap) t.value_to_rec,
      added-Holds value (mint (inc64 t.seq)) detector t,
      added_self value (mint (inc64 t.seq)) detector t (mint (inc64 t.seq)) (length t.heap)
          t.token_to_rec,
    )
    | inr (i, e) ↦
        let (k, h, q) = w.forth value i e in
        rw (e, h.stored)
          (
            i,
            e,
            subst (λ x. Holds (update_at i hit t.heap) i value x) (sym h.has_token)
                (hit-Holds t.heap i i h),
            subst (λ x. lookup x t.token_to_rec ≡ some i) (sym h.has_token) q,
          )
  ]

  token_for-keeps :
      (v k : String)
      → IsNew mint t
      → Stands t v k
      → Stands (token_for now value detector mint t).1 v k
  unfolding token_for
  token_for-keeps v k n (i, p, h, q) = elim (Option-cases (lookup value t.value_to_rec)) [
    | inl e ↦ rw e (
      i,
      added-lookup value (mint (inc64 t.seq)) detector t v i t.value_to_rec value (length t.heap) e
          p,
      new-Holds t.heap (new_record value (mint (inc64 t.seq)) detector t) i h,
      added-lookup value (mint (inc64 t.seq)) detector t k i t.token_to_rec (mint (inc64 t.seq))
          (length t.heap) n q,
    )
    | inr (j, e) ↦ rw e (i, p, hit-Holds t.heap j i h, q)
  ]

  Stands-token_for : (k : String) → Stands t value k → (token_for now value detector mint t).0 ≡ k
  unfolding token_for
  Stands-token_for k (i, p, h, q) = rw (p, h.stored) h.has_token

  -- The token that TokenFor returns reveals its value, and each token that has revealed a value reveals
  -- it still, if a newly minted token is new.
  pub token_for-reveal_token :
      IsTable t
      → IsNew mint t
      → (reveal_token
            (token_for now value detector mint t).0
            (token_for now value detector mint t).1
          ≡ some value)
        × ((v k : String)
            → reveal_token k t ≡ some v
            → reveal_token k (token_for now value detector mint t).1 ≡ some v)
  token_for-reveal_token w n = (
    Stands-reveal_token (token_for now value detector mint t).1 value
        (token_for now value detector mint t).0 (token_for-Stands w n),
    λ v k e.
        Stands-reveal_token (token_for now value detector mint t).1 v k
          (token_for-keeps v k n (reveal_token-Stands t v k w e)),
  )

-- A call of TokenFor.
pub record Call : Type 0 where
  pub now : ℕ
  pub value : String
  pub detector : String
  pub mint : ℕ → String

abbrev pub call : Call → MappingTable → String × MappingTable
call c t = token_for c.now c.value c.detector c.mint t

abbrev pub calls : List Call → MappingTable → MappingTable
calls [] t = t
calls (c ∷ cs) t = calls cs (call c t).1

-- Each call's newly minted token is new.
abbrev pub AllNew : List Call → MappingTable → Type 0
AllNew [] t = Unit
AllNew (c ∷ cs) t = IsNew c.mint t × AllNew cs (call c t).1

calls-keep :
    (cs : List Call) (t : MappingTable) (v k : String)
    → AllNew cs t
    → Stands t v k
    → Stands (calls cs t) v k
calls-keep [] t v k n s = s
calls-keep (c ∷ cs) t v k (n, m) s =
    calls-keep cs (call c t).1 v k m (token_for-keeps c.now c.value c.detector c.mint t v k n s)

-- TokenFor is deterministic within a table: after a call for a value and any further calls, a call for
-- that value returns the same token again, and the token reveals the value, if each newly minted token
-- is new.
pub token_for-calls :
    (c d : Call) (cs : List Call) (t : MappingTable)
    → IsTable t
    → AllNew (c ∷ cs) t
    → d.value ≡ c.value
    → ((call d (calls cs (call c t).1)).0 ≡ (call c t).0)
      × (reveal_token (call c t).0 (calls cs (call c t).1) ≡ some c.value)
token_for-calls c d cs t w (n, m) e =
    let s =
      calls-keep cs (call c t).1 c.value (call c t).0 m
        (token_for-Stands c.now c.value c.detector c.mint t w n) in
    (
      Stands-token_for d.now d.value d.detector d.mint (calls cs (call c t).1) (call c t).0
          (subst (λ x. Stands (calls cs (call c t).1) x (call c t).0) (sym e) s),
      Stands-reveal_token (calls cs (call c t).1) c.value (call c t).0 s,
    )
