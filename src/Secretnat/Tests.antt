-- ===== src/Secretnat/Tests.antt =====
-- The theorems on secretnat/mapping.go and secretnat/stream.go at small states.
use rysh_cli_shared.Prelude.{
  ℕ, String, some, [], ◌∷◌, ◌≡◌, refl, lookup, insert, eqb, if◌then◌else◌,
}
use rysh_cli_shared.Secretnat.Mapping.{
  MappingTable, new_mapping_table, token_for, reveal_token, per_detector, sum_hits, records,
}
use rysh_cli_shared.Secretnat.Mapping.Table.{IsTable, new_mapping_table-IsTable}
use rysh_cli_shared.Secretnat.Mapping.Tokens.{Call, call, calls, token_for-IsTable, token_for-calls}
use rysh_cli_shared.Prelude.{List, ◌≤◌, inl, inr, arith, length-append}
use rysh_cli_shared.Secretnat.Stream.{
  Bytes, Session, new_stream_restorer, fed, feed, emitted, held, holdback_len,
}
use rysh_cli_shared.Secretnat.Stream.Holding.{holdback_len-longest}
use rysh_cli_shared.Secretnat.Stream.Tokens.{AreApart, IsToken, emitted-whole}
use rysh_cli_shared.Secretnat.Stream.Passing.{restore_stream, restore_stream-IsPlain}

abbrev mint : ℕ → String
mint n = if eqb n 1 then "SNAT1" else "SNAT2"

abbrev empty : MappingTable
empty = new_mapping_table 5

abbrev ask : String → Call
ask v = record { now = 6; value = v; detector = "password"; mint = mint }

second_token : (call (ask "hunter2") (calls (ask "opensesame" ∷ []) empty)).0 ≡ "SNAT2"
unfolding token_for lookup insert
second_token = refl

hits :
    per_detector (calls (ask "hunter2" ∷ ask "hunter2" ∷ ask "opensesame" ∷ []) empty)
    ≡ ("password", 3) ∷ []
unfolding per_detector sum_hits records token_for lookup insert
hits = refl

token_for-IsTable_example : IsTable (token_for 6 "hunter2" "password" mint empty).1
unfolding lookup
token_for-IsTable_example =
    token_for-IsTable 6 "hunter2" "password" mint empty (new_mapping_table-IsTable 5) refl

token_for-calls_example :
    ((call (ask "hunter2") (calls (ask "opensesame" ∷ []) (call (ask "hunter2") empty).1)).0
      ≡ (call (ask "hunter2") empty).0)
    × (reveal_token
          (call (ask "hunter2") empty).0
          (calls (ask "opensesame" ∷ []) (call (ask "hunter2") empty).1)
        ≡ some "hunter2")
unfolding token_for lookup insert
token_for-calls_example =
    token_for-calls (ask "hunter2") (ask "hunter2") (ask "opensesame" ∷ []) empty
      (new_mapping_table-IsTable 5) (refl, (refl, tt)) refl

-- The token 1 2 3.
abbrev sample_tokens : List Bytes
sample_tokens = (1 ∷ 2 ∷ 3 ∷ []) ∷ []

abbrev session : Session
session = record { restore = λ s. s; candidates = sample_tokens }

first_chunk :
    feed session (9 ∷ 1 ∷ 2 ∷ []) new_stream_restorer ≡ (9 ∷ [], record { pending = 1 ∷ 2 ∷ [] })
unfolding feed fed emitted held holdback_len
first_chunk = refl

-- A token is cut that ends in the first byte of another: 5 1 with 1 4.
cut_token :
    feed
      (record { restore = λ s. s; candidates = (5 ∷ 1 ∷ []) ∷ (1 ∷ 4 ∷ []) ∷ [] })
      (5 ∷ 1 ∷ [])
      new_stream_restorer
    ≡ (5 ∷ [], record { pending = 1 ∷ [] })
unfolding feed fed emitted held holdback_len
cut_token = refl

holdback_len-longest_example : 2 ≤ holdback_len (9 ∷ 1 ∷ 2 ∷ []) sample_tokens
holdback_len-longest_example = holdback_len-longest sample_tokens (9 ∷ []) (1 ∷ 2 ∷ []) refl

sample_tokens-AreApart : AreApart sample_tokens
sample_tokens-AreApart c d [] y t k n m e = absurd (n refl)
sample_tokens-AreApart c d (a ∷ p) [] t k n m e = absurd (m refl)
sample_tokens-AreApart c d (a ∷ p) (b ∷ y) (inr t) k n m e = absurd t
sample_tokens-AreApart c d (a ∷ p) (b ∷ y) (inl t) (inr k) n m e = absurd k
sample_tokens-AreApart c d (a ∷ []) (b ∷ y) (inl t) (inl k) n m e = ground arith
sample_tokens-AreApart c d (a ∷ o ∷ []) (b ∷ y) (inl t) (inl k) n m e = ground arith
sample_tokens-AreApart c d (a ∷ o ∷ q ∷ p) (b ∷ y) (inl t) (inl k) n m e =
    absurd (ground (arith, length-append p (b ∷ y)))

emitted-whole_example : ¬ IsToken (9 ∷ 1 ∷ []) sample_tokens
unfolding emitted held holdback_len
emitted-whole_example =
    emitted-whole session (9 ∷ 1 ∷ 2 ∷ []) [] (9 ∷ []) (3 ∷ []) (1 ∷ []) (2 ∷ 3 ∷ [])
      sample_tokens-AreApart refl refl (λ h. absurd (ground (arith, h)))
      (λ h. absurd (ground (arith, h)))

restore_stream-IsPlain_example :
    restore_stream session ((session, 9 ∷ 1 ∷ []) ∷ (session, 2 ∷ 3 ∷ []) ∷ []) new_stream_restorer
    ≡ 9 ∷ 1 ∷ 2 ∷ 3 ∷ []
restore_stream-IsPlain_example =
    restore_stream-IsPlain session ((session, 9 ∷ 1 ∷ []) ∷ (session, 2 ∷ 3 ∷ []) ∷ []) (λ s. refl)
      ((λ s. refl), ((λ s. refl), tt))

abbrev asked : MappingTable
asked = calls (ask "hunter2" ∷ ask "opensesame" ∷ []) empty
