-- ===== src/Secretnat/Stream.antt =====
-- StreamRestorer (secretnat/stream.go). A Go string is its bytes.
pub mod Holding
pub mod Cutting
pub mod Tokens
pub mod Passing
use rysh_cli_shared.Prelude.{
  ℕ, zero, suc, ◌+◌, ◌-◌, Bool, true, false, ◌&&◌, List, [], ◌∷◌, ◌++◌, length, any, ltb, eqb,
  if◌then◌else◌,
}

abbrev pub Bytes : Type 0
Bytes = List ℕ

-- s[:n]
abbrev pub take : ℕ → Bytes → Bytes
take zero s = []
take (suc n) [] = []
take (suc n) (b ∷ s) = b ∷ take n s

-- s[n:]
abbrev pub drop : ℕ → Bytes → Bytes
drop zero s = s
drop (suc n) [] = []
drop (suc n) (b ∷ s) = drop n s

-- strings.HasPrefix
abbrev pub has_prefix : Bytes → Bytes → Bool
has_prefix c [] = true
has_prefix [] (b ∷ s) = false
has_prefix (a ∷ c) (b ∷ s) = eqb a b && has_prefix c s

-- The test of the inner loop: s is a proper prefix of c.
abbrev pub partial : Bytes → Bytes → Bool
partial s c = ltb (length s) (length c) && has_prefix c s

abbrev pub max_len : List Bytes → ℕ → ℕ
max_len [] n = n
max_len (c ∷ cs) n = max_len cs (if ltb n (length c) then length c else n)

-- The loop over the suffixes of s, the longest first.
abbrev pub hold_from : List Bytes → Bytes → ℕ
hold_from candidates [] = 0
hold_from candidates (b ∷ s) =
    let rest = hold_from candidates s in
    if any (partial (b ∷ s)) candidates then length (b ∷ s) else rest

-- holdbackLen
unfoldable pub holdback_len : Bytes → List Bytes → ℕ
holdback_len s [] = 0
holdback_len s (c ∷ cs) = hold_from (c ∷ cs) (drop ((length s + 1) - max_len (c ∷ cs) 0) s)

-- What the two closures give at the time of a call.
pub record Session : Type 0 where
  pub restore : Bytes → Bytes
  pub candidates : List Bytes

pub record StreamRestorer : Type 0 where
  pub pending : Bytes

-- NewStreamRestorer
abbrev pub new_stream_restorer : StreamRestorer
new_stream_restorer = record { pending = [] }

abbrev pub restored : Session → Bytes → Bytes
restored w [] = []
restored w (b ∷ s) = w.restore (b ∷ s)

-- Feed's `emit` and the new tail, of the pending text with the chunk
unfoldable pub emitted : Session → Bytes → Bytes
unfolding holdback_len
emitted w s = take (length s - holdback_len s w.candidates) s

unfoldable pub held : Session → Bytes → Bytes
unfolding holdback_len
held w s = drop (length s - holdback_len s w.candidates) s

-- Feed, on the pending text with the chunk
unfoldable pub fed : Session → Bytes → StreamRestorer → Bytes × StreamRestorer
unfolding emitted held
fed w [] r = ([], r)
fed w (b ∷ s) r = (restored w (emitted w (b ∷ s)), record { pending = held w (b ∷ s) })

-- StreamRestorer.Feed
unfoldable pub feed : Session → Bytes → StreamRestorer → Bytes × StreamRestorer
unfolding fed
feed w chunk r = fed w (r.pending ++ chunk) r

-- StreamRestorer.Flush
unfoldable pub flush : Session → StreamRestorer → Bytes × StreamRestorer
flush w r = (restored w r.pending, record { pending = [] })
