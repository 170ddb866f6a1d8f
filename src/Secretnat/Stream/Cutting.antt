-- ===== src/Secretnat/Stream/Cutting.antt =====
-- Where Feed cuts the text, and the tokens around the cut (secretnat/stream.go).
use rysh_cli_shared.Prelude.{
  ℕ, ◌+◌, ◌-◌, ◌≤◌, true, List, [], ◌∷◌, ◌++◌, ◌≡◌, ◌⊎◌, inl, inr, refl, ap, sym, subst, ◌∙◌,
  length, any, arith, length-append, Bool-cases,
}
use rysh_cli_shared.Secretnat.Stream.{
  Bytes, take, drop, partial, max_len, hold_from, holdback_len, Session, emitted, held,
}
use rysh_cli_shared.Secretnat.Stream.Holding.{take-drop, hold_from-bounded, length-drop}

-- s ends in a proper prefix of a candidate that is n bytes long.
abbrev Ends : List Bytes → Bytes → ℕ → Type 0
Ends cs s n =
    (x : Bytes) × (y : Bytes) × (s ≡ x ++ y) × (any (partial y) cs ≡ true) × (length y ≡ n)

hold_from-Ends : (cs : List Bytes) (s : Bytes) → (hold_from cs s ≡ 0) ⊎ Ends cs s (hold_from cs s)
hold_from-Ends cs [] = inl refl
hold_from-Ends cs (b ∷ s) = elim (Bool-cases (any (partial (b ∷ s)) cs)) [
  | inl e ↦ rw e (inr ([], (b ∷ s), refl, e, refl))
  | inr e ↦ elim (hold_from-Ends cs s) [
    | inl z ↦ rw e (inl z)
    | inr (x, y, p, q, r) ↦ rw e (inr ((b ∷ x), y, ap (λ t. b ∷ t) p, q, r))
  ]
]

pub append_assoc : (x y z : Bytes) → (x ++ y) ++ z ≡ x ++ (y ++ z)
append_assoc [] y z = refl
append_assoc (b ∷ x) y z = ap (λ t. b ∷ t) (append_assoc x y z)

Ends-drop : (cs : List Bytes) (n : ℕ) (s : Bytes) (k : ℕ) → Ends cs (drop n s) k → Ends cs s k
Ends-drop cs n s k (x, y, p, q, r) = (
  take n s ++ x,
  y,
  sym (take-drop n s) ∙ (ap (λ t. take n s ++ t) p ∙ sym (append_assoc (take n s) x y)),
  q,
  r,
)

holdback_len-Ends :
    (cs : List Bytes) (s : Bytes) → (holdback_len s cs ≡ 0) ⊎ Ends cs s (holdback_len s cs)
unfolding holdback_len
holdback_len-Ends [] s = inl refl
holdback_len-Ends (c ∷ cs) s =
    let n = (length s + 1) - max_len (c ∷ cs) 0 in
    elim (hold_from-Ends (c ∷ cs) (drop n s)) [
      | inl z ↦ inl z
      | inr e ↦ inr (Ends-drop (c ∷ cs) n s (hold_from (c ∷ cs) (drop n s)) e)
    ]

-- holdbackLen is at most the length of the text, and less than that of the longest candidate.
pub holdback_len-bounded :
    (s : Bytes) (cs : List Bytes)
    → (holdback_len s cs ≤ length s) × (holdback_len s cs ≤ max_len cs 0 - 1)
unfolding holdback_len
holdback_len-bounded s [] = (omega arith, omega arith)
holdback_len-bounded s (c ∷ cs) =
    let n = (length s + 1) - max_len (c ∷ cs) 0 in
    let a = hold_from-bounded (c ∷ cs) (drop n s) in
    let b = length-drop n s in (omega (arith, a, b), omega (arith, a, b))

drop-length : (x y : Bytes) → drop (length x) (x ++ y) ≡ y
drop-length [] y = refl
drop-length (b ∷ x) y = drop-length x y

length_zero : (s : Bytes) → length s ≡ 0 → s ≡ []
length_zero [] h = refl
length_zero (b ∷ s) h = absurd (omega (arith, h))

-- The text that is held back is empty or a proper prefix of a candidate.
pub held-partial :
    (w : Session) (s : Bytes) → (held w s ≡ []) ⊎ (any (partial (held w s)) w.candidates ≡ true)
unfolding held
held-partial w s = elim (holdback_len-Ends w.candidates s) [
  | inl z ↦ inl (
      length_zero (drop (length s - holdback_len s w.candidates) s)
        (omega (arith, z, length-drop (length s - holdback_len s w.candidates) s)))
  | inr (x, y, p, q, r) ↦
      let k : length s - holdback_len s w.candidates ≡ length x =
        omega (arith, ap length p, length-append x y, r) in
      let d : drop (length s - holdback_len s w.candidates) s ≡ y =
        ap (λ m. drop m s) k ∙ (ap (λ t. drop (length x) t) p ∙ drop-length x y) in
      inr (subst (λ t. any (partial t) w.candidates ≡ true) (sym d) q)
]

-- Feed cuts the text in two.
pub emitted-held : (w : Session) (s : Bytes) → emitted w s ++ held w s ≡ s
unfolding emitted held
emitted-held w s = take-drop (length s - holdback_len s w.candidates) s
