-- ===== src/Secretnat/Stream/Holding.antt =====
-- The text that StreamRestorer holds back, and the tokens that the rest may not cut
-- (secretnat/stream.go).
use rysh_cli_shared.Prelude.{
  ℕ, zero, suc, ◌+◌, ◌-◌, ◌≤◌, ◌<◌, true, ◌||◌, List, [], ◌∷◌, ◌++◌, ◌≡◌, inl, inr, refl, ap, subst,
  length, any, ltb, if◌then◌else◌, arith, length-append, Bool-cases,
}
use rysh_cli_shared.Secretnat.Stream.{
  Bytes, take, drop, has_prefix, partial, max_len, hold_from, holdback_len,
}

pub has_prefix-append : (s t : Bytes) → has_prefix (s ++ t) s ≡ true
has_prefix-append [] t = refl
has_prefix-append (b ∷ s) t = ground (arith, has_prefix-append s t)

pub has_prefix-shorter : (c s t : Bytes) → has_prefix c (s ++ t) ≡ true → has_prefix c s ≡ true
has_prefix-shorter c [] t h = refl
has_prefix-shorter [] (b ∷ s) t h = h
has_prefix-shorter (a ∷ c) (b ∷ s) t h = ground (arith, has_prefix-shorter c s t)

drop-append : (n : ℕ) (x y : Bytes) → n ≤ length x → drop n (x ++ y) ≡ drop n x ++ y
drop-append zero x y h = refl
drop-append (suc n) [] y h = absurd (omega (arith, h))
drop-append (suc n) (b ∷ x) y h = drop-append n x y (omega (arith, h))

pub length-drop : (n : ℕ) (s : Bytes) → length (drop n s) ≡ length s - n
length-drop zero s = omega arith
length-drop (suc n) [] = omega arith
length-drop (suc n) (b ∷ s) = omega (arith, length-drop n s)

pub take-drop : (n : ℕ) (s : Bytes) → take n s ++ drop n s ≡ s
take-drop zero s = refl
take-drop (suc n) [] = refl
take-drop (suc n) (b ∷ s) = ap (λ t. b ∷ t) (take-drop n s)

pub hold_from-bounded : (cs : List Bytes) (s : Bytes) → hold_from cs s ≤ length s
hold_from-bounded cs [] = omega arith
hold_from-bounded cs (b ∷ s) = ground (arith, hold_from-bounded cs s)

hold_from-longest :
    (cs : List Bytes) (x y : Bytes) → any (partial y) cs ≡ true → length y ≤ hold_from cs (x ++ y)
hold_from-longest cs [] [] h = omega arith
hold_from-longest cs [] (b ∷ y) h = rw h (omega arith)
hold_from-longest cs (a ∷ x) y h = elim (Bool-cases (any (partial (a ∷ x ++ y)) cs)) [
  | inl e ↦ rw e (omega (arith, length-append x y))
  | inr e ↦ rw e (hold_from-longest cs x y h)
]

max_len-grows : (cs : List Bytes) (n : ℕ) → n ≤ max_len cs n
max_len-grows [] n = omega arith
max_len-grows (c ∷ cs) n = ground (arith, max_len-grows cs (length c), max_len-grows cs n)

partial-max_len :
    (cs : List Bytes) (n : ℕ) (y : Bytes) → any (partial y) cs ≡ true → length y < max_len cs n
partial-max_len [] n y h = absurd (ground arith)
partial-max_len (c ∷ cs) n y h = elim (Bool-cases (partial y c)) [
  | inl e ↦ ground (arith, max_len-grows cs (length c), max_len-grows cs n)
  | inr e ↦
      partial-max_len cs (if ltb n (length c) then length c else n) y
        (subst (λ b. (b || any (partial y) cs) ≡ true) e h)
]

-- holdbackLen is at least the length of each suffix that is a proper prefix of a candidate.
pub holdback_len-longest :
    (cs : List Bytes) (x y : Bytes)
    → any (partial y) cs ≡ true
    → length y ≤ holdback_len (x ++ y) cs
unfolding holdback_len
holdback_len-longest [] x y h = absurd (ground arith)
holdback_len-longest (c ∷ cs) x y h =
    let k = partial-max_len (c ∷ cs) 0 y h in
    let n : (length (x ++ y) + 1) - max_len (c ∷ cs) 0 ≤ length x =
      omega (arith, k, length-append x y) in
    rw (drop-append ((length (x ++ y) + 1) - max_len (c ∷ cs) 0) x y n)
      (hold_from-longest (c ∷ cs) (drop ((length (x ++ y) + 1) - max_len (c ∷ cs) 0) x) y h)
