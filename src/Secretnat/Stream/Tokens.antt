-- ===== src/Secretnat/Stream/Tokens.antt =====
-- Whether a token can be cut by Feed (secretnat/stream.go).
use rysh_cli_shared.Prelude.{
  ◌-◌, ◌≤◌, ◌<◌, Bool, true, false, ◌||◌, List, [], ◌∷◌, ◌++◌, ◌≡◌, ◌≢◌, ◌⊎◌, inl, inr, refl, ap,
  sym, subst, ◌∙◌, length, any, arith, length-append, append-nil, Bool-cases,
}
use rysh_cli_shared.Secretnat.Stream.{Bytes, drop, partial, holdback_len, Session, emitted, held}
use rysh_cli_shared.Secretnat.Stream.Holding.{
  has_prefix-append, has_prefix-shorter, length-drop, holdback_len-longest,
}
use rysh_cli_shared.Secretnat.Stream.Cutting.{
  held-partial, emitted-held, append_assoc, holdback_len-bounded,
}

abbrev pub IsToken : Bytes → List Bytes → Type 0
IsToken c [] = ⊥
IsToken c (d ∷ ds) = (c ≡ d) ⊎ IsToken c ds

-- No token ends in text with which a token begins.
abbrev pub AreApart : List Bytes → Type 0
AreApart cs =
    (c d p y : Bytes)
    → IsToken c cs
    → IsToken d cs
    → p ≢ []
    → y ≢ []
    → c ≡ p ++ y
    → partial y d ≡ false

or_true : (a b : Bool) → b ≡ true → (a || b) ≡ true
or_true a b h = ground arith

length_pos : (u : Bytes) → u ≢ [] → 0 < length u
length_pos [] n = absurd (n refl)
length_pos (b ∷ u) n = omega arith

pub left_nil : (v r : Bytes) → v ++ r ≡ [] → v ≡ []
left_nil [] r h = refl
left_nil (b ∷ v) r h = absurd (ground (arith, h))

any-IsToken :
    (cs : List Bytes) (y : Bytes)
    → any (partial y) cs ≡ true
    → (c : Bytes) × IsToken c cs × (partial y c ≡ true)
any-IsToken [] y h = absurd (ground arith)
any-IsToken (c ∷ cs) y h = elim (Bool-cases (partial y c)) [
  | inl e ↦ (c, inl refl, e)
  | inr e ↦
      let (d, t, k) = any-IsToken cs y (subst (λ b. (b || any (partial y) cs) ≡ true) e h) in
      (d, inr t, k)
]

IsToken-any :
    (cs : List Bytes) (c y : Bytes) → IsToken c cs → partial y c ≡ true → any (partial y) cs ≡ true
IsToken-any [] c y t h = absurd t
IsToken-any (d ∷ cs) c y (inl e) h = rw (subst (λ k. partial y k ≡ true) e h) refl
IsToken-any (d ∷ cs) c y (inr t) h =
    or_true (partial y d) (any (partial y) cs) (IsToken-any cs c y t h)

-- Two ways to begin one text.
overlap :
    (t l v z : Bytes)
    → t ++ l ≡ v ++ z
    → ((r : Bytes) × (v ≡ t ++ r)) ⊎ ((r : Bytes) × (t ≡ v ++ r))
overlap [] l v z h = inl (v, refl)
overlap (a ∷ t) l [] z h = inr (a ∷ t, refl)
overlap (a ∷ t) l (b ∷ v) z h =
    let e : a ≡ b = ground (arith, h) in
    elim (overlap t l v z (ap (drop 1) h)) [
      | inl (r, k) ↦ inl (r, rw (e, k) refl)
      | inr (r, k) ↦ inr (r, rw (e, k) refl)
    ]

partial-longer : (y r : Bytes) → r ≢ [] → partial y (y ++ r) ≡ true
partial-longer y [] n = absurd (n refl)
partial-longer y (b ∷ r) n = ground (arith, has_prefix-append y (b ∷ r), length-append y (b ∷ r))

partial-shorter : (c y r : Bytes) → partial (y ++ r) c ≡ true → partial y c ≡ true
partial-shorter c y r h = ground (arith, has_prefix-shorter c y r, length-append y r)

length-held : (w : Session) (s : Bytes) → length (held w s) ≡ holdback_len s w.candidates
unfolding held
length-held w s = omega (
  arith,
  length-drop (length s - holdback_len s w.candidates) s,
  (holdback_len-bounded s w.candidates).0,
)

-- The cut lies in no token that goes on past the text that is held back.
cut_later :
    (w : Session) (s x u r : Bytes)
    → emitted w s ≡ x ++ u
    → u ≢ []
    → r ≢ []
    → IsToken (u ++ (held w s ++ r)) w.candidates
    → ⊥
cut_later w s x u r e n m t =
    let q : any (partial (u ++ held w s)) w.candidates ≡ true =
      IsToken-any w.candidates (u ++ (held w s ++ r)) (u ++ held w s) t (
        subst (λ k. partial (u ++ held w s) k ≡ true) (append_assoc u (held w s) r)
          (partial-longer (u ++ held w s) r m)) in
    let k : x ++ (u ++ held w s) ≡ s =
      sym (append_assoc x u (held w s)) ∙ (ap (λ k. k ++ held w s) (sym e) ∙ emitted-held w s) in
    let g = holdback_len-longest w.candidates x (u ++ held w s) q in
    let g' = subst (λ k. length (u ++ held w s) ≤ holdback_len k w.candidates) k g in
    absurd (omega (arith, g', length-append u (held w s), length-held w s, length_pos u n))

-- The cut lies in no token that ends in the text that is held back.
cut_before :
    (w : Session) (s u v r : Bytes)
    → AreApart w.candidates
    → held w s ≡ v ++ r
    → u ≢ []
    → v ≢ []
    → IsToken (u ++ v) w.candidates
    → ⊥
cut_before w s u v r a h n m t = elim (held-partial w s) [
  | inl z ↦ m (left_nil v r (sym h ∙ z))
  | inr q ↦
      let (d, k, p) = any-IsToken w.candidates (held w s) q in
      let p' = partial-shorter d v r (subst (λ y. partial y d ≡ true) h p) in
      absurd (ground (arith, p', a (u ++ v) d u v t k n m refl))
]

-- Feed cuts no token in two, if no token ends in text with which a token begins: whatever the text
-- goes on with, no token begins before the cut and ends after it.
pub emitted-whole :
    (w : Session) (s x u l v z : Bytes)
    → AreApart w.candidates
    → emitted w s ≡ x ++ u
    → held w s ++ l ≡ v ++ z
    → u ≢ []
    → v ≢ []
    → ¬ IsToken (u ++ v) w.candidates
emitted-whole w s x u l v z a e h n m t = elim (overlap (held w s) l v z h) [
  | inl ([], k) ↦
      cut_before w s u v [] a (sym (append-nil (held w s)) ∙ (sym k ∙ sym (append-nil v))) n m t
  | inl (b ∷ r, k) ↦
      cut_later w s x u (b ∷ r) e n (λ f. absurd (ground (arith, f)))
        (subst (λ y. IsToken (u ++ y) w.candidates) k t)
  | inr (r, k) ↦ cut_before w s u v r a k n m t
]
