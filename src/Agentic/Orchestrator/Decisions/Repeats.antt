-- ===== src/Agentic/Orchestrator/Decisions/Repeats.antt =====
-- The loop detection (agentic/orchestrator.go).
use rysh_cli_shared.Prelude.{
  ℕ, zero, suc, ◌+◌, ◌-◌, ◌≤◌, String, Bool, true, List, [], ◌∷◌, ◌++◌, ◌≡◌, refl, sym, ap, subst,
  ◌∙◌, length, count_if, drop_first, ltb, Bool-cases, inl, inr, arith, eq_refl, length-append,
  append_assoc, le→leb,
}
use rysh_cli_shared.Agentic.Orchestrator.State.{Env, Desk, LoopEntry}
use rysh_cli_shared.Agentic.Orchestrator.Decisions.{
  threshold, call_hash, recent, same_call, history, detect_loop,
}

drop_first-append :
    (k : ℕ) (ys zs : List LoopEntry)
    → k ≤ length ys
    → drop_first k (ys ++ zs) ≡ drop_first k ys ++ zs
drop_first-append zero ys zs h = refl
drop_first-append (suc k) [] zs h = absurd (ground (arith, h))
drop_first-append (suc k) (y ∷ ys) zs h = drop_first-append k ys zs (omega (arith, h))

-- What is kept ends in the entries at the end, up to 20 of them.
recent-append :
    (ys zs : List LoopEntry)
    → length zs ≤ 20
    → (xs : List LoopEntry) × (recent (ys ++ zs) ≡ xs ++ zs)
unfolding recent
recent-append ys zs h = elim (Bool-cases (ltb 20 (length (ys ++ zs)))) [
  | inl b ↦
      let k = length (ys ++ zs) - 20 in
      let s = length-append ys zs in
      (drop_first k ys, rw b (drop_first-append k ys zs (ground (arith, s, h))))
  | inr b ↦ (ys, rw b refl)
]

count_if-append :
    (p : LoopEntry → Bool) (xs ys : List LoopEntry)
    → count_if p (xs ++ ys) ≡ count_if p xs + count_if p ys
count_if-append p [] ys = omega arith
count_if-append p (x ∷ xs) ys = omega (arith, count_if-append p xs ys)

abbrev pub entry : Env → String → String → LoopEntry
entry e name params = record { tool_name = name; params_hash = call_hash e name params }

-- A history that ends in fewer than 20 entries ends in these and one more after a call.
pub history-ends :
    (e : Env) (name params : String) (xs zs hs : List LoopEntry)
    → suc (length zs) ≤ 20
    → hs ≡ xs ++ zs
    → (ys : List LoopEntry) × (history e name params hs ≡ ys ++ (zs ++ entry e name params ∷ []))
history-ends e name params xs zs hs h q =
    let x = entry e name params in
    let s : length (zs ++ x ∷ []) ≤ 20 = omega (arith, length-append zs (x ∷ []), h) in
    let r = recent-append xs (zs ++ x ∷ []) s in
    (r.0, ap recent (ap (λ us. us ++ x ∷ []) q ∙ append_assoc xs zs (x ∷ [])) ∙ r.1)

-- Where the last entries, fewer than 20, have one fewer of a call than the threshold, or more, the
-- next such call is found to loop.
pub detect_loop-ends :
    (e : Env) (name params : String) (xs zs : List LoopEntry) (d : Desk)
    → threshold e ≤ suc (count_if (same_call (call_hash e name params)) zs)
    → suc (length zs) ≤ 20
    → d.call_history ≡ xs ++ zs
    → (detect_loop e name params d).0 ≡ true
unfolding detect_loop
detect_loop-ends e name params xs zs d t h q =
    let same = same_call (call_hash e name params) in
    let x = entry e name params in
    let r = history-ends e name params xs zs d.call_history h q in
    let own : same x ≡ true = eq_refl (call_hash e name params) in
    let one : count_if same (x ∷ []) ≡ 1 = rw own refl in
    let n : suc (count_if same zs) ≤ count_if same (history e name params d.call_history) =
      subst (λ us. suc (count_if same zs) ≤ count_if same us) (sym r.1)
        (omega (
          arith,
          count_if-append same r.0 (zs ++ x ∷ []),
          count_if-append same zs (x ∷ []),
          one,
        )) in
    le→leb _ _ (omega (arith, t, n))
