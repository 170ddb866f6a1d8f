-- ===== src/Agentic/Orchestrator/Rounds/Effects.antt =====
-- What a run does outside itself (agentic/orchestrator.go).
use rysh_cli_shared.Prelude.{
  ℕ, zero, suc, ◌+◌, ◌-◌, ◌≤◌, String, Bool, true, false, ◌||◌, List, [], ◌∷◌, ◌++◌, ◌≡◌, refl, sym,
  subst, ◌==◌, Result, ok, err, arith, if-holds, ltb,
}
use rysh_cli_shared.Provider.Turns.{ConversationTurn, ToolCallRequest}
use rysh_cli_shared.Provider.Pairing.{outside, has_calls}
use rysh_cli_shared.Provider.Pairing.Paired.{Paired}
use rysh_cli_shared.Agentic.Orchestrator.State.{
  Env, Desk, Orchestrator, AgenticResponse, ProviderError, StopReason, end_turn, tool_use,
  max_tokens, stop_sequence, other_stop, Effect, requested, summarized, asked, answered, previewed,
  ran, ApprovalDecision, enter, tick, phase_done,
}
use rysh_cli_shared.Agentic.Orchestrator.Calls.Dispatch.{execute_tool}
use rysh_cli_shared.Agentic.Orchestrator.Calls.Steps.{
  is_gated, approves, Steps, stay, asks, answers, previews, runs,
}
use rysh_cli_shared.Agentic.Orchestrator.Calls.Consent.{execute_tool-Steps}
use rysh_cli_shared.Agentic.Orchestrator.Rounds.{
  run_calls, assistant_turn, assistant_text, mark_paused, append_text, take_text, close_round,
  take_calls, take_error, take_reply, count_usage,
}

-- The effects of a run with at most so many requests for a reply, the last effect first: each of them
-- carries a transcript that obeys the pairing rule, a request for a summary stands only directly
-- before one of them, and a call that the policy gates is run only directly after a yes to the
-- request for its approval.
pub data Lawful (e : Env) : ℕ → List Effect → Type 0 where
  nothing : {n : ℕ} → Lawful e n []
  requests :
      {n : ℕ} {es : List Effect} {ts : List ConversationTurn}
      → Paired false outside ts
      → Lawful e n es
      → Lawful e (suc n) (requested ts ∷ es)
  requests_after_summary :
      {n : ℕ} {es : List Effect} {ts us : List ConversationTurn}
      → Paired false outside ts
      → Lawful e n es
      → Lawful e (suc n) (requested ts ∷ summarized us ∷ es)
  has_asked :
      {n : ℕ} {es : List Effect} {name input rule : String}
      → Lawful e n es
      → Lawful e n (asked name input rule ∷ es)
  has_answered :
      {n : ℕ} {es : List Effect} {a : ApprovalDecision}
      → Lawful e n es
      → Lawful e n (answered a ∷ es)
  has_previewed :
      {n : ℕ} {es : List Effect} {name input : String}
      → Lawful e n es
      → Lawful e n (previewed name input ∷ es)
  has_run :
      {n : ℕ} {es : List Effect} {name input : String}
      → (is_gated e name input ≡ true → approves name input es ≡ true)
      → Lawful e n es
      → Lawful e n (ran name input ∷ es)

Lawful-Steps :
    {e : Env} {n : ℕ} {xs ys : List Effect} → Steps e xs ys → Lawful e n xs → Lawful e n ys
Lawful-Steps stay l = l
Lawful-Steps (asks s) l = has_asked (Lawful-Steps s l)
Lawful-Steps (answers s) l = has_answered (Lawful-Steps s l)
Lawful-Steps (previews s) l = has_previewed (Lawful-Steps s l)
Lawful-Steps (runs h s) l = has_run h (Lawful-Steps s l)

pub Lawful-suc : {e : Env} {n : ℕ} {es : List Effect} → Lawful e n es → Lawful e (suc n) es
Lawful-suc nothing = nothing
Lawful-suc (requests p l) = requests p (Lawful-suc l)
Lawful-suc (requests_after_summary p l) = requests_after_summary p (Lawful-suc l)
Lawful-suc (has_asked l) = has_asked (Lawful-suc l)
Lawful-suc (has_answered l) = has_answered (Lawful-suc l)
Lawful-suc (has_previewed l) = has_previewed (Lawful-suc l)
Lawful-suc (has_run h l) = has_run h (Lawful-suc l)

Lawful-add : {e : Env} {n : ℕ} {es : List Effect} (k : ℕ) → Lawful e n es → Lawful e (k + n) es
Lawful-add {e} {n} {es} zero l = let q : n ≡ 0 + n = omega arith in subst (λ k. Lawful e k es) q l
Lawful-add {e} {n} {es} (suc k) l =
    let q : suc (k + n) ≡ suc k + n = omega arith in
    subst (λ k. Lawful e k es) q (Lawful-suc (Lawful-add k l))

pub Lawful-le : {e : Env} (n m : ℕ) {es : List Effect} → n ≤ m → Lawful e n es → Lawful e m es
Lawful-le {e} n m {es} h l =
    let q : (m - n) + n ≡ m = omega (arith, h) in
    subst (λ k. Lawful e k es) q (Lawful-add (m - n) l)

-- The effects at the end of a step.
pub data Law (e : Env) (n : ℕ) : Bool × Orchestrator → Type 0 where
  law : {p : Bool × Orchestrator} → Lawful e n p.1.desk.effects → Law e n p

pub mark_paused-effects :
    (reason : String) (o : Orchestrator) → (mark_paused reason o).desk.effects ≡ o.desk.effects
unfolding mark_paused
mark_paused-effects reason o =
    if-holds {A = Orchestrator} (λ x. x.desk.effects ≡ o.desk.effects) o.interrupted _ _ (λ h. refl)
      (λ h. refl)

append_text-effects :
    (e : Env) (r : AgenticResponse) (o : Orchestrator)
    → (append_text e r o).desk.effects ≡ o.desk.effects
unfolding append_text
append_text-effects e r o =
    if-holds {A = Orchestrator} (λ x. x.desk.effects ≡ o.desk.effects) (assistant_text r == "") _ _
      (λ h. refl) (λ h. refl)

Law-of :
    {e : Env} {n : ℕ} (o : Orchestrator) (p : Bool × Orchestrator)
    → p.1.desk.effects ≡ o.desk.effects
    → Lawful e n o.desk.effects
    → Law e n p
Law-of {e} {n} o p q l = law (subst (λ es. Lawful e n es) (sym q) l)

module _ (e : Env) (n : ℕ) where
  paused-Law :
      (reason : String) (o : Orchestrator)
      → Lawful e n o.desk.effects
      → Law e n (true, mark_paused reason o)
  paused-Law reason o l = Law-of o _ (mark_paused-effects reason o) l

  take_text-Law :
      (r : AgenticResponse) (s : StopReason) (o : Orchestrator)
      → Lawful e n o.desk.effects
      → Law e n (take_text e r s o)
  unfolding take_text
  take_text-Law r end_turn o l =
      let o1 : Orchestrator = record o { desk = enter phase_done o.desk } in
      Law-of o1 _ (append_text-effects e r o1) l
  take_text-Law r max_tokens o l = Law-of o _ (append_text-effects e r o) l
  take_text-Law r tool_use o l = law l
  take_text-Law r stop_sequence o l = law l
  take_text-Law r (other_stop s) o l = law l

  close_round-Law :
      (cancelled : Bool) (o : Orchestrator)
      → Lawful e n o.desk.effects
      → Law e n (close_round cancelled o)
  close_round-Law true o l = paused-Law "cancelled" o l
  close_round-Law false o l =
      if-holds (Law e n) (o.desk.pending_question == "") _ _ (λ h. law l)
        (λ h. paused-Law "awaiting_user_info" o l)

  run_calls-Lawful :
      (cs : List ToolCallRequest) (d : Desk)
      → Lawful e n d.effects
      → Lawful e n (run_calls e cs d).1.1.effects
  unfolding run_calls
  run_calls-Lawful [] d l = l
  run_calls-Lawful (c ∷ cs) d l =
      let d1 = (execute_tool e c d).1 in
      let l1 : Lawful e n d1.effects = Lawful-Steps (execute_tool-Steps e c d) l in
      if-holds {A = List ConversationTurn × (Bool × Desk)} (λ p. Lawful e n p.1.1.effects)
        (e.is_cancelled d1.clock) _ _ (λ h. l1) (λ h. run_calls-Lawful cs (tick d1) l1)

  take_calls-Law :
      (r : AgenticResponse) (o : Orchestrator)
      → Lawful e n o.desk.effects
      → Law e n (take_calls e r o)
  unfolding take_calls
  take_calls-Law r o l =
      let p = run_calls e r.tool_calls o.desk in
      close_round-Law p.1.0
        (record o {
          desk = p.1.1;
          conversation = o.conversation ++ (assistant_turn e o.desk.clock r ∷ p.0);
        })
        (run_calls-Lawful r.tool_calls o.desk l)

  take_error-Law :
      (x : ProviderError) (o : Orchestrator)
      → Lawful e n o.desk.effects
      → Law e n (take_error e x o)
  unfolding take_error
  take_error-Law x o l =
      if-holds (Law e n) (x.is_invalid_request || x.is_auth) _ _ (λ h. law l)
        (λ h. if-holds (Law e n) (ltb o.iteration e.max_iterations) _ _ (λ k. law l) (λ k. law l))

  pub take_reply-Law :
      (r : Result ProviderError AgenticResponse) (o : Orchestrator)
      → Lawful e n o.desk.effects
      → Law e n (take_reply e r o)
  unfolding take_reply count_usage
  take_reply-Law (err x) o l =
      if-holds (Law e n) (e.is_cancelled o.desk.clock) _ _ (λ h. paused-Law "cancelled" _ l)
        (λ h. take_error-Law x (record o { desk = tick o.desk }) l)
  take_reply-Law (ok r) o l =
      if-holds (Law e n) (has_calls r.tool_calls) _ _
        (λ h. take_calls-Law r (count_usage r.usage o) l)
        (λ h. take_text-Law r r.stop_reason (count_usage r.usage o) l)
