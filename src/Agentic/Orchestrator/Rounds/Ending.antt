-- ===== src/Agentic/Orchestrator/Rounds/Ending.antt =====
-- The loop of a run ends (agentic/orchestrator.go).
use rysh_cli_shared.Prelude.{
  ℕ, zero, suc, ◌-◌, ◌<◌, String, Bool, true, false, ◌&&◌, ◌||◌, some, ◌∷◌, ◌++◌, ◌≡◌, refl, subst,
  ◌∙◌, ◌==◌, Result, ok, err, Bool-cases, inl, inr, arith, if-holds, length, ltb, leb,
}
use rysh_cli_shared.Provider.Pairing.{has_calls}
use rysh_cli_shared.Agentic.Orchestrator.State.{
  Env, Orchestrator, AgenticResponse, ProviderError, StopReason, end_turn, tool_use, max_tokens,
  stop_sequence, other_stop, enter, tick, act, requested, phase_done,
}
use rysh_cli_shared.Agentic.Orchestrator.Compaction.{
  compaction_due, compact_conversation, safe_compaction_cut_index, keep_recent,
}
use rysh_cli_shared.Agentic.Orchestrator.Rounds.{
  request_conversation, run_calls, assistant_turn, assistant_text, mark_paused, append_text,
  take_text, close_round, take_calls, take_error, take_reply, call_provider, round, prepare,
  compacted, spend_grounding, count_usage, close_run, start, run_rounds, run_loop,
}

-- At the end of a step, the iteration is this one.
pub data At (n : ℕ) : Bool × Orchestrator → Type 0 where
  at_iteration : {p : Bool × Orchestrator} → p.1.iteration ≡ n → At n p

mark_paused-iteration :
    (reason : String) (o : Orchestrator) → (mark_paused reason o).iteration ≡ o.iteration
unfolding mark_paused
mark_paused-iteration reason o =
    if-holds {A = Orchestrator} (λ x. x.iteration ≡ o.iteration) o.interrupted _ _ (λ h. refl)
      (λ h. refl)

append_text-iteration :
    (e : Env) (r : AgenticResponse) (o : Orchestrator) → (append_text e r o).iteration ≡ o.iteration
unfolding append_text
append_text-iteration e r o =
    if-holds {A = Orchestrator} (λ x. x.iteration ≡ o.iteration) (assistant_text r == "") _ _
      (λ h. refl) (λ h. refl)

take_text-At :
    (e : Env) (r : AgenticResponse) (s : StopReason) (o : Orchestrator)
    → At o.iteration (take_text e r s o)
unfolding take_text
take_text-At e r end_turn o =
    at_iteration (append_text-iteration e r (record o { desk = enter phase_done o.desk }))
take_text-At e r max_tokens o = at_iteration (append_text-iteration e r o)
take_text-At e r tool_use o = at_iteration refl
take_text-At e r stop_sequence o = at_iteration refl
take_text-At e r (other_stop s) o = at_iteration refl

close_round-At : (cancelled : Bool) (o : Orchestrator) → At o.iteration (close_round cancelled o)
close_round-At true o = at_iteration (mark_paused-iteration "cancelled" o)
close_round-At false o =
    if-holds (At o.iteration) (o.desk.pending_question == "") _ _ (λ h. at_iteration refl)
      (λ h. at_iteration (mark_paused-iteration "awaiting_user_info" o))

take_calls-At :
    (e : Env) (r : AgenticResponse) (o : Orchestrator) → At o.iteration (take_calls e r o)
unfolding take_calls
take_calls-At e r o =
    let p = run_calls e r.tool_calls o.desk in
    close_round-At p.1.0 (record o {
      desk = p.1.1;
      conversation = o.conversation ++ (assistant_turn e o.desk.clock r ∷ p.0);
    })

take_error-At : (e : Env) (x : ProviderError) (o : Orchestrator) → At o.iteration (take_error e x o)
unfolding take_error
take_error-At e x o =
    if-holds (At o.iteration) (x.is_invalid_request || x.is_auth) _ _ (λ h. at_iteration refl)
      (λ h.
        if-holds (At o.iteration) (ltb o.iteration e.max_iterations) _ _ (λ k. at_iteration refl)
          (λ k. at_iteration refl))

take_reply-At :
    (e : Env) (r : Result ProviderError AgenticResponse) (o : Orchestrator)
    → At o.iteration (take_reply e r o)
unfolding take_reply count_usage
take_reply-At e (err x) o =
    if-holds (At o.iteration) (e.is_cancelled o.desk.clock) _ _
      (λ h. at_iteration (mark_paused-iteration "cancelled" _))
      (λ h. take_error-At e x (record o { desk = tick o.desk }))
take_reply-At e (ok r) o =
    if-holds (At o.iteration) (has_calls r.tool_calls) _ _
      (λ h. take_calls-At e r (count_usage r.usage o))
      (λ h. take_text-At e r r.stop_reason (count_usage r.usage o))

compact-iteration :
    (e : Env) (o : Orchestrator) → (compact_conversation e o).iteration ≡ o.iteration
unfolding compact_conversation
compact-iteration e o =
    if-holds {A = Orchestrator} (λ x. x.iteration ≡ o.iteration)
      (leb (safe_compaction_cut_index (length o.conversation - keep_recent) o.conversation) 0) _ _
      (λ h. refl) (λ h. refl)

spend_grounding-iteration : (o : Orchestrator) → (spend_grounding o).iteration ≡ o.iteration
unfolding spend_grounding
spend_grounding-iteration o =
    if-holds {A = Orchestrator} (λ x. x.iteration ≡ o.iteration) o.desk.grounding _ _ (λ h. refl)
      (λ h. refl)

compacted-iteration : (e : Env) (o : Orchestrator) → (compacted e o).iteration ≡ o.iteration
compacted-iteration e o =
    if-holds {A = Orchestrator} (λ x. x.iteration ≡ o.iteration)
      (compaction_due e.context_token_limit o.last_input_tokens (length o.conversation)) _ _
      (λ h. compact-iteration e o) (λ h. refl)

prepare-iteration : (e : Env) (o : Orchestrator) → (prepare e o).iteration ≡ suc o.iteration
unfolding prepare
prepare-iteration e o =
    let o1 : Orchestrator = record o { iteration = suc o.iteration } in
    compacted-iteration e (spend_grounding o1) ∙ spend_grounding-iteration o1

-- What a round does: it ends the run, or it has used one more iteration, and there was one left.
pub data Progress (e : Env) (n : ℕ) : Bool × Orchestrator → Type 0 where
  ended : {o : Orchestrator} → Progress e n (true, o)
  advanced :
      {p : Bool × Orchestrator} → p.1.iteration ≡ suc n → n < e.max_iterations → Progress e n p

At-Progress :
    (e : Env) (n : ℕ) (p : Bool × Orchestrator)
    → n < e.max_iterations
    → At (suc n) p
    → Progress e n p
At-Progress e n p l (at_iteration q) = advanced q l

call_provider-Progress :
    (e : Env) (n : ℕ) (o : Orchestrator)
    → n < e.max_iterations
    → o.iteration ≡ suc n
    → Progress e n (call_provider e o)
unfolding call_provider
call_provider-Progress e n o l q =
    let o1 : Orchestrator = record o {
      desk = act (requested (request_conversation e o.desk.clock o.conversation)) o.desk;
    } in
    At-Progress e n _ l (
      subst (λ k. At k (take_reply e (e.reply o.desk.clock) o1)) q
        (take_reply-At e (e.reply o.desk.clock) o1))

pub round-Progress : (e : Env) (o : Orchestrator) → Progress e o.iteration (round e o)
unfolding round
round-Progress e o =
    let P = Progress e o.iteration in
    if-holds P (e.is_cancelled o.desk.clock) _ _ (λ h. ended)
      (λ h.
        if-holds P (ltb 0 e.max_duration && leb e.max_duration (e.elapsed o.desk.clock)) _ _
          (λ h. ended)
          (λ h.
            if-holds P (ltb 0 e.max_context_tokens && leb e.max_context_tokens o.tokens_used) _ _
              (λ h. ended)
              (λ h.
                if-holds P (leb e.max_iterations o.iteration) _ _ (λ h. ended)
                  (λ h.
                    call_provider-Progress e o.iteration _ (ground (arith, h))
                      (prepare-iteration e _)))))

pub Progress-step :
    (e : Env) (n : ℕ) (p : Bool × Orchestrator)
    → Progress e n p
    → p.0 ≡ false
    → (p.1.iteration ≡ suc n) × (n < e.max_iterations)
Progress-step e n _ ended f = absurd (ground (arith, f))
Progress-step e n p (advanced q l) f = (q, l)

stopped_rounds :
    (e : Env) (fuel : ℕ) (o : Orchestrator)
    → (round e o).0 ≡ true
    → run_rounds e (suc fuel) o ≡ some (close_run e (round e o).1)
unfolding run_rounds
stopped_rounds e fuel o b = ground (arith, b)

next_rounds :
    (e : Env) (fuel : ℕ) (o : Orchestrator) {o' : Orchestrator}
    → (round e o).0 ≡ false
    → run_rounds e fuel (round e o).1 ≡ some o'
    → run_rounds e (suc fuel) o ≡ some o'
unfolding run_rounds
next_rounds e fuel o b h = ground (arith, b, h)

-- What is shown of every round holds at the end of a run, and the run has an end: with an invariant
-- that each round keeps, and a property that the round that ends the run gives.
pub run_rounds-rule :
    (e : Env) (I Q : Orchestrator → Type 0)
    → ((o : Orchestrator) → I o → (round e o).0 ≡ false → I (round e o).1)
    → ((o : Orchestrator) → I o → (round e o).0 ≡ true → Q (close_run e (round e o).1))
    → (fuel : ℕ) (o : Orchestrator) → e.max_iterations - o.iteration < fuel
    → I o
    → (o' : Orchestrator) × (run_rounds e fuel o ≡ some o') × Q o'
run_rounds-rule e I Q step end zero o l i = absurd (ground (arith, l))
run_rounds-rule e I Q step end (suc fuel) o l i = elim (Bool-cases (round e o).0) [
  | inl b ↦ (close_run e (round e o).1, stopped_rounds e fuel o b, end o i b)
  | inr b ↦
      let s = Progress-step e o.iteration (round e o) (round-Progress e o) b in
      let rest =
        run_rounds-rule e I Q step end fuel (round e o).1 (omega (arith, l, s.0, s.1))
          (step o i b) in
      (rest.0, next_rounds e fuel o b rest.1, rest.2)
]

-- A run ends, whatever the provider, the tools and the user do: the loop takes at most one round more
-- than it has iterations.
pub run_loop-ends : (e : Env) (o : Orchestrator) → (o' : Orchestrator) × (run_loop e o ≡ some o')
unfolding run_loop
run_loop-ends e o =
    let r =
      run_rounds-rule e (λ x. Unit) (λ x. Unit) (λ x i b. tt) (λ x i b. tt) (suc e.max_iterations)
        (start e o) (omega arith) tt in
    (r.0, r.1)
