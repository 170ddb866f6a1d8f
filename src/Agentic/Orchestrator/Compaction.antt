-- ===== src/Agentic/Orchestrator/Compaction.antt =====
-- maybeCompact and compactConversation (agentic/orchestrator.go).
pub mod Window
use rysh_cli_shared.Prelude.{
  ℕ, zero, suc, ◌+◌, ◌-◌, ◌*◌, ◌/◌, String, len, Bool, true, false, ◌&&◌, ◌||◌, not, Option, none,
  some, List, [], ◌∷◌, ◌++◌, if◌then◌else◌, ◌==◌, ◌<>◌, length, leb, ltb, drop_first, keep_first,
  show_int, join_texts, trim_space, contains, strip_prefix,
}
use rysh_cli_shared.Provider.Turns.{ConversationTurn, ToolCallRequest}
use rysh_cli_shared.Agentic.SessionMemory.{simple_turn}
use rysh_cli_shared.Agentic.Orchestrator.State.{
  Env, Desk, Orchestrator, compacting, summarized, act, enter,
}

abbrev pub summary_header : String
summary_header = "[Summary of earlier conversation, compacted to save context]"

abbrev pub task_header : String
task_header = "[Original task — kept verbatim through compaction]"

abbrev pub has_prefix_text : String → String → Bool
has_prefix_text p s = is_some (strip_prefix p s)
  where
    is_some : List String → Bool
    is_some [] = false
    is_some (x ∷ xs) = true

abbrev pub prepend_char : Option String → String → Option String
prepend_char none c = none
prepend_char (some s) c = some (c <> s)

-- s[:strings.Index(s, h)], where h occurs in s
unfoldable pub before_text : String → String → Option String
before_text h String.[] = none
before_text h (String.◌∷◌ c s) =
    let rest = prepend_char (before_text h s) (String.◌∷◌ c "") in
    if has_prefix_text h (String.◌∷◌ c s) then some "" else rest

-- What a summary turn has pinned.
abbrev pub carried : String → String → Option String → String
carried block content none = block
carried block content (some before) =
    if not (before == "") && has_prefix_text task_header content
    then trim_space before <> ("\n\n" <> block)
    else block

-- pinnedTaskMaxChars, with the text that marks the cut
abbrev pub pinned_task : Env → String → String
pinned_task e task =
    if ltb 4000 (len task) then e.slice task 0 4000 <> "\n[...original task truncated...]" else task

-- compactionSummaryContent
unfoldable pub compaction_summary_content : Env → ConversationTurn → String → String
compaction_summary_content e head summary =
    let block = summary_header <> ("\n\n" <> summary) in
    if head.origin == "compaction"
    then carried block head.content (before_text summary_header head.content)
    else if not (head.role == "user") || trim_space head.content == ""
    then block
    else task_header <> ("\n\n" <> (pinned_task e head.content <> ("\n\n" <> block)))

-- The counts of mechanicalDigest.
abbrev pub count_user : List ConversationTurn → ℕ
count_user [] = 0
count_user (t ∷ ts) = (if t.role == "user" then 1 else 0) + count_user ts

abbrev pub count_calls : List ConversationTurn → ℕ
count_calls [] = 0
count_calls (t ∷ ts) = length t.tool_calls + count_calls ts

-- The names of the tools that were used, each once.
abbrev pub add_names : List ToolCallRequest → List String → List String
add_names [] names = names
add_names (c ∷ cs) names =
    add_names cs (if contains names c.name then names else names ++ c.name ∷ [])

abbrev pub used_names : List ConversationTurn → List String → List String
used_names [] names = names
used_names (t ∷ ts) names = used_names ts (add_names t.tool_calls names)

-- mechanicalDigest
unfoldable pub mechanical_digest : List ConversationTurn → String
mechanical_digest ts =
    "Earlier conversation: "
    <> (show_int (count_user ts)
        <> (" user message(s), "
            <> (show_int (count_calls ts)
                <> (" tool call(s) using: " <> (join_texts ", " (used_names ts []) <> ".")))))

-- summarizeTurns, on what the provider completes where it does
unfoldable pub summarize_turns : Option String → List ConversationTurn → String
summarize_turns none ts = mechanical_digest ts
summarize_turns (some s) ts = if trim_space s == "" then mechanical_digest ts else trim_space s

-- The loop of safeCompactionCutIndex, on the turns from the cut on.
unfoldable pub skip_results : ℕ → List ConversationTurn → ℕ
skip_results cut [] = 0
skip_results cut (t ∷ ts) =
    let next = skip_results (suc cut) ts in if t.role == "tool" then next else cut

-- safeCompactionCutIndex
unfoldable pub safe_compaction_cut_index : ℕ → List ConversationTurn → ℕ
safe_compaction_cut_index desired ts =
    if leb desired 0 then 0 else skip_results desired (drop_first desired ts)

abbrev pub keep_recent : ℕ
keep_recent = 12

abbrev pub summary_turn :
    Env → Desk → ℕ → ConversationTurn → List ConversationTurn → ConversationTurn
summary_turn e d cut head ts =
    simple_turn "user"
      (compaction_summary_content e head (summarize_turns (e.complete d.clock) (keep_first cut ts)))
      "system" "compaction" "compacted earlier conversation" (e.now d.clock)

-- The new conversation.
abbrev pub compact_at : Env → Desk → ℕ → List ConversationTurn → List ConversationTurn
compact_at e d cut [] = []
compact_at e d cut (t ∷ ts) = summary_turn e d cut t (t ∷ ts) ∷ drop_first cut (t ∷ ts)

-- compactConversation, with the request for the summary that summarizeTurns makes
unfoldable pub compact_conversation : Env → Orchestrator → Orchestrator
compact_conversation e o =
    let cut = safe_compaction_cut_index (length o.conversation - keep_recent) o.conversation in
    let d = o.desk in
    if leb cut 0 then o else record o {
      desk = enter compacting (act (summarized (keep_first cut o.conversation)) d);
      conversation = compact_at e d cut o.conversation;
      last_input_tokens = 0;
    }

-- The tests of maybeCompact; int(float64(limit) * 0.75) is exact below 2 ^ 53.
unfoldable pub compaction_due : ℕ → ℕ → ℕ → Bool
compaction_due limit last turns =
    ltb 0 limit && ltb 0 last && leb ((limit * 3) / 4) last && ltb (keep_recent + 1) turns
