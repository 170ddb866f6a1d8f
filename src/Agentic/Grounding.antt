-- ===== src/Agentic/Grounding.antt =====
-- The grounding protocol's tables and checks (agentic/grounding.go). The two tables are variables that
-- a host may extend; here they have their defaults.
use rysh_cli_shared.Prelude.{
  ℕ, String, Bool, false, Option, none, some, List, [], ◌∷◌, Result, ok, err, ◌==◌, if◌then◌else◌,
  contains, length, show_int, ◌<>◌,
}
use rysh_cli_shared.Provider.Turns.{ConversationTurn, ToolCallRequest}

abbrev pub grounding_off : String
grounding_off = "off"

abbrev pub grounding_prompt : String
grounding_prompt = "prompt"

abbrev pub grounding_enforced : String
grounding_enforced = "enforced"

abbrev pub grounding_tool_name : String
grounding_tool_name = "grounding_report"

-- DefaultGroundingMaxIterations
abbrev pub grounding_max_iterations : ℕ
grounding_max_iterations = 6

pub record GroundingReportParams : Type 0 where
  pub understood : Bool
  pub relevant_files : List String
  pub evidence : String
  pub missing_info : String
  pub question : String

abbrev pub empty_report : GroundingReportParams
empty_report = record {
  understood = false;
  relevant_files = [];
  evidence = "";
  missing_info = "";
  question = "";
}

-- json.Unmarshal into a GroundingReportParams, with the text of its error.
abbrev pub Decoder : Type 0
Decoder = String → Result String GroundingReportParams

abbrev pub report_error : Result String GroundingReportParams → Result String GroundingReportParams
report_error (ok p) = ok p
report_error (err e) = err ("invalid grounding_report params: " <> e)

-- ParseGroundingReport
unfoldable pub parse_grounding_report : Decoder → String → Result String GroundingReportParams
parse_grounding_report j input = if input == "" then ok empty_report else report_error (j input)

-- ValidGroundingMode
unfoldable pub valid_grounding_mode : String → Bool
valid_grounding_mode s = contains (grounding_off ∷ grounding_prompt ∷ grounding_enforced ∷ []) s

-- GroundingAllowedTools
abbrev pub grounding_allowed_tools : List String
grounding_allowed_tools =
    "glob" ∷ "grep" ∷ "symbol_search" ∷ "file_read" ∷ "bash" ∷ "list_tools" ∷ "env_read"
    ∷ "web_search" ∷ "web_fetch" ∷ "pane_inspect" ∷ "session_history" ∷ "agents_list" ∷ "ask_user"
    ∷ "context" ∷ "todo" ∷ grounding_tool_name ∷ []

-- groundingAllowed
unfoldable pub grounding_allowed : String → Bool
grounding_allowed tool = contains grounding_allowed_tools tool

-- GroundingReadOnlyBrowserActions
abbrev pub read_only_browser_actions : List String
read_only_browser_actions =
    "get_text" ∷ "get_html" ∷ "get_elements" ∷ "get_value" ∷ "get_tabs" ∷ "screenshot" ∷ "wait" ∷ []

abbrev pub observes : Option String → Bool
observes none = false
observes (some action) = contains read_only_browser_actions action

-- groundingAllowedCall, with the action that json.Unmarshal finds
unfoldable pub grounding_allowed_call : (String → Option String) → String → String → Bool
grounding_allowed_call action tool params =
    if tool == "browser_action" then observes (action params) else grounding_allowed tool

-- groundingBlockedMessage
unfoldable pub grounding_blocked_message : String → String
grounding_blocked_message tool =
    if tool == "browser_action"
    then "mutating browser actions are locked during the grounding phase. OBSERVE the page first (browser_action with get_text / get_elements / get_value / get_tabs / screenshot / wait), then call grounding_report{understood: true} to unlock click/type/navigate — or grounding_report{understood: false, question: ...} to ask the user and pause."
    else "tool \""
      <> (tool
          <> "\" is locked during the grounding phase. Explore with read-only tools (glob, grep, symbol_search, file_read, bash) until you understand the request, then call grounding_report{understood: true} to unlock execution — or grounding_report{understood: false, question: ...} to ask the user and pause.")

-- groundedDigest
unfoldable pub grounded_digest : List String → String
grounded_digest [] = "grounded — no codebase context needed"
grounded_digest (f ∷ []) = "grounded on " <> f
grounded_digest (f ∷ g ∷ fs) =
    "grounded on " <> (show_int (length (f ∷ g ∷ fs)) <> (" files (" <> (f <> ", …)")))

-- The inner loop of LastGroundingReport, from the last call to the first.
abbrev pub report_or :
    Result String GroundingReportParams
    → Option GroundingReportParams
    → Option GroundingReportParams
report_or (ok p) rest = some p
report_or (err e) rest = rest

unfoldable pub last_report_call : Decoder → List ToolCallRequest → Option GroundingReportParams
last_report_call j [] = none
last_report_call j (c ∷ cs) = later (last_report_call j cs)
  where
    later : Option GroundingReportParams → Option GroundingReportParams
    later (some p) = some p
    later none =
        if c.name == grounding_tool_name
        then report_or (parse_grounding_report j c.input) none
        else none

abbrev pub stamped :
    ConversationTurn → Option GroundingReportParams → Option (GroundingReportParams × ℕ)
stamped t none = none
stamped t (some p) = some (p, t.timestamp_ms)

abbrev pub or_earlier :
    Option (GroundingReportParams × ℕ)
    → Option (GroundingReportParams × ℕ)
    → Option (GroundingReportParams × ℕ)
or_earlier (some r) earlier = some r
or_earlier none earlier = earlier

-- LastGroundingReport, with the time of the turn
unfoldable pub last_grounding_report :
    Decoder → List ConversationTurn → Option (GroundingReportParams × ℕ)
last_grounding_report j [] = none
last_grounding_report j (t ∷ ts) =
    or_earlier (last_grounding_report j ts)
      (if t.role == "assistant" then stamped t (last_report_call j t.tool_calls) else none)
