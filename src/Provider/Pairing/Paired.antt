-- ===== src/Provider/Pairing/Paired.antt =====
-- The rule of the Messages API that the comments of provider/toolpairing.go state: which
-- transcripts a request may carry. It is written without the two functions.
use rysh_cli_shared.Prelude.{
  String, Bool, true, false, ◌&&◌, not, List, [], ◌∷◌, ◌≡◌, if◌then◌else◌, contains,
}
use rysh_cli_shared.Provider.Turns.{ConversationTurn, ToolCallRequest}
use rysh_cli_shared.Provider.Pairing.{Scan, outside, answering, calls_tools, is_tool, wanted}

-- Every call has a result among the ids.
abbrev pub AllAnswered : List String → ConversationTurn → Type 0
AllAnswered ids t = (id : String) → wanted t.tool_calls id ≡ true → contains ids id ≡ true

-- `once` asks for at most one result for each id.
pub data Paired (once : Bool) : Scan → List ConversationTurn → Type 0 where
  finished : Paired once outside []
  plain :
      {t : ConversationTurn} {ts : List ConversationTurn}
      → calls_tools t ≡ false
      → is_tool t ≡ false
      → Paired once outside ts
      → Paired once outside (t ∷ ts)
  calling :
      {t : ConversationTurn} {ts : List ConversationTurn}
      → calls_tools t ≡ true
      → Paired once (answering t []) ts
      → Paired once outside (t ∷ ts)
  result :
      {o t : ConversationTurn} {ids : List String} {ts : List ConversationTurn}
      → is_tool t ≡ true
      → wanted o.tool_calls t.tool_call_id ≡ true
      → (once && contains ids t.tool_call_id) ≡ false
      → Paired once (answering o (t.tool_call_id ∷ ids)) ts
      → Paired once (answering o ids) (t ∷ ts)
  answered :
      {o : ConversationTurn} {ids : List String} {ts : List ConversationTurn}
      → AllAnswered ids o
      → Paired once outside ts
      → Paired once (answering o ids) ts

-- No two of the calls have one id.
unfoldable pub distinct : List ToolCallRequest → Bool
distinct [] = true
distinct (c ∷ cs) = not (wanted cs c.id) && distinct cs

-- The ids of each assistant turn's calls are distinct.
unfoldable pub distinct_calls : List ConversationTurn → Bool
distinct_calls [] = true
distinct_calls (t ∷ ts) = distinct t.tool_calls && distinct_calls ts

-- The turns that are not results.
unfoldable pub conversation : List ConversationTurn → List ConversationTurn
conversation [] = []
conversation (t ∷ ts) = let rest = conversation ts in if is_tool t then rest else t ∷ rest
