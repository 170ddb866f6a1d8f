-- ===== src/Agentic/TurnModel.antt =====
-- The notes that tell a model which assistant turns are another's (agentic/turn_model.go), with
-- ConversationTurn.Attribution (provider/agentic_provider.go). A map from places to notes is a list
-- of pairs; `now i` is the time at which the note after place i is written.
pub mod Notes
pub mod Handover
use rysh_cli_shared.Prelude.{
  ℕ, suc, String, Bool, ◌&&◌, ◌||◌, not, Option, none, some, List, [], ◌∷◌, ◌==◌, ◌<>◌,
  if◌then◌else◌, eqb, trim_space,
}
use rysh_cli_shared.Provider.Turns.{ConversationTurn}
use rysh_cli_shared.Agentic.SessionMemory.{simple_turn}

pub record TurnAttribution : Type 0 where
  pub provider_name : String
  pub model : String

-- turnAttribution.empty
abbrev pub is_empty : TurnAttribution → Bool
is_empty a = a.provider_name == "" && a.model == ""

-- The comparison of two attributions.
abbrev pub same_producer : TurnAttribution → TurnAttribution → Bool
same_producer a b = a.provider_name == b.provider_name && a.model == b.model

abbrev pub attribution_of : ConversationTurn → TurnAttribution
attribution_of t = record { provider_name = t.provider_name; model = t.model }

-- turnAttribution.label, which is ConversationTurn.Attribution
unfoldable pub label : TurnAttribution → String
label a =
    if is_empty a
    then ""
    else if a.model == ""
    then a.provider_name
    else if a.provider_name == ""
    then a.model
    else a.provider_name <> (" (" <> (a.model <> ")"))

-- modelSwitchNote
abbrev pub model_switch_note : ℕ → TurnAttribution → TurnAttribution → ConversationTurn
model_switch_note time from to =
    simple_turn "user"
      ("[rysh] Model change. The assistant turns above this line were produced by "
        <> (label from
            <> (", a different model — they are not yours. From here you are "
                <> (label to
                    <> ". Do not claim, apologise for, or \"correct\" those earlier answers as your own; if asked about them, say which model wrote them."))))
      "system" "model-switch" ("model changed: " <> (label from <> (" → " <> label to))) time

-- The turn is an assistant turn that says who has produced it.
unfoldable pub is_attributed : ConversationTurn → Bool
is_attributed t = t.role == "assistant" && not (is_empty (attribution_of t))

-- The attributed assistant turns, with their places.
unfoldable pub attributed_runs : ℕ → List ConversationTurn → List (ℕ × TurnAttribution)
attributed_runs i [] = []
attributed_runs i (t ∷ ts) =
    let rest = attributed_runs (suc i) ts in
    if is_attributed t then (i, attribution_of t) ∷ rest else rest

-- Who produces what follows.
abbrev pub next_of : TurnAttribution → List (ℕ × TurnAttribution) → TurnAttribution
next_of active [] = active
next_of active ((i, a) ∷ rs) = a

-- The loop over the attributed turns.
unfoldable pub switch_notes :
    (ℕ → ℕ) → TurnAttribution → List (ℕ × TurnAttribution) → List (ℕ × ConversationTurn)
switch_notes now active [] = []
switch_notes now active ((i, a) ∷ rs) =
    let rest = switch_notes now active rs in
    let next = next_of active rs in
    if same_producer next a || is_empty next
    then rest
    else (i, model_switch_note (now i) a next) ∷ rest

-- modelSwitchBoundaries
abbrev pub model_switch_boundaries :
    (ℕ → ℕ) → List ConversationTurn → TurnAttribution → List (ℕ × ConversationTurn)
model_switch_boundaries now ts active = switch_notes now active (attributed_runs 0 ts)

-- boundaries[i]
unfoldable pub note_at : ℕ → List (ℕ × ConversationTurn) → Option ConversationTurn
note_at i [] = none
note_at i ((j, t) ∷ ns) = let rest = note_at i ns in if eqb j i then some t else rest

abbrev pub before_rest : Option ConversationTurn → List ConversationTurn → List ConversationTurn
before_rest none ts = ts
before_rest (some n) ts = n ∷ ts

-- The loop that writes the notes between the turns.
unfoldable pub with_notes :
    List (ℕ × ConversationTurn) → ℕ → List ConversationTurn → List ConversationTurn
with_notes ns i [] = []
with_notes ns i (t ∷ ts) = t ∷ before_rest (note_at i ns) (with_notes ns (suc i) ts)

abbrev pub write_notes : List (ℕ × ConversationTurn) → List ConversationTurn → List ConversationTurn
write_notes [] ts = ts
write_notes (n ∷ ns) ts = with_notes (n ∷ ns) 0 ts

-- insertModelSwitchNotes
unfoldable pub insert_model_switch_notes :
    (ℕ → ℕ) → List ConversationTurn → TurnAttribution → List ConversationTurn
insert_model_switch_notes now ts active = write_notes (model_switch_boundaries now ts active) ts

-- stampAttribution
abbrev pub stamp_attribution : TurnAttribution → ConversationTurn → ConversationTurn
stamp_attribution a t = record t { provider_name = a.provider_name; model = a.model }

-- modelIdentityBlock; `quoted` is fmt's %q.
abbrev pub model_identity_block : (String → String) → TurnAttribution → String
model_identity_block quoted a =
    "[rysh] Model identity: rysh is sending this conversation to the "
    <> (a.provider_name
        <> (" provider, model "
            <> (quoted a.model
                <> ". That is authoritative — if you are asked which model you are, answer with it instead of saying you cannot tell from inside the session. (This is the model rysh requests; a provider may serve a specific checkpoint under that name, so do not invent a version string beyond it.)")))

-- requestSystemPrompt
unfoldable pub request_system_prompt : (String → String) → TurnAttribution → String → String
request_system_prompt quoted a prompt =
    if a.provider_name == "" || a.model == ""
    then prompt
    else if trim_space prompt == ""
    then model_identity_block quoted a
    else prompt <> ("\n\n" <> model_identity_block quoted a)
