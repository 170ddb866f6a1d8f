-- ===== src/Provider/NeutralTurns/Emissions.antt =====
-- What the loop over the blocks of a neutral turn writes to the first turn (provider/turns.go).
use rysh_cli_shared.Prelude.{
  Bool, true, false, ◌&&◌, ◌||◌, not, Option, none, some, List, [], ◌∷◌, ◌++◌, ◌≡◌, refl, ap, sym,
  ◌∙◌, ◌==◌, if◌then◌else◌, map, Bool-cases, inl, inr, and-eq_true, str_eq→eq, append-nil,
  append_assoc, arith,
}
use rysh_cli_shared.Provider.Turns.{
  ConversationTurn, ContentBlock, ImageSource, ThinkingBlock, ToolCallRequest,
}
use rysh_cli_shared.Provider.NeutralTurns.{
  Block, Turn, Emitting, block_from_content_block, thinking_of, call_of, emit, emit_all, blank_turn,
}

abbrev pub is_none : Option ImageSource → Bool
is_none none = true
is_none (some a) = false

abbrev pub has_no_source : ContentBlock → Bool
has_no_source b = is_none b.source

-- The block is a text without a source or an image without a text.
abbrev pub is_plain : ContentBlock → Bool
is_plain b = if b.kind == "image" then b.text == "" else b.kind == "text" && has_no_source b

unfoldable pub all_plain : List ContentBlock → Bool
all_plain [] = true
all_plain (b ∷ bs) = is_plain b && all_plain bs

abbrev pub starts_with_text : List ContentBlock → Bool
starts_with_text [] = false
starts_with_text (b ∷ bs) = not (b.kind == "image")

abbrev pub no_requests : List ToolCallRequest → Bool
no_requests [] = true
no_requests (c ∷ cs) = false

-- The state of the loop while all goes to the first turn.
abbrev pub at_first : ConversationTurn → Bool → Bool → Emitting
at_first c f p = record { emitted = []; carrier = c; first_has_result = f; promotable = p }

emit_all-append :
    (t : Turn) (xs ys : List Block) (x : Emitting)
    → emit_all t (xs ++ ys) x ≡ emit_all t ys (emit_all t xs x)
unfolding emit_all
emit_all-append t [] ys x = refl
emit_all-append t (b ∷ xs) ys x = emit_all-append t xs ys (emit t b x)

and_false : (b : Bool) → (b && false) ≡ false
and_false b = ground arith

source_none : (s : Option ImageSource) → is_none s ≡ true → none ≡ s
source_none none h = refl
source_none (some a) h = absurd (ground (arith, h))

image_back :
    (b : ContentBlock)
    → b.kind ≡ "image"
    → b.text ≡ ""
    → record { kind = "image"; text = ""; source = b.source } ≡ b
image_back b k q =
    ap (λ x. record { kind = x; text = ""; source = b.source }) (sym k)
    ∙ ap (λ x. record { kind = b.kind; text = x; source = b.source }) (sym q)

text_back :
    (b : ContentBlock)
    → b.kind ≡ "text"
    → none ≡ b.source
    → record { kind = "text"; text = b.text; source = none } ≡ b
text_back b k q =
    ap (λ x. record { kind = x; text = b.text; source = none }) (sym k)
    ∙ ap (λ x. record { kind = b.kind; text = b.text; source = x }) q

abbrev pub no_blocks : List ContentBlock → Bool
no_blocks [] = true
no_blocks (b ∷ bs) = false

module _ (t : Turn) where
  emit_all-thinking :
      (bs : List ThinkingBlock) (c : ConversationTurn) (f p : Bool)
      → emit_all t (map thinking_of bs) (at_first c f p)
        ≡ at_first (record c { thinking = c.thinking ++ bs }) f p
  unfolding emit_all emit
  emit_all-thinking [] c f p =
      ap (λ bs. at_first (record c { thinking = bs }) f p) (sym (append-nil c.thinking))
  emit_all-thinking (b ∷ bs) c f p =
      emit_all-thinking bs (record c { thinking = c.thinking ++ b ∷ [] }) f p
      ∙ ap (λ bs. at_first (record c { thinking = bs }) f p) (append_assoc c.thinking (b ∷ []) bs)

  emit_all-calls :
      (cs : List ToolCallRequest) (c : ConversationTurn) (f p : Bool)
      → emit_all t (map call_of cs) (at_first c f p)
        ≡ at_first (record c { tool_calls = c.tool_calls ++ cs }) f (no_requests cs && p)
  unfolding emit_all emit
  emit_all-calls [] c f p =
      ap (λ cs. at_first (record c { tool_calls = cs }) f p) (sym (append-nil c.tool_calls))
  emit_all-calls (d ∷ cs) c f p =
      emit_all-calls cs (record c { tool_calls = c.tool_calls ++ d ∷ [] }) f false
      ∙ ap (λ ds. at_first (record c { tool_calls = ds }) f (no_requests cs && false))
          (append_assoc c.tool_calls (d ∷ []) cs)
      ∙ ap (λ q. at_first (record c { tool_calls = c.tool_calls ++ d ∷ cs }) f q)
          (and_false (no_requests cs))

  emit-block :
      (b : ContentBlock) (c : ConversationTurn) (f p : Bool)
      → is_plain b ≡ true
      → ((t.role == "tool") || not p || not (starts_with_text (b ∷ []))) ≡ true
      → emit t (block_from_content_block b) (at_first c f p)
        ≡ at_first (record c { content_blocks = c.content_blocks ++ b ∷ [] }) f false
  unfolding emit
  emit-block b c f p h a =
      let P : ContentBlock → Emitting =
        λ x. at_first (record c { content_blocks = c.content_blocks ++ x ∷ [] }) f false in
      elim (Bool-cases (b.kind == "image")) [
        | inl k ↦
            let q : (b.text == "") ≡ true = ground (arith, h, k) in
            rw k (ap P (image_back b (str_eq→eq b.kind "image" k) (str_eq→eq b.text "" q)))
        | inr k ↦
            let w : (not (t.role == "tool") && p) ≡ false = ground (arith, a, k) in
            let q : ((b.kind == "text") && has_no_source b) ≡ true = ground (arith, h, k) in
            rw (k, w)
              (ap P (
                text_back b (str_eq→eq b.kind "text" (and-eq_true q).0)
                  (source_none b.source (and-eq_true q).1)))
      ]

  emit_all-blocks :
      (bs : List ContentBlock) (c : ConversationTurn) (f p : Bool)
      → all_plain bs ≡ true
      → ((t.role == "tool") || not p || not (starts_with_text bs)) ≡ true
      → emit_all t (map block_from_content_block bs) (at_first c f p)
        ≡ at_first (record c { content_blocks = c.content_blocks ++ bs }) f (no_blocks bs && p)
  unfolding emit_all all_plain
  emit_all-blocks [] c f p h a =
      ap (λ bs. at_first (record c { content_blocks = bs }) f p) (sym (append-nil c.content_blocks))
  emit_all-blocks (b ∷ bs) c f p h a =
      ap (emit_all t (map block_from_content_block bs)) (emit-block b c f p (and-eq_true h).0 a)
      ∙ emit_all-blocks bs (record c { content_blocks = c.content_blocks ++ b ∷ [] }) f false
          (and-eq_true h).1 (ground arith)
      ∙ ap (λ ds. at_first (record c { content_blocks = ds }) f (no_blocks bs && false))
          (append_assoc c.content_blocks (b ∷ []) bs)
      ∙ ap (λ q. at_first (record c { content_blocks = c.content_blocks ++ b ∷ bs }) f q)
          (and_false (no_blocks bs))

  emit_all-parts :
      (ns bs cs ds : List Block) (x : Emitting)
      → emit_all t (ns ++ (bs ++ (cs ++ ds))) x
        ≡ emit_all t ds (emit_all t cs (emit_all t bs (emit_all t ns x)))
  emit_all-parts ns bs cs ds x =
      emit_all-append t ns (bs ++ (cs ++ ds)) x
      ∙ emit_all-append t bs (cs ++ ds) (emit_all t ns x)
      ∙ emit_all-append t cs ds (emit_all t bs (emit_all t ns x))

  -- The blocks of a turn whose content has given a first turn.
  pub emit_all-whole :
      (ct c : ConversationTurn) (f p : Bool) (bs : List Block)
      → all_plain ct.content_blocks ≡ true
      → ((t.role == "tool")
          || not (no_requests ct.tool_calls && p)
          || not (starts_with_text ct.content_blocks))
        ≡ true
      → emit_all t bs
          (at_first (record (blank_turn t t.role) { thinking = ct.thinking }) false true)
        ≡ at_first c f p
      → emit_all t
          (map thinking_of ct.thinking
            ++ (bs
                ++ (map call_of ct.tool_calls ++ map block_from_content_block ct.content_blocks)))
          (at_first (blank_turn t t.role) false true)
        ≡ at_first
            (record c {
              tool_calls = c.tool_calls ++ ct.tool_calls;
              content_blocks = c.content_blocks ++ ct.content_blocks;
            })
            f
            (no_blocks ct.content_blocks && (no_requests ct.tool_calls && p))
  emit_all-whole ct c f p bs h a q =
      let calls = map call_of ct.tool_calls in
      let blocks = map block_from_content_block ct.content_blocks in
      emit_all-parts (map thinking_of ct.thinking) bs calls blocks _
      ∙ ap (λ x. emit_all t blocks (emit_all t calls (emit_all t bs x)))
          (emit_all-thinking ct.thinking (blank_turn t t.role) false true)
      ∙ ap (λ x. emit_all t blocks (emit_all t calls x)) q
      ∙ ap (emit_all t blocks) (emit_all-calls ct.tool_calls c f p)
      ∙ emit_all-blocks ct.content_blocks (record c { tool_calls = c.tool_calls ++ ct.tool_calls })
          f (no_requests ct.tool_calls && p) h a
