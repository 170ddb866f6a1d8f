-- ===== src/Agentic/OutputShape.antt =====
-- Caps on the output of tools (agentic/output_shape.go), at the default thresholds.
use rysh_cli_shared.Prelude.{
  ℕ, ◌+◌, ◌-◌, ◌*◌, ◌/◌, String, len, ◌&&◌, Option, none, some, List, [], ◌∷◌, Map, lookup, insert,
  ◌==◌, if◌then◌else◌, leb, length, keep_first, drop_first, split_at, join_texts, show_int, ◌<>◌,
}
use rysh_cli_shared.Tools.{ToolOutput}

abbrev pub max_tool_output_bytes : ℕ
max_tool_output_bytes = 50000

abbrev pub max_tool_output_lines : ℕ
max_tool_output_lines = 600

abbrev pub tool_output_head_lines : ℕ
tool_output_head_lines = 200

abbrev pub tool_output_tail_lines : ℕ
tool_output_tail_lines = 200

-- s[i:j], which counts bytes and may cut a character
abbrev pub Slice : Type 0
Slice = String → ℕ → ℕ → String

-- byteTruncate, for a positive maximum
unfoldable pub byte_truncate : Slice → String → ℕ → String
byte_truncate slice s max =
    let half = max / 2 in
    if leb (len s) max
    then s
    else slice s 0 half
      <> ("\n... ["
          <> (show_int (len s - 2 * half)
              <> (" bytes omitted] ...\n" <> slice s (len s - half) (len s))))

abbrev pub sum_lengths : List String → ℕ
sum_lengths [] = 0
sum_lengths (x ∷ xs) = len x + sum_lengths xs

-- sumByteLen
unfoldable pub sum_byte_len : List String → ℕ
sum_byte_len [] = 0
sum_byte_len (x ∷ xs) = sum_lengths (x ∷ xs) + length xs

-- The lines of a text, without the empty one after a newline at its end.
unfoldable pub drop_blank_last : List String → List String
drop_blank_last [] = []
drop_blank_last (l ∷ []) = if l == "" then [] else l ∷ []
drop_blank_last (l ∷ m ∷ ls) = l ∷ drop_blank_last (m ∷ ls)

abbrev pub text_lines : String → List String
text_lines s = drop_blank_last (split_at b'\n' s)

abbrev pub set_default : String → String → Option String → Map String → Map String
set_default k v none m = insert k v m
set_default k v (some w) m = m

-- The two entries that are always written, unless they are there.
abbrev pub annotate : ToolOutput → Map String
annotate out =
    let m =
      set_default "byte_count" (show_int (len out.content)) (lookup "byte_count" out.metadata)
        out.metadata in
    set_default "line_count" (show_int (length (text_lines out.content))) (lookup "line_count" m) m

-- The head and the tail of the lines, with the marker between.
abbrev pub head_tail : String → List String → String × (ℕ × ℕ)
head_tail content lines =
    let head = keep_first tool_output_head_lines lines in
    let tail = drop_first (length lines - tool_output_tail_lines) lines in
    let omitted_lines = length lines - tool_output_head_lines - tool_output_tail_lines in
    let omitted_bytes = len content - sum_byte_len head - sum_byte_len tail in
    (
      join_texts "\n" head
          <> ("\n... ["
              <> (show_int omitted_lines
                  <> (" lines / "
                      <> (show_int omitted_bytes
                          <> (" bytes omitted] ...\n" <> join_texts "\n" tail))))),
      (omitted_lines, omitted_bytes),
    )

-- shapeToolOutput
unfoldable pub shape_tool_output : Slice → ToolOutput → ToolOutput
shape_tool_output slice out =
    let lines = text_lines out.content in
    let m = annotate out in
    let (cut, (omitted_lines, omitted_bytes)) = head_tail out.content lines in
    if leb (len out.content) max_tool_output_bytes && leb (length lines) max_tool_output_lines
    then record out { metadata = m }
    else if leb (length lines) (tool_output_head_lines + tool_output_tail_lines)
    then record out {
      content = byte_truncate slice out.content max_tool_output_bytes;
      metadata = insert "truncation_mode" "bytes" (insert "truncated" "true" m);
    }
    else record out {
      content = cut;
      metadata = insert "omitted_bytes" (show_int omitted_bytes) (
          insert "omitted_lines" (show_int omitted_lines)
            (insert "truncation_mode" "head_tail" (insert "truncated" "true" m)));
    }
