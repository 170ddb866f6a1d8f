-- ===== src/Tools.antt =====
-- The tools package: what a tool answers, and the registry of tools (tools/registry.go).
pub mod Registry
mod Tests
use rysh_cli_shared.Prelude.{ℕ, String, [], Map}

pub record ToolOutput : Type 0 where
  pub content : String
  pub error : String
  pub error_kind : String
  pub exit_code : ℕ
  pub metadata : Map String

-- A ToolOutput literal with these fields; the others are zero.
abbrev pub plain_output : String → String → ToolOutput
plain_output content error = record {
  content = content;
  error = error;
  error_kind = "";
  exit_code = 0;
  metadata = [];
}

-- ErrOutput
abbrev pub err_output : String → String → ToolOutput
err_output kind msg = record {
  content = "";
  error = msg;
  error_kind = kind;
  exit_code = 0;
  metadata = [];
}
