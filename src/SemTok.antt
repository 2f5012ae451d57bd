-- ===== src/SemTok.antt =====
-- src/simplecc/lsp/client.rs: semantic tokens, their deltas, their decoding and their cache.
pub mod Edits
pub mod Rebuild
pub mod Delta
pub mod Flat
pub mod Decode
pub mod Encode
pub mod Bounded
pub mod Store
pub mod Flow
pub mod Coherent
pub mod Tests
use simplecc.Base.{ℕ, String, List, Option}

-- `lsp_types::SemanticToken`.
pub record Token : Type 0 where
  pub delta_line : ℕ
  pub delta_start : ℕ
  pub length : ℕ
  pub token_type : ℕ
  pub modifiers_bitset : ℕ

-- `lsp_types::SemanticTokensEdit`: offsets into the flat array of five numbers a token.
pub record TokensEdit : Type 0 where
  pub start : ℕ
  pub delete_count : ℕ
  pub tokens : Option (List Token)

-- `types::SemanticTokenItem`.
pub record TokenItem : Type 0 where
  pub line : ℕ
  pub start : ℕ
  pub length : ℕ
  pub token_type : String
  pub modifiers : List String
