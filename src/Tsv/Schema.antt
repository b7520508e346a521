-- ===== src/Tsv/Schema.antt =====
-- internal/tsv/tsv.go: the schema of a record, its columns, and the errors of a record.
use layup.Base.{ℕ, Bool, List}
use layup.Text.{Text}

pub record Column : Type 0 where
  pub name : Text
  pub type_expr : Text
  pub key : Bool
  pub rule : Text

pub record Schema : Type 0 where
  pub name : Text
  pub location : Text
  pub no_header : Bool
  pub columns : List Column

-- Why `idPattern` refuses a pattern.
pub data PatternReason : Type 0 where
  pattern_empty : PatternReason
  pattern_byte : ℕ → PatternReason
  repeat_too_large : PatternReason

-- Why `parseType` refuses a type.
pub data TypeReason : Type 0 where
  bad_word : Text → TypeReason
  bad_pattern : PatternReason → TypeReason
  bad_elem : TypeReason
  not_listed : TypeReason

-- The reason of an `Error`, or of an error about the schema itself.
pub data Reason : Type 0 where
  missing_field : Reason
  extra_field : Reason
  invalid_utf8 : Reason
  empty_field : Reason
  mark_in_key : Reason
  bad_value : Text → Text → Reason
  repeated_key : ℕ → Reason
  header_missing : Reason
  header_other : Text → Reason
  header_extra : Reason
  byte_order_mark : Reason
  no_header_row : Reason
  carriage_return : Reason
  empty_line : Reason
  header_in_headerless : Reason
  no_line_feed : Reason
  starts_with_mark : Reason
  starts_with_header : Reason

-- `Error`: the line, the column ("" for the whole line) and the reason; and the plain errors of
-- `Schema.types`, which name a column by its place from 1.
pub data Error : Type 0 where
  at : ℕ → Text → Reason → Error
  no_column : Error
  bad_column : ℕ → Text → Error
  bad_type : Text → TypeReason → Error

pub record FieldType : Type 0 where
  pub expr : Text
  pub valid : Text → Bool
