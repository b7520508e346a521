-- ===== src/Tsv/Types.antt =====
-- internal/tsv/types.go: `parseType` over the closed list of types.
pub mod Simple
pub mod Pattern
use layup.Base.{
  ℕ, zero, suc, Bool, true, false, ◌||◌, not, List, [], ◌∷◌, Option, none, some, if◌then◌else◌, any,
  all, is_empty, length, Result, ok, err, ◌>>=◌,
}
use layup.Text.{
  Text, codes, text_eq, has_prefix, contains_any, has_suffix_byte, trim_suffix_byte, cut_byte,
  member,
}
use layup.Text.Split.{split}
use layup.Tsv.Schema.{
  TypeReason, bad_word, bad_pattern, bad_elem, not_listed, FieldType, Reason, bad_value,
}
use Simple.{simple}
use Pattern.{id_pattern, match_atoms}

-- The words of an enum; `seen` are those before.
unfoldable pub enum_words : List Text → List Text → Result TypeReason (List Text)
enum_words seen [] = ok seen
enum_words seen (w ∷ ws) =
    if is_empty w || contains_any (codes " \t()") w || member w seen
    then err (bad_word w)
    else enum_words (w ∷ seen) ws

-- The `switch` of `parseType` behind the two cuts; `parse` is the recursive call.
unfoldable pub parse_kind :
    (Text → Result TypeReason FieldType) → Text → Text → Text → Result TypeReason FieldType
parse_kind parse expr kind arg =
    if text_eq kind (codes "enum")
    then (do
      words ← enum_words [] (split b'|' arg)
      ok (record { expr = expr; valid = λ v. member v words }))
    else if text_eq kind (codes "id")
    then elim (id_pattern arg) [
      | err e ↦ err (bad_pattern e)
      | ok atoms ↦ ok (record { expr = expr; valid = match_atoms atoms })
    ]
    else if text_eq kind (codes "list")
    then elim (parse arg) [
      | err e ↦ err bad_elem
      | ok elem ↦
          if has_prefix (codes "list(") arg
          then err bad_elem
          else ok (record { expr = expr; valid = λ v. all elem.valid (split b' ' v) })
    ]
    else err not_listed

-- `strings.Cut` at "(" and `strings.CutSuffix` of ")".
unfoldable pub type_parts : Text → Option (Text × Text)
type_parts expr = elim (cut_byte b'(' expr) [
  | none ↦ none
  | some (kind, arg) ↦
      if has_suffix_byte b')' arg then some (kind, trim_suffix_byte b')' arg) else none
]

-- Each call is on a shorter text, so a fuel above the length of the text is enough.
unfoldable pub parse_type_from : ℕ → Text → Result TypeReason FieldType
unfolding enum_words parse_kind type_parts
parse_type_from zero expr = err not_listed
parse_type_from (suc fuel) expr = elim (simple expr) [
  | some valid ↦ ok (record { expr = expr; valid = valid })
  | none ↦ elim (type_parts expr) [
    | none ↦ err not_listed
    | some (kind, arg) ↦ parse_kind (parse_type_from fuel) expr kind arg
  ]
]

unfoldable pub parse_type : Text → Result TypeReason FieldType
unfolding parse_type_from
parse_type expr = parse_type_from (suc (length expr)) expr

-- `fieldType.check`.
unfoldable pub check_type : FieldType → Text → Result Reason (Unit {0})
check_type t value = if t.valid value then ok tt else err (bad_value value t.expr)
