-- ===== src/Handoff/Check.antt =====
-- internal/handoff/check.go: the check of a handoff against a table. An `int` of the source that is
-- below 0 stands as 0 here: the code only asks whether it is 1 or more.
use layup.Base.{
  ℕ, Bool, true, false, not, ◌&&◌, ◌||◌, List, [], ◌∷◌, Option, none, some, leb, ◌==◌,
  if◌then◌else◌, any, all, length,
}
use layup.Text.{Text, codes, text_eq, member}
use layup.Handoff.Table.{Row, kinds, find_row}

pub record Comment : Type 0 where
  pub id : ℕ
  pub seen : ℕ
  pub file : Text
  pub copy : Text
  pub forge : Text

pub record Artifact : Type 0 where
  pub kind : Text
  pub path : Text
  pub named : Text
  pub found : Text
  pub comment : Option Comment

-- The map `Items` is a function: a missing item is false.
pub record Handoff : Type 0 where
  pub from : Text
  pub to : Text
  pub code_written : Bool
  pub schema_ok : Bool
  pub artifacts : List Artifact
  pub items : Text → Bool

-- The detail of a verdict without its suffix.
pub data Detail : Type 0 where
  invalid_pair : Detail
  invalid : Text → Detail
  valid : Detail

-- `suffix` is the comment and the copy that the detail names, if any.
pub record Verdict : Type 0 where
  pub is_valid : Bool
  pub detail : Detail
  pub suffix : Option (ℕ × ℕ)

unfoldable pub comment_kind : Text → Bool
comment_kind k =
    text_eq k (codes "plan")
    || (text_eq k (codes "plan-review") || text_eq k (codes "review-record"))

abbrev is_hex : ℕ → Bool
is_hex c = (leb b'0' c && leb c b'9') || (leb b'a' c && leb c b'f')

unfoldable pub hex_hash : Text → ℕ → Bool
hex_hash h n = (length h == n) && all is_hex h

comment_ok : Comment → Bool
comment_ok c =
    leb 1 c.id
    && (leb 1 c.seen && (hex_hash c.file 64 && (text_eq c.file c.copy && text_eq c.copy c.forge)))

found_ok : Artifact → Bool
found_ok a =
    if text_eq a.kind (codes "commits")
    then hex_hash a.found 40 || hex_hash a.found 64
    else hex_hash a.found 64

unfoldable pub artifact_ok : Artifact → Bool
unfolding comment_ok found_ok
artifact_ok a =
    if comment_kind a.kind
    then elim a.comment [ none ↦ false | some c ↦ comment_ok c ]
    else elim a.comment [ some c ↦ false | none ↦ text_eq a.named a.found && found_ok a ]

abbrev pub is_kind : Text → Artifact → Bool
is_kind k a = text_eq a.kind k

unfoldable pub artifacts_ok : Row → Handoff → Bool
artifacts_ok row h =
    all (λ (a : Artifact). member a.kind kinds && artifact_ok a) h.artifacts
    && (not (member (codes "artifacts") row.items)
        || all (λ k. any (is_kind k) h.artifacts) row.artifacts)

-- The comment that the suffix names: the first artifact that is one, with numbers of 1 or more.
unfoldable pub suffix_of : List Artifact → Option (ℕ × ℕ)
suffix_of [] = none
suffix_of (a ∷ rest) =
    let later = suffix_of rest in
    elim a.comment [
      | none ↦ later
      | some c ↦
          if comment_kind a.kind && (leb 1 c.id && leb 1 c.seen) then some (c.id, c.seen) else later
    ]

-- Whether the loop of `Check` passes over an item, or the caller found it true.
abbrev pub item_holds : Handoff → Text → Bool
item_holds h item =
    text_eq item (codes "schema") || (text_eq item (codes "artifacts") || h.items item)

-- The last loop of `Check`.
unfoldable pub check_items : Handoff → Option (ℕ × ℕ) → List Text → Verdict
check_items h s [] = record { is_valid = true; detail = valid; suffix = s }
check_items h s (item ∷ items) =
    if item_holds h item
    then check_items h s items
    else record { is_valid = false; detail = invalid item; suffix = s }

abbrev pub schema_broken : Row → Handoff → Bool
schema_broken row h =
    (h.code_written && member (codes "schema") row.items) || (not h.code_written && not h.schema_ok)

-- `Check` behind its search for the row.
unfoldable pub check_against : Handoff → Option (ℕ × ℕ) → Row → Verdict
check_against h s row =
    if schema_broken row h
    then record { is_valid = false; detail = invalid (codes "schema"); suffix = s }
    else if not (artifacts_ok row h)
    then record { is_valid = false; detail = invalid (codes "artifacts"); suffix = s }
    else check_items h s row.items

unfoldable pub check : List Row → Handoff → Verdict
unfolding suffix_of
check table h =
    let s = suffix_of h.artifacts in
    elim (find_row h.from h.to table) [
      | none ↦ record { is_valid = false; detail = invalid_pair; suffix = s }
      | some row ↦ check_against h s row
    ]
