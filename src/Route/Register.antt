-- ===== src/Route/Register.antt =====
-- internal/route/register.go: the rules of a row of the harness register.
use layup.Base.{
  ℕ, Bool, true, false, not, ◌&&◌, ◌||◌, List, [], ◌∷◌, Option, none, some, leb, ◌==◌,
  if◌then◌else◌, is_empty, all, Result, ok, err, ◌>>=◌, ◌>>◌,
}
use layup.Text.{Text, codes, text_eq, member, cut_prefix, cut_byte, has_prefix}
use layup.Text.Split.{split}
use layup.Text.Fields.{text_fields, cut_text, space_length}
use layup.Records.Fields.{RowError, missing}

abbrev pub harness_required : List Text
harness_required =
    codes "wall"
    ∷ codes "command"
    ∷ codes "prompt"
    ∷ codes "version"
    ∷ codes "rules"
    ∷ codes "usage"
    ∷ codes "billing"
    ∷ []

-- The variable `refused`.
unfoldable pub refused_names : List Text
refused_names =
    codes "PATH"
    ∷ codes "LANG"
    ∷ codes "HOME"
    ∷ codes "TMPDIR"
    ∷ codes "GIT_CONFIG_NOSYSTEM"
    ∷ codes "GH_TOKEN"
    ∷ codes "GITHUB_TOKEN"
    ∷ codes "GH_ENTERPRISE_TOKEN"
    ∷ codes "GITHUB_ENTERPRISE_TOKEN"
    ∷ codes "SSH_AUTH_SOCK"
    ∷ []

abbrev is_name_start : ℕ → Bool
is_name_start c = (leb b'A' c && leb c b'Z') || ((leb b'a' c && leb c b'z') || (c == b'_'))

-- `nameForm`.
unfoldable pub name_form : Text → Bool
name_form [] = false
name_form (c ∷ t) = is_name_start c && all (λ d. is_name_start d || (leb b'0' d && leb d b'9')) t

-- `strings.Contains(t, sub)`.
unfoldable pub contains_text : Text → Text → Bool
contains_text sub t = elim (cut_text sub t) [ none ↦ false | some _ ↦ true ]

unfoldable pub ends_in_space : Text → Bool
ends_in_space [] = false
ends_in_space (c ∷ t) =
    let rest = ends_in_space t in if is_empty (text_fields (c ∷ t)) then true else rest

-- `words`: `strings.TrimSpace` leaves the text as it is when it starts and ends with no white space.
unfoldable pub words : Text → Bool
words v = (space_length v == 0) && (not (ends_in_space v) && not (contains_text (codes "  ") v))

-- `filepath.IsAbs` on Unix.
unfoldable pub is_abs : Text → Bool
is_abs t = has_prefix (codes "/") t

pub data HarnessReason : Type 0 where
  never_empty wall_zero cap_mark one_space not_absolute credential_pair : HarnessReason
  bad_name bad_file bad_form bad_variable : HarnessReason
  taken_name : Text → HarnessReason

abbrev pub refuse_row : {A : Type 0} → Text → HarnessReason → Result (RowError HarnessReason) A
refuse_row c why = err (record { column = c; reason = why })

abbrev same : Bool → Bool → Bool
same a b = if a then b else not b

-- The switch on the command, the version and the credential.
unfoldable pub check_command : (Text → Text) → Result (RowError HarnessReason) (Unit {0})
check_command f =
    if not (
      same (contains_text (codes "{cap}") (f (codes "command"))) (not (is_empty (f (codes "cap")))))
    then refuse_row (codes "command") cap_mark
    else if not (words (f (codes "command")))
    then refuse_row (codes "command") one_space
    else if not (words (f (codes "version")))
    then refuse_row (codes "version") one_space
    else if not (is_empty (f (codes "credential"))) && not (is_abs (f (codes "credential")))
    then refuse_row (codes "credential") not_absolute
    else if not (same (is_empty (f (codes "credential"))) (is_empty (f (codes "credential_to"))))
    then refuse_row (codes "credential_to") credential_pair
    else ok tt

-- The variable of the credential, "" for none.
unfoldable pub credential_var : Text → Result (RowError HarnessReason) Text
credential_var to = if is_empty to then ok [] else elim (cut_prefix (codes "var:") to) [
  | some name ↦
      if not (name_form name) || member name refused_names
      then refuse_row (codes "credential_to") bad_name
      else ok name
  | none ↦ elim (cut_prefix (codes "file:") to) [
    | some path ↦
        if is_empty path || (is_abs path || member (codes "..") (split b'/' path))
        then refuse_row (codes "credential_to") bad_file
        else ok []
    | none ↦ refuse_row (codes "credential_to") bad_form
  ]
]

unfoldable pub check_policy : List Text → Result (RowError HarnessReason) (Unit {0})
check_policy [] = ok tt
check_policy (p ∷ ps) =
    let rest = check_policy ps in
    if not (is_abs p) then refuse_row (codes "policy") not_absolute else rest

-- The name of a fixed variable NAME=VALUE, if it has the form.
unfoldable pub variable_name : Text → Option Text
variable_name v = elim (cut_byte b'=' v) [
  | none ↦ none
  | some (name, _) ↦ if name_form name then some name else none
]

unfoldable pub check_vars : Text → List Text → Result (RowError HarnessReason) (Unit {0})
check_vars cred [] = ok tt
check_vars cred (v ∷ vs) =
    let rest = check_vars cred vs in
    elim (variable_name v) [
      | none ↦ refuse_row (codes "vars") bad_variable
      | some name ↦
          if member name refused_names || text_eq name cred
          then refuse_row (codes "vars") (taken_name name)
          else rest
    ]

-- `checkHarness`.
unfoldable pub check_harness : (Text → Text) → Result (RowError HarnessReason) (Unit {0})
check_harness f = elim (missing f harness_required) [
  | some c ↦ refuse_row c never_empty
  | none ↦
      if text_eq (f (codes "wall")) (codes "0") then refuse_row (codes "wall") wall_zero else (do
        check_command f
        cred ← credential_var (f (codes "credential_to"))
        check_policy (text_fields (f (codes "policy")))
        check_vars cred (text_fields (f (codes "vars"))))
]
