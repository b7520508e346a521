-- ===== src/Gate/Manifest.antt =====
-- internal/gate/manifest.go and result.go: the manifest of the gates, and the result of a kind.
use layup.Base.{
  ℕ, suc, ◌+◌, Bool, true, false, not, ◌&&◌, List, [], ◌∷◌, ◌++◌, Option, none, some, leb, ◌==◌,
  if◌then◌else◌, is_empty, any, Result, ok, err,
}
use layup.Text.{Text, codes, before_byte}
use layup.Text.Fields.{text_fields}
use layup.Text.Numbers.{decimal_text}
use layup.Tsv.Schema.{Schema, Column, Error}
use layup.Tsv.Codec.{read}
use layup.Gate.Scope.{Pattern, PatternError, parse_pattern, matches}

abbrev gate_column : Text → Text → Bool → Column
gate_column name type_expr key = record { name = name; type_expr = type_expr; key = key; rule = [] }

abbrev pub manifest_schema : Schema
manifest_schema = record {
  name = codes "gate-manifest";
  location = codes "target:docs/gates.tsv";
  no_header = false;
  columns =
      gate_column (codes "kind") (codes "id(<word>)") true
      ∷ gate_column (codes "state") (codes "enum(active|pending)") false
      ∷ gate_column (codes "tool") (codes "text") false
      ∷ gate_column (codes "command") (codes "text") false
      ∷ gate_column (codes "scope") (codes "list(text)") false
      ∷ gate_column (codes "config") (codes "list(path)") false
      ∷ [];
}

pub record Kind : Type 0 where
  pub name : Text
  pub state : Text
  pub tool : Text
  pub command : Text
  pub scope : List Pattern
  pub config : List Text

-- The first path that a pattern of the scope matches: `Kind.inScope`.
unfoldable pub in_scope : List Pattern → List Text → Option Text
in_scope scope [] = none
in_scope scope (p ∷ paths) =
    let rest = in_scope scope paths in
    if any (λ (s : Pattern). matches s p) scope then some p else rest

pub data ManifestError : Type 0 where
  codec : Error → ManifestError
  no_kind : ManifestError
  bad_scope : ℕ → PatternError → ManifestError
  no_scope : ℕ → Text → ManifestError
  in_git : ℕ → Text → ManifestError
  short_row : ManifestError

-- The scope patterns of a row, up to the first that is refused.
unfoldable pub parse_scope : ℕ → List Text → Result ManifestError (List Pattern)
parse_scope line [] = ok []
parse_scope line (s ∷ ss) =
    let rest = parse_scope line ss in
    elim (parse_pattern s) [
      | err e ↦ err (bad_scope line e)
      | ok p ↦ elim rest [ err e ↦ err e | ok ps ↦ ok (p ∷ ps) ]
    ]

abbrev lower : ℕ → ℕ
lower c = if leb b'A' c && leb c b'Z' then c + 32 else c

-- `strings.EqualFold` with an ASCII text in lower case that has no k and no s, which other letters fold to.
unfoldable pub equal_fold : Text → Text → Bool
equal_fold [] [] = true
equal_fold (a ∷ s) (b ∷ t) = (lower a == b) && equal_fold s t
equal_fold _ _ = false

-- The first config path in .git, if any.
unfoldable pub config_in_git : List Text → Option Text
config_in_git [] = none
config_in_git (c ∷ cs) =
    let rest = config_in_git cs in
    if equal_fold (before_byte b'/' c) (codes ".git") then some c else rest

-- A round of the loop of `ReadManifest`; a row that the codec read has six values.
unfoldable pub read_kind : ℕ → List Text → Result ManifestError Kind
read_kind line (name ∷ state ∷ tool ∷ command ∷ scope ∷ config ∷ []) =
    elim (parse_scope line (text_fields scope)) [
      | err e ↦ err e
      | ok ps ↦
          if is_empty ps
          then err (no_scope line name)
          else elim (config_in_git (text_fields config)) [
            | some c ↦ err (in_git line c)
            | none ↦ ok (record {
              name = name;
              state = state;
              tool = tool;
              command = command;
              scope = ps;
              config = text_fields config;
            })
          ]
    ]
read_kind line _ = err short_row

unfoldable pub read_kinds : ℕ → List (List Text) → Result ManifestError (List Kind)
read_kinds line [] = ok []
read_kinds line (r ∷ rows) =
    let rest = read_kinds (suc line) rows in
    elim (read_kind line r) [
      | err e ↦ err e
      | ok k ↦ elim rest [ err e ↦ err e | ok ks ↦ ok (k ∷ ks) ]
    ]

-- `ReadManifest`.
unfoldable pub read_manifest : Text → Result ManifestError (List Kind)
read_manifest text = elim (read text manifest_schema) [
  | err e ↦ err (codec e)
  | ok rows ↦ if is_empty rows then err no_kind else read_kinds 2 rows
]

-- `outcome`, and the results of a kind.
pub record Outcome : Type 0 where
  pub code : ℕ
  pub signal : Text

pub data GateResult : Type 0 where
  pass fail not_active clear : GateResult

-- `decideActive`, with the tools that are found, and how the command of the kind ends.
unfoldable pub decide_active :
    Kind → List Text → (Text → Bool) → (Text → Outcome) → GateResult × Text
decide_active k files look_path run =
    if not (look_path k.tool)
    then (not_active, codes "tool not found: " ++ k.tool)
    else elim (in_scope k.scope files) [
      | none ↦ (clear, codes "no product path")
      | some p ↦
          let o = run k.command in
          if not (is_empty o.signal)
          then (fail, codes "signal " ++ o.signal)
          else if not (o.code == 0)
          then (fail, codes "exit " ++ decimal_text o.code)
          else (pass, [])
    ]

-- `decidePending`.
unfoldable pub decide_pending : Kind → List Text → GateResult × Text
decide_pending k changed = elim (in_scope k.scope changed) [
  | some p ↦ (fail, codes "pending: product path changed: " ++ p)
  | none ↦ (clear, codes "pending: no product path")
]
