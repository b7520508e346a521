-- ===== src/Tests/Gate.antt =====
-- Runs of internal/gate on a manifest of one kind, and the theorems about it there.
use layup.Base.{◌≡◌, ◌≢◌, ◌↔◌, refl, ◌∷◌, [], List, true, ok, err, Result, All}
use layup.Text.{Text, codes, cut_prefix}
use layup.Text.Fields.{space_length, fields_from, text_fields, cut_text, has_suffix, after_last}
use layup.Gate.Scope.{Pattern, valid_scope_path, star_ok, parse_pattern, matches}
use layup.Gate.Manifest.{
  Kind, in_scope, parse_scope, equal_fold, config_in_git, read_kind, read_kinds, read_manifest,
  decide_active, decide_pending, ManifestError, in_git,
}
use layup.Gate.Matching.{print_pattern, print-parse_pattern, Matched, matches-Matched}
use layup.Gate.Deciding.{CanRun, read_manifest-CanRun}
use layup.Tests.Tsv.{codec_run}

abbrev go_pattern : Pattern
go_pattern = record { dir = codes "."; ext = codes ".go"; prefix = [] }

abbrev go_kind : Kind
go_kind = record {
  name = codes "lint";
  state = codes "active";
  tool = codes "vet";
  command = codes "vet ./...";
  scope = go_pattern ∷ record { dir = []; ext = []; prefix = codes "go.mod" } ∷ [];
  config = codes ".vet" ∷ [];
}

-- Opens all that the gates compute with.
gate_run : Text → Result ManifestError (List Kind)
unfolding codec_run space_length fields_from text_fields cut_prefix cut_text has_suffix after_last
    valid_scope_path star_ok parse_pattern matches in_scope parse_scope equal_fold config_in_git
    read_kind read_kinds read_manifest decide_active decide_pending print_pattern
gate_run = read_manifest

abbrev manifest_text : Text
manifest_text =
    codes
      "kind\tstate\ttool\tcommand\tscope\tconfig\nlint\tactive\tvet\tvet ./...\t./*.go go.mod\t.vet\n"

manifest_read : read_manifest manifest_text ≡ ok (go_kind ∷ [])
unfolding gate_run
manifest_read = refl

git_config_refused :
    read_manifest (
      codes
        "kind\tstate\ttool\tcommand\tscope\tconfig\nlint\tactive\tvet\tvet\t./*.go\t.vet .GIT/config\n")
    ≡ err (in_git 2 (codes ".GIT/config"))
unfolding gate_run
git_config_refused = refl

read_manifest-CanRun_example : ((go_kind ∷ []) ≢ []) × All CanRun (go_kind ∷ [])
read_manifest-CanRun_example = read_manifest-CanRun manifest_text manifest_read

go_pattern_read : parse_pattern (codes "./*.go") ≡ ok go_pattern
unfolding gate_run
go_pattern_read = refl

print-parse_pattern_example : print_pattern go_pattern ≡ codes "./*.go"
print-parse_pattern_example = print-parse_pattern (codes "./*.go") go_pattern_read

matches-Matched_example :
    (matches go_pattern (codes "a/b.go") ≡ true) ↔ Matched go_pattern (codes "a/b.go")
matches-Matched_example = matches-Matched go_pattern (codes "a/b.go")
