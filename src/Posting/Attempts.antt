-- ===== src/Posting/Attempts.antt =====
-- internal/run/attempt.go and statuses.go: the findings that go back to the developer, and the status of
-- the basic rule. A result of the rules names its state, its reason and its path.
use layup.Base.{ℕ, Bool, not, ◌&&◌, ◌||◌, List, [], ◌∷◌, ◌++◌, if◌then◌else◌, is_empty}
use layup.Text.{Text, codes, text_eq, member}
use layup.Posting.Fit.{fit}
use layup.Posting.Post.{NewStatus}

-- A row of a gate's table, and a row (rule, result, detail) of the spec table.
pub record GateRow : Type 0 where
  pub kind : Text
  pub state : Text
  pub result : Text
  pub reason : Text

pub record SpecRow : Type 0 where
  pub rule : Text
  pub result : Text
  pub detail : Text

pub record RuleResult : Type 0 where
  pub state : Text
  pub reason : Text
  pub path : Text

pub record Finding : Type 0 where
  pub rule : Text
  pub file : Text
  pub line : ℕ
  pub text : Text

abbrev is_finding : GateRow → Bool
is_finding r = not (text_eq r.result (codes "pass")) && not (text_eq r.result (codes "clear"))

unfoldable pub gate_findings : List GateRow → List Finding
gate_findings [] = []
gate_findings (r ∷ rows) =
    let rest = gate_findings rows in
    if is_finding r
    then record { rule = codes "gate:" ++ r.kind; file = []; line = 0; text = r.reason } ∷ rest
    else rest

unfoldable pub spec_findings : List SpecRow → List Finding
spec_findings [] = []
spec_findings (r ∷ rows) =
    let rest = spec_findings rows in
    if text_eq r.result (codes "fail")
    then record { rule = codes "spec:" ++ r.rule; file = []; line = 0; text = r.detail } ∷ rest
    else rest

-- `RulesStatus`.
unfoldable pub rules_status : RuleResult → NewStatus
rules_status r =
    if not (member r.state (codes "success" ∷ codes "failure" ∷ codes "error" ∷ []))
    then record {
      context = codes "layup/rules";
      state = codes "error";
      description = codes "error: no result";
    }
    else record {
      context = codes "layup/rules";
      state = r.state;
      description =
          fit (if is_empty r.path then r.reason else (r.reason ++ (codes ": " ++ r.path)));
    }

unfoldable pub rules_findings : RuleResult → List Finding
rules_findings r =
    if not (text_eq r.state (codes "failure"))
    then []
    else (record {
      rule = codes "rules:" ++ r.reason;
      file = r.path;
      line = 0;
      text = (rules_status r).description;
    }
        ∷ [])

unfoldable pub expected_failure : Text → Text → Bool
expected_failure kind context =
    text_eq kind (codes "batch")
    && (text_eq context (codes "layup/rules") || text_eq context (codes "layup/gates"))

-- slices.DeleteFunc of the pending rows.
unfoldable pub without_pending : List GateRow → List GateRow
without_pending [] = []
without_pending (r ∷ rows) =
    let rest = without_pending rows in if text_eq r.state (codes "pending") then rest else r ∷ rest

unfoldable pub retry_gate_findings : Text → List GateRow → List Finding
retry_gate_findings kind rows =
    gate_findings
      (if expected_failure kind (codes "layup/gates") then without_pending rows else rows)

-- `CheckResult`: findings, or a stop before any retry.
pub data CheckResult : Type 0 where
  findings : List Finding → CheckResult
  stop : Text → CheckResult

-- `checkResultOf`.
unfoldable pub check_result_of : Text → List SpecRow → Bool → RuleResult → CheckResult
check_result_of kind rows found r =
    if not found
    then stop (codes "layup/spec is error: no row of the spec check for the head")
    else if text_eq (rules_status r).state (codes "error")
    then stop (codes "layup/rules is error: " ++ (rules_status r).description)
    else findings (
        spec_findings rows
        ++ (if not (expected_failure kind (codes "layup/rules")) then rules_findings r else []))
