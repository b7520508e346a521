-- ===== src/Tests/Posting.antt =====
-- Runs of internal/run's statuses and findings, and the theorems about them there.
use layup.Base.{ℕ, ◌≤◌, ◌≡◌, ◌⊎◌, refl, ◌∷◌, [], Bool, true, false, ok, err, Result, All, is_ok}
use layup.Text.{Text, codes, text_eq, member, lead_of}
use layup.Text.Numbers.{follows, rune_tail, rune_count_from, rune_count}
use layup.Forge.Types.{full_sha, valid_status}
use layup.Forge.Fake.{Fake, set_text, add_status, set_status, list_statuses}
use layup.Posting.Fit.{rune_at, take_runes, fit}
use layup.Posting.Post.{NewStatus, PostError, app_status, already, request_status, post_status}
use layup.Posting.Attempts.{
  GateRow, SpecRow, RuleResult, gate_findings, spec_findings, rules_status, rules_findings,
  expected_failure, without_pending, retry_gate_findings, findings, check_result_of,
}
use layup.Posting.Short.{valid_status-fit}
use layup.Posting.Once.{post_status-twice}
use layup.Posting.Silent.{check_result_of-nil}
use layup.Tests.Forge.{new_fake, sha}

abbrev tests_status : NewStatus
tests_status = record {
  context = codes "layup/gates";
  state = codes "success";
  description = codes "all\nclear";
}

-- Opens all that the posting of a status computes with.
posting_run : ℕ → Text → NewStatus → Fake → Result PostError Bool
unfolding post_status request_status already app_status fit take_runes rune_at rune_count
    rune_count_from rune_tail follows lead_of text_eq full_sha valid_status set_text add_status
    set_status list_statuses gate_findings spec_findings rules_status rules_findings
    expected_failure without_pending retry_gate_findings check_result_of
posting_run bot s st f = (post_status bot (ok tt) s st f).0

status_posted : (post_status 9 (ok tt) sha tests_status new_fake).0 ≡ ok true
unfolding posting_run
status_posted = refl

post_status-twice_example :
    post_status 9
      (err (codes "lost"))
      sha
      tests_status
      (post_status 9 (ok tt) sha tests_status new_fake).1
    ≡ (ok false, (post_status 9 (ok tt) sha tests_status new_fake).1)
post_status-twice_example =
    post_status-twice 9 (ok tt) (err (codes "lost")) sha tests_status new_fake refl status_posted

valid_status-fit_example :
    (rune_count (fit (codes "a\nb")) ≤ 140)
    × (is_ok (valid_status (codes "success") (fit (codes "a\nb")))
        ≡ member
            (codes "success")
            (codes "success" ∷ codes "failure" ∷ codes "pending" ∷ codes "error" ∷ []))
valid_status-fit_example = valid_status-fit (codes "success") (codes "a\nb")

abbrev lint_failed : GateRow
lint_failed = record {
  kind = codes "lint";
  state = codes "active";
  result = codes "fail";
  reason = codes "exit 1";
}

abbrev spec_row : SpecRow
spec_row = record { rule = codes "headings"; result = codes "pass"; detail = [] }

abbrev rules_fine : RuleResult
rules_fine = record { state = codes "success"; reason = codes "no rule path"; path = [] }

all_fine : check_result_of (codes "build") (spec_row ∷ []) true rules_fine ≡ findings []
unfolding posting_run
all_fine = refl

check_result_of-nil_example :
    (true ≡ true)
    × All (λ (s : SpecRow). text_eq s.result (codes "fail") ≡ false) (spec_row ∷ [])
    × ((codes "build" ≡ codes "batch") ⊎ (rules_fine.state ≡ codes "success"))
check_result_of-nil_example =
    check_result_of-nil (codes "build") (spec_row ∷ []) true rules_fine all_fine
