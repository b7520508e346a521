-- ===== src/Tests/Cycles.antt =====
-- internal/run/cycle.go: tests of `parseCycle` and of `judgeGrants`.
use layup.Base.{◌≡◌, ◌≤◌, refl, List, [], ◌∷◌, some, ◌≢◌, All}
use layup.Text.{Text, codes, text_eq, has_prefix, cut_prefix, cut_byte, contains_byte, contains_any}
use layup.Attempts.View.{
  Event, View, role_in, step_role, dev_step, index_of, before, row_in, start_row, role_of,
  start_index, handoff_in, last_handoff, is_valid, names_comment, first_asking, answer_session,
  is_plan_handoff, is_base_bound, is_review, qa_kind, Copy,
}
use layup.Attempts.Stages.{has_findings}
use layup.Attempts.Cycles.{
  command, trim_right_any, before_any, is_task, starts_with_tab, parse_parts, parse_cycle,
}
use layup.Attempts.Grants.{
  decision, judge_command, starts_with_digit, comment_of, round_of, cap_from, cap_round, id_of,
  insert_copy, sort_copies, weigh, judge_grant, judge_in, judge_grants, grant_of,
}
use layup.Attempts.Eligible.{Eligible}
use layup.Attempts.Earliest.{judge_grants-Earliest}
use layup.Members.{Exists}
use layup.Text.Split.{split, join}
use layup.Text.Numbers.{decimal_text, number_from, atoi}
use layup.Tests.Attempts.{event, started, row, view}

abbrev bound_events : List Event
bound_events =
    event (codes "bound") (codes "1") (codes "s3") [] (codes "h1") []
    ∷ started (codes "s4") (codes "h1")
    ∷ event (codes "handoff") (codes "1") (codes "s4") [] [] (codes "valid comment 7-1")
    ∷ started (codes "s5") (codes "h1")
    ∷ event (codes "handoff") (codes "1") (codes "s5") [] [] (codes "valid comment 9-1")
    ∷ []

-- Two rounds with findings.
abbrev capped : View
capped =
    record (view bound_events
      (row (codes "s3") (codes "1") (codes "product-owner") (codes "b0")
        ∷ row (codes "s4") (codes "1") (codes "qa-engineer") (codes "h1")
        ∷ row (codes "s5") (codes "1") (codes "qa-engineer") (codes "h1")
        ∷ [])
      0) {
        records = λ id.
            some (record {
              verdict = codes "mergeable with findings";
              head = codes "h1";
              findings = 1;
            });
      }

abbrev comment_copy : Text → Text → Copy
comment_copy id body = record {
  comment = id;
  seen = codes "1";
  issue = codes "9";
  author = codes "77";
  app = [];
  body = body;
}

abbrev commands : List Copy
commands =
    comment_copy (codes "12") (codes "cycle T-0abc because it is worth one")
    ∷ comment_copy (codes "8") (codes "cycle T-0abc because too early")
    ∷ comment_copy (codes "10") (codes "cycle T-0abc because it is close\n")
    ∷ []

granted_ten : (judge_grants capped commands).grant ≡ 10
unfolding trim_right_any before_any is_task starts_with_tab parse_parts parse_cycle decision
    judge_command starts_with_digit comment_of round_of cap_from cap_round id_of insert_copy
    sort_copies weigh judge_grant judge_in judge_grants grant_of role_in step_role dev_step index_of
    before row_in start_row role_of start_index handoff_in last_handoff is_valid names_comment
    first_asking answer_session is_plan_handoff is_base_bound is_review qa_kind has_findings split
    join cut_prefix cut_byte contains_byte contains_any text_eq has_prefix decimal_text number_from
    atoi
granted_ten = refl

judge_grants-Earliest_example :
    All
      (λ c.
        Eligible capped c
        → (1 ≤ (judge_grants capped commands).grant)
          × ((judge_grants capped commands).grant ≤ id_of c))
      commands
    × ((judge_grants capped commands).grant ≢ 0
        → Exists
            (λ c. Eligible capped c × (id_of c ≡ (judge_grants capped commands).grant))
            commands)
judge_grants-Earliest_example = judge_grants-Earliest capped commands

-- A tab behind the first word parts it from what stands before the task.
tab_taken :
    parse_cycle (codes "cycle\tthen T-0abc because it may")
    ≡ command (codes "T-0abc") (codes "it may")
unfolding parse_cycle parse_parts trim_right_any before_any is_task starts_with_tab split join
    cut_prefix contains_byte contains_any text_eq
tab_taken = refl
