-- ===== src/Tests/Attempts.antt =====
-- internal/run/shapeloop.go: tests of `retries` and of `loopPosition`.
use layup.Base.{
  ℕ, ◌+◌, ◌≡◌, ◌≢◌, ◌≤◌, refl, false, List, [], ◌∷◌, none, some, length, ◌==◌, if◌then◌else◌,
}
use layup.Text.{Text, codes, text_eq, has_prefix, before_byte}
use layup.Attempts.View.{
  Event, SessionRow, View, role_in, step_role, dev_step, index_of, before, row_in, start_row,
  role_of, start_index, handoff_in, last_handoff, is_valid, names_comment, first_asking,
  answer_session, is_plan_handoff, is_base_bound, is_review, qa_kind,
}
use layup.Attempts.Stages.{
  nothing_material, end_in, outcome_of, outcome, last_of, stage_of_handoff, stage, has_findings,
  rounds_in, review_rounds,
}
use layup.Attempts.Sorting.{
  verified, latest_attempt, stray_bound, since, refused_start, passed_over, sort_qa, sort_role,
  sort_session, sort_sessions,
}
use layup.Attempts.Retries.{
  stage_of_qa, stage_of_row, stage_of, last_session, see_end, see_ends, class_of, eligible_end,
  bars, look, look_around, replaced_by, is_spent, retry_end, retry_one, retry_from, last_attempt,
  retries, replaced_session, prior_from, prior_attempt,
}
use layup.Attempts.Rejections.{
  reject_of, legacy_reject_of, reopened_in, reopened_by, rejects_in, plan_rejects,
}
use layup.Attempts.Position.{
  session_of, pass_stage, plan_stage, review_pair, review_done, review_step, review_stage,
  has_pushed, bound_head, dev_handoff, dev_head, dev_stage, started_from, at_head, verdict_step,
  verifier_stage,
}
use layup.Attempts.Grants.{sort_copies, judge_in, judge_grants, grant_of}
use layup.Attempts.Walk.{
  ended_done, asking_in, asking, asks, walk_stages, walk_retries, check_bounds, check_starts,
  returned, loop_position,
}
use layup.Text.Numbers.{decimal_text, number_from, atoi}
use layup.Attempts.Bounded.{RetriedOnce, retries-RetriedOnce}
use layup.Attempts.Verified.{IsVerified}
use layup.Attempts.Settled.{Settled, loop_position-IsVerified}

abbrev pub event : Text → Text → Text → Text → Text → Text → Event
event kind attempt session base sha detail = record {
  n = codes "1";
  kind = kind;
  attempt = attempt;
  session = session;
  base = base;
  sha = sha;
  detail = detail;
  time = codes "2026-07-01T00:00:00Z";
}

-- A session that ended completed and whose handoff is a comment.
abbrev pub handed_off : Text → List Event → List Event
handed_off id rest =
    event (codes "result") (codes "1") id [] [] (codes "done")
    ∷ event (codes "handoff") (codes "1") id [] [] (codes "valid comment 7-1")
    ∷ rest

abbrev pub started : Text → Text → Event
started id base = event (codes "session") (codes "1") id base [] []

abbrev pub attempt_event : Text → Event
attempt_event n = event (codes "attempt") n [] (codes "b0") [] []

abbrev pub row : Text → Text → Text → Text → SessionRow
row id attempt role base = record {
  id = id;
  task = codes "T-0abc";
  attempt = attempt;
  role = role;
  base = base;
}

abbrev pub view : List Event → List SessionRow → ℕ → View
view events sessions findings = record {
  task = codes "T-0abc";
  kind = codes "specification";
  events = events;
  sessions = sessions;
  status = λ id. codes "completed";
  records = λ id.
      if text_eq id (codes "s4")
      then some (record {
        verdict = if findings == 0 then nothing_material else codes "mergeable with findings";
        head = codes "h1";
        findings = findings;
      })
      else none;
  rejects = λ id. none;
  unread = λ id. false;
  verdicts = λ id. [];
  control = 9;
  approvers = (codes "77", codes "operator") ∷ [];
  cycles = [];
}

abbrev crashed : View
crashed =
    view
      (attempt_event (codes "1")
        ∷ started (codes "s1") (codes "b0")
        ∷ event (codes "result") (codes "1") (codes "s1") [] [] (codes "crash")
        ∷ attempt_event (codes "2")
        ∷ [])
      (row (codes "s1") (codes "1") (codes "software-engineer") (codes "b0") ∷ []) 0

-- No attempt follows the crash.
abbrev crashed_last : View
crashed_last =
    view
      (attempt_event (codes "1")
        ∷ started (codes "s1") (codes "b0")
        ∷ event (codes "result") (codes "1") (codes "s1") [] [] (codes "crash")
        ∷ [])
      (row (codes "s1") (codes "1") (codes "software-engineer") (codes "b0") ∷ []) 0

abbrev pub verified_view : View
verified_view =
    view
      (attempt_event (codes "1")
        ∷ started (codes "s1") (codes "b0")
        ∷ handed_off (codes "s1") (
            started (codes "s2") (codes "b0")
            ∷ handed_off (codes "s2") (
                started (codes "s3") (codes "b0")
                ∷ event (codes "result") (codes "1") (codes "s3") [] [] (codes "done")
                ∷ event (codes "push") (codes "1") (codes "s3") [] (codes "h1") []
                ∷ event (codes "bound") (codes "1") (codes "s3") [] (codes "h1") []
                ∷ event (codes "handoff") (codes "1") (codes "s3") [] [] (codes "valid")
                ∷ started (codes "s4") (codes "h1")
                ∷ handed_off (codes "s4") [])))
      (row (codes "s1") (codes "1") (codes "software-engineer") (codes "b0")
        ∷ row (codes "s2") (codes "1") (codes "qa-engineer") (codes "b0")
        ∷ row (codes "s3") (codes "1") (codes "product-owner") (codes "b0")
        ∷ row (codes "s4") (codes "1") (codes "qa-engineer") (codes "h1")
        ∷ [])
      0

crashed_replaced : (retries crashed).replaced ≡ (codes "1", codes "s1") ∷ []
unfolding role_in step_role dev_step index_of before row_in start_row role_of start_index handoff_in
    last_handoff is_valid names_comment first_asking answer_session is_plan_handoff is_base_bound
    is_review qa_kind end_in outcome_of outcome last_of stage_of_handoff stage has_findings
    rounds_in review_rounds stage_of_qa stage_of_row stage_of last_session see_end see_ends class_of
    eligible_end bars look look_around replaced_by is_spent retry_end retry_one retry_from
    last_attempt retries replaced_session prior_from prior_attempt text_eq has_prefix before_byte
    decimal_text number_from atoi
crashed_replaced = refl

crashed_pending : (retries crashed_last).pending ≡ codes "s1"
unfolding role_in step_role dev_step index_of before row_in start_row role_of start_index handoff_in
    last_handoff is_valid names_comment first_asking answer_session is_plan_handoff is_base_bound
    is_review qa_kind end_in outcome_of outcome last_of stage_of_handoff stage has_findings
    rounds_in review_rounds stage_of_qa stage_of_row stage_of last_session see_end see_ends class_of
    eligible_end bars look look_around replaced_by is_spent retry_end retry_one retry_from
    last_attempt retries replaced_session prior_from prior_attempt text_eq has_prefix before_byte
    decimal_text number_from atoi
crashed_pending = refl

told_verified : (loop_position verified_view).pos ≡ verified
unfolding grant_of judge_grants judge_in sort_copies asks asking asking_in ended_done role_in
    step_role dev_step index_of before row_in start_row role_of start_index handoff_in last_handoff
    is_valid names_comment first_asking answer_session is_plan_handoff is_base_bound is_review
    qa_kind end_in outcome_of outcome last_of stage_of_handoff stage has_findings rounds_in
    review_rounds stage_of_qa stage_of_row stage_of last_session see_end see_ends class_of
    eligible_end bars look look_around replaced_by is_spent retry_end retry_one retry_from
    last_attempt retries replaced_session prior_from prior_attempt reject_of legacy_reject_of
    reopened_in reopened_by rejects_in plan_rejects latest_attempt stray_bound since refused_start
    passed_over sort_qa sort_role sort_session sort_sessions session_of pass_stage plan_stage
    review_pair review_done review_step review_stage has_pushed bound_head dev_handoff dev_head
    dev_stage started_from at_head verdict_step verifier_stage walk_stages walk_retries check_bounds
    check_starts returned loop_position text_eq has_prefix before_byte decimal_text number_from atoi
told_verified = refl

retries-RetriedOnce_example :
    RetriedOnce crashed_last (retries crashed_last).replaced
    × (length (retries crashed_last).replaced ≤ 12)
    × ((retries crashed_last).pending ≢ []
        → RetriedOnce crashed_last (
            (decimal_text (last_attempt 0 crashed_last.events), (retries crashed_last).pending)
            ∷ (retries crashed_last).replaced)
          × (length (retries crashed_last).replaced + 1 ≤ 12))
retries-RetriedOnce_example = retries-RetriedOnce crashed_last

loop_position-IsVerified_example :
    IsVerified verified_view (loop_position verified_view)
    × Settled verified_view (loop_position verified_view)
loop_position-IsVerified_example = loop_position-IsVerified verified_view told_verified
