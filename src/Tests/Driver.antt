-- ===== src/Tests/Driver.antt =====
-- internal/run/shapeloop.go: a run of `AdvanceShapeTask`.
use layup.Base.{true, ℕ, ◌≡◌, refl, false, [], none, suc, ok, ap}
use layup.Text.{codes, text_eq, has_prefix, before_byte}
use layup.Attempts.View.{
  role_in, step_role, dev_step, index_of, before, row_in, start_row, role_of, start_index,
  handoff_in, last_handoff, is_valid, names_comment, first_asking, answer_session, is_plan_handoff,
  is_base_bound, is_review, qa_kind,
}
use layup.Attempts.Stages.{
  end_in, outcome_of, outcome, last_of, stage_of_handoff, stage, has_findings, rounds_in,
  review_rounds,
}
use layup.Attempts.Sorting.{
  latest_attempt, stray_bound, since, refused_start, passed_over, sort_qa, sort_role, sort_session,
  sort_sessions,
}
use layup.Attempts.Retries.{
  stage_of_qa, stage_of_row, stage_of, last_session, see_end, see_ends, class_of, eligible_end,
  bars, look, look_around, replaced_by, is_spent, retry_end, retry_one, retry_from, last_attempt,
  retries, replaced_session, prior_from, prior_attempt,
}
use layup.Attempts.Rejections.{
  reject_of, legacy_reject_of, reopened_in, reopened_by, rejects_in, plan_rejects,
}
use layup.Attempts.Position.{
  session_of, pass_stage, plan_stage, review_pair, review_done, review_step, review_stage,
  has_pushed, bound_head, dev_handoff, dev_head, dev_stage, started_from, at_head, verdict_step,
  verifier_stage,
}
use layup.Attempts.Grants.{sort_copies, judge_in, judge_grants, grant_of}
use layup.Loop.Types.{Advance}
use layup.Attempts.Driver.{
  Acts, first_base, rendered_pushed, message_of, behind_act, waited, settled_head, settled_attempt,
  act, act_once, advance_for, advance_shape_task,
}
use layup.Attempts.Told.{IsTold, advance_shape_task-IsTold}
use layup.Attempts.Walk.{
  ended_done, asking_in, asking, asks, walk_stages, walk_retries, check_bounds, check_starts,
  returned, loop_position,
}
use layup.Text.Numbers.{decimal_text, number_from, atoi}
use layup.Tests.Attempts.{verified_view}

-- Acts that do nothing, on the records of a task that is verified.
abbrev quiet_acts : Acts ℕ
quiet_acts = record {
  repair = λ w. (none, w);
  shape_view = λ w. ok verified_view;
  settle = λ v st w. (none, w);
  ask_stage = λ v st w. (record { stop = []; wait = []; error = none }, w);
  start_attempt = λ from w. (none, w);
  payload_readable = λ v st w. none;
  run_stage = λ v st w. (([], none), w);
  finish_stage = λ v st w. (none, w);
  to_verifier = λ v st w. (none, w);
  ship = λ v st w. (([], none), w);
  settle_verdict = λ v st w. (([], none), suc w);
}

abbrev verified_head : Advance
verified_head = record {
  task = codes "T-0abc";
  verified = true;
  merged = false;
  head = codes "h1";
  attempt = 0;
  waiting = [];
  stop = [];
  replaced = [];
}

advanced : advance_shape_task quiet_acts (codes "T-0abc") (codes "b0") 0 ≡ (ok verified_head, 1)
unfolding grant_of judge_grants judge_in sort_copies asks asking asking_in ended_done role_in
    step_role dev_step index_of before row_in start_row role_of start_index handoff_in last_handoff
    is_valid names_comment first_asking answer_session is_plan_handoff is_base_bound is_review
    qa_kind end_in outcome_of outcome last_of stage_of_handoff stage has_findings rounds_in
    review_rounds stage_of_qa stage_of_row stage_of last_session see_end see_ends class_of
    eligible_end bars look look_around replaced_by is_spent retry_end retry_one retry_from
    last_attempt retries replaced_session prior_from prior_attempt reject_of legacy_reject_of
    reopened_in reopened_by rejects_in plan_rejects latest_attempt stray_bound since refused_start
    passed_over sort_qa sort_role sort_session sort_sessions session_of pass_stage plan_stage
    review_pair review_done review_step review_stage has_pushed bound_head dev_handoff dev_head
    dev_stage started_from at_head verdict_step verifier_stage walk_stages walk_retries check_bounds
    check_starts returned loop_position text_eq has_prefix before_byte decimal_text number_from atoi
    first_base rendered_pushed message_of behind_act waited settled_head settled_attempt act
    act_once advance_for advance_shape_task
advanced = refl

advance_shape_task-IsTold_example : IsTold quiet_acts (codes "T-0abc") (codes "b0") verified_head
advance_shape_task-IsTold_example =
    advance_shape_task-IsTold quiet_acts (codes "T-0abc") (codes "b0") 0 verified_head
      (ap (λ x. x.0) advanced) refl
