-- ===== src/Tests/Forge.antt =====
-- Runs of the stand-in forge of internal/forge, and the theorems about it at concrete states.
use layup.Base.{◌≡◌, ◌≢◌, ◌↔◌, refl, true, false, List, [], ◌∷◌, none, some, ok, is_ok}
use layup.Text.{Text, codes, text_eq}
use layup.Text.Numbers.{decimal_text, hex_text, rune_count}
use layup.Forge.Types.{full_sha, valid_status}
use layup.Forge.Fake.{
  FakePr, Fake, find_pr, set_at, set_text, set_number, set_head, add_status, open_issue, comment,
  set_status, list_statuses, close_issue, issue_state,
}
use layup.Forge.Calls.{
  node_id_of, open_draft, undraft, mark_ready_in, mark_ready, newest_of, pull_request, merge_sha_of,
  mark_merged, merge_pr, merge, edit_body, close_pull_request,
}
use layup.Forge.Invariant.{
  IsSound, Call, heads, opens_issue, comments, opens, readies, posts, merges, closes, moves, edits,
  perform, perform_all,
}
use layup.Forge.Preserved.{perform_all-IsSound}
use layup.Forge.Laws.{CanMerge, merge_iff, perform_refused}
use layup.Forge.Once.{merge-merge}
use layup.Forge.Life.{open_draft-merge}

abbrev pub sha : Text
sha = codes "0123456789abcdef0123456789abcdef01234567"

-- A forge that nothing was asked of.
abbrev pub new_fake : Fake
new_fake = record {
  fail = [];
  fail_after = [];
  declared = none;
  ids = λ login. none;
  app_bot = record {
    context = [];
    state = [];
    description = [];
    creator_id = 9;
    creator_login = codes "layup";
  };
  issues = 0;
  closed = λ n. none;
  comments = λ n. [];
  prs = [];
  heads = λ branch. sha;
  statuses = λ s. [];
  checks = λ s. [];
}

-- Opens all that a run of the forge computes with.
forge_run : List Call → Fake → Fake
unfolding perform_all perform open_draft node_id_of decimal_text mark_ready mark_ready_in text_eq
    merge full_sha find_pr merge_pr mark_merged merge_sha_of hex_text set_at set_text set_number
    set_head open_issue comment set_status valid_status rune_count add_status list_statuses
    close_issue issue_state edit_body close_pull_request newest_of pull_request
forge_run = perform_all

-- One issue with a comment, and one pull request: opened, made ready, merged.
abbrev merged_calls : List Call
merged_calls =
    opens_issue
    ∷ comments 1 (codes "a question")
    ∷ heads (codes "work") sha
    ∷ opens (codes "work") (codes "body")
    ∷ merges 1 sha
    ∷ readies (codes "PR_fake1")
    ∷ posts sha (codes "layup/tests") (codes "success") []
    ∷ merges 1 sha
    ∷ []

merged_is_merged :
    (pull_request 1 [] (perform_all merged_calls new_fake)).0
    ≡ ok (
        some (record {
          number = 1;
          node_id = codes "PR_fake1";
          state = codes "closed";
          draft = false;
          merged = true;
          head_sha = sha;
          merge_sha = codes "0000000000000000000000000000000000abc001";
          body = codes "body";
        }))
unfolding forge_run
merged_is_merged = refl

new_fake-IsSound : IsSound new_fake
new_fake-IsSound = record {
  prs_numbered = tt;
  closed_known = λ k reason h. cc;
  comments_numbered = λ issue. tt;
}

perform_all-IsSound_example : IsSound (perform_all merged_calls new_fake)
perform_all-IsSound_example = perform_all-IsSound merged_calls new_fake new_fake-IsSound

-- The one pull request, a draft, and the same one made ready.
abbrev draft_pr : FakePr
draft_pr = record {
  pr = record {
    number = 1;
    node_id = codes "PR_fake1";
    state = codes "open";
    draft = true;
    merged = false;
    head_sha = sha;
    merge_sha = [];
    body = codes "body";
  };
  branch = codes "work";
}

abbrev ready_fake : Fake
ready_fake = record new_fake { prs = undraft draft_pr ∷ [] }

ready_fake-CanMerge : CanMerge 1 sha ready_fake (undraft draft_pr)
unfolding forge_run
ready_fake-CanMerge = record {
  answers = λ x. cc;
  full = refl;
  found = refl;
  unmerged = refl;
  is_open = refl;
  ready = refl;
  head = refl;
}

merge_iff_example :
    (is_ok (merge 1 sha ready_fake).0 ≡ true) ↔ ((p : FakePr) × CanMerge 1 sha ready_fake p)
merge_iff_example = merge_iff 1 sha ready_fake

merge_taken : is_ok (merge 1 sha ready_fake).0 ≡ true
unfolding forge_run
merge_taken = refl

merge-merge_example :
    is_ok
      (merge 1 sha (
        perform_all
          (closes 1 ∷ moves 1 sha ∷ edits 1 (codes "new") ∷ [])
          (merge 1 sha ready_fake).1)).0
    ≡ false
merge-merge_example =
    merge-merge 1 sha sha (closes 1 ∷ moves 1 sha ∷ edits 1 (codes "new") ∷ []) ready_fake
      merge_taken

draft_refused : (perform (merges 1 sha) (record new_fake { prs = draft_pr ∷ [] })).1 ≡ false
unfolding forge_run
draft_refused = refl

perform_refused_example :
    (perform (merges 1 sha) (record new_fake { prs = draft_pr ∷ [] })).0
    ≡ record new_fake { prs = draft_pr ∷ [] }
perform_refused_example =
    perform_refused (merges 1 sha) (record new_fake { prs = draft_pr ∷ [] }) (λ x. cc) draft_refused

draft_opened : (open_draft (codes "work") (codes "body") new_fake).0 ≡ ok draft_pr.pr
unfolding forge_run
draft_opened = refl

sha_full : full_sha sha ≡ true
unfolding forge_run
sha_full = refl

open_draft-merge_example :
    (is_ok (merge 1 sha (open_draft (codes "work") (codes "body") new_fake).1).0 ≡ false)
    × ((merge 1 sha
          (mark_ready (codes "PR_fake1") (open_draft (codes "work") (codes "body") new_fake).1).1).0
        ≡ ok (merge_sha_of 1))
open_draft-merge_example =
    open_draft-merge (codes "work") (codes "body") new_fake new_fake-IsSound refl sha_full
      draft_opened

opened-IsSound : IsSound (perform_all (opens (codes "work") (codes "body") ∷ []) new_fake)
opened-IsSound =
    perform_all-IsSound (opens (codes "work") (codes "body") ∷ []) new_fake new_fake-IsSound

draft_found :
    find_pr 1 (perform_all (opens (codes "work") (codes "body") ∷ []) new_fake).prs ≡ some draft_pr
unfolding forge_run
draft_found = refl

draft_answers :
    (perform_all (opens (codes "work") (codes "body") ∷ []) new_fake).fail ≢ codes "MarkReady"
unfolding forge_run
draft_answers = λ x. cc

status_taken : is_ok (set_status sha (codes "layup/tests") (codes "success") [] new_fake).0 ≡ true
unfolding forge_run
status_taken = refl

abbrev one_issue : Fake
one_issue = record new_fake { issues = 1 }

close_taken : is_ok (close_issue 1 one_issue).0 ≡ true
unfolding forge_run
close_taken = refl
