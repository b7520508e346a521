-- ===== src/Forge/Calls.antt =====
-- internal/forge/fake.go: the calls of pull requests.
use layup.Base.{
  ℕ, ◌+◌, ◌-◌, true, false, not, ◌&&◌, ◌||◌, List, [], ◌∷◌, ◌++◌, Option, none, some, ltb, ◌==◌,
  if◌then◌else◌, length, ok, is_empty,
}
use layup.Text.{Text, codes, text_eq}
use layup.Text.Numbers.{decimal_text, hex_text}
use layup.Forge.Types.{PullRequest, full_sha}
use layup.Forge.Fake.{FakePr, Fake, Outcome, refuse, unless_fails, find_pr, set_at}

-- fmt.Sprintf("PR_fake%d", n)
unfoldable pub node_id_of : ℕ → Text
node_id_of n = codes "PR_fake" ++ decimal_text n

unfoldable pub open_draft : Text → Text → Fake → Outcome PullRequest
open_draft head body f =
    let n = length f.prs + 1 in
    let new : PullRequest = record {
      number = n;
      node_id = node_id_of n;
      state = codes "open";
      draft = true;
      merged = false;
      head_sha = f.heads head;
      merge_sha = [];
      body = body;
    } in
    unless_fails (codes "OpenDraft") f
      (ok new, record f { prs = f.prs ++ (record { pr = new; branch = head } ∷ []) })

abbrev pub undraft : FakePr → FakePr
undraft p = record p { pr = record (p.pr) { draft = false } }

-- The loop of `MarkReady`: the pull request that it found, and the list with the mark set.
unfoldable pub mark_ready_in : Text → List FakePr → Option (PullRequest × List FakePr)
mark_ready_in node [] = none
mark_ready_in node (p ∷ prs) =
    if text_eq p.pr.node_id node
    then some ((undraft p).pr, undraft p ∷ prs)
    else elim (mark_ready_in node prs) [ none ↦ none | some (q, qs) ↦ some (q, p ∷ qs) ]

unfoldable pub mark_ready : Text → Fake → Outcome PullRequest
mark_ready node f = unless_fails (codes "MarkReady") f (elim (mark_ready_in node f.prs) [
  | none ↦
      refuse (codes "MarkReady") 200
        (codes "Could not resolve to a node with the global id " ++ node) f
  | some (p, prs) ↦ (ok p, record f { prs = prs })
])

-- The newest pull request of a branch; the list is in the order of opening.
unfoldable pub newest_of : Text → List FakePr → Option PullRequest
newest_of branch [] = none
newest_of branch (p ∷ prs) = elim (newest_of branch prs) [
  | some q ↦ some q
  | none ↦ if text_eq p.branch branch then some p.pr else none
]

-- `PullRequest`: the query has a number (0 for none) and a branch ("" for none); `none` is not found.
unfoldable pub pull_request : ℕ → Text → Fake → Outcome (Option PullRequest)
pull_request number branch f =
    if (not (number == 0) && not (is_empty branch)) || ((number == 0) && is_empty branch)
    then refuse (codes "PullRequest") 0
        (codes "the query names a number or a branch, one of the two") f
    else unless_fails (codes "PullRequest") f (
        if not (number == 0)
        then elim (find_pr number f.prs) [
          | none ↦ refuse (codes "PullRequest") 404 (codes "Not Found") f
          | some p ↦ (ok (some p.pr), f)
        ]
        else (ok (newest_of branch f.prs), f))

-- fmt.Sprintf("%040x", 0xabc000+number)
unfoldable pub merge_sha_of : ℕ → Text
merge_sha_of number = hex_text 40 (0xabc000 + number) []

-- The fields that `Merge` sets.
unfoldable pub mark_merged : ℕ → FakePr → FakePr
mark_merged number p = record p {
  pr = record (p.pr) { merged = true; state = codes "closed"; merge_sha = merge_sha_of number };
}

-- The `switch` of `Merge` on the pull request.
unfoldable pub merge_pr : ℕ → Text → FakePr → Fake → Outcome Text
merge_pr number sha p f =
    if p.pr.merged || not (text_eq p.pr.state (codes "open"))
    then refuse (codes "Merge") 405 (codes "Pull Request is not mergeable") f
    else if p.pr.draft
    then refuse (codes "Merge") 405 (codes "Pull Request is still a draft") f
    else if not (text_eq sha p.pr.head_sha)
    then refuse (codes "Merge") 409
        (codes "Head branch was modified. Review and try the merge again.") f
    else (
      ok (merge_sha_of number),
      record f { prs = set_at (number - 1) (mark_merged number p) f.prs },
    )

unfoldable pub merge : ℕ → Text → Fake → Outcome Text
merge number sha f =
    if ltb number 1 || not (full_sha sha)
    then refuse (codes "Merge") 0 (codes "the pull request number or the head SHA is not valid") f
    else unless_fails (codes "Merge") f (elim (find_pr number f.prs) [
      | none ↦ refuse (codes "Merge") 404 (codes "Not Found") f
      | some p ↦ merge_pr number sha p f
    ])

abbrev pub bad_number : Text
bad_number = codes "the pull request number is not valid"

unfoldable pub edit_body : ℕ → Text → Fake → Outcome PullRequest
edit_body number body f =
    if ltb number 1
    then refuse (codes "EditBody") 0 bad_number f
    else unless_fails (codes "EditBody") f (elim (find_pr number f.prs) [
      | none ↦ refuse (codes "EditBody") 404 (codes "Not Found") f
      | some p ↦
          let q = record (p.pr) { body = body } in
          let edited = record f { prs = set_at (number - 1) (record p { pr = q }) f.prs } in
          if text_eq f.fail_after (codes "EditBody")
          then refuse (codes "EditBody") 502 (codes "Bad Gateway") edited
          else (ok q, edited)
    ])

unfoldable pub close_pull_request : ℕ → Fake → Outcome PullRequest
close_pull_request number f =
    if ltb number 1
    then refuse (codes "ClosePullRequest") 0 bad_number f
    else unless_fails (codes "ClosePullRequest") f (elim (find_pr number f.prs) [
      | none ↦ refuse (codes "ClosePullRequest") 404 (codes "Not Found") f
      | some p ↦
          let q = record (p.pr) { state = codes "closed" } in
          (ok q, record f { prs = set_at (number - 1) (record p { pr = q }) f.prs })
    ])
