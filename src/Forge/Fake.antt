-- ===== src/Forge/Fake.antt =====
-- internal/forge/fake.go: the state of the stand-in forge, its helpers, and the calls of issues,
-- comments and statuses. A call gives its result and the new state; the lock that each call holds
-- makes it one step. Numbers of issues and pull requests are natural: below 1 means 0 here.
use layup.Base.{
  ℕ, zero, suc, ◌+◌, ◌-◌, not, ◌||◌, List, [], ◌∷◌, ◌++◌, Option, none, some, ltb, ◌==◌,
  if◌then◌else◌, get_elem?, length, Result, ok, err,
}
use layup.Text.{Text, codes, text_eq}
use layup.Forge.Types.{
  Capability, capabilities, PullRequest, Comment, Status, CheckRun, HeadChecks, text, Error,
  full_sha, valid_status,
}

-- `fakePR`.
pub record FakePr : Type 0 where
  pub pr : PullRequest
  pub branch : Text

-- The maps are functions, which give the zero value where the map has no key.
pub record Fake : Type 0 where
  pub fail : Text
  pub fail_after : Text
  pub declared : Option (List Capability)
  pub ids : Text → Option ℕ
  pub app_bot : Status
  pub issues : ℕ
  pub closed : ℕ → Option Text
  pub comments : ℕ → List Comment
  pub prs : List FakePr
  pub heads : Text → Text
  pub statuses : Text → List Status
  pub checks : Text → List CheckRun

abbrev pub Outcome : Type 0 → Type 0
Outcome A = Result Error A × Fake

abbrev pub refuse : {A : Type 0} → Text → ℕ → Text → Fake → Outcome A
refuse call status message f =
    (err (record { call = call; status = status; message = text message }), f)

-- `Fake.err`: the call that `Fail` names fails.
abbrev pub unless_fails : {A : Type 0} → Text → Fake → Outcome A → Outcome A
unless_fails call f go = if text_eq f.fail call then refuse call 502 (codes "Bad Gateway") f else go

unfoldable pub set_text : {A : Type 0} → Text → A → (Text → A) → Text → A
set_text k v m j = if text_eq j k then v else m j

unfoldable pub set_number : {A : Type 0} → ℕ → A → (ℕ → A) → ℕ → A
set_number k v m j = if j == k then v else m j

-- `Fake.pr`.
unfoldable pub find_pr : ℕ → List FakePr → Option FakePr
find_pr zero prs = none
find_pr (suc i) prs = get_elem? prs i

-- The write through the pointer that `Fake.pr` gives.
unfoldable pub set_at : ℕ → FakePr → List FakePr → List FakePr
set_at i p [] = []
set_at zero p (q ∷ prs) = p ∷ prs
set_at (suc i) p (q ∷ prs) = q ∷ set_at i p prs

unfoldable pub set_head : Text → Text → Fake → Fake
set_head branch sha f = record f { heads = set_text branch sha f.heads }

unfoldable pub move_head : ℕ → Text → Fake → Fake
move_head number sha f = elim (find_pr number f.prs) [
  | none ↦ f
  | some p ↦ record f {
    prs = set_at (number - 1) (record p { pr = record (p.pr) { head_sha = sha } }) f.prs;
  }
]

unfoldable pub add_status : Text → Status → Fake → Fake
add_status sha s f = record f { statuses = set_text sha (s ∷ f.statuses sha) f.statuses }

unfoldable pub set_check_runs : Text → List CheckRun → Fake → Fake
set_check_runs sha runs f = record f { checks = set_text sha runs f.checks }

unfoldable pub declared_capabilities : Fake → List Capability
declared_capabilities f = elim f.declared [ none ↦ capabilities | some cs ↦ cs ]

unfoldable pub user_id : Text → Fake → Outcome ℕ
user_id login f = unless_fails (codes "UserID") f (elim (f.ids login) [
  | none ↦ refuse (codes "UserID") 404 (codes "Not Found") f
  | some id ↦ (ok id, f)
])

unfoldable pub open_issue : Fake → Outcome ℕ
open_issue f =
    unless_fails (codes "OpenIssue") f (ok (f.issues + 1), record f { issues = f.issues + 1 })

-- A failing call of `Comments` gives the comments with its error; only the error is kept here.
unfoldable pub list_comments : ℕ → Fake → Outcome (List Comment)
list_comments issue f = unless_fails (codes "Comments") f (ok (f.comments issue), f)

unfoldable pub comment : ℕ → Text → Fake → Outcome ℕ
comment issue body f =
    let id = length (f.comments issue) + 1 in
    unless_fails (codes "Comment") f (
      ok id,
      record f {
        comments =
            set_number issue (f.comments issue ++ (record { id = id; body = body } ∷ []))
              f.comments;
      },
    )

abbrev pub bad_sha : Text
bad_sha = codes "the SHA is not a full object ID"

unfoldable pub set_status : Text → Text → Text → Text → Fake → Outcome (Unit {0})
set_status sha context state description f =
    if not (full_sha sha)
    then refuse (codes "SetStatus") 0 bad_sha f
    else elim (valid_status state description) [
      | err m ↦ (err (record { call = codes "SetStatus"; status = 0; message = m }), f)
      | ok _ ↦ unless_fails (codes "SetStatus") f (
        ok tt,
        add_status sha
            (record {
              context = context;
              state = state;
              description = description;
              creator_id = f.app_bot.creator_id;
              creator_login = f.app_bot.creator_login;
            })
            f,
      )
    ]

unfoldable pub list_statuses : Text → Fake → Outcome HeadChecks
list_statuses sha f =
    if not (full_sha sha)
    then refuse (codes "Statuses") 0 bad_sha f
    else unless_fails (codes "Statuses") f
        (ok (record { statuses = f.statuses sha; check_runs = f.checks sha }), f)

unfoldable pub close_issue : ℕ → Fake → Outcome (Unit {0})
close_issue number f =
    if ltb number 1
    then refuse (codes "CloseIssue") 0 (codes "the issue number is not valid") f
    else unless_fails (codes "CloseIssue") f (
        if ltb f.issues number then refuse (codes "CloseIssue") 404 (codes "Not Found") f else (
          ok tt,
          elim (f.closed number) [
            | some reason ↦ f
            | none ↦ record f { closed = set_number number (some (codes "not_planned")) f.closed }
          ],
        ))

-- `IssueState`: the state and the reason, or `none` for a number that is none.
unfoldable pub issue_state : ℕ → Fake → Option (Text × Text)
issue_state number f =
    if ltb number 1 || ltb f.issues number then none else elim (f.closed number) [
      | some reason ↦ some (codes "closed", reason)
      | none ↦ some (codes "open", [])
    ]
