-- ===== src/Forge/Invariant.antt =====
-- internal/forge/fake.go: the calls as one type, and what holds of the stand-in between them.
use layup.Base.{ℕ, suc, ◌<◌, ◌≤◌, ◌≡◌, ◌⊎◌, Bool, true, false, List, [], ◌∷◌, some, Result, is_ok}
use layup.Text.{Text, codes}
use layup.Forge.Types.{Status, CheckRun, Comment}
use layup.Forge.Fake.{
  FakePr, Fake, set_head, move_head, add_status, set_check_runs, open_issue, comment, set_status,
  close_issue,
}
use layup.Forge.Calls.{
  node_id_of, open_draft, mark_ready, merge_sha_of, merge, edit_body, close_pull_request,
}

-- Pull request `n`: it has its number and its node, it is open or closed, and a merged one is closed,
-- no draft, and names its merge commit; one that is not merged names none.
pub record IsSoundPr (n : ℕ) (p : FakePr) : Type 0 where
  pub numbered : p.pr.number ≡ n
  pub noded : p.pr.node_id ≡ node_id_of n
  pub stated : (p.pr.state ≡ codes "open") ⊎ (p.pr.state ≡ codes "closed")
  pub merged_closed : p.pr.merged ≡ true → p.pr.state ≡ codes "closed"
  pub merged_ready : p.pr.merged ≡ true → p.pr.draft ≡ false
  pub merged_named : p.pr.merged ≡ true → p.pr.merge_sha ≡ merge_sha_of n
  pub unmerged_unnamed : p.pr.merged ≡ false → p.pr.merge_sha ≡ []

-- The pull requests are numbered from `n` on.
abbrev pub Numbered : ℕ → List FakePr → Type 0
Numbered n [] = Unit
Numbered n (p ∷ prs) = IsSoundPr n p × Numbered (suc n) prs

abbrev pub NumberedComments : ℕ → List Comment → Type 0
NumberedComments n [] = Unit
NumberedComments n (c ∷ cs) = (c.id ≡ n) × NumberedComments (suc n) cs

pub record IsSound (f : Fake) : Type 0 where
  pub prs_numbered : Numbered 1 f.prs
  pub closed_known :
      (k : ℕ) (reason : Text)
      → f.closed k ≡ some reason
      → (0 < k) × (k ≤ f.issues) × (reason ≡ codes "not_planned")
  pub comments_numbered : (issue : ℕ) → NumberedComments 1 (f.comments issue)

-- A call, or a change that a test makes.
pub data Call : Type 0 where
  heads : Text → Text → Call
  moves : ℕ → Text → Call
  adds : Text → Status → Call
  runs : Text → List CheckRun → Call
  fails : Text → Text → Call
  opens_issue : Call
  comments : ℕ → Text → Call
  opens : Text → Text → Call
  readies : Text → Call
  posts : Text → Text → Text → Text → Call
  merges : ℕ → Text → Call
  edits : ℕ → Text → Call
  closes : ℕ → Call
  closes_issue : ℕ → Call

-- The state after a call, and whether it was taken.
abbrev pub after {ℓ} : {A : Type 0} {E : Type ℓ} → Result E A × Fake → Fake × Bool
after (r, f) = (f, is_ok r)

unfoldable pub perform : Call → Fake → Fake × Bool
perform (heads branch sha) f = (set_head branch sha f, true)
perform (moves number sha) f = (move_head number sha f, true)
perform (adds sha s) f = (add_status sha s f, true)
perform (runs sha rs) f = (set_check_runs sha rs f, true)
perform (fails c d) f = (record f { fail = c; fail_after = d }, true)
perform opens_issue f = after (open_issue f)
perform (comments issue body) f = after (comment issue body f)
perform (opens head body) f = after (open_draft head body f)
perform (readies node) f = after (mark_ready node f)
perform (posts sha context state description) f = after (set_status sha context state description f)
perform (merges number sha) f = after (merge number sha f)
perform (edits number body) f = after (edit_body number body f)
perform (closes number) f = after (close_pull_request number f)
perform (closes_issue number) f = after (close_issue number f)

-- The calls made one after the other.
unfoldable pub perform_all : List Call → Fake → Fake
perform_all [] f = f
perform_all (c ∷ cs) f = perform_all cs (perform c f).0
