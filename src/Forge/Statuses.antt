-- ===== src/Forge/Statuses.antt =====
-- internal/forge/fake.go: the statuses of a commit, and the state of an issue.
use layup.Base.{ℕ, ◌≡◌, ◌≢◌, refl, true, [], ◌∷◌, some, arith, ok, is_ok}
use layup.Text.{Text, codes, text_eq_iff}
use layup.Forge.Fake.{
  Fake, set_text, set_number, add_status, set_status, close_issue, list_statuses, issue_state,
}

-- Where `Statuses` does not fail, a status that `SetStatus` takes is the first that `Statuses` gives for the commit, before those that
-- stood there, and it changes no other commit's statuses.
pub list_statuses-set_status :
    (sha context state description : Text) (f : Fake)
    → f.fail ≢ codes "Statuses"
    → is_ok (set_status sha context state description f).0 ≡ true
    → ((list_statuses sha (set_status sha context state description f).1).0
        ≡ ok (record {
          statuses =
              record {
                context = context;
                state = state;
                description = description;
                creator_id = f.app_bot.creator_id;
                creator_login = f.app_bot.creator_login;
              }
              ∷ f.statuses sha;
          check_runs = f.checks sha;
        }))
      × ((other : Text)
          → other ≢ sha
          → (set_status sha context state description f).1.statuses other ≡ f.statuses other)
unfolding list_statuses set_status add_status set_text
list_statuses-set_status sha context state description f a t =
    let named = text_eq_iff f.fail (codes "Statuses") in
    let self = (text_eq_iff sha sha).1 refl in
    (ground arith, λ other n. let apart = text_eq_iff other sha in ground arith)

-- A taken `CloseIssue` closes an open issue as not planned, and a second one is taken too and changes
-- nothing.
pub issue_state-close_issue :
    (number : ℕ) (f : Fake)
    → is_ok (close_issue number f).0 ≡ true
    → ((issue_state number f ≡ some (codes "open", []))
        → issue_state number (close_issue number f).1 ≡ some (codes "closed", codes "not_planned"))
      × (close_issue number (close_issue number f).1 ≡ (ok tt, (close_issue number f).1))
unfolding issue_state close_issue set_number
issue_state-close_issue number f t = (λ o. ground arith, ground arith)
