-- ===== src/Posting/Once.antt =====
-- internal/run/statuses.go: a status that was posted is not posted again.
use layup.Base.{
  ℕ, ◌≡◌, ◌≢◌, inl, inr, refl, sym, ◌∙◌, ap, true, false, List, ◌∷◌, arith, ◌==◌, Result, ok, is_ok,
  Bool-cases, Result-cases,
}
use layup.Text.{Text, codes, text_eq_iff, member}
use layup.Forge.Types.{Status, HeadChecks, full_sha, valid_status}
use layup.Forge.Fake.{Fake, set_status, list_statuses}
use layup.Forge.Statuses.{list_statuses-set_status}
use layup.Posting.Fit.{fit}
use layup.Posting.Post.{
  status_contexts, NewStatus, app_status, already, request_status, fitted, post_status,
}

-- The App's own status at the head of the list is the newest.
already-cons :
    (s : Status) (ss : List Status) (st : NewStatus)
    → s.context ≡ st.context
    → s.state ≡ st.state
    → s.description ≡ st.description
    → already (s ∷ ss) st s.creator_id ≡ true
unfolding already app_status
already-cons s ss st a b c =
    let x = (text_eq_iff s.context st.context).1 a in
    let y = (text_eq_iff s.state st.state).1 b in
    let z = (text_eq_iff s.description st.description).1 c in ground arith

list_statuses-keeps : (sha : Text) (f : Fake) → (list_statuses sha f).1 ≡ f
unfolding list_statuses
list_statuses-keeps sha f = ground arith

list_statuses-answers :
    (sha : Text) (f : Fake) {checks : HeadChecks}
    → (list_statuses sha f).0 ≡ ok checks
    → f.fail ≢ codes "Statuses"
unfolding list_statuses
list_statuses-answers sha f e x =
    let named = (text_eq_iff f.fail (codes "Statuses")).1 x in ground arith

-- A request that posted: the statuses were listed, the new one was taken, and the state is that after it.
request_status-posted :
    (bot : ℕ) (lease : Result Text (Unit {0})) (sha : Text) (st : NewStatus) (f : Fake)
    → (request_status bot lease sha st f).0 ≡ ok true
    → (f.fail ≢ codes "Statuses")
      × (is_ok (set_status sha st.context st.state st.description f).0 ≡ true)
      × ((request_status bot lease sha st f).1
          ≡ (set_status sha st.context st.state st.description f).1)
unfolding request_status
request_status-posted bot lease sha st f e = elim (Result-cases (list_statuses sha f).0) [
  | inr (x, l) ↦ absurd (ground arith)
  | inl (checks, l) ↦
      let same = list_statuses-keeps sha f in
      let answers = list_statuses-answers sha f l in
      elim (Bool-cases (already checks.statuses st bot)) [
        | inl a ↦ absurd (ground arith)
        | inr a ↦ elim (Result-cases lease) [
          | inr (x, b) ↦ absurd (ground arith)
          | inl (u, b) ↦
              elim (Result-cases (set_status sha st.context st.state st.description f).0) [
                | inr (x, s) ↦ absurd (ground arith)
                | inl (v, s) ↦ (answers, ap is_ok s, ground arith)
              ]
        ]
      ]
]

-- A request whose status is there already.
request_status-already :
    (bot : ℕ) (lease : Result Text (Unit {0})) (sha : Text) (st : NewStatus) (f : Fake)
    (checks : HeadChecks)
    → (list_statuses sha f).0 ≡ ok checks
    → already checks.statuses st bot ≡ true
    → request_status bot lease sha st f ≡ (ok false, f)
unfolding request_status
request_status-already bot lease sha st f checks l a =
    let same = list_statuses-keeps sha f in ground arith

-- What `PostStatus` checks before any request.
record IsChecked (bot : ℕ) (sha : Text) (st : NewStatus) : Type 0 where
  full : full_sha sha ≡ true
  known : member st.context status_contexts ≡ true
  valid : valid_status st.state (fit st.description) ≡ ok tt
  named : (bot == 0) ≡ false

post_status-IsChecked :
    (bot : ℕ) (lease : Result Text (Unit {0})) (sha : Text) (st : NewStatus) (f : Fake)
    → (post_status bot lease sha st f).0 ≡ ok true
    → IsChecked bot sha st
unfolding post_status
post_status-IsChecked bot lease sha st f e =
    elim (Result-cases (valid_status st.state (fit st.description))) [
      | inr (m, n) ↦ absurd (ground arith)
      | inl (u, v) ↦ record {
        full = ground arith;
        known = ground arith;
        valid = v;
        named = ground arith;
      }
    ]

post_status-request :
    (bot : ℕ) (lease : Result Text (Unit {0})) (sha : Text) (st : NewStatus) (f : Fake)
    → IsChecked bot sha st
    → post_status bot lease sha st f ≡ request_status bot lease sha (fitted st) f
unfolding post_status
post_status-request bot lease sha st f c = rw (c.full, post_status, c.known, c.valid, c.named) refl

-- Where `PostStatus` posted a status as the App's bot, the same call again posts nothing and leaves the
-- forge as it was, whatever the lease is then.
pub post_status-twice :
    (bot : ℕ) (lease again : Result Text (Unit {0})) (sha : Text) (st : NewStatus) (f : Fake)
    → f.app_bot.creator_id ≡ bot
    → (post_status bot lease sha st f).0 ≡ ok true
    → post_status bot again sha st (post_status bot lease sha st f).1
      ≡ (ok false, (post_status bot lease sha st f).1)
post_status-twice bot lease again sha st f own e =
    let c = post_status-IsChecked bot lease sha st f e in
    let first = post_status-request bot lease sha st f c in
    let (answers, taken, after) =
      request_status-posted bot lease sha (fitted st) f (sym (ap (λ o. o.0) first) ∙ e) in
    let now_at : (post_status bot lease sha st f).1
        ≡ (set_status sha st.context st.state (fit st.description) f).1 =
      ap (λ o. o.1) first ∙ after in
    let (listed, _) =
      list_statuses-set_status sha st.context st.state (fit st.description) f answers taken in
    let there = already-cons _ (f.statuses sha) (fitted st) refl refl refl in
    let second =
      request_status-already bot again sha (fitted st)
        (set_status sha st.context st.state (fit st.description) f).1 _ listed
        (ap (already _ (fitted st)) (sym own) ∙ there) in
    rw now_at (
      post_status-request bot again sha st
        (set_status sha st.context st.state (fit st.description) f).1 c
      ∙ second)
