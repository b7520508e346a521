-- ===== src/Posting/Post.antt =====
-- internal/run/statuses.go: `PostStatus` on the stand-in forge.
use layup.Base.{
  ℕ, Bool, true, false, not, ◌&&◌, List, [], ◌∷◌, Option, none, some, ◌==◌, if◌then◌else◌, Result,
  ok, err,
}
use layup.Text.{Text, codes, text_eq, member}
use layup.Forge.Types.{Status, Message, Error, full_sha, valid_status}
use layup.Forge.Fake.{Fake, set_status, list_statuses}
use layup.Posting.Fit.{fit}

abbrev pub status_contexts : List Text
status_contexts =
    codes "layup/gates" ∷ codes "layup/spec" ∷ codes "layup/rules" ∷ codes "layup/verify" ∷ []

-- `Status` of internal/run.
pub record NewStatus : Type 0 where
  pub context : Text
  pub state : Text
  pub description : Text

pub data PostError : Type 0 where
  bad_head : PostError
  other_context : Text → PostError
  bad_status : Message → PostError
  no_bot : PostError
  of_forge : Error → PostError
  of_lease : Text → PostError

-- `appStatus`: the first status of the context whose creator is the bot.
unfoldable pub app_status : List Status → Text → ℕ → Option Status
app_status [] context bot = none
app_status (s ∷ ss) context bot =
    let rest = app_status ss context bot in
    if text_eq s.context context && (s.creator_id == bot) then some s else rest

-- Whether the App's newest status is the one to post.
unfoldable pub already : List Status → NewStatus → ℕ → Bool
already ss st bot = elim (app_status ss st.context bot) [
  | none ↦ false
  | some cur ↦ text_eq cur.state st.state && text_eq cur.description st.description
]

-- The requests of `PostStatus`; `lease` is what the read of the lease gives.
unfoldable pub request_status :
    ℕ → Result Text (Unit {0}) → Text → NewStatus → Fake → Result PostError Bool × Fake
request_status bot lease sha st f =
    let (listed, g) = list_statuses sha f in
    elim listed [
      | err e ↦ (err (of_forge e), g)
      | ok checks ↦ if already checks.statuses st bot then (ok false, g) else elim lease [
        | err e ↦ (err (of_lease e), g)
        | ok _ ↦
            let (posted, h) = set_status sha st.context st.state st.description g in
            elim posted [ err e ↦ (err (of_forge e), h) | ok _ ↦ (ok true, h) ]
      ]
    ]

abbrev pub fitted : NewStatus → NewStatus
fitted st = record st { description = fit st.description }

-- `PostStatus`.
unfoldable pub post_status :
    ℕ → Result Text (Unit {0}) → Text → NewStatus → Fake → Result PostError Bool × Fake
post_status bot lease sha st f =
    if not (full_sha sha)
    then (err bad_head, f)
    else if not (member st.context status_contexts)
    then (err (other_context st.context), f)
    else elim (valid_status st.state (fit st.description)) [
      | err m ↦ (err (bad_status m), f)
      | ok _ ↦ if bot == 0 then (err no_bot, f) else request_status bot lease sha (fitted st) f
    ]
