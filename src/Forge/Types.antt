-- ===== src/Forge/Types.antt =====
-- internal/forge/forge.go: the types of the interface, and its checks of a SHA, a status, the
-- capabilities and the permissions.
use layup.Base.{
  ℕ, Bool, true, false, not, ◌&&◌, ◌||◌, List, [], ◌∷◌, leb, ltb, ◌==◌, if◌then◌else◌, all, any,
  length, Result, ok, err,
}
use layup.Text.{Text, codes, text_eq, member}
use layup.Text.Numbers.{rune_count}

pub data Capability : Type 0 where
  issues_and_comments pull_requests commit_statuses branch_rules activity app_identity : Capability

pub Capability-discrete : Discrete Capability
Capability-discrete = hlevel

abbrev pub capabilities : List Capability
capabilities =
    issues_and_comments ∷ pull_requests ∷ commit_statuses ∷ branch_rules ∷ activity ∷ app_identity
    ∷ []

pub record PullRequest : Type 0 where
  pub number : ℕ
  pub node_id : Text
  pub state : Text
  pub draft : Bool
  pub merged : Bool
  pub head_sha : Text
  pub merge_sha : Text
  pub body : Text

pub record Comment : Type 0 where
  pub id : ℕ
  pub body : Text

pub record Status : Type 0 where
  pub context : Text
  pub state : Text
  pub description : Text
  pub creator_id : ℕ
  pub creator_login : Text

pub record CheckRun : Type 0 where
  pub name : Text
  pub status : Text
  pub conclusion : Text
  pub app_id : ℕ
  pub app_slug : Text

pub record HeadChecks : Type 0 where
  pub statuses : List Status
  pub check_runs : List CheckRun

-- The message of a forge error: a text, or the error of `ValidStatus`.
pub data Message : Type 0 where
  text : Text → Message
  bad_state : Text → Message
  long_description : ℕ → Message

pub record Error : Type 0 where
  pub call : Text
  pub status : ℕ
  pub message : Message

abbrev status_states : List Text
status_states = codes "success" ∷ codes "failure" ∷ codes "pending" ∷ codes "error" ∷ []

abbrev is_sha_char : ℕ → Bool
is_sha_char c = (leb b'0' c && leb c b'9') || (leb b'a' c && leb c b'f')

-- `FullSHA`.
unfoldable pub full_sha : Text → Bool
full_sha s = (length s == 40) && all is_sha_char s

-- `ValidStatus`.
unfoldable pub valid_status : Text → Text → Result Message (Unit {0})
valid_status state description =
    if not (member state status_states)
    then err (bad_state state)
    else if ltb 140 (rune_count description)
    then err (long_description (rune_count description))
    else ok tt

-- `Missing`, over the rest of the table.
same_capability : Capability → Capability → Bool
same_capability a b = elim (Capability-discrete a b) [ yes _ ↦ true | no _ ↦ false ]

missing_from : List Capability → List Capability → List Capability
missing_from declared [] = []
missing_from declared (c ∷ cs) =
    let rest = missing_from declared cs in
    if any (same_capability c) declared then rest else c ∷ rest

unfoldable pub missing : List Capability → List Capability
unfolding same_capability missing_from
missing declared = missing_from declared capabilities

-- The map `rank` of `missingOf`; a level that it lacks has the rank 0.
rank : Text → ℕ
rank level =
    if text_eq level (codes "read") then 1 else if text_eq level (codes "write") then 2 else 0

-- `missingOf`: the map of the permissions gives "" for a name that it lacks.
unfoldable pub missing_of : (Text → Text) → List (Text × Text) → List (Text × Text)
unfolding rank
missing_of got [] = []
missing_of got ((name, level) ∷ list) =
    let rest = missing_of got list in
    if ltb (rank (got name)) (rank level) then (name, level) ∷ rest else rest

abbrev pub permissions : List (Text × Text)
permissions =
    (codes "contents", codes "write")
    ∷ (codes "issues", codes "write")
    ∷ (codes "metadata", codes "read")
    ∷ []

abbrev pub loop_permissions : List (Text × Text)
loop_permissions =
    (codes "pull_requests", codes "write")
    ∷ (codes "statuses", codes "write")
    ∷ (codes "checks", codes "read")
    ∷ []

-- `CheckPermissions` and `CheckLoopPermissions`.
unfoldable pub check_permissions : (Text → Text) → List (Text × Text)
check_permissions got = missing_of got permissions

unfoldable pub check_loop_permissions : (Text → Text) → List (Text × Text)
check_loop_permissions got = missing_of got loop_permissions
