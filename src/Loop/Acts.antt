-- ===== src/Loop/Acts.antt =====
-- internal/run/loop.go: `dispatch`, `boundaryRule` and `wrapBoundary`.
use layup.Base.{
  Bool, true, false, List, ◌++◌, Option, none, some, if◌then◌else◌, Result, ok, err, any,
}
use layup.Text.{Text, codes, text_eq, before_byte}
use layup.Loop.Types.{Step, failf}

-- What the act on a task is.
pub data ActKind : Type 0 where
  drive : ActKind
  nothing : ActKind
  reread : ActKind
  finish : ActKind
  bring : ActKind

-- The kinds of the events of a task, whether the pull request of its latest attempt is merged or
-- closed, and whether its head is verified.
unfoldable pub dispatch : List Text → Bool → Bool → ActKind
dispatch events terminal verified =
    if any (text_eq (codes "merged")) events
    then nothing
    else if any (text_eq (codes "closed")) events
    then reread
    else if terminal
    then finish
    else if verified
    then bring
    else drive

-- Whether the boundary is skipped, from parameters.tsv and tasks.tsv, `none` for an absent file.
unfoldable pub boundary_rule : Option Text → Option Text → Result Text Bool
boundary_rule (some parameters) tasks = ok false
boundary_rule none none = ok true
boundary_rule none (some tasks) =
    err (codes "parameters.tsv is not in the records, and tasks.tsv holds tasks")

-- The permission check, the boundary and the step, over a state `W` of the world.
unfoldable pub wrap_boundary :
    {W : Type 0} (name : Text) (permission : W → Step × W)
    → (boundary : W → Result Text (Unit {0}) × W) → (step : W → Step × W) → W
    → Step × W
wrap_boundary name permission boundary step w =
    let (s, w1) = permission w in
    if text_eq s.result (codes "fail")
    then (failf name (codes "forge: " ++ s.detail), w1)
    else let (r, w2) = boundary w1 in
      elim r [
        | err message ↦ (failf name (codes "parameters: " ++ before_byte b'\n' message), w2)
        | ok _ ↦ step w2
      ]
