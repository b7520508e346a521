-- ===== src/Loop/Order.antt =====
-- internal/run/loop.go: `mergeOrder` and `pick`. A loop of the source is a function of its own over
-- the variables that it changes.
use layup.Base.{
  Bool, true, false, not, ◌&&◌, List, [], ◌∷◌, ◌++◌, Option, none, some, if◌then◌else◌, Result, ok,
  err, ◌>>=◌,
}
use layup.Text.{Text, codes, text_eq}
use layup.Loop.Types.{Task, Reopening}

-- `reopenedTasks`, as the list that it is asked for.
unfoldable pub reopened : List Reopening → Text → Bool
reopened [] id = false
reopened (r ∷ rows) id = if text_eq r.task id then true else reopened rows id

abbrev pub is_specification : Task → Bool
is_specification t = text_eq t.kind (codes "specification")

abbrev pub is_architecture : Task → Bool
is_architecture t = text_eq t.kind (codes "architecture")

-- `originalSpec`.
unfoldable pub original_spec : List Reopening → Task → Bool
original_spec rows t = is_specification t && not (reopened rows t.id)

-- The variables of `mergeOrder` over its first loop.
pub record Sorted : Type 0 where
  pub spec_task : Option Task
  pub shape : Option Task
  pub bet : List Task

unfoldable pub add_spec : Task → Sorted → Result Text Sorted
add_spec t s = elim s.spec_task [
  | some first ↦
      err (t.id ++ codes ": a second specification task that spec/reopenings.tsv does not name")
  | none ↦ ok (record s { spec_task = some t })
]

unfoldable pub add_architecture : Task → Sorted → Sorted
add_architecture t s = elim s.shape [
  | none ↦ record s { shape = some t }
  | some first ↦ record s { bet = s.bet ++ (t ∷ []) }
]

-- The `switch` of the first loop.
unfoldable pub sort_task : List Reopening → Task → Sorted → Result Text Sorted
sort_task rows t s =
    if text_eq t.kind (codes "rendered")
    then err (t.id ++ codes ": the kind rendered is not run in M2e (row 66t's, M2g)")
    else if not (is_specification t) && not (is_architecture t)
    then err (t.id ++ codes ": the kind " ++ t.kind ++ codes " is not run in M2e")
    else if is_specification t && reopened rows t.id
    then ok s
    else if is_specification t
    then add_spec t s
    else ok (add_architecture t s)

unfoldable pub sort_tasks : List Reopening → List Task → Sorted → Result Text Sorted
sort_tasks rows [] s = ok s
sort_tasks rows (t ∷ register) s = sort_task rows t s >>= λ s'. sort_tasks rows register s'

-- `slices.IndexFunc` with the read of the register behind it.
unfoldable pub find_spec : Text → List Task → Option Task
find_spec id [] = none
find_spec id (t ∷ register) =
    if text_eq t.id id && is_specification t then some t else find_spec id register

-- The second loop: the reopened tasks, in the order of their rows.
unfoldable pub reopened_order : List Task → List Reopening → List Task
reopened_order register [] = []
reopened_order register (r ∷ rows) = elim (find_spec r.task register) [
  | some t ↦ t ∷ reopened_order register rows
  | none ↦ reopened_order register rows
]

unfoldable pub shape_list : Option Task → List Task
shape_list none = []
shape_list (some t) = t ∷ []

unfoldable pub finish_order : List Task → List Reopening → Sorted → Result Text (List Task)
finish_order register rows s = elim s.spec_task [
  | none ↦ err (codes "the register holds no specification task")
  | some t ↦ ok (t ∷ (reopened_order register rows ++ (shape_list s.shape ++ s.bet)))
]

abbrev pub nothing_sorted : Sorted
nothing_sorted = record { spec_task = none; shape = none; bet = [] }

unfoldable pub merge_order : List Task → List Reopening → Result Text (List Task)
merge_order register rows =
    sort_tasks rows register nothing_sorted >>= λ s. finish_order register rows s

-- The first predecessor that has not merged.
unfoldable pub missing_predecessor : (Text → Bool) → List Text → Option Text
missing_predecessor merged [] = none
missing_predecessor merged (p ∷ ps) = if merged p then missing_predecessor merged ps else some p

unfoldable pub pick_task : (Text → Bool) → Task → Result Text (Option Task)
pick_task merged t = elim (missing_predecessor merged t.predecessors) [
  | some p ↦ err (t.id ++ codes ": its predecessor " ++ p ++ codes " has not merged")
  | none ↦ ok (some t)
]

unfoldable pub pick : List Task → (Text → Bool) → Result Text (Option Task)
pick [] merged = ok none
pick (t ∷ order) merged = if merged t.id then pick order merged else pick_task merged t
