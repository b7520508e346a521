-- ===== src/Loop/Merging.antt =====
-- internal/run/loop.go: which order `mergeOrder` gives, and when.
use layup.Base.{◌≡◌, List, [], ◌∷◌, ◌++◌, All}
use layup.Loop.Types.{Task, Reopening}
use layup.Loop.Order.{is_architecture, original_spec, reopened_order}
use layup.Loop.Splitting.{only, Runs}

-- The order that the loop merges in: the original specification, the reopened ones by their rows,
-- and the architecture tasks as the register has them.
abbrev pub ordered : List Task → List Reopening → Task → List Task
ordered register rows t = t ∷ (reopened_order register rows ++ only is_architecture register)

abbrev pub HasOrder : List Task → List Reopening → List Task → Type 0
HasOrder register rows order =
    All Runs register
    × ((t : Task) × (only (original_spec rows) register ≡ t ∷ [])
        × (order ≡ ordered register rows t))
