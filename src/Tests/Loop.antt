-- ===== src/Tests/Loop.antt =====
-- Runs of internal/run's step loop over a world that is the list of the merged tasks, and the
-- theorems about it there.
use layup.Base.{
  ◌+◌, ◌≡◌, ◌≤◌, refl, Bool, true, false, not, ◌&&◌, List, [], ◌∷◌, some, arith, length, ok,
}
use layup.Text.{Text, codes, text_eq, member}
use layup.Loop.Types.{Task, Reopening, Step, Advance, done}
use layup.Loop.Order.{
  reopened, original_spec, add_spec, add_architecture, sort_task, sort_tasks, find_spec,
  reopened_order, shape_list, finish_order, merge_order, missing_predecessor, pick_task, pick,
}
use layup.Loop.Running.{
  LoopEnv, start, loop, join_comma, end_step, put, to_open, progress, read_merged, judge, act_on,
  act_behind_boundary, turn, take_picked, choose, pass, run_loop,
}
use layup.Loop.Counted.{run_loop_ends}
use layup.Loop.Guarded.{Due, run_loop-Due}

abbrev task_of : Text → Text → List Text → Task
task_of id kind predecessors = record {
  id = id;
  issue = 1;
  kind = kind;
  requirements = [];
  size = [];
  predecessors = predecessors;
  pr = 0;
  opened = 0;
}

abbrev spec_1 : Task
spec_1 = task_of (codes "T-0001") (codes "specification") []

abbrev arch_2 : Task
arch_2 = task_of (codes "T-0002") (codes "architecture") (codes "T-0001" ∷ [])

abbrev spec_3 : Task
spec_3 = task_of (codes "T-0003") (codes "specification") (codes "T-0001" ∷ [])

abbrev arch_4 : Task
arch_4 = task_of (codes "T-0004") (codes "architecture") (codes "T-0003" ∷ [])

abbrev small_register : List Task
small_register = arch_2 ∷ spec_1 ∷ arch_4 ∷ spec_3 ∷ []

-- The task T-0003 was reopened.
abbrev small_rows : List Reopening
small_rows =
    record {
      n = codes "1";
      fact = codes "F-001";
      reclassed = codes "need";
      token = codes "t";
      requirement = codes "REQ-001";
      task = codes "T-0003";
      copy = codes "1";
    }
    ∷ []

abbrev small_order : List Task
small_order = spec_1 ∷ spec_3 ∷ arch_2 ∷ arch_4 ∷ []

small_merge_order : merge_order small_register small_rows ≡ ok small_order
unfolding merge_order sort_tasks sort_task reopened original_spec add_spec add_architecture
    finish_order reopened_order find_spec shape_list text_eq
small_merge_order = refl

abbrev merged_advance : Text → Advance
merged_advance id = record {
  task = id;
  verified = false;
  merged = true;
  head = codes "abc";
  attempt = 0;
  waiting = [];
  stop = [];
  replaced = [];
}

-- The world is the list of the IDs that have merged.
abbrev list_env : LoopEnv (List Text)
list_env = record {
  register = λ w. ok small_register;
  reopenings = λ w. ok small_rows;
  merged = λ id w. ok (member id w);
  open_reopenings = λ id w. (ok tt, w);
  boundary = λ w. (ok tt, w);
  act = λ t original w. (ok (merged_advance t.id), t.id ∷ w);
  position = λ t w. ok [];
}

run_loop_ends_example :
    (o : Step × List Text) × (run_loop list_env 203 start (codes "T-0001" ∷ []) ≡ some o)
    × (length o.1 ≤ 1 + 201)
run_loop_ends_example =
    run_loop_ends list_env length (λ id w. refl) (λ w. refl) (λ t original w. refl)
      (codes "T-0001" ∷ [])

abbrev distinct : List Text → Bool
distinct [] = true
distinct (id ∷ ids) = not (member id ids) && distinct ids

abbrev Once : List Text → Type 0
Once w = distinct w ≡ true

Once-act :
    (t : Task) (original : Bool) (w : List Text) → Due list_env t w → Once w → Once (t.id ∷ w)
Once-act t original w due p = ground arith

abbrev end_world : List Text
end_world = codes "T-0004" ∷ codes "T-0002" ∷ codes "T-0003" ∷ codes "T-0001" ∷ []

small_run :
    run_loop list_env 203 start []
    ≡ some (done loop (codes "the loop merged T-0001, T-0003, T-0002, T-0004"), end_world)
unfolding run_loop pass read_merged choose take_picked turn act_behind_boundary act_on judge
    progress to_open end_step join_comma put pick pick_task missing_predecessor merge_order
    sort_tasks sort_task reopened original_spec add_spec add_architecture finish_order
    reopened_order find_spec shape_list text_eq done
small_run = refl

run_loop-Due_example : Once end_world
run_loop-Due_example =
    run_loop-Due list_env Once (λ id w p. p) (λ w p. p) (λ id w. refl) Once-act 203 start [] refl
      small_run
