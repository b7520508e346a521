-- ===== src/Loop/Splitting.antt =====
-- internal/run/loop.go: how the first loop of `mergeOrder` sorts the register.
use mathlib.Core.Path.{subst}
use mathlib.Core.List.{append-nil, append_assoc}
use layup.Base.{
  ◌≤◌, ◌≡◌, ◌⊎◌, inl, inr, refl, sym, ap, ◌∙◌, Bool, true, false, List, [], ◌∷◌, ◌++◌, Option, none,
  some, arith, if◌then◌else◌, length, length-append, All, ok, Bool-cases, Option-cases, >>=-eq-ok,
}
use layup.Text.{codes, text_eq, text_eq_iff}
use layup.Loop.Types.{Task, Reopening}
use layup.Loop.Order.{
  is_specification, is_architecture, original_spec, reopened, Sorted, add_spec, add_architecture,
  sort_task, sort_tasks, shape_list,
}

-- The tasks that meet a test, in their order.
abbrev pub only : (Task → Bool) → List Task → List Task
only p [] = []
only p (t ∷ ts) = (if p t then t ∷ [] else []) ++ only p ts

-- A kind that the loop runs.
abbrev pub Runs : Task → Type 0
Runs t = (is_specification t ≡ true) ⊎ (is_architecture t ≡ true)

spec-not_architecture : (t : Task) → is_specification t ≡ true → is_architecture t ≡ false
unfolding text_eq
spec-not_architecture t h =
    let e : t.kind ≡ codes "specification" = (text_eq_iff t.kind (codes "specification")).0 h in
    ap (λ k. text_eq k (codes "architecture")) e

run-not_rendered : (t : Task) → Runs t → text_eq t.kind (codes "rendered") ≡ false
unfolding text_eq
run-not_rendered t (inl h) =
    ap (λ k. text_eq k (codes "rendered")) ((text_eq_iff t.kind (codes "specification")).0 h)
run-not_rendered t (inr h) =
    ap (λ k. text_eq k (codes "rendered")) ((text_eq_iff t.kind (codes "architecture")).0 h)

-- The architecture tasks that were seen; there is none of the bet while there is none of Shape.
abbrev pub seen : Sorted → List Task
seen s = shape_list s.shape ++ s.bet

abbrev pub HasShape : Sorted → Type 0
HasShape s = (s.bet ≡ []) ⊎ ((t : Task) × (s.shape ≡ some t))

-- What a task adds to the lists.
record Added (rows : List Reopening) (t : Task) (s s' : Sorted) : Type 0 where
  runs : Runs t
  has_shape : HasShape s'
  specs :
      shape_list s'.spec_task
      ≡ shape_list s.spec_task ++ (if original_spec rows t then t ∷ [] else [])
  architectures : seen s' ≡ seen s ++ (if is_architecture t then t ∷ [] else [])

add_architecture-seen :
    (t : Task) (s : Sorted)
    → HasShape s
    → HasShape (add_architecture t s) × (seen (add_architecture t s) ≡ seen s ++ (t ∷ []))
unfolding add_architecture shape_list
add_architecture-seen t s h = elim (Option-cases s.shape) [
  | inr (u, e) ↦ (inr (u, ground arith), ground arith)
  | inl e ↦ elim h [ inl none_yet ↦ (inr (t, ground arith), ground arith) | inr (u, e') ↦ cc ]
]

add_architecture-spec_task :
    (t : Task) (s : Sorted) → (add_architecture t s).spec_task ≡ s.spec_task
unfolding add_architecture
add_architecture-spec_task t s = ground arith

sort_task-Added :
    (rows : List Reopening) (t : Task) (s s' : Sorted)
    → HasShape s
    → sort_task rows t s ≡ ok s'
    → Added rows t s s'
unfolding sort_task original_spec add_spec shape_list
sort_task-Added rows t s s' h e = elim (Bool-cases (is_specification t)) [
  | inl spec ↦ elim (Bool-cases (reopened rows t.id)) [
    | inl again ↦
        let same : s ≡ s' = ground (arith, run-not_rendered t (inl spec)) in
        subst (Added rows t s) same (record {
          runs = inl spec;
          has_shape = h;
          specs = ground (arith, append-nil (shape_list s.spec_task));
          architectures = ground (arith, append-nil (seen s), spec-not_architecture t spec);
        })
    | inr first ↦ elim (Option-cases s.spec_task) [
      | inl fresh ↦
          let same : record s { spec_task = some t } ≡ s' =
            ground (arith, run-not_rendered t (inl spec)) in
          subst (Added rows t s) same (record {
            runs = inl spec;
            has_shape = h;
            specs = ground arith;
            architectures = ground (arith, append-nil (seen s), spec-not_architecture t spec);
          })
      | inr (u, had) ↦ absurd (ground (arith, run-not_rendered t (inl spec)))
    ]
  ]
  | inr other ↦ elim (Bool-cases (is_architecture t)) [
    | inl arch ↦
        let same : add_architecture t s ≡ s' = ground (arith, run-not_rendered t (inr arch)) in
        let (shaped, more) = add_architecture-seen t s h in
        subst (Added rows t s) same (record {
          runs = inr arch;
          has_shape = shaped;
          specs =
              ground (arith, add_architecture-spec_task t s, append-nil (shape_list s.spec_task));
          architectures = ground arith;
        })
    | inr neither ↦ absurd (ground arith)
  ]
]

regroup : (a b c xs : List Task) → b ≡ a ++ c → b ++ xs ≡ a ++ (c ++ xs)
regroup a b c xs e = ap (λ z. z ++ xs) e ∙ append_assoc a c xs

-- What a register adds to the lists.
pub record Split (rows : List Reopening) (ts : List Task) (s s' : Sorted) : Type 0 where
  pub runs : All Runs ts
  pub specs : shape_list s'.spec_task ≡ shape_list s.spec_task ++ only (original_spec rows) ts
  pub architectures : seen s' ≡ seen s ++ only is_architecture ts

pub sort_tasks-Split :
    (rows : List Reopening) (ts : List Task) (s s' : Sorted)
    → HasShape s
    → sort_tasks rows ts s ≡ ok s'
    → Split rows ts s s'
unfolding sort_tasks
sort_tasks-Split rows [] s s' h e =
    let same : s ≡ s' = cc in
    subst (Split rows [] s) same (record {
      runs = tt;
      specs = sym (append-nil (shape_list s.spec_task));
      architectures = sym (append-nil (seen s));
    })
sort_tasks-Split rows (t ∷ ts) s s' h e =
    let (mid, p, q) = >>=-eq-ok (sort_task rows t s) (λ z. sort_tasks rows ts z) e in
    let one = sort_task-Added rows t s mid h p in
    let more = sort_tasks-Split rows ts mid s' one.has_shape q in
    record {
      runs = (one.runs, more.runs);
      specs = more.specs ∙ regroup (shape_list s.spec_task) _ _ _ one.specs;
      architectures = more.architectures ∙ regroup (seen s) _ _ _ one.architectures;
    }

length-shape_list : (o : Option Task) → length (shape_list o) ≤ 1
unfolding shape_list
length-shape_list none = omega arith
length-shape_list (some t) = omega arith

sort_task-total :
    (rows : List Reopening) (t : Task) (s : Sorted)
    → Runs t
    → length (shape_list s.spec_task ++ (if original_spec rows t then t ∷ [] else [])) ≤ 1
    → (s' : Sorted) × (sort_task rows t s ≡ ok s')
unfolding sort_task original_spec add_spec shape_list
sort_task-total rows t s r few = elim (Bool-cases (is_specification t)) [
  | inr other ↦ elim r [
    | inl spec ↦ cc
    | inr arch ↦ (add_architecture t s, ground (arith, run-not_rendered t (inr arch)))
  ]
  | inl spec ↦ elim (Bool-cases (reopened rows t.id)) [
    | inl again ↦ (s, ground (arith, run-not_rendered t r))
    | inr first ↦ elim (Option-cases s.spec_task) [
      | inl fresh ↦ (record s { spec_task = some t }, ground (arith, run-not_rendered t r))
      | inr (u, had) ↦ absurd (ground arith)
    ]
  ]
]

-- A register of kinds that the loop runs, with one original specification at most, is sorted.
pub sort_tasks-total :
    (rows : List Reopening) (ts : List Task) (s : Sorted)
    → HasShape s
    → All Runs ts
    → length (shape_list s.spec_task ++ only (original_spec rows) ts) ≤ 1
    → (s' : Sorted) × (sort_tasks rows ts s ≡ ok s')
unfolding sort_tasks
sort_tasks-total rows [] s h r few = (s, refl)
sort_tasks-total rows (t ∷ ts) s h r few =
    let a = shape_list s.spec_task in
    let c : List Task = if original_spec rows t then t ∷ [] else [] in
    let xs = only (original_spec rows) ts in
    let sizes = length-append a (c ++ xs) in
    let (mid, p) =
      sort_task-total rows t s r.0
        (omega (arith, few, length-append a (c ++ xs), length-append c xs, length-append a c)) in
    let one = sort_task-Added rows t s mid h p in
    let fits = subst (λ z. length z ≤ 1) (sym (regroup a _ c xs one.specs)) few in
    let (s', q) = sort_tasks-total rows ts mid one.has_shape r.1 fits in (s', rw (sort_tasks, p) q)
