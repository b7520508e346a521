-- ===== src/Records/History.antt =====
-- The rows of one stall in a record that internal/records takes: an automaton of each stall alone.
use layup.Base.{
  ℕ, suc, ◌≤◌, ◌≡◌, ◌≢◌, ◌⊎◌, inl, inr, refl, sym, ◌∙◌, ap, true, false, List, [], ◌∷◌, Option,
  none, some, ltb, if◌then◌else◌, ok, arith, Bool-cases, Option-cases, Result-cases,
}
use mathlib.Core.Path.{subst}
use layup.Text.{Text, codes, text_eq, text_eq_iff}
use layup.Text.Numbers.{number_from, number-decimal_text}
use layup.Records.Stalls.{
  Stall, StallRow, Stalls, stall_id, text_ltb, set_stall, check_follow, check_one, check_order,
  rows_of, check_stalls,
}

-- An ID without "ST-".
cut_id : Text → Text
cut_id (_ ∷ _ ∷ _ ∷ t) = t
cut_id _ = []

number-stall_id : (n : ℕ) → number_from 0 (cut_id (stall_id n)) ≡ n
unfolding stall_id cut_id number_from
number-stall_id n = elim (Bool-cases (ltb n 10)) [
  | inl t ↦ rw t (number-decimal_text n)
  | inr t ↦ rw t (elim (Bool-cases (ltb n 100)) [
    | inl u ↦ rw u (number-decimal_text n)
    | inr u ↦ rw u (number-decimal_text n)
  ])
]

-- Different numbers have different IDs.
stall_id-inj : (m n : ℕ) → stall_id m ≡ stall_id n → m ≡ n
stall_id-inj m n e =
    sym (number-stall_id m) ∙ ap (λ t. number_from 0 (cut_id t)) e ∙ number-stall_id n

-- What a later row of a known stall is: it names the task, it is not before the row before it, and it is
-- the one diagnosis, or an outcome after it.
pub record IsLater (s : Stall) (r : StallRow) : Type 0 where
  pub names_task : r.task ≡ s.task
  pub in_time : text_ltb r.time s.last ≡ false
  pub not_stall : r.kind ≢ codes "stall"
  pub diagnosis : s.second ≡ false → r.kind ≢ codes "outcome"
  pub outcome : s.second ≡ true → r.kind ≡ codes "outcome"

-- The rows of one stall: its stall row, at most one diagnosis or diagnosis-failed row, then outcomes.
pub data History : Option Stall → List StallRow → Type 0 where
  ended : {s : Option Stall} → History s []
  opened :
      {r : StallRow} {rows : List StallRow}
      → r.kind ≡ codes "stall"
      → History (some (record { task = r.task; last = r.time; second = false })) rows
      → History none (r ∷ rows)
  went_on :
      {s : Stall} {r : StallRow} {rows : List StallRow}
      → IsLater s r
      → History (some (record s { second = true; last = r.time })) rows
      → History (some s) (r ∷ rows)

-- The rows of an ID, in their order.
unfoldable pub of_stall : Text → List StallRow → List StallRow
of_stall id [] = []
of_stall id (r ∷ rows) = let rest = of_stall id rows in if text_eq r.id id then r ∷ rest else rest

-- No stall of a number from `next` on is known.
Fresh : Stalls → ℕ → Type 0
Fresh stalls next = (k : ℕ) → next ≤ k → stalls (stall_id k) ≡ none

check_follow-IsLater :
    (r : StallRow) (s s' : Stall)
    → r.kind ≢ codes "stall"
    → check_follow r s ≡ ok s'
    → IsLater s r × (s' ≡ record s { second = true; last = r.time })
unfolding check_follow
check_follow-IsLater r s s' n e =
    let task = text_eq_iff r.task s.task in
    let kind = text_eq_iff r.kind (codes "outcome") in
    (
      record {
        names_task = ground arith;
        in_time = ground arith;
        not_stall = n;
        diagnosis = λ f x. ground arith;
        outcome = λ t. ground arith;
      },
      ground arith,
    )

set_stall-same : (id : Text) (s : Stall) (stalls : Stalls) → set_stall id s stalls id ≡ some s
unfolding set_stall
set_stall-same id s stalls = let self = (text_eq_iff id id).1 refl in rw self refl

set_stall-other :
    (id other : Text) (s : Stall) (stalls : Stalls)
    → other ≢ id
    → set_stall id s stalls other ≡ stalls other
unfolding set_stall
set_stall-other id other s stalls n = let iff = text_eq_iff other id in ground arith

-- What `check_one` takes, and what it makes of it.
check_one_cases :
    (r : StallRow) (stalls stalls' : Stalls) (next next' : ℕ)
    → check_one r stalls next ≡ ok (stalls', next')
    → ((r.kind ≡ codes "stall")
        × (r.id ≡ stall_id next)
        × (stalls'
            ≡ set_stall r.id (record { task = r.task; last = r.time; second = false }) stalls)
        × (next' ≡ suc next))
      ⊎ ((s : Stall) × (stalls r.id ≡ some s)
          × IsLater s r
          × (stalls' ≡ set_stall r.id (record s { second = true; last = r.time }) stalls)
          × (next' ≡ next))
unfolding check_one
check_one_cases r stalls stalls' next next' e =
    let kind = text_eq_iff r.kind (codes "stall") in
    let id = text_eq_iff r.id (stall_id next) in
    elim (Bool-cases (text_eq r.kind (codes "stall"))) [
      | inl t ↦ inl (kind.0 t, ground arith, ground arith, ground arith)
      | inr t ↦ elim (Option-cases (stalls r.id)) [
        | inl o ↦ absurd (ground arith)
        | inr (s, o) ↦ elim (Result-cases (check_follow r s)) [
          | inr (f, c) ↦ absurd (ground arith)
          | inl (s', c) ↦
              let (later, made) = check_follow-IsLater r s s' (λ x. cc (kind.1 x, t)) c in
              inr (s, o, later, ground arith, ground arith)
        ]
      ]
    ]

Fresh-opened :
    (id : Text) (s : Stall) (stalls : Stalls) (next : ℕ)
    → Fresh stalls next
    → id ≡ stall_id next
    → Fresh (set_stall id s stalls) (suc next)
unfolding Fresh
Fresh-opened id s stalls next fresh named k h =
    set_stall-other id (stall_id k) s stalls
      (λ x. let same = stall_id-inj k next (x ∙ named) in absurd (omega arith))
    ∙ fresh k (omega arith)

Fresh-went_on :
    (id : Text) (s s' : Stall) (stalls : Stalls) (next : ℕ)
    → Fresh stalls next
    → stalls id ≡ some s
    → Fresh (set_stall id s' stalls) next
unfolding Fresh
Fresh-went_on id s s' stalls next fresh known k h =
    set_stall-other id (stall_id k) s' stalls
      (λ x. let nothing : stalls id ≡ none = ap stalls (sym x) ∙ fresh k h in cc (known, nothing))
    ∙ fresh k h

-- A row and its new state, before the history of the rows after it.
History-cons :
    (id : Text) (r : StallRow) (rows : List StallRow) (s : Stall) (stalls : Stalls)
    → (History (some s) (of_stall r.id rows) → History (stalls r.id) (r ∷ of_stall r.id rows))
    → History (set_stall r.id s stalls id) (of_stall id rows)
    → History (stalls id) (of_stall id (r ∷ rows))
unfolding of_stall
History-cons id r rows s stalls extend ih = elim (Bool-cases (text_eq r.id id)) [
  | inl t ↦
      let same = (text_eq_iff r.id id).0 t in
      let at_r : History (set_stall r.id s stalls r.id) (of_stall r.id rows) =
        subst (λ x. History (set_stall r.id s stalls x) (of_stall x rows)) (sym same) ih in
      let tail : History (some s) (of_stall r.id rows) =
        rw (set_stall-same r.id s stalls) at at_r in
      rw t (subst (λ x. History (stalls x) (r ∷ of_stall x rows)) same (extend tail))
  | inr t ↦
      let other = set_stall-other r.id id s stalls (λ x. cc ((text_eq_iff r.id id).1 (sym x), t)) in
      rw t (rw other at ih)
]

check_order-History :
    (line : ℕ) (stalls : Stalls) (next : ℕ) (rows : List StallRow)
    → Fresh stalls next
    → check_order line stalls next rows ≡ ok tt
    → (id : Text) → History (stalls id) (of_stall id rows)
unfolding check_order of_stall Fresh
check_order-History line stalls next [] fresh e id = ended
check_order-History line stalls next (r ∷ rows) fresh e id =
    elim (Result-cases (check_one r stalls next)) [
      | inr (f, c) ↦ absurd (ground arith)
      | inl ((stalls', next'), c) ↦
          let rest : check_order (suc line) stalls' next' rows ≡ ok tt = ground arith in
          elim (check_one_cases r stalls stalls' next next' c) [
            | inl (kind, named, made, moved) ↦
                let still : Fresh stalls' next' =
                  rw (made, moved) (Fresh-opened r.id _ stalls next fresh named) in
                let ih = check_order-History (suc line) stalls' next' rows still rest id in
                History-cons id r rows _ stalls
                  (λ h.
                    let unknown : stalls r.id ≡ none = ap stalls named ∙ fresh next (omega arith) in
                    rw unknown (opened kind h))
                  (rw made at ih)
            | inr (s, known, later, made, moved) ↦
                let still : Fresh stalls' next' =
                  rw (made, moved) (Fresh-went_on r.id s _ stalls next fresh known) in
                let ih = check_order-History (suc line) stalls' next' rows still rest id in
                History-cons id r rows _ stalls (λ h. rw known (went_on later h)) (rw made at ih)
          ]
    ]

-- In the rows that `CheckStalls` takes, those of any ID are the history of one stall: first its stall
-- row, then at most one diagnosis or diagnosis-failed row, then outcomes, each with the task of the
-- stall row and not before the row before it.
pub check_stalls-History :
    (rows : List (List Text))
    → check_stalls rows ≡ ok tt
    → (id : Text) → History none (of_stall id (rows_of rows))
unfolding check_stalls Fresh
check_stalls-History rows e = check_order-History 2 (λ id. none) 1 (rows_of rows) (λ k h. refl) e
