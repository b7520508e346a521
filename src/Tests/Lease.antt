-- ===== src/Tests/Lease.antt =====
-- Runs of internal/run's lease over a small git, and the theorems about it there.
use layup.Base.{
  ℕ, suc, ◌+◌, ◌*◌, ◌<◌, ◌≡◌, ◌≢◌, ◌⊎◌, ◌∙◌, ◌&&◌, leb, inl, inr, refl, sym, ap, true, false, [],
  ◌∷◌, Option, some, arith, if◌then◌else◌, Result, ok, err, is_ok, Bool-cases,
}
use layup.Text.{Text, codes, text_eq, text_eq_iff}
use layup.Lease.Types.{LeaseRow, Failure, refused, failed, LeaseError, Store, Clock, second, held}
use layup.Lease.Take.{
  claimed, claim_result, claim, lost, takes_over, takes_released, decide, judge, wait, take,
}
use layup.Lease.Fenced.{beat, release}
use layup.Lease.Ends.{take_ends}
use layup.Lease.Taken.{Wrote, take-Wrote}
use layup.Lease.Records.{
  Change, lease, files, removal, check_removals, removed, Git, NewCommits, World, set_store,
  base_of, read_lease, push_commit, commit_files, store_of,
}
use layup.Lease.Fencing.{reads, step, steps, Behind, fenced_out}
use layup.Lease.Beats.{beat-release-Behind}

abbrev row_of : Text → LeaseRow
row_of run = record {
  run = run;
  host = codes "host";
  version = codes "1";
  started = 0;
  heartbeat = 0;
  state = held;
}

-- A commit is a stamp, its writer's first letter, and its base; the branch is its head. The stamp is
-- of the clock, and above each number of the head.
abbrev letter : Change → ℕ
letter (files _) = 0
letter (removal _) = 2
letter (lease row) = elim row.run [ [] ↦ 1 | c ∷ _ ↦ c ]

abbrev letter_lease : Text → Result Failure LeaseRow
letter_lease (_ ∷ c ∷ base) = ok (row_of (c ∷ []))
letter_lease _ = err (failed (codes "lease.tsv"))

abbrev letter_depth : Text → ℕ
letter_depth (_ ∷ _ ∷ base) = suc (letter_depth base)
letter_depth _ = 0

abbrev stamp : Text → ℕ
stamp [] = 1
stamp (c ∷ rest) = 1 + c + stamp rest

abbrev letter_base : Text → Text
letter_base (_ ∷ _ ∷ base) = base
letter_base _ = []

-- The head itself is up to date; a commit on the head is taken.
abbrev letter_push : Text → Text → Result Failure (Unit {0}) × Text
letter_push id tip =
    if text_eq id tip
    then (ok tt, tip)
    else if text_eq (letter_base id) tip && leb (letter_depth tip + 1) (letter_depth id)
    then (ok tt, id)
    else (err refused, tip)

letter_push-ok :
    (id tip : Text)
    → (letter_push id tip).0 ≡ ok tt
    → ((id ≡ tip) ⊎ (letter_depth tip < letter_depth id)) × ((letter_push id tip).1 ≡ id)
letter_push-ok id tip e = elim (Bool-cases (text_eq id tip)) [
  | inl t ↦ let same = (text_eq_iff id tip).0 t in (inl same, rw t (sym same))
  | inr f ↦
      elim (Bool-cases
        (text_eq (letter_base id) tip && leb (letter_depth tip + 1) (letter_depth id))) [
          | inl t ↦ (inr (ground arith), rw (f, t) refl)
          | inr g ↦ absurd (ground arith)
        ]
]

letter_push-refused :
    (id tip : Text) → (letter_push id tip).0 ≡ err refused → (letter_push id tip).1 ≡ tip
letter_push-refused id tip e = ground arith

letter_push-failed :
    (id tip : Text) (t : Text)
    → (letter_push id tip).0 ≡ err (failed t)
    → ((letter_push id tip).1 ≡ tip)
      ⊎ ((letter_depth tip < letter_depth id) × ((letter_push id tip).1 ≡ id))
letter_push-failed id tip t e = absurd (ground arith)

abbrev letters : Git
letters = record {
  Repo = Text;
  tip = λ r. r;
  depth = letter_depth;
  lease_at = letter_lease;
  fetch = λ r. (ok r, r);
  ls_tree = λ base path. ok (record { mode = codes "100644"; kind = codes "blob" } ∷ []);
  make = λ base row message r. (ok (stamp r ∷ letter row ∷ base), r);
  push = letter_push;
  fetch-tip = λ g. refl;
  fetch-ok = λ g e. cc;
  make-tip = λ base row message g. refl;
  make-depth = λ base row message g {id} e.
      let made : stamp g ∷ letter row ∷ base ≡ id = cc in
      (sym (ap letter_depth made), (λ none_there. cc));
  push-ok = letter_push-ok;
  push-refused = letter_push-refused;
  push-failed = λ id g {t} e. letter_push-failed id g t e;
}

stamp-new : (tip rest : Text) → stamp tip ∷ rest ≢ tip
stamp-new [] rest e = cc
stamp-new (c ∷ tip) rest e = let same : stamp (c ∷ tip) ≡ c = cc in omega arith

letters-NewCommits : NewCommits letters
letters-NewCommits base r m g id e same =
    let made : stamp g ∷ letter r ∷ base ≡ id = cc in stamp-new g (letter r ∷ base) (made ∙ same)

-- The runs a and b have read the first commit.
abbrev first_world : World letters
first_world = record {
  repo = 9 ∷ 5 ∷ [];
  stores = λ run. record { pushed = []; read = 9 ∷ 5 ∷ [] };
}

-- Opens all that a run of the store computes with.
store_run : Text → Change → World letters → Result Failure (Unit {0})
unfolding check_removals removed commit_files push_commit base_of set_store read_lease step steps
    text_eq
store_run run row w = (commit_files letters run row [] w).0

abbrev a_row : Change
a_row = lease (row_of (codes "a"))

abbrev b_row : Change
b_row = lease (row_of (codes "b"))

a_taken : is_ok (commit_files letters (codes "a") a_row [] first_world).0 ≡ true
unfolding store_run
a_taken = refl

-- The run b reads, and takes the lease over.
b_taken :
    is_ok
      (commit_files letters (codes "b") b_row [] (
        steps letters
          (reads (codes "b") ∷ [])
          (commit_files letters (codes "a") a_row [] first_world).1)).0
    ≡ true
unfolding store_run
b_taken = refl

fenced_out_example :
    is_ok
      (commit_files letters (codes "a") a_row [] (
        steps letters
          (reads (codes "a") ∷ [])
          (commit_files letters (codes "b") b_row [] (
            steps letters
              (reads (codes "b") ∷ [])
              (commit_files letters (codes "a") a_row [] first_world).1)).1)).0
    ≡ false
fenced_out_example =
    fenced_out letters letters-NewCommits (codes "a") (codes "b") (a_row, []) (b_row, [])
      (a_row, []) first_world (reads (codes "b") ∷ []) (reads (codes "a") ∷ []) (λ x. ground arith)
      a_taken b_taken

-- The run a pushed, then b did.
abbrev behind_world : World letters
behind_world = record {
  repo = 7 ∷ b'b' ∷ 7 ∷ b'a' ∷ 9 ∷ 5 ∷ [];
  stores = λ run. record { pushed = 7 ∷ b'a' ∷ 9 ∷ 5 ∷ []; read = 9 ∷ 5 ∷ [] };
}

behind_world-Behind : Behind letters (codes "a") behind_world
behind_world-Behind = record { pushes = λ x. cc; behind = omega arith }

beat-release-behind_example :
    ((is_ok (beat (store_of letters (codes "a")) (behind_world, row_of (codes "a"))).0 ≡ false)
      × ((beat (store_of letters (codes "a")) (behind_world, row_of (codes "a"))).1.1
          ≡ row_of (codes "a")))
    × ((is_ok (release (store_of letters (codes "a")) (behind_world, row_of (codes "a"))).0 ≡ false)
        × ((release (store_of letters (codes "a")) (behind_world, row_of (codes "a"))).1.1
            ≡ row_of (codes "a")))
beat-release-behind_example =
    beat-release-Behind letters letters-NewCommits (codes "a") behind_world (row_of (codes "a"))
      behind_world-Behind

-- A store whose row is a part of the world, beside the time.
abbrev row_store : Store (ℕ × LeaseRow)
row_store = record {
  read_lease = λ w. (ok w.1, w);
  write_lease = λ row message w. (ok tt, (w.0, row));
}

abbrev row_clock : Clock (ℕ × LeaseRow)
row_clock = record { now = λ w. w.0; sleep = λ d w. (ok tt, (w.0 + d, w.1)) }

take_ends_example :
    (o : Result LeaseError LeaseRow × (ℕ × LeaseRow)) × (take row_store row_clock 19
        (row_of (codes "b"))
        (60 * second)
        (0, row_of (codes "a"))
      ≡ some o)
take_ends_example =
    take_ends row_store row_clock (λ d w e. omega arith) (λ w. omega arith) 19 (row_of (codes "b"))
      (60 * second) (0, row_of (codes "a")) (omega arith)

-- Opens all that `Take` computes with.
take_run : ℕ → ℕ × LeaseRow → Option (Result LeaseError LeaseRow × (ℕ × LeaseRow))
unfolding take wait judge decide claim claim_result claimed lost takes_over takes_released text_eq
take_run fuel w = take row_store row_clock fuel (row_of (codes "b")) second w

taken_over :
    take row_store row_clock 5 (row_of (codes "b")) second (0, row_of (codes "a"))
    ≡ some (
      ok (record (row_of (codes "b")) { started = 10 * second }),
      (10 * second, record (row_of (codes "b")) { started = 10 * second }),
    )
unfolding take_run
taken_over = refl

take-Wrote_example :
    Wrote row_store row_clock
      (row_of (codes "b"))
      (record (row_of (codes "b")) { started = 10 * second })
      (10 * second, record (row_of (codes "b")) { started = 10 * second })
take-Wrote_example =
    take-Wrote row_store row_clock 5 (row_of (codes "b")) second (0, row_of (codes "a")) taken_over
