-- ===== src/Lease/Beats.antt =====
-- internal/run/lease.go over store.go: a heartbeat or a release of a run that another run overtook.
use layup.Base.{◌≡◌, inl, inr, refl, ◌∙◌, ap, false, not, ◌||◌, is_ok, Bool-cases, Result-cases}
use layup.Text.{Text, text_eq}
use layup.Lease.Types.{LeaseRow, refused, failed, held}
use layup.Lease.Fenced.{second_try, fenced, write_row, put_world, world_of, beat, release}
use layup.Lease.Records.{lease, Git, NewCommits, World, read_lease, commit_files, store_of}
use layup.Lease.Fencing.{reads, commits, step, Behind, commit_files-Behind, step-Behind}

module _ (git : Git) (new : NewCommits git) (x : Text) (change : LeaseRow → LeaseRow)
    (message : LeaseRow → Text) where
  write_row-Behind :
      (w : World git) (mine : LeaseRow)
      → Behind git x w
      → (is_ok (write_row (store_of git x) change message (w, mine)).0 ≡ false)
        × ((write_row (store_of git x) change message (w, mine)).1.1 ≡ mine)
        × Behind git x (write_row (store_of git x) change message (w, mine)).1.0
  unfolding write_row
  write_row-Behind w mine b =
      let stuck = commit_files-Behind git new x (lease (change mine)) (message (change mine)) w b in
      let still : Behind git x
          (commit_files git x (lease (change mine)) (message (change mine)) w).1 =
        unfold step in
        step-Behind git new x (commits x (lease (change mine)) (message (change mine))) w b in
      elim (Result-cases (commit_files git x (lease (change mine)) (message (change mine)) w).0) [
        | inl (u, e) ↦ absurd (cc (stuck, ap is_ok e))
        | inr (e, f) ↦ rw (f, write_row) (refl, refl, still)
      ]

  second_try-Behind :
      (w : World git) (mine : LeaseRow)
      → Behind git x w
      → (is_ok
            (second_try
              (store_of git x)
              world_of
              put_world
              (write_row (store_of git x) change message)
              (w, mine)).0
          ≡ false)
        × ((second_try
              (store_of git x)
              world_of
              put_world
              (write_row (store_of git x) change message)
              (w, mine)).1.1
            ≡ mine)
  unfolding second_try
  second_try-Behind w mine b =
      let (stuck, same, still) = write_row-Behind w mine b in
      elim (Result-cases (write_row (store_of git x) change message (w, mine)).0) [
        | inl (u, e) ↦ absurd (cc (stuck, ap is_ok e))
        | inr (refused, e) ↦ rw (e, second_try) (refl, same)
        | inr (failed t, e) ↦ rw (e, second_try) (refl, same)
      ]

  fenced-Behind :
      (run : Text) (w : World git) (mine : LeaseRow)
      → Behind git x w
      → (is_ok
            (fenced
              (store_of git x)
              world_of
              put_world
              run
              (write_row (store_of git x) change message)
              (w, mine)).0
          ≡ false)
        × ((fenced
              (store_of git x)
              world_of
              put_world
              run
              (write_row (store_of git x) change message)
              (w, mine)).1.1
            ≡ mine)
  unfolding fenced
  fenced-Behind run w mine b =
      let (stuck, same, still) = write_row-Behind w mine b in
      elim (Result-cases (write_row (store_of git x) change message (w, mine)).0) [
        | inl (u, e) ↦ absurd (cc (stuck, ap is_ok e))
        | inr (refused, e) ↦
            elim (Result-cases
              ((store_of git x).read_lease
                (write_row (store_of git x) change message (w, mine)).1.0).0) [
                  | inr (f, r) ↦ rw (e, fenced, r) (refl, same)
                  | inl (row, r) ↦
                      elim (Bool-cases
                        (not (text_eq row.run run) || not (text_eq row.state held))) [
                          | inl t ↦ rw (e, fenced, r, t) (refl, same)
                          | inr t ↦
                              let after = (write_row (store_of git x) change message (w, mine)).1 in
                              let read_on : Behind git x (read_lease git x after.0).1 =
                                unfold step in step-Behind git new x (reads x) after.0 still in
                              let (a, kept) =
                                second_try-Behind (read_lease git x after.0).1 after.1 read_on in
                              rw (e, fenced, r, t) (a, kept ∙ same)
                        ]
                ]
        | inr (failed t, e) ↦ rw (e, fenced) (refl, same)
      ]

-- Where no commit that is made is the head of the records branch already, a run that is behind the
-- branch neither beats nor gives its lease back: both end with an error, and the run's own row stays
-- as it was.
pub beat-release-Behind :
    (git : Git) (new : NewCommits git) (x : Text) (w : World git) (mine : LeaseRow)
    → Behind git x w
    → ((is_ok (beat (store_of git x) (w, mine)).0 ≡ false)
        × ((beat (store_of git x) (w, mine)).1.1 ≡ mine))
      × ((is_ok (release (store_of git x) (w, mine)).0 ≡ false)
          × ((release (store_of git x) (w, mine)).1.1 ≡ mine))
unfolding beat release
beat-release-Behind git new x w mine b =
    (fenced-Behind git new x _ _ mine.run w mine b, fenced-Behind git new x _ _ mine.run w mine b)
