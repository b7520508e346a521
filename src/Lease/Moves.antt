-- ===== src/Lease/Moves.antt =====
-- internal/run/store.go: what a records commit changes, and what a read does.
use layup.Base.{
  suc, ◌<◌, ◌≤◌, ◌≡◌, ◌≢◌, ◌⊎◌, inl, inr, refl, sym, ap, true, false, [], ◌∷◌, is_empty, Result, ok,
  err, is_ok, arith, Bool-cases, Result-cases,
}
use layup.Text.{Text, text_eq, text_eq_iff}
use layup.Lease.Types.{Failure, refused, failed}
use layup.Lease.Records.{
  Change, check_removals, removed, Git, NewCommits, RecordsStore, World, set_store, base_of,
  read_lease, push_commit, commit_files,
}

module _ (git : Git) where
  -- What a commit of a run does: the head stays or gets deeper, and the store of the run alone may
  -- change, when the commit is taken: then it is the head, and one deeper than its base.
  pub record Moves (run : Text) (w : World git) (r : Result Failure (Unit {0})) (w' : World git)
      : Type 0 where
    pub deeper : git.depth (git.tip w.repo) ≤ git.depth (git.tip w'.repo)
    pub others : (other : Text) → other ≢ run → w'.stores other ≡ w.stores other
    pub not_taken : is_ok r ≡ false → w'.stores run ≡ w.stores run
    pub taken :
        is_ok r ≡ true
        → ((w'.stores run).pushed ≡ git.tip w'.repo)
          × ((w'.stores run).pushed ≢ [])
          × (git.depth (git.tip w'.repo) ≡ suc (git.depth (base_of git (w.stores run))))
          × (git.depth (git.tip w.repo) < git.depth (git.tip w'.repo))

  kept :
      (run : Text) (w : World git) (e : Failure) (repo : git.Repo)
      → git.depth (git.tip w.repo) ≤ git.depth (git.tip repo)
      → Moves run w (err e) (record w { repo = repo })
  kept run w e repo h = record {
    deeper = h;
    others = λ other n. refl;
    not_taken = λ f. refl;
    taken = λ f. cc;
  }

  pushed_move :
      (run id : Text) (w : World git) (repo : git.Repo)
      → id ≢ []
      → git.depth id ≡ suc (git.depth (base_of git (w.stores run)))
      → git.depth (git.tip w.repo) < git.depth id
      → git.tip repo ≡ id
      → Moves run w (ok tt) (record {
        repo = repo;
        stores = set_store git run (record (w.stores run) { pushed = id }) w.stores;
      })
  unfolding set_store
  pushed_move run id w repo n d a b =
      let self = (text_eq_iff run run).1 refl in
      record {
        deeper = rw b (omega arith);
        others = λ other m. let iff = text_eq_iff other run in ground arith;
        not_taken = λ f. cc;
        taken = λ f. rw (self, b) (refl, n, d, a);
      }

  push_commit-Moves :
      (run id : Text) (w : World git)
      → id ≢ git.tip w.repo
      → id ≢ []
      → git.depth id ≡ suc (git.depth (base_of git (w.stores run)))
      → Moves run w (push_commit git run id w).0 (push_commit git run id w).1
  unfolding push_commit
  push_commit-Moves run id w fresh n d = elim (Result-cases (git.push id w.repo).0) [
    | inl (u, e) ↦
        let (a, b) = git.push-ok id w.repo e in
        let deep : git.depth (git.tip w.repo) < git.depth id = elim a [
          | inl same ↦ absurd (fresh same)
          | inr deeper ↦ deeper
        ] in
        rw (e, push_commit) (pushed_move run id w (git.push id w.repo).1 n d deep b)
    | inr (refused, e) ↦
        let same = git.push-refused id w.repo e in
        rw (e, push_commit) (kept run w refused (git.push id w.repo).1 (rw same (omega arith)))
    | inr (failed t, e) ↦
        let maybe = git.push-failed id w.repo e in
        rw (e, push_commit)
          (kept run w (failed t) (git.push id w.repo).1
            (elim maybe [ inl s ↦ rw s (omega arith) | inr (d, s) ↦ rw s (omega arith) ]))
  ]

  -- The same move from a repository whose head is the same.
  Moves-from :
      (run : Text) (w : World git) (repo : git.Repo) (r : Result Failure (Unit {0}))
      (w' : World git)
      → git.tip repo ≡ git.tip w.repo
      → Moves run (record w { repo = repo }) r w'
      → Moves run w r w'
  Moves-from run w repo r w' same m = record {
    deeper = rw⁻¹ same m.deeper;
    others = m.others;
    not_taken = m.not_taken;
    taken = λ f. let (a, b, c, d) = m.taken f in (a, b, c, rw⁻¹ same d);
  }

  pub commit_files-Moves :
      (new : NewCommits git) (run : Text) (change : Change) (message : Text) (w : World git)
      → Moves run w
          (commit_files git run change message w).0
          (commit_files git run change message w).1
  unfolding commit_files
  commit_files-Moves new run change message w =
      elim (Bool-cases (is_empty (base_of git (w.stores run)))) [
        | inl none_yet ↦ rw none_yet (kept run w _ w.repo (omega arith))
        | inr based ↦
            elim (Result-cases
              (check_removals git (base_of git (w.stores run)) (removed git change))) [
                | inr (e, g) ↦ rw (based, commit_files, g) (kept run w e w.repo (omega arith))
                | inl (u, g) ↦
                    elim (Result-cases
                      (git.make (base_of git (w.stores run)) change message w.repo).0) [
                        | inr (e, f) ↦
                            rw (based, commit_files, g, f)
                              (kept run w e
                                (git.make (base_of git (w.stores run)) change message w.repo).1
                                (rw
                                  (git.make-tip (base_of git (w.stores run)) change message w.repo)
                                  (omega arith)))
                        | inl (id, f) ↦
                            let (deep, named) =
                              git.make-depth (base_of git (w.stores run)) change message w.repo f in
                            let same =
                              git.make-tip (base_of git (w.stores run)) change message w.repo in
                            rw (based, commit_files, g, f)
                              (Moves-from run w _ _ _ same (
                                push_commit-Moves run id
                                  (record w {
                                    repo =
                                        (git.make (base_of git (w.stores run)) change message
                                          w.repo).1;
                                  })
                                  (new (base_of git (w.stores run)) change message w.repo id f)
                                  named deep))
                      ]
              ]
      ]

  -- The store of any run is as it was, or the commit was this run's and taken.
  pub commit_files_cases :
      (new : NewCommits git) (x run : Text) (change : Change) (message : Text) (w : World git)
      → ((commit_files git run change message w).1.stores x ≡ w.stores x)
        ⊎ ((x ≡ run) × (is_ok (commit_files git run change message w).0 ≡ true))
  commit_files_cases new x run change message w =
      let m = commit_files-Moves new run change message w in
      elim (Bool-cases (text_eq x run)) [
        | inr t ↦ inl (m.others x (λ e. cc ((text_eq_iff x run).1 e, t)))
        | inl t ↦ elim (Bool-cases (is_ok (commit_files git run change message w).0)) [
          | inl taken ↦ inr ((text_eq_iff x run).0 t, taken)
          | inr f ↦ inl (rw ((text_eq_iff x run).0 t) (m.not_taken f))
        ]
      ]

  -- A read changes no commit that a run pushed, and not the head.
  pub read_lease_keeps :
      (run : Text) (w : World git)
      → (git.tip (read_lease git run w).1.repo ≡ git.tip w.repo)
        × ((x : Text) → ((read_lease git run w).1.stores x).pushed ≡ (w.stores x).pushed)
  unfolding read_lease set_store
  read_lease_keeps run w =
      let tips = git.fetch-tip w.repo in
      elim (Result-cases (git.fetch w.repo).0) [
        | inr (e, f) ↦ rw (f, read_lease) (tips, λ x. refl)
        | inl (id, f) ↦ elim (Result-cases (git.lease_at id)) [
          | inr (e, l) ↦ rw (f, read_lease, l) (tips, λ x. refl)
          | inl (change, l) ↦
              rw (f, read_lease, l)
                (
                  tips,
                  λ x. elim (Bool-cases (text_eq x run)) [
                    | inl t ↦ rw t (ap (λ y. (w.stores y).pushed) (sym ((text_eq_iff x run).0 t)))
                    | inr t ↦ rw t refl
                  ],
                )
        ]
      ]

  is_empty-false : (t : Text) → t ≢ [] → is_empty t ≡ false
  is_empty-false [] n = absurd (n refl)
  is_empty-false (c ∷ t) n = refl

  pub base_of-pushed : (s : RecordsStore) → s.pushed ≢ [] → base_of git s ≡ s.pushed
  unfolding base_of
  base_of-pushed s n = let some_text = is_empty-false s.pushed n in rw some_text refl
