-- ===== src/Lease/Fencing.antt =====
-- internal/run/store.go: once another run pushed a records commit, a run that pushed before pushes no
-- more.
use layup.Base.{
  ◌<◌, ◌≤◌, ◌≡◌, ◌≢◌, inl, inr, ap, true, false, List, [], ◌∷◌, is_ok, arith, Bool-cases,
}
use layup.Text.{Text}
use layup.Lease.Records.{Change, Git, NewCommits, World, read_lease, commit_files}
use layup.Lease.Moves.{commit_files-Moves, read_lease_keeps, commit_files_cases, base_of-pushed}

module _ (git : Git) where
  -- A read or a records commit of a run.
  pub data Op : Type 0 where
    reads : Text → Op
    commits : Text → Change → Text → Op

  unfoldable pub step : Op → World git → World git
  step (reads run) w = (read_lease git run w).1
  step (commits run change message) w = (commit_files git run change message w).1

  unfoldable pub steps : List Op → World git → World git
  steps [] w = w
  steps (o ∷ os) w = steps os (step o w)

  -- The head is at least as deep as what the run pushed last, and deeper where it is behind.
  pub record Reached (x : Text) (w : World git) : Type 0 where
    pub pushes : (w.stores x).pushed ≢ []
    pub reached : git.depth (w.stores x).pushed ≤ git.depth (git.tip w.repo)

  pub record Behind (x : Text) (w : World git) : Type 0 where
    pub pushes : (w.stores x).pushed ≢ []
    pub behind : git.depth (w.stores x).pushed < git.depth (git.tip w.repo)

module _ (git : Git) (new : NewCommits git) where
  -- A taken commit of the run reaches the head.
  commit_files-Reached :
      (x : Text) (change : Change) (message : Text) (w : World git)
      → is_ok (commit_files git x change message w).0 ≡ true
      → Reached git x (commit_files git x change message w).1
  commit_files-Reached x change message w taken =
      let (at_tip, named, _, _) = (commit_files-Moves git new x change message w).taken taken in
      record { pushes = named; reached = rw at_tip (omega arith) }

  -- A run that is behind has its records commit refused.
  pub commit_files-Behind :
      (x : Text) (change : Change) (message : Text) (w : World git)
      → Behind git x w
      → is_ok (commit_files git x change message w).0 ≡ false
  commit_files-Behind x change message w b =
      elim (Bool-cases (is_ok (commit_files git x change message w).0)) [
        | inr f ↦ f
        | inl taken ↦
            let (_, _, deep, past) = (commit_files-Moves git new x change message w).taken taken in
            let base = base_of-pushed git (w.stores x) b.pushes in
            let depths = ap git.depth base in let l = b.behind in absurd (omega arith)
      ]

  step-Reached :
      (x : Text) (o : Op git) (w : World git) → Reached git x w → Reached git x (step git o w)
  unfolding step
  step-Reached x (reads run) w r =
      let (tips, pushes) = read_lease_keeps git run w in
      record { pushes = rw (pushes x) r.pushes; reached = rw (pushes x, tips) r.reached }
  step-Reached x (commits run change message) w r =
      let m = commit_files-Moves git new run change message w in
      elim (commit_files_cases git new x run change message w) [
        | inl same ↦ record {
          pushes = rw same r.pushes;
          reached = rw same (let d = m.deeper in let l = r.reached in omega arith);
        }
        | inr (own, taken) ↦ rw own (commit_files-Reached run change message w taken)
      ]

  pub step-Behind :
      (x : Text) (o : Op git) (w : World git) → Behind git x w → Behind git x (step git o w)
  unfolding step
  step-Behind x (reads run) w b =
      let (tips, pushes) = read_lease_keeps git run w in
      record { pushes = rw (pushes x) b.pushes; behind = rw (pushes x, tips) b.behind }
  step-Behind x (commits run change message) w b =
      let m = commit_files-Moves git new run change message w in
      elim (commit_files_cases git new x run change message w) [
        | inl same ↦ record {
          pushes = rw same b.pushes;
          behind = rw same (let d = m.deeper in let l = b.behind in omega arith);
        }
        | inr (own, taken) ↦
            let refused = commit_files-Behind x change message w b in
            let own_taken : is_ok (commit_files git x change message w).0 ≡ true = rw own taken in
            absurd (cc (own_taken, refused))
      ]

  steps-Reached :
      (x : Text) (os : List (Op git)) (w : World git)
      → Reached git x w
      → Reached git x (steps git os w)
  unfolding steps
  steps-Reached x [] w r = r
  steps-Reached x (o ∷ os) w r = steps-Reached x os (step git o w) (step-Reached x o w r)

  steps-Behind :
      (x : Text) (os : List (Op git)) (w : World git)
      → Behind git x w
      → Behind git x (steps git os w)
  unfolding steps
  steps-Behind x [] w b = b
  steps-Behind x (o ∷ os) w b = steps-Behind x os (step git o w) (step-Behind x o w b)

  -- A taken commit of another run leaves the run behind.
  overtaken :
      (x y : Text) (change : Change) (message : Text) (w : World git)
      → x ≢ y
      → Reached git x w
      → is_ok (commit_files git y change message w).0 ≡ true
      → Behind git x (commit_files git y change message w).1
  overtaken x y change message w n r taken =
      let m = commit_files-Moves git new y change message w in
      let (_, _, _, past) = m.taken taken in
      let same = m.others x n in
      record { pushes = rw same r.pushes; behind = rw same (let l = r.reached in omega arith) }

  -- Where no commit that is made is the head already, byte for byte: a run made a records commit that was
  -- taken, then another run made one that was taken; whatever reads and records commits of any runs come
  -- before, between and after, no records commit of the first run is taken any more.
  pub fenced_out :
      (x y : Text) (first second third : Change × Text) (w : World git)
      (between later : List (Op git))
      → x ≢ y
      → is_ok (commit_files git x first.0 first.1 w).0 ≡ true
      → is_ok
          (commit_files git y second.0 second.1
            (steps git between (commit_files git x first.0 first.1 w).1)).0
        ≡ true
      → is_ok
          (commit_files git x third.0 third.1 (
            steps git later
              (commit_files git y second.0 second.1
                (steps git between (commit_files git x first.0 first.1 w).1)).1)).0
        ≡ false
  fenced_out x y first second third w between later n a b =
      commit_files-Behind x third.0 third.1 _ (
        steps-Behind x later _ (
          overtaken x y second.0 second.1 _ n
            (steps-Reached x between _ (commit_files-Reached x first.0 first.1 w a)) b))
