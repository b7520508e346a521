-- ===== src/Lease/Records.antt =====
-- internal/run/store.go: the store of the records branch, over git. Git is outside: a `Git` has what
-- the store asks of it, and documented behaviour as laws. A commit ID is a hash of the commit, its
-- ancestors and its files, so the depth of a commit (its longest line of ancestors) and its lease are
-- functions of the ID. Each run has its own store, which one lock makes one step at a time.
use layup.Base.{
  ℕ, suc, ◌<◌, ◌≡◌, ◌≢◌, ◌⊎◌, Bool, false, not, ◌&&◌, ◌||◌, List, [], ◌∷◌, if◌then◌else◌, is_empty,
  Result, ok, err,
}
use layup.Text.{Text, codes, text_eq}
use layup.Lease.Types.{LeaseRow, Failure, refused, failed, Store}

-- What a records commit changes: the lease row, or files written, or files removed.
pub data Change : Type 0 where
  lease : LeaseRow → Change
  files : List (Text × Text) → Change
  removal : List Text → Change

-- `git.TreeEntry`, and `regular`.
pub record TreeEntry : Type 0 where
  pub mode : Text
  pub kind : Text

unfoldable pub regular : TreeEntry → Bool
regular e =
    text_eq e.kind (codes "blob")
    && (text_eq e.mode (codes "100644") || text_eq e.mode (codes "100755"))

-- Whether a tree has one entry at a path, a regular file.
unfoldable pub one_regular : List TreeEntry → Bool
unfolding regular
one_regular (e ∷ []) = regular e
one_regular _ = false

pub record Git : Type 1 where
  -- The target's repository with the clones of the runs, and the head of its branch layup-records.
  pub Repo : Type 0
  pub tip : Repo → Text
  pub depth : Text → ℕ
  pub lease_at : Text → Result Failure LeaseRow
  -- The fetch of the records branch into a clone: the head that was fetched.
  pub fetch : Repo → Result Failure Text × Repo
  -- The entries of a commit's tree at a path.
  pub ls_tree : Text → Text → Result Failure (List TreeEntry)
  -- A commit on a base in a scratch work tree, with a change and a message.
  pub make : Text → Change → Text → Repo → Result Failure Text × Repo
  -- The push of a commit to the branch, never with force.
  pub push : Text → Repo → Result Failure (Unit {0}) × Repo
  pub fetch-tip : (g : Repo) → tip (fetch g).1 ≡ tip g
  pub fetch-ok : (g : Repo) {id : Text} → (fetch g).0 ≡ ok id → id ≡ tip g
  pub make-tip : (base : Text) (r : Change) (m : Text) (g : Repo) → tip (make base r m g).1 ≡ tip g
  pub make-depth :
      (base : Text) (r : Change) (m : Text) (g : Repo) {id : Text}
      → (make base r m g).0 ≡ ok id
      → (depth id ≡ suc (depth base)) × (id ≢ [])
  -- A push is taken when the commit is the head already, or the head is an ancestor of it; it is the
  -- head then.
  pub push-ok :
      (id : Text) (g : Repo)
      → (push id g).0 ≡ ok tt
      → ((id ≡ tip g) ⊎ (depth (tip g) < depth id)) × (tip (push id g).1 ≡ id)
  pub push-refused :
      (id : Text) (g : Repo) → (push id g).0 ≡ err refused → tip (push id g).1 ≡ tip g
  -- A push that fails otherwise may have been taken, its answer lost.
  pub push-failed :
      (id : Text) (g : Repo) {t : Text}
      → (push id g).0 ≡ err (failed t)
      → (tip (push id g).1 ≡ tip g) ⊎ ((depth (tip g) < depth id) × (tip (push id g).1 ≡ id))

-- No commit that is made is the head already. Two commits are one where their base, files, message,
-- author and second are the same; git pushes such a one as up to date.
abbrev pub NewCommits : Git → Type 0
NewCommits git =
    (base : Text) (r : Change) (m : Text) (g : git.Repo) (id : Text)
    → (git.make base r m g).0 ≡ ok id
    → id ≢ git.tip (git.make base r m g).1

-- The fields of `recordsStore` that change; "" stands for no commit.
pub record RecordsStore : Type 0 where
  pub pushed : Text
  pub read : Text

module _ (git : Git) where
  -- The repository with the stores of the runs, each under its name.
  pub record World : Type 0 where
    pub repo : git.Repo
    pub stores : Text → RecordsStore

  unfoldable pub set_store : Text → RecordsStore → (Text → RecordsStore) → Text → RecordsStore
  set_store run s stores other = if text_eq other run then s else stores other

  -- `Base`: the commit that the run pushed last, else the one of its last read.
  unfoldable pub base_of : RecordsStore → Text
  base_of s = if is_empty s.pushed then s.read else s.pushed

  -- `recordsStore.ReadLease`.
  unfoldable pub read_lease : Text → World → Result Failure LeaseRow × World
  read_lease run w =
      let (r, repo) = git.fetch w.repo in
      elim r [
        | err e ↦ (err e, record w { repo = repo })
        | ok id ↦ elim (git.lease_at id) [
          | err e ↦ (err e, record w { repo = repo })
          | ok row ↦ (
            ok row,
            record {
              repo = repo;
              stores = set_store run (record (w.stores run) { read = id }) w.stores;
            },
          )
        ]
      ]

  -- The push of a commit that was made, and what the store keeps of it.
  unfoldable pub push_commit : Text → Text → World → Result Failure (Unit {0}) × World
  push_commit run id w =
      let (r, repo) = git.push id w.repo in
      elim r [
        | err e ↦ (err e, record w { repo = repo })
        | ok _ ↦ (
          ok tt,
          record {
            repo = repo;
            stores = set_store run (record (w.stores run) { pushed = id }) w.stores;
          },
        )
      ]

  -- The loop of `commitFiles` over the files to remove, which the base holds as regular files.
  unfoldable pub check_removals : Text → List Text → Result Failure (Unit {0})
  check_removals base [] = ok tt
  check_removals base (p ∷ ps) =
      let rest = check_removals base ps in
      elim (git.ls_tree base p) [
        | err e ↦ err e
        | ok entries ↦
            if not (one_regular entries)
            then err (failed (codes "the records base has no such regular file to remove"))
            else rest
      ]

  unfoldable pub removed : Change → List Text
  removed (removal paths) = paths
  removed _ = []

  -- `recordsStore.commitFiles` behind the first records commit, which has no parent. The scratch work
  -- tree, from its checkout to its commit, is `make`; the check of the removals stands before it.
  unfoldable pub commit_files : Text → Change → Text → World → Result Failure (Unit {0}) × World
  commit_files run change message w =
      let base = base_of (w.stores run) in
      if is_empty base
      then (err (failed (codes "no records commit to build on")), w)
      else elim (check_removals base (removed change)) [
        | err e ↦ (err e, w)
        | ok _ ↦
            let (r, repo) = git.make base change message w.repo in
            elim r [
              | err e ↦ (err e, record w { repo = repo })
              | ok id ↦ push_commit run id (record w { repo = repo })
            ]
      ]

  -- `WriteLease` and `ReadLease` of the run's store.
  abbrev pub store_of : Text → Store World
  store_of run = record {
    read_lease = read_lease run;
    write_lease = λ row message. commit_files run (lease row) message;
  }
