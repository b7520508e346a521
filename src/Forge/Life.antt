-- ===== src/Forge/Life.antt =====
-- internal/forge/fake.go: the node of a pull request names it, and the life of a pull request from
-- `OpenDraft` to `Merge`.
use layup.Base.{
  ℕ, zero, suc, ◌+◌, ◌-◌, ◌≡◌, ◌≢◌, inl, inr, refl, ap, sym, ◌∙◌, true, false, List, [], ◌∷◌, ◌++◌,
  some, arith, get_elem?, length, ok, is_ok, Bool-cases,
}
use layup.Text.{Text, codes, text_eq, text_eq_iff}
use layup.Text.Numbers.{decimal_text, number_from, number-decimal_text}
use layup.Forge.Types.{full_sha, PullRequest}
use layup.Forge.Fake.{FakePr, Fake, find_pr, set_at}
use layup.Forge.Calls.{
  node_id_of, open_draft, undraft, mark_ready_in, mark_ready, merge_sha_of, merge,
}
use layup.Forge.Invariant.{Numbered, IsSound}
use layup.Forge.KeepsPrs.{open_draft-IsSound}
use layup.Forge.Laws.{CanMerge, merge-ok, merge_iff, find_pr-set_at}

-- Nodes of different numbers differ.
pub node_id_of-inj : (m n : ℕ) → node_id_of m ≡ node_id_of n → m ≡ n
unfolding node_id_of
node_id_of-inj m n e =
    let same : decimal_text m ≡ decimal_text n = cc in
    sym (number-decimal_text m) ∙ ap (number_from 0) same ∙ number-decimal_text n

mark_ready_in-at :
    (m i : ℕ) (prs : List FakePr) (p : FakePr)
    → Numbered m prs
    → get_elem? prs i ≡ some p
    → mark_ready_in (node_id_of (m + i)) prs ≡ some ((undraft p).pr, set_at i (undraft p) prs)
unfolding mark_ready_in set_at
mark_ready_in-at m i [] p a e = cc
mark_ready_in-at m zero (q ∷ prs) p a e =
    let at_m : m + 0 ≡ m = omega arith in
    let same : q.pr.node_id ≡ node_id_of (m + 0) = a.0.noded ∙ ap node_id_of (sym at_m) in
    let hit = (text_eq_iff q.pr.node_id (node_id_of (m + 0))).1 same in
    let q_is : q ≡ p = cc in rw (hit, q_is) refl
mark_ready_in-at m (suc i) (q ∷ prs) p a e =
    let at_m : m + suc i ≡ suc m + i = omega arith in
    let rest : mark_ready_in (node_id_of (m + suc i)) prs
        ≡ some ((undraft p).pr, set_at i (undraft p) prs) =
      rw at_m (mark_ready_in-at (suc m) i prs p a.1 e) in
    let iff = text_eq_iff q.pr.node_id (node_id_of (m + suc i)) in
    let apart : text_eq q.pr.node_id (node_id_of (m + suc i)) ≡ false =
      elim (Bool-cases (text_eq q.pr.node_id (node_id_of (m + suc i)))) [
        | inr f ↦ f
        | inl t ↦
            let equal : m ≡ m + suc i = node_id_of-inj m (m + suc i) (sym a.0.noded ∙ iff.0 t) in
            absurd (omega arith)
      ] in
    rw (apart, rest) refl

-- On a sound stand-in that answers, `MarkReady` on the node of a number marks the pull request of that
-- number ready, and no other.
pub mark_ready-node :
    (number : ℕ) (f : Fake) (p : FakePr)
    → IsSound f
    → f.fail ≢ codes "MarkReady"
    → find_pr number f.prs ≡ some p
    → mark_ready (node_id_of number) f
      ≡ (ok (undraft p).pr, record f { prs = set_at (number - 1) (undraft p) f.prs })
unfolding mark_ready find_pr
mark_ready-node zero f p s a e = cc
mark_ready-node (suc i) f p s a e =
    let at_i : 1 + i ≡ suc i = omega arith in
    let below : suc i - 1 ≡ i = omega arith in
    let found = mark_ready_in-at 1 i f.prs p s.prs_numbered e in
    let found_at : mark_ready_in (node_id_of (suc i)) f.prs
        ≡ some ((undraft p).pr, set_at i (undraft p) f.prs) =
      rw at_i at found in
    let named = text_eq_iff f.fail (codes "MarkReady") in
    let answers : text_eq f.fail (codes "MarkReady") ≡ false = ground arith in
    rw (answers, found_at, below) refl

get_elem?-concat :
    (prs : List FakePr) (p : FakePr) → get_elem? (prs ++ (p ∷ [])) (length prs) ≡ some p
get_elem?-concat [] p = refl
get_elem?-concat (q ∷ prs) p = get_elem?-concat prs p

find_pr-concat :
    (number : ℕ) (prs : List FakePr) (p : FakePr)
    → number ≡ length prs + 1
    → find_pr number (prs ++ (p ∷ [])) ≡ some p
unfolding find_pr
find_pr-concat zero prs p e = absurd (omega arith)
find_pr-concat (suc i) prs p e =
    let at_end : i ≡ length prs = omega arith in rw at_end (get_elem?-concat prs p)

open_draft-ok :
    (head body : Text) (f : Fake) (pr : PullRequest)
    → (open_draft head body f).0 ≡ ok pr
    → (pr.number ≡ length f.prs + 1)
      × ((open_draft head body f).1.prs ≡ f.prs ++ (record { pr = pr; branch = head } ∷ []))
      × ((open_draft head body f).1.fail ≡ f.fail)
unfolding open_draft
open_draft-ok head body f pr e = elim (Bool-cases (text_eq f.fail (codes "OpenDraft"))) [
  | inl t ↦ absurd (ground arith)
  | inr t ↦ ground arith
]

-- What a new draft is.
open_draft-new :
    (head body : Text) (f : Fake) (pr : PullRequest)
    → (open_draft head body f).0 ≡ ok pr
    → (pr.node_id ≡ node_id_of pr.number)
      × (pr.state ≡ codes "open")
      × (pr.draft ≡ true)
      × (pr.merged ≡ false)
      × (pr.head_sha ≡ f.heads head)
unfolding open_draft
open_draft-new head body f pr e = elim (Bool-cases (text_eq f.fail (codes "OpenDraft"))) [
  | inl t ↦ absurd (ground arith)
  | inr t ↦ ground arith
]

merge-draft :
    (number : ℕ) (sha : Text) (g : Fake) (p : FakePr)
    → find_pr number g.prs ≡ some p
    → p.pr.draft ≡ true
    → is_ok (merge number sha g).0 ≡ false
merge-draft number sha g p found d = elim (Bool-cases (is_ok (merge number sha g).0)) [
  | inr refused ↦ refused
  | inl taken ↦
      let (q, c) = (merge_iff number sha g).0 taken in
      let same : some p ≡ some q = sym found ∙ c.found in cc (same, d, c.ready)
]

merge-undraft :
    (number : ℕ) (sha : Text) (g : Fake) (p : FakePr)
    → find_pr number g.prs ≡ some p
    → g.fail ≡ []
    → full_sha sha ≡ true
    → p.pr.merged ≡ false
    → p.pr.state ≡ codes "open"
    → sha ≡ p.pr.head_sha
    → (merge number sha (record g { prs = set_at (number - 1) (undraft p) g.prs })).0
      ≡ ok (merge_sha_of number)
merge-undraft number sha g p found quiet full m o h =
    let can : CanMerge number sha (record g { prs = set_at (number - 1) (undraft p) g.prs })
        (undraft p) =
      record {
        answers = λ x. cc (quiet, x);
        full = full;
        found = find_pr-set_at number g.prs (undraft p) found;
        unmerged = m;
        is_open = o;
        ready = refl;
        head = h;
      } in
    ap (λ o. o.0)
      (merge-ok number sha (record g { prs = set_at (number - 1) (undraft p) g.prs }) (undraft p)
        can).0

-- A draft opened on a branch with a full head SHA is not merged while it is a draft; once `MarkReady`
-- is called on its node, `Merge` at its head is taken. The stand-in is sound, and no call fails.
pub open_draft-merge :
    (head body : Text) (f : Fake) {pr : PullRequest}
    → IsSound f
    → f.fail ≡ []
    → full_sha (f.heads head) ≡ true
    → (open_draft head body f).0 ≡ ok pr
    → (is_ok (merge pr.number pr.head_sha (open_draft head body f).1).0 ≡ false)
      × ((merge pr.number pr.head_sha (mark_ready pr.node_id (open_draft head body f).1).1).0
          ≡ ok (merge_sha_of pr.number))
open_draft-merge head body f {pr} s quiet full e =
    let (number, prs, fail) = open_draft-ok head body f pr e in
    let p : FakePr = record { pr = pr; branch = head } in
    let g = (open_draft head body f).1 in
    let found : find_pr pr.number g.prs ≡ some p =
      rw prs (find_pr-concat pr.number f.prs p number) in
    let fresh = open_draft-new head body f pr e in
    let no_fail : g.fail ≢ codes "MarkReady" = λ x. cc (sym fail ∙ x, quiet) in
    let marked = mark_ready-node pr.number g p (open_draft-IsSound head body f s) no_fail found in
    let at_node : (mark_ready pr.node_id g).1
        ≡ record g { prs = set_at (pr.number - 1) (undraft p) g.prs } =
      ap (λ (n : Text). (mark_ready n g).1) fresh.0 ∙ ap (λ o. o.1) marked in
    let taken =
      merge-undraft pr.number pr.head_sha g p found (fail ∙ quiet) (ap full_sha fresh.4 ∙ full)
        fresh.3 fresh.1 refl in
    (
      merge-draft pr.number pr.head_sha g p found fresh.2,
      ap (λ h. (merge pr.number pr.head_sha h).0) at_node ∙ taken,
    )
