-- ===== src/Attempts/ByComment.antt =====
-- internal/run/cycle.go: the sort of `judgeGrants` by the IDs of the comments.
use layup.Base.{ℕ, ◌≤◌, ◌⊎◌, inl, inr, List, [], ◌∷◌, arith, leb, All, Bool-cases}
use layup.Members.{Exists}
use layup.Attempts.View.{Copy}
use layup.Attempts.Grants.{id_of, insert_copy, sort_copies}

-- The IDs of a list do not fall.
unfoldable pub Rising : List Copy → Type 0
Rising [] = Unit
Rising (c ∷ cs) = All (λ d. id_of c ≤ id_of d) cs × Rising cs

All-insert_copy :
    (P : Copy → Type 0) (c : Copy) (ds : List Copy) → P c → All P ds → All P (insert_copy c ds)
unfolding insert_copy
All-insert_copy P c [] p a = (p, tt)
All-insert_copy P c (d ∷ ds) p a = elim (Bool-cases (leb (id_of c) (id_of d))) [
  | inl le ↦ rw (insert_copy, le) (p, a)
  | inr gt ↦ rw (insert_copy, gt) (a.0, All-insert_copy P c ds p a.1)
]

insert_copy-All :
    (P : Copy → Type 0) (c : Copy) (ds : List Copy) → All P (insert_copy c ds) → P c × All P ds
unfolding insert_copy
insert_copy-All P c [] a = a
insert_copy-All P c (d ∷ ds) a = elim (Bool-cases (leb (id_of c) (id_of d))) [
  | inl le ↦ rw (insert_copy, le) at a
  | inr gt ↦
      let b : P d × All P (insert_copy c ds) = rw (insert_copy, gt) at a in
      let (p, rest) = insert_copy-All P c ds b.1 in (p, (b.0, rest))
]

pub All-le :
    (n : ℕ) (c : Copy) (ds : List Copy)
    → n ≤ id_of c
    → All (λ d. id_of c ≤ id_of d) ds
    → All (λ d. n ≤ id_of d) ds
All-le n c [] h a = tt
All-le n c (d ∷ ds) h a = (omega (arith, h, a.0), All-le n c ds h a.1)

insert_copy-Rising : (c : Copy) (ds : List Copy) → Rising ds → Rising (insert_copy c ds)
unfolding insert_copy Rising
insert_copy-Rising c [] r = (tt, tt)
insert_copy-Rising c (d ∷ ds) r = elim (Bool-cases (leb (id_of c) (id_of d))) [
  | inl le ↦
      let h : id_of c ≤ id_of d = ground arith in
      rw (insert_copy, le) ((h, All-le (id_of c) d ds h r.0), r)
  | inr gt ↦
      rw (insert_copy, gt)
        (
          All-insert_copy (λ e. id_of d ≤ id_of e) c ds (ground arith) r.0,
          insert_copy-Rising c ds r.1,
        )
]

pub sort_copies-Rising : (cs : List Copy) → Rising (sort_copies cs)
unfolding sort_copies Rising
sort_copies-Rising [] = tt
sort_copies-Rising (c ∷ cs) = insert_copy-Rising c (sort_copies cs) (sort_copies-Rising cs)

pub sort_copies-All : (P : Copy → Type 0) (cs : List Copy) → All P (sort_copies cs) → All P cs
unfolding sort_copies
sort_copies-All P [] a = tt
sort_copies-All P (c ∷ cs) a =
    let (p, rest) = insert_copy-All P c (sort_copies cs) a in (p, sort_copies-All P cs rest)

insert_copy-Exists :
    (P : Copy → Type 0) (c : Copy) (ds : List Copy)
    → Exists P (insert_copy c ds)
    → P c ⊎ Exists P ds
unfolding insert_copy
insert_copy-Exists P c [] e = e
insert_copy-Exists P c (d ∷ ds) e = elim (Bool-cases (leb (id_of c) (id_of d))) [
  | inl le ↦ rw (insert_copy, le) at e
  | inr gt ↦
      let e' : P d ⊎ Exists P (insert_copy c ds) = rw (insert_copy, gt) at e in
      elim e' [
        | inl p ↦ inr (inl p)
        | inr rest ↦ elim (insert_copy-Exists P c ds rest) [
          | inl p ↦ inl p
          | inr there ↦ inr (inr there)
        ]
      ]
]

pub sort_copies-Exists :
    (P : Copy → Type 0) (cs : List Copy) → Exists P (sort_copies cs) → Exists P cs
unfolding sort_copies
sort_copies-Exists P [] e = e
sort_copies-Exists P (c ∷ cs) e = elim (insert_copy-Exists P c (sort_copies cs) e) [
  | inl p ↦ inl p
  | inr there ↦ inr (sort_copies-Exists P cs there)
]
