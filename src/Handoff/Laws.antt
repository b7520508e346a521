-- ===== src/Handoff/Laws.antt =====
-- A handoff that internal/handoff calls valid is one that meets its row in each respect, and the
-- other way round.
use mathlib.Core.Path.{subst}
use layup.Base.{
  ℕ, true, false, ◌&&◌, ◌≡◌, ◌↔◌, ◌⊎◌, ◌≤◌, refl, List, [], ◌∷◌, Option, none, some, any, all, All,
  arith, inl, inr, Bool-cases, and_true, Option-cases,
}
use layup.Members.{In, member_iff, Exists, all_iff, any_iff}
use layup.Text.{Text, codes, text_eq_iff, member}
use layup.Handoff.Table.{Row, kinds, find_row}
use layup.Handoff.Check.{
  Comment, Artifact, Handoff, comment_kind, hex_hash, artifact_ok, is_kind, schema_broken,
  artifacts_ok, check_items, check_against, check, suffix_of,
}

-- An artifact is what it says.
abbrev pub IsComment : Artifact → Comment → Type 0
IsComment a c =
    (a.comment ≡ some c)
    × (1 ≤ c.id)
    × (1 ≤ c.seen)
    × (hex_hash c.file 64 ≡ true)
    × (c.copy ≡ c.file)
    × (c.forge ≡ c.file)

pub record IsFile (a : Artifact) : Type 0 where
  pub no_comment : a.comment ≡ none
  pub as_named : a.named ≡ a.found
  pub hashed :
      (hex_hash a.found 64 ≡ true) ⊎ ((a.kind ≡ codes "commits") × (hex_hash a.found 40 ≡ true))

abbrev pub IsSound : Artifact → Type 0
IsSound a =
    ((comment_kind a.kind ≡ true) × ((c : Comment) × IsComment a c))
    ⊎ ((comment_kind a.kind ≡ false) × IsFile a)

artifact_ok-IsSound : (a : Artifact) → artifact_ok a ≡ true → IsSound a
unfolding artifact_ok
artifact_ok-IsSound a h = elim (Option-cases a.comment) [
  | inl e ↦ ground (arith, text_eq_iff a.named a.found, text_eq_iff a.kind (codes "commits"))
  | inr (c, e) ↦ inl (
    ground arith,
    (
      c,
      (
        e,
        ground arith,
        ground arith,
        ground arith,
        ground (arith, text_eq_iff c.file c.copy),
        ground (arith, text_eq_iff c.file c.copy, text_eq_iff c.copy c.forge),
      ),
    ),
  )
]

IsSound-artifact_ok : (a : Artifact) → IsSound a → artifact_ok a ≡ true
unfolding artifact_ok
IsSound-artifact_ok a (inl (k, (c, s))) =
    ground (arith, text_eq_iff c.file c.copy, text_eq_iff c.copy c.forge)
IsSound-artifact_ok a (inr (k, f)) =
    ground (arith, text_eq_iff a.named a.found, text_eq_iff a.kind (codes "commits"))

-- What a valid handoff is, in the words of the specification.
pub record Meets (row : Row) (h : Handoff) : Type 0 where
  pub schema : (h.schema_ok ≡ true) ⊎ (h.code_written ≡ true)
  pub no_schema : h.code_written ≡ true → In (codes "schema") row.items → ⊥
  pub sound : All (λ (a : Artifact). In a.kind kinds × IsSound a) h.artifacts
  pub complete :
      In (codes "artifacts") row.items
      → All (λ k. Exists (λ (a : Artifact). a.kind ≡ k) h.artifacts) row.artifacts
  pub found :
      All
        (λ item. (item ≡ codes "schema") ⊎ ((item ≡ codes "artifacts") ⊎ (h.items item ≡ true)))
        row.items

check_items_iff :
    (h : Handoff) (s : Option (ℕ × ℕ)) (items : List Text)
    → ((check_items h s items).is_valid ≡ true)
      ↔ All
          (λ item. (item ≡ codes "schema") ⊎ ((item ≡ codes "artifacts") ⊎ (h.items item ≡ true)))
          items
unfolding check_items
check_items_iff h s [] = ((λ e. tt), (λ e. refl))
check_items_iff h s (item ∷ items) = ground (
  arith,
  text_eq_iff item (codes "schema"),
  text_eq_iff item (codes "artifacts"),
  check_items_iff h s items,
)

listed_iff :
    (a : Artifact) → ((member a.kind kinds && artifact_ok a) ≡ true) ↔ (In a.kind kinds × IsSound a)
listed_iff a =
    let m = member_iff a.kind kinds in
    (
      (λ h.
          let b = and_true (member a.kind kinds) (artifact_ok a) h in
          (m.0 b.0, artifact_ok-IsSound a b.1)),
      (λ h. rw (m.1 h.0, IsSound-artifact_ok a h.1) refl),
    )

covered_iff :
    (h : Handoff) (ks : List Text)
    → (all (λ k. any (is_kind k) h.artifacts) ks ≡ true)
      ↔ All (λ k. Exists (λ (a : Artifact). a.kind ≡ k) h.artifacts) ks
covered_iff h =
    all_iff (λ k. any (is_kind k) h.artifacts)
      (λ k. any_iff (is_kind k) (λ a. text_eq_iff a.kind k) h.artifacts)

module _ (row : Row) (h : Handoff) where
  artifacts_ok_parts :
      artifacts_ok row h ≡ true
      → All (λ (a : Artifact). In a.kind kinds × IsSound a) h.artifacts
        × (In (codes "artifacts") row.items
            → All (λ k. Exists (λ (a : Artifact). a.kind ≡ k) h.artifacts) row.artifacts)
  unfolding artifacts_ok
  artifacts_ok_parts e =
      let (each, rest) =
        and_true (all (λ (a : Artifact). member a.kind kinds && artifact_ok a) h.artifacts) _ e in
      (
        (all_iff _ listed_iff h.artifacts).0 each,
        λ listed.
            let m = (member_iff (codes "artifacts") row.items).1 listed in
            (covered_iff h row.artifacts).0 (rw m at rest),
      )

  parts-artifacts_ok :
      All (λ (a : Artifact). In a.kind kinds × IsSound a) h.artifacts
      → (In (codes "artifacts") row.items
          → All (λ k. Exists (λ (a : Artifact). a.kind ≡ k) h.artifacts) row.artifacts)
      → artifacts_ok row h ≡ true
  unfolding artifacts_ok
  parts-artifacts_ok each cover =
      rw
        ((all_iff (λ (a : Artifact). member a.kind kinds && artifact_ok a) listed_iff h.artifacts).1
          each)
        (elim (Bool-cases (member (codes "artifacts") row.items)) [
          | inr no_item ↦ rw no_item refl
          | inl item ↦
              rw (item, (covered_iff h row.artifacts).1 (cover ((member_iff _ row.items).0 item)))
                refl
        ])

  check_against-Meets : (s : Option (ℕ × ℕ)) → (check_against h s row).is_valid ≡ true → Meets row h
  unfolding check_against
  check_against-Meets s e =
      let ok_schema : schema_broken row h ≡ false = ground arith in
      let ok_artifacts : artifacts_ok row h ≡ true = ground arith in
      let ok_items : (check_items h s row.items).is_valid ≡ true = ground arith in
      record {
        schema = ground arith;
        no_schema = λ w i. let m = (member_iff (codes "schema") row.items).1 i in ground arith;
        sound = (artifacts_ok_parts ok_artifacts).0;
        complete = (artifacts_ok_parts ok_artifacts).1;
        found = (check_items_iff h s row.items).0 ok_items;
      }

  schema_not_broken : Meets row h → schema_broken row h ≡ false
  schema_not_broken m = elim (Bool-cases (member (codes "schema") row.items)) [
    | inl i ↦ elim (Bool-cases h.code_written) [
      | inl w ↦ absurd (m.no_schema w ((member_iff _ row.items).0 i))
      | inr w ↦ ground (arith, m.schema)
    ]
    | inr i ↦ ground (arith, m.schema)
  ]

  Meets-check_against : (s : Option (ℕ × ℕ)) → Meets row h → (check_against h s row).is_valid ≡ true
  unfolding check_against
  Meets-check_against s m =
      rw (schema_not_broken m, parts-artifacts_ok m.sound m.complete)
        ((check_items_iff h s row.items).1 m.found)

-- A handoff is valid exactly when its pair has a row in the table, whose first one it meets: the
-- result passed its block (or code wrote the handoff and the row lists no schema), each artifact is
-- of a known kind and is what it says, each kind of the row has one where the row lists the item
-- artifacts, and the caller found each other item of the row true.
pub check_iff :
    (table : List Row) (h : Handoff)
    → ((check table h).is_valid ≡ true)
      ↔ ((row : Row) × (find_row h.from h.to table ≡ some row) × Meets row h)
unfolding check
check_iff table h = elim (Option-cases (find_row h.from h.to table)) [
  | inl e ↦ ((λ v. absurd (ground arith)), (λ m. let found = m.1 in ground arith))
  | inr (row, e) ↦ (
    (λ v. (row, e, check_against-Meets row h (suffix_of h.artifacts) (rw (e, check) at v))),
    (λ m.
        let same : m.0 ≡ row = ground (arith, m.1) in
        rw (e, check)
          (Meets-check_against row h (suffix_of h.artifacts) (subst (λ r. Meets r h) same m.2))),
  )
]
