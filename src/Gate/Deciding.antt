-- ===== src/Gate/Deciding.antt =====
-- internal/gate/manifest.go and result.go: what a manifest that is read holds, and when a kind passes.
use mathlib.Core.Path.{subst}
use layup.Base.{
  ℕ, ℕ, suc, ◌≡◌, ◌≢◌, ◌⊎◌, ◌↔◌, inl, inr, refl, Bool, true, false, List, [], ◌∷◌, none, some,
  arith, is_empty, any, All, ok, Bool-cases, Option-cases, Result-cases,
}
use layup.Text.{Text, codes, before_byte}
use layup.Members.{Exists}
use layup.Text.Fields.{text_fields}
use layup.Tsv.Codec.{read}
use layup.Gate.Scope.{Pattern, matches}
use layup.Gate.Manifest.{
  manifest_schema, Kind, in_scope, parse_scope, equal_fold, config_in_git, read_kind, read_kinds,
  read_manifest, Outcome, pass, fail, clear, decide_active, decide_pending,
}

-- Where a scope has a path of a list, it matches one of the list.
in_scope-some :
    (scope : List Pattern) (paths : List Text) {p : Text}
    → in_scope scope paths ≡ some p
    → Exists (λ q. any (λ (s : Pattern). matches s q) scope ≡ true) paths
unfolding in_scope
in_scope-some scope [] e = cc
in_scope-some scope (q ∷ paths) {p} e =
    elim (Bool-cases (any (λ (s : Pattern). matches s q) scope)) [
      | inl t ↦ inl t
      | inr t ↦ inr (in_scope-some scope paths {p = p} (ground arith))
    ]

in_scope-none :
    (scope : List Pattern) (paths : List Text)
    → in_scope scope paths ≡ none
    → All (λ q. any (λ (s : Pattern). matches s q) scope ≡ false) paths
unfolding in_scope
in_scope-none scope [] e = tt
in_scope-none scope (q ∷ paths) e = elim (Bool-cases (any (λ (s : Pattern). matches s q) scope)) [
  | inl t ↦ absurd (ground arith)
  | inr t ↦ (t, in_scope-none scope paths (ground arith))
]

is_empty_iff : (t : Text) → (is_empty t ≡ true) ↔ (t ≡ [])
is_empty_iff [] = (λ h. refl, λ h. refl)
is_empty_iff (c ∷ t) = (λ h. cc, λ h. cc)

-- An active kind passes exactly when its tool is found, a file is in its scope, and its command ends
-- with the exit code 0 and no signal.
pub decide_active-pass :
    (k : Kind) (files : List Text) (look_path : Text → Bool) (run : Text → Outcome)
    → ((decide_active k files look_path run).0 ≡ pass) ↔ (
        (look_path k.tool ≡ true)
        × ((p : Text) × (in_scope k.scope files ≡ some p))
        × ((run k.command).signal ≡ [])
        × ((run k.command).code ≡ 0))
unfolding decide_active
decide_active-pass k files look_path run = elim (Option-cases (in_scope k.scope files)) [
  | inl n ↦ (λ h. absurd (ground arith), λ (a, (p, b), c, d). cc (n, b))
  | inr (p, e) ↦
      let quiet = is_empty_iff (run k.command).signal in
      (
        λ h. (ground arith, (p, e), quiet.0 (ground arith), ground arith),
        λ (a, (q, b), c, d). let silent = quiet.1 c in ground arith,
      )
]

-- A pending kind fails exactly when a changed path is in its scope, and is clear otherwise.
pub decide_pending_cases :
    (k : Kind) (changed : List Text)
    → (((decide_pending k changed).0 ≡ fail)
        × Exists (λ q. any (λ (s : Pattern). matches s q) k.scope ≡ true) changed)
      ⊎ (((decide_pending k changed).0 ≡ clear)
          × All (λ q. any (λ (s : Pattern). matches s q) k.scope ≡ false) changed)
unfolding decide_pending
decide_pending_cases k changed = elim (Option-cases (in_scope k.scope changed)) [
  | inl n ↦ inr (rw (n, decide_pending) refl, in_scope-none k.scope changed n)
  | inr (p, e) ↦ inl (rw (e, decide_pending) refl, in_scope-some k.scope changed e)
]

-- The path is not .git, nor in it, in whatever case its letters are.
abbrev pub OutsideGit : Text → Type 0
OutsideGit path =
    (g i t : ℕ) (rest : Text)
    → (g ≡ b'g') ⊎ (g ≡ b'G')
    → (i ≡ b'i') ⊎ (i ≡ b'I')
    → (t ≡ b't') ⊎ (t ≡ b'T')
    → (path ≢ b'.' ∷ g ∷ i ∷ t ∷ []) × (path ≢ b'.' ∷ g ∷ i ∷ t ∷ b'/' ∷ rest)

-- What `ReadManifest` asks of a kind: a scope, and no config path in .git.
pub record CanRun (k : Kind) : Type 0 where
  pub scoped : k.scope ≢ []
  pub outside_git : All OutsideGit k.config

InGit-equal_fold :
    (g i t : ℕ) (rest : Text)
    → (g ≡ b'g') ⊎ (g ≡ b'G')
    → (i ≡ b'i') ⊎ (i ≡ b'I')
    → (t ≡ b't') ⊎ (t ≡ b'T')
    → (equal_fold (before_byte b'/' (b'.' ∷ g ∷ i ∷ t ∷ [])) (codes ".git") ≡ true)
      × (equal_fold (before_byte b'/' (b'.' ∷ g ∷ i ∷ t ∷ b'/' ∷ rest)) (codes ".git") ≡ true)
unfolding equal_fold before_byte
InGit-equal_fold g i t rest (inl a) (inl b) (inl c) = rw (a, b, c) (refl, refl)
InGit-equal_fold g i t rest (inl a) (inl b) (inr c) = rw (a, b, c) (refl, refl)
InGit-equal_fold g i t rest (inl a) (inr b) (inl c) = rw (a, b, c) (refl, refl)
InGit-equal_fold g i t rest (inl a) (inr b) (inr c) = rw (a, b, c) (refl, refl)
InGit-equal_fold g i t rest (inr a) (inl b) (inl c) = rw (a, b, c) (refl, refl)
InGit-equal_fold g i t rest (inr a) (inl b) (inr c) = rw (a, b, c) (refl, refl)
InGit-equal_fold g i t rest (inr a) (inr b) (inl c) = rw (a, b, c) (refl, refl)
InGit-equal_fold g i t rest (inr a) (inr b) (inr c) = rw (a, b, c) (refl, refl)

config_in_git-All : (cs : List Text) → config_in_git cs ≡ none → All OutsideGit cs
unfolding config_in_git
config_in_git-All [] e = tt
config_in_git-All (c ∷ cs) e =
    let folds : equal_fold (before_byte b'/' c) (codes ".git") ≡ false = ground arith in
    (
      (λ g i t rest a b d.
          let (bare, inside) = InGit-equal_fold g i t rest a b d in
          ((λ same. absurd (cc (folds, bare, same))), (λ same. absurd (cc (folds, inside, same))))),
      config_in_git-All cs (ground arith),
    )

read_kind-CanRun : (line : ℕ) (r : List Text) {k : Kind} → read_kind line r ≡ ok k → CanRun k
unfolding read_kind
read_kind-CanRun line (name ∷ state ∷ tool ∷ command ∷ scope ∷ config ∷ []) {k} e =
    elim (Result-cases (parse_scope line (text_fields scope))) [
      | inr (f, p) ↦ absurd (ground arith)
      | inl (ps, p) ↦ elim (Option-cases (config_in_git (text_fields config))) [
        | inr (c, g) ↦ absurd (ground arith)
        | inl g ↦
            let config' : text_fields config ≡ k.config = ground arith in
            record {
              scoped = λ x. ground arith;
              outside_git =
                  subst (λ z. All OutsideGit z) config' (config_in_git-All (text_fields config) g);
            }
      ]
    ]
read_kind-CanRun line [] e = cc
read_kind-CanRun line _ e = ground arith

read_kinds-CanRun :
    (line : ℕ) (rows : List (List Text)) {ks : List Kind}
    → read_kinds line rows ≡ ok ks
    → All CanRun ks
unfolding read_kinds
read_kinds-CanRun line [] {ks} e = let made : [] ≡ ks = ground arith in rw⁻¹ made tt
read_kinds-CanRun line (r ∷ rows) {ks} e = elim (Result-cases (read_kind line r)) [
  | inr (f, a) ↦ absurd (ground arith)
  | inl (k, a) ↦ elim (Result-cases (read_kinds (suc line) rows)) [
    | inr (f, b) ↦ absurd (ground arith)
    | inl (ks', b) ↦
        let made : k ∷ ks' ≡ ks = ground arith in
        rw⁻¹ made (read_kind-CanRun line r a, read_kinds-CanRun (suc line) rows b)
  ]
]

read_kinds-ne-nil :
    (line : ℕ) (r : List Text) (rows : List (List Text)) {ks : List Kind}
    → read_kinds line (r ∷ rows) ≡ ok ks
    → ks ≢ []
unfolding read_kinds
read_kinds-ne-nil line r rows {ks} e x = elim (Result-cases (read_kind line r)) [
  | inr (f, a) ↦ absurd (ground arith)
  | inl (k, a) ↦ elim (Result-cases (read_kinds (suc line) rows)) [
    | inr (f, b) ↦ absurd (ground arith)
    | inl (ks', b) ↦ absurd (ground arith)
  ]
]

-- A manifest that `ReadManifest` takes has a kind, and each has a scope and no config path that is .git
-- or in it, in whatever case the letters of .git are.
pub read_manifest-CanRun :
    (text : Text) {ks : List Kind} → read_manifest text ≡ ok ks → (ks ≢ []) × All CanRun ks
unfolding read_manifest
read_manifest-CanRun text {ks} e = elim (Result-cases (read text manifest_schema)) [
  | inr (f, a) ↦ absurd (cc (rw (a, read_manifest) at e))
  | inl ([], a) ↦ absurd (cc (rw (a, read_manifest) at e))
  | inl (r ∷ rows, a) ↦
      let body : read_kinds 2 (r ∷ rows) ≡ ok ks = rw (a, read_manifest) at e in
      (read_kinds-ne-nil 2 r rows body, read_kinds-CanRun 2 (r ∷ rows) body)
]
