-- ===== src/Gate/Matching.antt =====
-- internal/gate/scope.go: a pattern that is read prints back, and what it matches.
use layup.Base.{
  ◌+◌, ◌<◌, ◌≡◌, ◌≢◌, ◌⊎◌, ◌↔◌, inl, inr, refl, sym, ◌∙◌, ap, true, ◌&&◌, [], ◌∷◌, ◌++◌, arith, ltb,
  if◌then◌else◌, is_empty, length, ok, Bool-cases, Option-cases,
}
use layup.Text.{Text, codes, text_eq, text_eq_iff, has_prefix, contains_byte}
use layup.Text.Fields.{cut_text, cut_text-some, has_suffix, has_suffix-append, after_last}
use layup.Gate.Scope.{Pattern, valid_scope_path, star_ok, parse_pattern, matches}

-- A pattern as the manifest has it: P/*.E, or a path.
unfoldable pub print_pattern : Pattern → Text
print_pattern p = if is_empty p.ext then p.prefix else (p.dir ++ (codes "/*" ++ p.ext))

-- A scope pattern that `parsePattern` takes is what the pattern prints as.
pub print-parse_pattern : (s : Text) {p : Pattern} → parse_pattern s ≡ ok p → print_pattern p ≡ s
unfolding parse_pattern print_pattern
print-parse_pattern s {p} e = elim (Bool-cases (contains_byte b'*' s)) [
  | inr t ↦ elim (Bool-cases (valid_scope_path s)) [
    | inr v ↦ absurd (ground arith)
    | inl v ↦
        let made : record { dir = []; ext = []; prefix = s } ≡ p = ground arith in rw⁻¹ made refl
  ]
  | inl t ↦ elim (Option-cases (cut_text (codes "/*.") s)) [
    | inl n ↦ absurd (ground arith)
    | inr ((dir, ext), c) ↦ elim (Bool-cases (star_ok s dir ext)) [
      | inr v ↦ absurd (ground arith)
      | inl v ↦
          let made : record { dir = dir; ext = codes "." ++ ext; prefix = [] } ≡ p = ground arith in
          rw⁻¹ made (sym (cut_text-some (codes "/*.") s c))
    ]
  ]
]

is_empty_iff : (t : Text) → (is_empty t ≡ true) ↔ (t ≡ [])
is_empty_iff [] = (λ h. refl, λ h. refl)
is_empty_iff (c ∷ t) = (λ h. cc, λ h. cc)

pub has_prefix_iff : (p t : Text) → (has_prefix p t ≡ true) ↔ ((rest : Text) × (t ≡ p ++ rest))
unfolding has_prefix
has_prefix_iff [] t = (λ h. (t, refl), λ h. refl)
has_prefix_iff (x ∷ p) [] = (λ h. cc, λ (rest, e). cc)
has_prefix_iff (x ∷ p) (y ∷ t) =
    let tail = has_prefix_iff p t in
    (
      λ h.
          let (rest, e) = tail.0 (ground arith) in
          let same : x ≡ y = ground arith in (rest, cc (same, e)),
      λ (rest, e).
          let same : y ≡ x = cc in
          let equal : t ≡ p ++ rest = cc in let holds = tail.1 (rest, equal) in ground arith,
    )

has_suffix-stem : (stem s : Text) → has_suffix s (stem ++ s) ≡ true
unfolding has_suffix
has_suffix-stem [] [] = (text_eq_iff [] []).1 refl
has_suffix-stem [] (c ∷ s) = let self = (text_eq_iff (c ∷ s) (c ∷ s)).1 refl in ground arith
has_suffix-stem (x ∷ stem) s = let tail = has_suffix-stem stem s in ground arith

length-append : (s t : Text) → length (s ++ t) ≡ length s + length t
length-append [] t = omega arith
length-append (x ∷ s) t = let tail = length-append s t in omega arith

length-positive : (t : Text) → t ≢ [] → 0 < length t
length-positive [] n = absurd (n refl)
length-positive (c ∷ t) n = omega arith

-- A text ends with another and is longer exactly when it has a stem before it.
suffix_iff :
    (s t : Text)
    → ((has_suffix s t && ltb (length s) (length t)) ≡ true)
      ↔ ((stem : Text) × (stem ≢ []) × (t ≡ stem ++ s))
suffix_iff s t = (
  λ h.
      let ends : has_suffix s t ≡ true = ground arith in
      let longer : length s < length t = ground arith in
      let (stem, split) = has_suffix-append s t ends in
      (
        stem,
        λ x.
            let short : t ≡ s = split ∙ ap (λ u. u ++ s) x in
            let lengths = ap length short in absurd (omega arith),
        split,
      ),
  λ (stem, n, split).
      let ends : has_suffix s t ≡ true = rw split (has_suffix-stem stem s) in
      let lengths = ap length split ∙ length-append stem s in
      let positive = length-positive stem n in ground arith,
)

-- What a pattern matches: the path itself or one under it; for P/*.E, a file under P (anywhere for .)
-- whose name has a stem before .E.
pub Matched : Pattern → Text → Type 0
Matched p path =
    ((p.ext ≡ [])
      × ((path ≡ p.prefix) ⊎ ((rest : Text) × (path ≡ (p.prefix ++ codes "/") ++ rest))))
    ⊎ ((p.ext ≢ [])
        × ((p.dir ≡ codes ".") ⊎ ((rest : Text) × (path ≡ (p.dir ++ codes "/") ++ rest)))
        × ((stem : Text) × (stem ≢ []) × (after_last b'/' path ≡ stem ++ p.ext)))

-- `match` holds of a path exactly when it is that of a pattern with no *, or under it, or when, for
-- P/*.E, it is under P (anywhere for .) and its name ends with .E and has a stem before it; so ./*.go
-- does not match a file that is named .go.
pub matches-Matched : (p : Pattern) (path : Text) → (matches p path ≡ true) ↔ Matched p path
unfolding matches Matched
matches-Matched p path = elim (Bool-cases (is_empty p.ext)) [
  | inl t ↦
      let none_ext = (is_empty_iff p.ext).0 t in
      let same = text_eq_iff path p.prefix in
      let below = has_prefix_iff (p.prefix ++ codes "/") path in
      (
        λ h. inl (
          none_ext,
          elim (Bool-cases (text_eq path p.prefix)) [
            | inl s ↦ inl (same.0 s)
            | inr s ↦ inr (below.0 (ground arith))
          ],
        ),
        λ m. elim m [
          | inl (_, inl s) ↦ let holds = same.1 s in ground arith
          | inl (_, inr b) ↦ let holds = below.1 b in ground arith
          | inr (n, _, _) ↦ absurd (n none_ext)
        ],
      )
  | inr t ↦
      let dot = text_eq_iff p.dir (codes ".") in
      let below = has_prefix_iff (p.dir ++ codes "/") path in
      let stem = suffix_iff p.ext (after_last b'/' path) in
      let some_ext : p.ext ≢ [] = λ x. cc ((is_empty_iff p.ext).1 x, t) in
      (
        λ h. inr (
          some_ext,
          elim (Bool-cases (text_eq p.dir (codes "."))) [
            | inl s ↦ inl (dot.0 s)
            | inr s ↦ inr (below.0 (ground arith))
          ],
          stem.0 (ground arith),
        ),
        λ m. elim m [
          | inl (e, _) ↦ absurd (some_ext e)
          | inr (_, inl s, u) ↦ let holds = dot.1 s in let ends = stem.1 u in ground arith
          | inr (_, inr b, u) ↦ let holds = below.1 b in let ends = stem.1 u in ground arith
        ],
      )
]
