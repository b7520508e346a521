-- ===== src/Attempts/Bounded.antt =====
-- internal/run/shapeloop.go: a stage and a class of a task have one retry.
use mathlib.Core.Path.{subst}
use layup.Base.{
  ℕ, ◌+◌, ◌≤◌, ◌≡◌, ◌≢◌, inl, inr, refl, sym, ap, true, false, ◌&&◌, List, [], ◌∷◌, some, arith,
  if◌then◌else◌, length, All, Bool-cases,
}
use layup.Text.{Text, codes, text_eq, text_eq_iff}
use layup.Text.Numbers.{decimal_text}
use layup.Members.{In}
use layup.Attempts.View.{View}
use layup.Attempts.Retries.{Eligible, eligible_end, is_spent, last_attempt, retries}
use layup.Attempts.Spent.{stages, classes, Matched, retries-Matched}
use layup.Attempts.Pending.{retries-Fits}

-- The end of an attempt is of another stage or of another class than `x`.
abbrev pub EndsOtherwise : View → Eligible → Text × Text → Type 0
EndsOtherwise v x (b, id) =
    (y : Eligible) → eligible_end v b ≡ some y → (x.stage ≡ y.stage) → x.class ≢ y.class

-- Each attempt ended in its session by an end of a stage and a class of the lists, which no other one
-- of the list has.
abbrev pub RetriedOnce : View → List (Text × Text) → Type 0
RetriedOnce v [] = Unit
RetriedOnce v ((a, id) ∷ rep) =
    ((x : Eligible) × (eligible_end v a ≡ some x)
      × (x.id ≡ id)
      × In x.stage stages
      × In x.class classes
      × All (EndsOtherwise v x) rep)
    × RetriedOnce v rep

not_spent-EndsOtherwise :
    (v : View) (x : Eligible) (rep spent : List (Text × Text))
    → Matched v rep spent
    → is_spent x.stage x.class spent ≡ false
    → All (EndsOtherwise v x) rep
unfolding is_spent
not_spent-EndsOtherwise v x [] [] m f = tt
not_spent-EndsOtherwise v x [] (k ∷ spent) m f = absurd m
not_spent-EndsOtherwise v x (p ∷ rep) [] m f = absurd m
not_spent-EndsOtherwise v x ((b, id) ∷ rep) ((stage, class) ∷ spent) (e, _, _, _, m) f = (
  (λ y there same_stage same_class.
      let made : record { id = id; stage = stage; class = class } ≡ y = cc in
      absurd (
        ground (
          arith,
          text_eq_iff stage x.stage,
          text_eq_iff class x.class,
          ap (λ (z : Eligible). z.stage) made,
          ap (λ (z : Eligible). z.class) made,
        ))),
  not_spent-EndsOtherwise v x rep spent m (ground arith),
)

Matched-RetriedOnce :
    (v : View) (rep spent : List (Text × Text)) → Matched v rep spent → RetriedOnce v rep
Matched-RetriedOnce v [] spent m = tt
Matched-RetriedOnce v (p ∷ rep) [] m = absurd m
Matched-RetriedOnce v ((a, id) ∷ rep) ((stage, class) ∷ spent) (e, s, c, f, m) =
    let x : Eligible = record { id = id; stage = stage; class = class } in
    (
      (x, e, refl, s, c, not_spent-EndsOtherwise v x rep spent m f),
      Matched-RetriedOnce v rep spent m,
    )

-- Each stage beside each class.
abbrev all_keys : List (Text × Text)
all_keys =
    (codes "plan", codes "uncertain")
    ∷ (codes "plan", codes "artifact")
    ∷ (codes "plan", codes "rule-path")
    ∷ (codes "developer", codes "uncertain")
    ∷ (codes "developer", codes "artifact")
    ∷ (codes "developer", codes "rule-path")
    ∷ (codes "review", codes "uncertain")
    ∷ (codes "review", codes "artifact")
    ∷ (codes "review", codes "rule-path")
    ∷ (codes "verifier", codes "uncertain")
    ∷ (codes "verifier", codes "artifact")
    ∷ (codes "verifier", codes "rule-path")
    ∷ []

In-all_keys : (s c : Text) → In s stages → In c classes → is_spent s c all_keys ≡ true
unfolding is_spent text_eq
In-all_keys s c i j =
    let key : Text → Text → Type 0 = λ a b. is_spent a b all_keys ≡ true in
    let by_class : (a : Text)
        → key a (codes "uncertain")
        → key a (codes "artifact")
        → key a (codes "rule-path")
        → key a c =
      λ a u t r. elim j [
        | inl e ↦ subst (key a) (sym e) u
        | inr (inl e) ↦ subst (key a) (sym e) t
        | inr (inr (inl e)) ↦ subst (key a) (sym e) r
        | inr (inr (inr none_left)) ↦ absurd none_left
      ] in
    elim i [
      | inl e ↦ subst (λ z. key z c) (sym e) (by_class (codes "plan") refl refl refl)
      | inr (inl e) ↦ subst (λ z. key z c) (sym e) (by_class (codes "developer") refl refl refl)
      | inr (inr (inl e)) ↦ subst (λ z. key z c) (sym e) (by_class (codes "review") refl refl refl)
      | inr (inr (inr (inl e))) ↦
          subst (λ z. key z c) (sym e) (by_class (codes "verifier") refl refl refl)
      | inr (inr (inr (inr none_left))) ↦ absurd none_left
    ]

-- How often a key was spent.
count : Text → Text → List (Text × Text) → ℕ
count s c [] = 0
count s c ((s', c') ∷ spent) = (if text_eq s' s && text_eq c' c then 1 else 0) + count s c spent

total : List (Text × Text) → List (Text × Text) → ℕ
total spent [] = 0
total spent ((s, c) ∷ keys) = count s c spent + total spent keys

count-not_spent :
    (s c : Text) (spent : List (Text × Text)) → is_spent s c spent ≡ false → count s c spent ≡ 0
unfolding is_spent count
count-not_spent s c [] f = refl
count-not_spent s c ((s', c') ∷ spent) f = ground (arith, count-not_spent s c spent)

count-le-one :
    (v : View) (s c : Text) (rep spent : List (Text × Text))
    → Matched v rep spent
    → count s c spent ≤ 1
unfolding count
count-le-one v s c [] [] m = omega arith
count-le-one v s c [] (k ∷ spent) m = absurd m
count-le-one v s c (p ∷ rep) [] m = absurd m
count-le-one v s c ((a, id) ∷ rep) ((s', c') ∷ spent) (e, _, _, f, m) =
    elim (Bool-cases (text_eq s' s && text_eq c' c)) [
      | inr other ↦ rw other (omega (arith, count-le-one v s c rep spent m))
      | inl same ↦
          let es : s' ≡ s = (text_eq_iff s' s).0 (ground arith) in
          let ec : c' ≡ c = (text_eq_iff c' c).0 (ground arith) in
          let f' : is_spent s c spent ≡ false =
            subst (λ z. is_spent z c spent ≡ false) es
              (subst (λ z. is_spent s' z spent ≡ false) ec f) in
          rw same (omega (arith, count-not_spent s c spent f'))
    ]

total-le :
    (v : View) (rep spent keys : List (Text × Text))
    → Matched v rep spent
    → total spent keys ≤ length keys
unfolding total
total-le v rep spent [] m = omega arith
total-le v rep spent ((s, c) ∷ keys) m =
    omega (arith, count-le-one v s c rep spent m, total-le v rep spent keys m)

total_mono :
    (s c : Text) (spent keys : List (Text × Text)) → total spent keys ≤ total ((s, c) ∷ spent) keys
unfolding total count
total_mono s c spent [] = omega arith
total_mono s c spent ((s', c') ∷ keys) = ground (arith, total_mono s c spent keys)

total-cons :
    (s c : Text) (spent keys : List (Text × Text))
    → is_spent s c keys ≡ true
    → total spent keys + 1 ≤ total ((s, c) ∷ spent) keys
unfolding total count is_spent
total-cons s c spent [] h = cc
total-cons s c spent ((s', c') ∷ keys) h = elim (Bool-cases (text_eq s' s && text_eq c' c)) [
  | inr other ↦ ground (arith, total-cons s c spent keys (ground (arith, other)))
  | inl same ↦
      let es : text_eq s s' ≡ true =
        (text_eq_iff s s').1 (sym ((text_eq_iff s' s).0 (ground arith))) in
      let ec : text_eq c c' ≡ true =
        (text_eq_iff c c').1 (sym ((text_eq_iff c' c).0 (ground arith))) in
      rw (es, ec) (omega (arith, total_mono s c spent keys))
]

length-le-total :
    (v : View) (rep spent : List (Text × Text))
    → Matched v rep spent
    → length rep ≤ total spent all_keys
length-le-total v [] [] m = omega arith
length-le-total v [] (k ∷ spent) m = absurd m
length-le-total v (p ∷ rep) [] m = absurd m
length-le-total v ((a, id) ∷ rep) ((s, c) ∷ spent) (e, i, j, f, m) =
    omega
      (arith, length-le-total v rep spent m, total-cons s c spent all_keys (In-all_keys s c i j))

bounded : (v : View) (rep spent : List (Text × Text)) → Matched v rep spent → length rep ≤ 12
bounded v rep spent m =
    omega (arith, length-le-total v rep spent m, total-le v rep spent all_keys m)

-- Of the attempts that `retries` gives as replaced, each ended in its session by an eligible end of a
-- stage and of a class, no two of the same stage and the same class; so there are twelve at most,
-- whatever the records of the task hold. Where it gives a session whose end the next attempt would
-- replace, the latest attempt ended in it by such an end, of another stage or another class than each
-- of those; with that retry there are still twelve at most.
pub retries-RetriedOnce :
    (v : View)
    → RetriedOnce v (retries v).replaced
      × (length (retries v).replaced ≤ 12)
      × ((retries v).pending ≢ []
          → RetriedOnce v
              ((decimal_text (last_attempt 0 v.events), (retries v).pending) ∷ (retries v).replaced)
            × (length (retries v).replaced + 1 ≤ 12))
retries-RetriedOnce v =
    let m = retries-Matched v in
    let rep = (retries v).replaced in
    let spent = (retries v).spent in
    (
      Matched-RetriedOnce v rep spent m,
      bounded v rep spent m,
      (λ some_one. elim (retries-Fits v) [
        | inl none_there ↦ absurd (some_one none_there)
        | inr (key, fits) ↦
            let more = (decimal_text (last_attempt 0 v.events), (retries v).pending) ∷ rep in
            (
              Matched-RetriedOnce v more (key ∷ spent) fits,
              omega (arith, bounded v more (key ∷ spent) fits),
            )
      ]),
    )
