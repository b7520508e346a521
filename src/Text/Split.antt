-- ===== src/Text/Split.antt =====
-- `strings.Split` and `strings.Join` at one byte, and their laws.
use layup.Base.{
  ℕ, ◌≡◌, ◌≢◌, refl, ap, ◌∙◌, false, List, [], ◌∷◌, ◌++◌, arith, ◌==◌, if◌then◌else◌, All,
  Bool-cases, inl, inr,
}

-- Puts a byte in front of the first piece.
abbrev cons_first : ℕ → List (List ℕ) → List (List ℕ)
cons_first x [] = (x ∷ []) ∷ []
cons_first x (p ∷ ps) = (x ∷ p) ∷ ps

unfoldable pub split : ℕ → List ℕ → List (List ℕ)
split c [] = [] ∷ []
split c (x ∷ t) = let rest = split c t in if x == c then [] ∷ rest else cons_first x rest

unfoldable pub join : ℕ → List (List ℕ) → List ℕ
join c [] = []
join c (p ∷ []) = p
join c (p ∷ q ∷ ps) = p ++ (c ∷ join c (q ∷ ps))

-- `c` does not stand in the text.
abbrev pub Lacks : ℕ → List ℕ → Type 0
Lacks c [] = Unit
Lacks c (x ∷ t) = (x == c ≡ false) × Lacks c t

pub split-ne-nil : (c : ℕ) (t : List ℕ) → split c t ≢ []
unfolding split
split-ne-nil c [] = ground arith
split-ne-nil c (x ∷ t) = ground arith

join-cons_first : (c x : ℕ) (ps : List (List ℕ)) → join c (cons_first x ps) ≡ x ∷ join c ps
unfolding join
join-cons_first c x [] = refl
join-cons_first c x (p ∷ []) = refl
join-cons_first c x (p ∷ q ∷ ps) = refl

join-nil_cons : (c : ℕ) (ps : List (List ℕ)) → ps ≢ [] → join c ([] ∷ ps) ≡ c ∷ join c ps
unfolding join
join-nil_cons c [] h = absurd (h refl)
join-nil_cons c (p ∷ ps) h = refl

-- Joining what was split gives the text back.
pub join-split : (c : ℕ) (t : List ℕ) → join c (split c t) ≡ t
unfolding split
join-split c [] = unfold join in refl
join-split c (x ∷ t) = elim (Bool-cases (x == c)) [
  | inl e ↦ rw e (ground (arith, join-nil_cons c (split c t) (split-ne-nil c t), join-split c t))
  | inr e ↦ rw e (join-cons_first c x (split c t) ∙ ap (◌∷◌ x) (join-split c t))
]

cons_first-Lacks :
    (c x : ℕ) (ps : List (List ℕ))
    → (x == c) ≡ false
    → All (Lacks c) ps
    → All (Lacks c) (cons_first x ps)
cons_first-Lacks c x [] h a = ((h, tt), tt)
cons_first-Lacks c x (p ∷ ps) h a = ((h, a.0), a.1)

-- No piece holds the separator.
pub split-Lacks : (c : ℕ) (t : List ℕ) → All (Lacks c) (split c t)
unfolding split
split-Lacks c [] = (tt, tt)
split-Lacks c (x ∷ t) = elim (Bool-cases (x == c)) [
  | inl e ↦ rw e (tt, split-Lacks c t)
  | inr e ↦ rw e (cons_first-Lacks c x (split c t) e (split-Lacks c t))
]

-- A byte that the text lacks is in no piece.
pub split-Lacks_of : (c d : ℕ) (t : List ℕ) → Lacks d t → All (Lacks d) (split c t)
unfolding split
split-Lacks_of c d [] h = (tt, tt)
split-Lacks_of c d (x ∷ t) h = elim (Bool-cases (x == c)) [
  | inl e ↦ rw e (tt, split-Lacks_of c d t h.1)
  | inr e ↦ rw e (cons_first-Lacks d x (split c t) h.0 (split-Lacks_of c d t h.1))
]

pub split_one : (c : ℕ) (t : List ℕ) → Lacks c t → split c t ≡ t ∷ []
unfolding split
split_one c [] h = refl
split_one c (x ∷ t) h = rw (h.0) (rw (split_one c t h.1))

pub split-append :
    (c : ℕ) (t rest : List ℕ) → Lacks c t → split c (t ++ (c ∷ rest)) ≡ t ∷ split c rest
unfolding split
split-append c [] rest h = ground arith
split-append c (x ∷ t) rest h = rw (h.0) (rw (split-append c t rest h.1))

append-Lacks : (d : ℕ) (a b : List ℕ) → Lacks d a → Lacks d b → Lacks d (a ++ b)
append-Lacks d [] b h k = k
append-Lacks d (x ∷ a) b h k = (h.0, append-Lacks d a b h.1 k)

-- Joining pieces that lack a byte other than the separator gives a text that lacks it.
pub join-Lacks :
    (c d : ℕ) (ps : List (List ℕ)) → (c == d) ≡ false → All (Lacks d) ps → Lacks d (join c ps)
unfolding join
join-Lacks c d [] h a = tt
join-Lacks c d (p ∷ []) h a = a.0
join-Lacks c d (p ∷ q ∷ ps) h a =
    append-Lacks d p (c ∷ join c (q ∷ ps)) a.0 (h, join-Lacks c d (q ∷ ps) h a.1)

-- Splitting what was joined gives the pieces back.
pub split-join :
    (c : ℕ) (ps : List (List ℕ)) → ps ≢ [] → All (Lacks c) ps → split c (join c ps) ≡ ps
unfolding join
split-join c [] h a = absurd (h refl)
split-join c (p ∷ []) h a = split_one c p a.0
split-join c (p ∷ q ∷ ps) h a =
    split-append c p (join c (q ∷ ps)) a.0 ∙ ap (◌∷◌ p) (split-join c (q ∷ ps) (λ e. cc) a.1)
