-- ===== src/Text/Lines.antt =====
-- Lines that each end with a line feed: `unlines`, and how the last line feed is taken off.
use mathlib.Core.List.{append_assoc}
use layup.Base.{ℕ, ◌≡◌, refl, sym, ap, true, false, List, [], ◌∷◌, ◌++◌, arith, All}
use layup.Text.Split.{split, join, split-join, Lacks}
use layup.Text.{Text, has_suffix_byte, trim_suffix_byte, contains_byte, contains_any}

unfoldable pub unlines : ℕ → List Text → Text
unlines c [] = []
unlines c (l ∷ ls) = l ++ (c ∷ unlines c ls)

pub unlines-join :
    (c : ℕ) (l : Text) (ls : List Text) → unlines c (l ∷ ls) ≡ join c (l ∷ ls) ++ (c ∷ [])
unfolding unlines join
unlines-join c l [] = refl
unlines-join c l (m ∷ ls) = rw (unlines-join c m ls) (sym (append_assoc l _ _))

pub trim-append : (c : ℕ) (t : Text) → trim_suffix_byte c (t ++ (c ∷ [])) ≡ t
unfolding trim_suffix_byte
trim-append c [] = ground arith
trim-append c (x ∷ []) = ap (◌∷◌ x) (trim-append c [])
trim-append c (x ∷ y ∷ t) = ap (◌∷◌ x) (trim-append c (y ∷ t))

pub has_suffix-append : (c : ℕ) (t : Text) → has_suffix_byte c (t ++ (c ∷ [])) ≡ true
unfolding has_suffix_byte
has_suffix-append c [] = ground arith
has_suffix-append c (x ∷ []) = has_suffix-append c []
has_suffix-append c (x ∷ y ∷ t) = has_suffix-append c (y ∷ t)

-- A text that ends with the byte is its trimmed form and the byte.
pub append-trim :
    (c : ℕ) (t : Text) → has_suffix_byte c t ≡ true → trim_suffix_byte c t ++ (c ∷ []) ≡ t
unfolding trim_suffix_byte has_suffix_byte
append-trim c [] h = cc
append-trim c (x ∷ []) h = ground arith
append-trim c (x ∷ y ∷ t) h = ap (◌∷◌ x) (append-trim c (y ∷ t) h)

pub split-trim-unlines :
    (c : ℕ) (l : Text) (ls : List Text)
    → All (Lacks c) (l ∷ ls)
    → split c (trim_suffix_byte c (unlines c (l ∷ ls))) ≡ l ∷ ls
split-trim-unlines c l ls a =
    rw (unlines-join c l ls, trim-append c (join c (l ∷ ls))) (split-join c (l ∷ ls) (λ e. cc) a)

pub has_suffix-unlines :
    (c : ℕ) (l : Text) (ls : List Text) → has_suffix_byte c (unlines c (l ∷ ls)) ≡ true
has_suffix-unlines c l ls = rw (unlines-join c l ls) (has_suffix-append c (join c (l ∷ ls)))

pub contains-Lacks : (c : ℕ) (t : Text) → contains_byte c t ≡ false → Lacks c t
unfolding contains_byte
contains-Lacks c [] h = tt
contains-Lacks c (x ∷ t) h = (ground arith, contains-Lacks c t (ground arith))

pub Lacks-contains : (c : ℕ) (t : Text) → Lacks c t → contains_byte c t ≡ false
unfolding contains_byte
Lacks-contains c [] h = refl
Lacks-contains c (x ∷ t) h = rw (h.0) (Lacks-contains c t h.1)

-- A text that holds none of the bytes lacks each of them.
pub contains_any-Lacks :
    (c : ℕ) (cs t : Text) → contains_byte c cs ≡ true → contains_any cs t ≡ false → Lacks c t
unfolding contains_any
contains_any-Lacks c cs [] m h = tt
contains_any-Lacks c cs (x ∷ t) m h = (ground arith, contains_any-Lacks c cs t m (ground arith))
