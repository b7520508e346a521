-- ===== src/Text/Plain.antt =====
-- `strings.Fields` gives back printable words that stand between single spaces.
use mathlib.Core.List.{append-nil, append_assoc}
use layup.Base.{
  ℕ, ◌≡◌, ◌≢◌, refl, sym, ap, ◌∙◌, true, List, [], ◌∷◌, ◌++◌, arith, All, leb, Bool, ◌&&◌, all,
  and_true,
}
use layup.Text.{Text}
use layup.Text.Split.{join}
use layup.Text.Fields.{space_length, fields_from, text_fields}

-- A printable byte of ASCII that is no space, and a word of such bytes.
abbrev pub printable : ℕ → Bool
printable b = leb 33 b && leb b 126

abbrev pub IsPlain : Text → Type 0
IsPlain w = (w ≢ []) × (all printable w ≡ true)

space_length-printable : (b : ℕ) (t : Text) → printable b ≡ true → space_length (b ∷ t) ≡ 0
unfolding space_length
space_length-printable b [] h = ground arith
space_length-printable b (c ∷ []) h = ground arith
space_length-printable b (c ∷ d ∷ t) h = ground arith

space_length-space : (t : Text) → space_length (b' ' ∷ t) ≡ 1
unfolding space_length
space_length-space [] = refl
space_length-space (c ∷ []) = refl
space_length-space (c ∷ d ∷ t) = refl

fields_from-word :
    (word w rest : Text)
    → all printable w ≡ true
    → fields_from 0 word (w ++ rest) ≡ fields_from 0 (word ++ w) rest
unfolding fields_from
fields_from-word word [] rest h = ap (λ z. fields_from 0 z rest) (sym (append-nil word))
fields_from-word word (b ∷ w) rest h =
    let (first, others) = and_true (printable b) (all printable w) h in
    rw (fields_from, space_length-printable b (w ++ rest) first)
      (fields_from-word (word ++ (b ∷ [])) w rest others
        ∙ ap (λ z. fields_from 0 z rest) (append_assoc word (b ∷ []) w))

fields_from-space :
    (word rest : Text) → word ≢ [] → fields_from 0 word (b' ' ∷ rest) ≡ word ∷ fields_from 0 [] rest
unfolding fields_from
fields_from-space [] rest h = absurd (h refl)
fields_from-space (c ∷ word) rest h = rw (fields_from, space_length-space rest) refl

fields_from-end : (word : Text) → word ≢ [] → fields_from 0 word [] ≡ word ∷ []
unfolding fields_from
fields_from-end [] h = absurd (h refl)
fields_from-end (c ∷ word) h = refl

pub text_fields-join : (ws : List Text) → All IsPlain ws → text_fields (join b' ' ws) ≡ ws
unfolding text_fields join
text_fields-join [] a = unfold fields_from in refl
text_fields-join (w ∷ []) a =
    ap (fields_from 0 []) (sym (append-nil w))
    ∙ fields_from-word [] w [] a.0.1
    ∙ fields_from-end w a.0.0
text_fields-join (w ∷ v ∷ ws) a =
    fields_from-word [] w (b' ' ∷ join b' ' (v ∷ ws)) a.0.1
    ∙ fields_from-space w (join b' ' (v ∷ ws)) a.0.0
    ∙ ap (◌∷◌ w) (text_fields-join (v ∷ ws) a.1)
