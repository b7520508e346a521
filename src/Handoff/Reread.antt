-- ===== src/Handoff/Reread.antt =====
-- internal/handoff/table.go: `ReadTable` reads what `WriteTable` wrote.
use mathlib.Core.Path.{subst}
use layup.Base.{
  ℕ, ◌+◌, ◌≡◌, inl, inr, refl, sym, ap, ◌∙◌, Bool, true, not, ◌&&◌, List, [], ◌∷◌, ◌++◌, map, arith,
  All, all, leb, is_empty, Result, ok, err, >>=-eq-ok, refuse_if, refuse_if-eq-ok, and_true,
  Result-cases,
}
use layup.Text.{Text, text_eq, member}
use layup.Text.Split.{join}
use layup.Text.Plain.{printable, IsPlain, text_fields-join}
use layup.Tsv.Codec.{write, join_list, list_values}
use layup.Tsv.Schema.{Error}
use layup.Tsv.ReadLines.{spaced, read_back}
use layup.Tsv.RoundTrip.{read-write}
use layup.Members.{In, member_iff}
use layup.Handoff.Table.{
  Row, RowReason, kinds, item_names, check_words, check_row, no_artifacts, no_items, unknown_kind,
  unknown_item,
}
use layup.Handoff.Stored.{
  transitions, fields_of, all_fields, from_codec, write_table, row_of, read_rows, read_table,
}

-- A row as it is read back: the codec makes the tabs and line ends of the two steps spaces.
abbrev pub row_back : Row → Row
row_back r = record r { from = read_back r.from; to = read_back r.to }

plain_word : Text → Bool
plain_word w = not (is_empty w) && all printable w

In-IsPlain : (ks : List Text) (w : Text) → all plain_word ks ≡ true → In w ks → IsPlain w
unfolding plain_word
In-IsPlain [] w h i = absurd i
In-IsPlain (k ∷ ks) w h i =
    let (first, others) = and_true (plain_word k) (all plain_word ks) h in
    let (full, bytes) = and_true (not (is_empty k)) (all printable k) first in
    elim i [
      | inl same ↦ subst IsPlain (sym same) ((λ e. absurd (ground arith)), bytes)
      | inr later ↦ In-IsPlain ks w others later
    ]

-- A byte that the codec keeps.
abbrev kept_byte : ℕ → Bool
kept_byte b = leb 32 b && leb b 126

kept-printable : (w : Text) → all printable w ≡ true → all kept_byte w ≡ true
kept-printable [] h = refl
kept-printable (b ∷ w) h =
    let (first, others) = and_true (printable b) (all printable w) h in
    ground (arith, kept-printable w others)

kept-append :
    (a b : Text) → all kept_byte a ≡ true → all kept_byte b ≡ true → all kept_byte (a ++ b) ≡ true
kept-append [] b h k = k
kept-append (x ∷ a) b h k =
    let (first, others) = and_true (kept_byte x) (all kept_byte a) h in
    rw first (kept-append a b others k)

kept-join : (ws : List Text) → All IsPlain ws → all kept_byte (join b' ' ws) ≡ true
unfolding join
kept-join [] a = refl
kept-join (w ∷ []) a = kept-printable w a.0.1
kept-join (w ∷ v ∷ ws) a =
    kept-append w (b' ' ∷ join b' ' (v ∷ ws)) (kept-printable w a.0.1) (kept-join (v ∷ ws) a.1)

map-spaced_kept : (t : Text) → all kept_byte t ≡ true → map spaced t ≡ t
map-spaced_kept [] h = refl
map-spaced_kept (b ∷ t) h =
    let (first, others) = and_true (kept_byte b) (all kept_byte t) h in
    ground (arith, map-spaced_kept t others)

read_back_kept : (t : Text) → all kept_byte t ≡ true → read_back t ≡ t
unfolding text_eq
read_back_kept [] h = refl
read_back_kept (b ∷ t) h =
    let (first, others) = and_true (kept_byte b) (all kept_byte t) h in
    ground (arith, map-spaced_kept t others)

check_words-IsPlain :
    (known : List Text) (reason : Text → RowReason) (ws : List Text)
    → all plain_word known ≡ true
    → check_words known reason ws ≡ ok tt
    → All IsPlain ws
unfolding check_words
check_words-IsPlain known reason [] h e = tt
check_words-IsPlain known reason (w ∷ ws) h e =
    let (u, first, others) = >>=-eq-ok (refuse_if (not (member w known)) (reason w)) _ e in
    (
      In-IsPlain known w h (
          (member_iff w known).0
            (ground (arith, refuse_if-eq-ok (not (member w known)) (reason w) first))),
      check_words-IsPlain known reason ws h others,
    )

-- The words of a row that is taken are plain.
record PlainRow (r : Row) : Type 0 where
  artifacts : All IsPlain r.artifacts
  items : All IsPlain r.items

check_row-PlainRow : (r : Row) → check_row r ≡ ok tt → PlainRow r
unfolding check_row plain_word
check_row-PlainRow r e =
    let (u₁, a, e₁) = >>=-eq-ok (refuse_if (is_empty r.artifacts) no_artifacts) _ e in
    let (u₂, b, e₂) = >>=-eq-ok (refuse_if (is_empty r.items) no_items) _ e₁ in
    let (u₃, c, e₃) = >>=-eq-ok (check_words kinds unknown_kind r.artifacts) _ e₂ in
    record {
      artifacts = check_words-IsPlain kinds unknown_kind r.artifacts refl c;
      items = check_words-IsPlain item_names unknown_item r.items refl e₃;
    }

join_list-join : (vs : List Text) {t : Text} → join_list vs ≡ ok t → join b' ' vs ≡ t
unfolding join_list
join_list-join vs e = let (u, fine, made) = >>=-eq-ok (list_values 0 vs) _ e in cc

-- The fields of a row, read back, are those of the row as it is read back.
fields_of-back :
    (i : ℕ) (r : Row) {f : List Text}
    → PlainRow r
    → fields_of i r ≡ ok f
    → row_of (map read_back f) ≡ row_back r
unfolding fields_of row_of
fields_of-back i r {f} p e = elim (Result-cases (join_list r.artifacts)) [
  | inr (j, bad) ↦ absurd (ground arith)
  | inl (a, joined_a) ↦ elim (Result-cases (join_list r.items)) [
    | inr (j, bad) ↦ absurd (ground arith)
    | inl (it, joined_it) ↦
        let is : f ≡ r.from ∷ r.to ∷ join b' ' r.artifacts ∷ join b' ' r.items ∷ [] =
          ground (arith, join_list-join r.artifacts joined_a, join_list-join r.items joined_it) in
        let a_back = read_back_kept (join b' ' r.artifacts) (kept-join r.artifacts p.artifacts) in
        let it_back = read_back_kept (join b' ' r.items) (kept-join r.items p.items) in
        rw
          (
            is,
            a_back,
            it_back,
            text_fields-join r.artifacts p.artifacts,
            text_fields-join r.items p.items,
          )
          refl
  ]
]

read_rows-cons :
    (line : ℕ) (g : List Text) (gs : List (List Text)) (rows : List Row)
    → check_row (row_of g) ≡ ok tt
    → read_rows (line + 1) gs ≡ ok rows
    → read_rows line (g ∷ gs) ≡ ok (row_of g ∷ rows)
unfolding read_rows
read_rows-cons line g gs rows fine later = rw (read_rows, fine, later) refl

-- The check of a row does not read its steps.
check_row-row_back : (r : Row) → check_row (row_back r) ≡ check_row r
unfolding check_row
check_row-row_back r = refl

all_fields-back :
    (i line : ℕ) (rows : List Row) {fs : List (List Text)}
    → All (λ r. check_row r ≡ ok tt) rows
    → all_fields i rows ≡ ok fs
    → read_rows line (map (map read_back) fs) ≡ ok (map row_back rows)
unfolding all_fields read_rows
all_fields-back i line [] {fs} a e =
    let nothing : [] ≡ fs = cc in
    subst (λ z. read_rows line (map (map read_back) z) ≡ ok []) nothing refl
all_fields-back i line (r ∷ rows) {fs} a e =
    let (f, one, e₁) = >>=-eq-ok (fields_of i r) _ e in
    let (fs', others, made) = >>=-eq-ok (all_fields (i + 1) rows) _ e₁ in
    let is : f ∷ fs' ≡ fs = cc in
    let back = fields_of-back i r (check_row-PlainRow r a.0) one in
    let later = all_fields-back (i + 1) (line + 1) rows a.1 others in
    let fine = ap check_row back ∙ check_row-row_back r ∙ a.0 in
    subst (λ z. read_rows line (map (map read_back) z) ≡ ok (row_back r ∷ map row_back rows)) is
      (read_rows-cons line (map read_back f) (map (map read_back) fs') (map row_back rows) fine
          later
        ∙ ap (λ z. ok (z ∷ map row_back rows)) back)

from_codec-ok : {A : Type 0} (m : Result Error A) {a : A} → from_codec m ≡ ok a → m ≡ ok a
from_codec-ok (err x) e = cc
from_codec-ok (ok a) e = cc

-- A table whose rows pass the check of a row, and that `WriteTable` writes, is read back by
-- `ReadTable` row by row: its words as they were, and its two steps with the tabs and the line ends
-- that they hold as spaces.
pub read_table-write_table :
    (rows : List Row) {text : Text}
    → All (λ r. check_row r ≡ ok tt) rows
    → write_table rows ≡ ok text
    → read_table text ≡ ok (map row_back rows)
unfolding write_table read_table
read_table-write_table rows {text} a e =
    let (fs, made, written) = >>=-eq-ok (all_fields 1 rows) _ e in
    let back = read-write transitions fs (from_codec-ok (write transitions fs) written) in
    rw (read_table, back) (all_fields-back 1 2 rows a made)
