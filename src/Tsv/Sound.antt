-- ===== src/Tsv/Sound.antt =====
-- What holds of every record that internal/tsv reads or writes: its cells and its keys.
use layup.Base.{
  ℕ, ◌+◌, ◌≡◌, ◌≢◌, ap, true, false, List, [], ◌∷◌, map, arith, if◌then◌else◌, All, Option-cases,
  inl, inr, is_empty, length, ok, ◌>>=◌, >>=-eq-ok, Result-cases, none, any,
}
use layup.Text.Split.{join}
use layup.Text.{Text, text_eq, text_eq_iff}
use layup.Tsv.Schema.{Column, Schema, FieldType}
use layup.Tsv.Codec.{write_rows, write, field_of, read}
use layup.Tsv.Row.{schema_types, check_fields, field_reason, lookup_key, add_key, Keys, check_row}
use layup.Tsv.Conforms.{schema_types-length, RowAllowed, check_row-RowAllowed}
use layup.Tsv.RoundTrip.{write-eq-ok}
use layup.Tsv.WriteBack.{write-read}

-- The fields of the key columns.
abbrev pub key_of : List Column → List Text → List Text
key_of [] fs = []
key_of (c ∷ cs) [] = []
key_of (c ∷ cs) (f ∷ fs) = let rest = key_of cs fs in if c.key then f ∷ rest else rest

-- No two entries are equal.
abbrev pub Distinct {ℓ} : {A : Type ℓ} → List A → Type ℓ
Distinct [] = Unit
Distinct (x ∷ xs) = All (λ y. x ≢ y) xs × Distinct xs

check_fields-key_of :
    (n : ℕ) (fs : List Text) (cs : List Column) (ts : List FieldType) {key : List Text}
    → length fs ≡ length cs
    → length ts ≡ length cs
    → check_fields n fs cs ts ≡ ok key
    → key ≡ key_of cs fs
unfolding check_fields
check_fields-key_of n [] [] ts p q h = ground arith
check_fields-key_of n [] (c ∷ cs) ts p q h = absurd (omega arith)
check_fields-key_of n (f ∷ fs) [] ts p q h = absurd (omega arith)
check_fields-key_of n (f ∷ fs) (c ∷ cs) [] p q h = absurd (omega arith)
check_fields-key_of n (f ∷ fs) (c ∷ cs) (t ∷ ts) p q h = elim (Option-cases (field_reason c t f)) [
  | inl e ↦
      let h' : (check_fields n fs cs ts >>= λ (key : List Text).
      ok (if c.key then f ∷ key else key))
          ≡ ok _ =
        rw (e, check_fields) at h in
      let (key, later, last) = >>=-eq-ok (check_fields n fs cs ts) _ h' in
      ground (arith, check_fields-key_of n fs cs ts (omega arith) (omega arith) later)
  | inr (reason, e) ↦ ground arith
]

key_of_not_empty :
    (cs : List Column) (fs : List Text)
    → length fs ≡ length cs
    → any (λ (c : Column). c.key) cs ≡ true
    → is_empty (key_of cs fs) ≡ false
key_of_not_empty [] fs p h = cc
key_of_not_empty (c ∷ cs) [] p h = absurd (omega arith)
key_of_not_empty (c ∷ cs) (f ∷ fs) p h = ground (arith, key_of_not_empty cs fs)

add_key-eq-ok :
    (n : ℕ) (key : List Text) (keys : Keys) {keys' : Keys}
    → is_empty key ≡ false
    → add_key n key keys ≡ ok keys'
    → (lookup_key (join b'\t' key) keys ≡ none) × (keys' ≡ (join b'\t' key, n) ∷ keys)
unfolding add_key
add_key-eq-ok n key keys e h = ground arith

-- The keys of a record's rows, as its lines hold them.
abbrev pub keys_of : List Column → List (List Text) → List (List Text)
keys_of cols = map (λ row. key_of cols (map field_of row))

module _ (cols : List Column) (types : List FieldType) (q : length types ≡ length cols) where
  write_rows-RowAllowed :
      (n : ℕ) (keys : Keys) (rows : List (List Text)) {t : Text}
      → write_rows n cols types keys rows ≡ ok t
      → All (λ row. RowAllowed cols types (map field_of row)) rows
  unfolding write_rows
  write_rows-RowAllowed n keys [] h = tt
  write_rows-RowAllowed n keys (row ∷ rows) h =
      let (keys', h₀, h₁) = >>=-eq-ok (check_row n (map field_of row) cols types keys) _ h in
      let (rest, h₂, _) = >>=-eq-ok (write_rows (n + 1) cols types keys' rows) _ h₁ in
      (
        check_row-RowAllowed n (map field_of row) cols types keys q h₀,
        write_rows-RowAllowed (n + 1) keys' rows h₂,
      )

  module _ (keyed : any (λ (c : Column). c.key) cols ≡ true) where
    check_row-key :
        (n : ℕ) (fields : List Text) (keys : Keys) {keys' : Keys}
        → check_row n fields cols types keys ≡ ok keys'
        → (lookup_key (join b'\t' (key_of cols fields)) keys ≡ none)
          × (keys' ≡ (join b'\t' (key_of cols fields), n) ∷ keys)
    unfolding check_row
    check_row-key n fields keys h = elim (Result-cases (check_fields n fields cols types)) [
      | inl (key, e) ↦
          let wide : length fields ≡ length cols = ground arith in
          let key_is = check_fields-key_of n fields cols types wide q e in
          rw (← key_is) (
            add_key-eq-ok n key keys (rw key_is (key_of_not_empty cols fields wide keyed))
              (ground arith))
      | inr (e, bad) ↦ absurd (ground arith)
    ]

    IsNew : Keys → List Text → Type 0
    IsNew keys key = lookup_key (join b'\t' key) keys ≡ none

    IsNew-tail :
        (k : Text) (n : ℕ) (keys : Keys) (ks : List (List Text))
        → All (IsNew ((k, n) ∷ keys)) ks
        → All (IsNew keys) ks
    unfolding IsNew lookup_key
    IsNew-tail k n keys [] a = tt
    IsNew-tail k n keys (j ∷ ks) a = (ground arith, IsNew-tail k n keys ks a.1)

    IsNew-ne :
        (key : List Text) (n : ℕ) (keys : Keys) (ks : List (List Text))
        → All (IsNew ((join b'\t' key, n) ∷ keys)) ks
        → All (λ j. key ≢ j) ks
    unfolding IsNew lookup_key
    IsNew-ne key n keys [] a = tt
    IsNew-ne key n keys (j ∷ ks) a = (
      (λ (e : key ≡ j).
          let same : text_eq (join b'\t' key) (join b'\t' j) ≡ true =
            (text_eq_iff _ _).1 (ap (join b'\t') e) in
          ground arith),
      IsNew-ne key n keys ks a.1,
    )

    write_rows-Distinct :
        (n : ℕ) (keys : Keys) (rows : List (List Text)) {t : Text}
        → write_rows n cols types keys rows ≡ ok t
        → All (IsNew keys) (keys_of cols rows) × Distinct (keys_of cols rows)
    unfolding write_rows
    write_rows-Distinct n keys [] h = (tt, tt)
    write_rows-Distinct n keys (row ∷ rows) h =
        let (keys', h₀, h₁) = >>=-eq-ok (check_row n (map field_of row) cols types keys) _ h in
        let (rest, h₂, _) = >>=-eq-ok (write_rows (n + 1) cols types keys' rows) _ h₁ in
        let (new, keys_are) = check_row-key n (map field_of row) keys h₀ in
        let (later, apart) = write_rows-Distinct (n + 1) keys' rows h₂ in
        let later' = rw keys_are at later in
        (
          (unfold IsNew in new, IsNew-tail _ n keys (keys_of cols rows) later'),
          (IsNew-ne (key_of cols (map field_of row)) n keys (keys_of cols rows) later', apart),
        )

-- The types of a schema whose rows were written are known, each field written is allowed by its
-- column, and where the schema has a key column the keys are all different.
pub write-Sound :
    (s : Schema) (rows : List (List Text)) {text : Text}
    → write s rows ≡ ok text
    → (types : List FieldType) × (schema_types s ≡ ok types)
      × All (λ row. RowAllowed s.columns types (map field_of row)) rows
      × (any (λ (c : Column). c.key) s.columns ≡ true → Distinct (keys_of s.columns rows))
write-Sound s rows h =
    let (types, body, t, w, _, _, _) = write-eq-ok s rows h in
    (
      types,
      t,
      write_rows-RowAllowed s.columns types (schema_types-length s t) _ [] rows w,
      λ keyed. (write_rows-Distinct s.columns types (schema_types-length s t) keyed _ [] rows w).1,
    )

-- The types of a schema whose text was read are known, each field read is allowed by its column, and
-- where the schema has a key column the keys are all different.
pub read-Sound :
    (s : Schema) (text : Text) {rows : List (List Text)}
    → read text s ≡ ok rows
    → (types : List FieldType) × (schema_types s ≡ ok types)
      × All (λ row. RowAllowed s.columns types (map field_of row)) rows
      × (any (λ (c : Column). c.key) s.columns ≡ true → Distinct (keys_of s.columns rows))
read-Sound s text {rows} h = write-Sound s rows (write-read s text h)
