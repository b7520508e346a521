-- ===== src/Tests/Handoff.antt =====
-- Runs of internal/handoff, and the theorems about it at concrete handoffs.
use layup.Base.{Bool, true, false, ◌≡◌, refl, List, [], ◌∷◌, some, inl, inr, ◌⊎◌, ok, All, ◌↔◌}
use layup.Text.{Text, codes, text_eq}
use layup.Handoff.Table.{
  Row, default_rows, is_pair, find_row, in_force, check_row, row_error, check_rows, check_defaults,
  check_table,
}
use layup.Handoff.Check.{
  Handoff, comment_kind, hex_hash, artifact_ok, artifacts_ok, check_items, check_against, check,
  suffix_of,
}
use layup.Handoff.Laws.{Meets, check_iff}
use layup.Handoff.Tables.{check_table_iff, check_rows_sound, Apart, RowFits, HasPair}
use layup.Handoff.InForce.{in_force-check_table, IsLater}

abbrev hash : Text
hash = codes "0123456789abcdef0123456789abcdef0123456789abcdef0123456789abcdef"

-- The plan of a task, handed to the plan review.
abbrev plan_handoff : Handoff
plan_handoff = record {
  from = codes "task plan";
  to = codes "plan review";
  code_written = false;
  schema_ok = true;
  artifacts =
      record {
        kind = codes "plan";
        path = [];
        named = [];
        found = [];
        comment = some (record { id = 7; seen = 1; file = hash; copy = hash; forge = hash });
      }
      ∷ [];
  items = λ item. text_eq item (codes "plan-fields");
}

drop_last : List Row → List Row
drop_last [] = []
drop_last (r ∷ []) = []
drop_last (r ∷ s ∷ rows) = r ∷ drop_last (s ∷ rows)

-- Opens all that a check computes with.
handoff_run : List Row → Handoff → Bool
unfolding check check_against check_items artifacts_ok artifact_ok comment_kind hex_hash suffix_of
    find_row is_pair default_rows text_eq check_table check_rows check_defaults row_error check_row
    in_force
handoff_run table h = (check table h).is_valid

plan_handoff_valid : (check default_rows plan_handoff).is_valid ≡ true
unfolding handoff_run
plan_handoff_valid = refl

default_rows_table : check_table default_rows ≡ ok tt
unfolding handoff_run
default_rows_table = refl

check_iff_example : ((check default_rows plan_handoff).is_valid ≡ true) ↔ (
    (row : Row) × (find_row plan_handoff.from plan_handoff.to default_rows ≡ some row)
    × Meets row plan_handoff)
check_iff_example = check_iff default_rows plan_handoff

check_table_iff_example : (check_table default_rows ≡ ok tt) ↔ (
    All RowFits default_rows
    × Apart [] default_rows
    × All (λ (d : Row). HasPair default_rows d.from d.to) default_rows)
check_table_iff_example = check_table_iff default_rows

-- The default table without its last row.
old_rows : List Row
unfolding default_rows drop_last
old_rows = drop_last default_rows

old_rows_table : check_rows 1 [] old_rows ≡ ok tt
unfolding handoff_run old_rows
old_rows_table = refl

old_rows_fit : All RowFits old_rows × Apart [] old_rows
old_rows_fit = check_rows_sound 1 [] old_rows old_rows_table

old_rows_defaults : All (λ (d : Row). IsLater d ⊎ HasPair old_rows d.from d.to) default_rows
unfolding old_rows default_rows
old_rows_defaults = (
  inr (inl (refl, refl)),
  (
    inr (inr (inl (refl, refl))),
    (
      inr (inr (inr (inl (refl, refl)))),
      (
        inr (inr (inr (inr (inl (refl, refl))))),
        (
          inr (inr (inr (inr (inr (inl (refl, refl)))))),
          (
            inr (inr (inr (inr (inr (inr (inl (refl, refl))))))),
            (
              inr (inr (inr (inr (inr (inr (inr (inl (refl, refl)))))))),
              (
                inr (inr (inr (inr (inr (inr (inr (inr (inl (refl, refl))))))))),
                (
                  inr (inr (inr (inr (inr (inr (inr (inr (inr (inl (refl, refl)))))))))),
                  (
                    inr (inr (inr (inr (inr (inr (inr (inr (inr (inr (inl (refl, refl))))))))))),
                    (
                      inr (
                          inr (
                            inr
                              (inr (inr (inr (inr (inr (inr (inr (inr (inl (refl, refl)))))))))))),
                      (
                        inr (
                            inr (
                              inr (
                                inr (
                                  inr (
                                    inr (inr (inr (inr (inr (inr (inr (inl (refl, refl))))))))))))),
                        (
                          inr (
                              inr (
                                inr (
                                  inr (
                                    inr (
                                      inr (
                                        inr (
                                          inr
                                            (inr (inr (inr (inr (inr (inl (refl, refl)))))))))))))),
                          (inl (refl, refl), tt),
                        ),
                      ),
                    ),
                  ),
                ),
              ),
            ),
          ),
        ),
      ),
    ),
  ),
)

in_force-check_table_example : check_table (in_force old_rows) ≡ ok tt
in_force-check_table_example =
    in_force-check_table old_rows old_rows_fit.0 old_rows_fit.1 old_rows_defaults
