-- ===== src/Tests/Records.antt =====
-- Runs of internal/records on a record of one stall, and the theorems about it there.
use layup.Base.{◌≡◌, refl, ◌∷◌, [], ◌++◌, List, Bool, false, none, ok, is_ok}
use layup.Text.{Text, codes, cut_prefix}
use layup.Text.Numbers.{decimal_text}
use layup.Records.Fields.{value_in, missing, session_form, check_each}
use layup.Records.Stalls.{
  stall_kinds, check_columns, check_forms, check_stall, stall_id, set_stall, stall_row, rows_of,
  check_follow, check_one, check_order, check_stalls, read_stalls, text_ltb,
}
use layup.Records.History.{History, of_stall, check_stalls-History}
use layup.Tests.Tsv.{codec_run}

abbrev hash : Text
hash = codes "0123456789abcdef0123456789abcdef0123456789abcdef0123456789abcdef"

abbrev stall : List Text
stall =
    codes "ST-001"
    ∷ codes "stall"
    ∷ codes "2026-01-02T03:04:05Z"
    ∷ codes "T-abcd"
    ∷ codes "hang"
    ∷ hash
    ∷ []
    ∷ []
    ∷ []
    ∷ []
    ∷ []
    ∷ []

abbrev diagnosis : List Text
diagnosis =
    codes "ST-001"
    ∷ codes "diagnosis"
    ∷ codes "2026-01-02T03:05:05Z"
    ∷ codes "T-abcd"
    ∷ []
    ∷ hash
    ∷ codes "other"
    ∷ codes "retry"
    ∷ codes "S-01234567"
    ∷ []
    ∷ []
    ∷ []

abbrev outcome : List Text
outcome =
    codes "ST-001"
    ∷ codes "outcome"
    ∷ codes "2026-01-02T03:05:05Z"
    ∷ codes "T-abcd"
    ∷ []
    ∷ []
    ∷ []
    ∷ []
    ∷ []
    ∷ codes "task-stopped"
    ∷ codes "stopped"
    ∷ []

-- Opens all that the checks of stalls compute with.
stalls_run : List (List Text) → Bool
unfolding codec_run check_stalls check_order check_one check_follow set_stall stall_row rows_of
    stall_id text_ltb value_in missing session_form cut_prefix decimal_text check_each check_stall
    check_columns check_forms stall_kinds read_stalls
stalls_run rows = is_ok (check_stalls rows)

stalls_taken : check_stalls (stall ∷ diagnosis ∷ outcome ∷ []) ≡ ok tt
unfolding stalls_run
stalls_taken = refl

outcome_refused : is_ok (check_stalls (stall ∷ outcome ∷ [])) ≡ false
unfolding stalls_run
outcome_refused = refl

check_stalls-History_example :
    History none (of_stall (codes "ST-001") (rows_of (stall ∷ diagnosis ∷ outcome ∷ [])))
check_stalls-History_example =
    check_stalls-History (stall ∷ diagnosis ∷ outcome ∷ []) stalls_taken (codes "ST-001")

-- The text of the three rows.
abbrev mark : Text
mark = 0xE2 ∷ 0x80 ∷ 0x94 ∷ []

abbrev tab : Text
tab = b'\t' ∷ []

abbrev stalls_text : Text
stalls_text =
    codes "stall\tkind\ttime\ttask\ttrigger\tevidence\tcause\trung\texaminer\toutcome\tnote\n"
    ++ codes "ST-001\tstall\t2026-01-02T03:04:05Z\tT-abcd\thang\t"
    ++ hash
    ++ tab
    ++ mark
    ++ tab
    ++ mark
    ++ tab
    ++ mark
    ++ tab
    ++ mark
    ++ tab
    ++ mark
    ++ codes "\nST-001\tdiagnosis\t2026-01-02T03:05:05Z\tT-abcd\t"
    ++ mark
    ++ tab
    ++ hash
    ++ codes "\tother\tretry\tS-01234567\t"
    ++ mark
    ++ tab
    ++ mark
    ++ codes "\nST-001\toutcome\t2026-01-02T03:05:05Z\tT-abcd\t"
    ++ mark
    ++ tab
    ++ mark
    ++ tab
    ++ mark
    ++ tab
    ++ mark
    ++ tab
    ++ mark
    ++ codes "\ttask-stopped\tstopped\n"

stalls_read : read_stalls stalls_text ≡ ok (stall ∷ diagnosis ∷ outcome ∷ [])
unfolding stalls_run
stalls_read = refl
