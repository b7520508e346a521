-- ===== src/Attempts/Commands.antt =====
-- internal/run/cycle.go: what `parseCycle` takes for a command.
use layup.Base.{◌≡◌, ◌≢◌, true, false, List, [], ◌∷◌, ◌++◌, is_empty}
use layup.Text.{Text, codes, contains_any}
use layup.Text.Split.{join}
use layup.Attempts.Cycles.{white, trim_right_any, is_task, starts_with_tab}

-- The parts of a command: the first word, the task, `because`, and the reason.
record IsParts (ps : List Text) (task reason : Text) : Type 0 where
  first : Text
  word : Text
  words : List Text
  parts : ps ≡ first ∷ task ∷ codes "because" ∷ word ∷ words
  joined : join b' ' (word ∷ words) ≡ reason
  is_task_form : is_task task ≡ true
  has_word : is_empty word ≡ false
  no_tab : starts_with_tab word ≡ false
  no_dash : reason ≢ 0xE2 ∷ 0x80 ∷ 0x94 ∷ []

-- A body that is a command, for a task and a reason: one line, but for the white space behind it.
pub record IsCommand (body task reason : Text) : Type 0 where
  pub line : trim_right_any white body ≡ codes "cycle " ++ (task ++ (codes " because " ++ reason))
  pub one_line : contains_any (13 ∷ 10 ∷ []) (trim_right_any white body) ≡ false
  pub names_task : is_task task ≡ true
  pub some_reason : is_empty reason ≡ false
  pub no_tab : starts_with_tab reason ≡ false
  pub no_dash : reason ≢ 0xE2 ∷ 0x80 ∷ 0x94 ∷ []
