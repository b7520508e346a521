-- ===== src/Attempts/Cycles.antt =====
-- internal/run/cycle.go: `parseCycle`, the command of the Operator for one more cycle.
use layup.Base.{
  Bool, false, not, ◌&&◌, ◌||◌, List, [], ◌∷◌, none, some, leb, ◌==◌, if◌then◌else◌, is_empty, all,
  length,
}
use layup.Text.{Text, codes, text_eq, cut_prefix, contains_byte, contains_any}
use layup.Text.Split.{split, join}

-- What parts the words of a line, and ends it.
abbrev pub white : Text
white = b' ' ∷ 9 ∷ 13 ∷ 10 ∷ []

-- `strings.TrimRight`.
unfoldable pub trim_right_any : Text → Text → Text
trim_right_any cs [] = []
trim_right_any cs (x ∷ t) =
    let rest = trim_right_any cs t in if contains_byte x cs && is_empty rest then [] else x ∷ rest

-- The text before the first of some bytes.
unfoldable pub before_any : Text → Text → Text
before_any cs [] = []
before_any cs (x ∷ t) = let rest = before_any cs t in if contains_byte x cs then [] else x ∷ rest

-- `cycleTask`.
unfoldable pub is_task : Text → Bool
is_task t = elim (cut_prefix (codes "T-") t) [
  | none ↦ false
  | some rest ↦
      (length rest == 4) && all (λ c. (leb b'a' c && leb c b'z') || (leb b'0' c && leb c b'9')) rest
]

-- Why a form is refused.
pub data FormReason : Type 0 where
  more_lines broken_form empty_reason : FormReason

-- What `parseCycle` gives: no command, a form that is refused, or the task and the reason.
pub data Parsed : Type 0 where
  no_command : Parsed
  refused_form : FormReason → Parsed
  command : Text → Text → Parsed

unfoldable pub starts_with_tab : Text → Bool
starts_with_tab [] = false
starts_with_tab (c ∷ t) = c == 9

-- The cases of `parseCycle` behind the one on the lines.
unfoldable pub parse_parts : List Text → Parsed
parse_parts (first ∷ task ∷ because ∷ word ∷ words) =
    let reason = join b' ' (word ∷ words) in
    if not (is_task task)
      || (not (text_eq because (codes "because")) || (is_empty word || starts_with_tab word))
    then refused_form broken_form
    else if is_empty reason || text_eq reason (0xE2 ∷ 0x80 ∷ 0x94 ∷ [])
    then refused_form empty_reason
    else command task reason
parse_parts _ = refused_form broken_form

unfoldable pub parse_cycle : Text → Parsed
parse_cycle body =
    let text = trim_right_any white body in
    if not (text_eq (before_any white text) (codes "cycle"))
    then no_command
    else if contains_any (13 ∷ 10 ∷ []) text
    then refused_form more_lines
    else parse_parts (split b' ' text)
