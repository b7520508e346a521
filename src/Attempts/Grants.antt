-- ===== src/Attempts/Grants.antt =====
-- internal/run/cycle.go: `judgeCommand`, `capRound`, `judgeGrants` and `grantOf`, and `Decision` of rules.go.
use layup.Base.{
  ℕ, ◌+◌, Bool, false, not, ◌&&◌, List, [], ◌∷◌, ◌++◌, Option, none, some, leb, ◌==◌, if◌then◌else◌,
  is_empty, any,
}
use layup.Text.{Text, codes, text_eq, cut_prefix, cut_byte}
use layup.Text.Numbers.{decimal_text, atoi}
use layup.Attempts.View.{SessionRow, View, Copy, last_handoff}
use layup.Attempts.Stages.{has_findings}
use layup.Attempts.Position.{cycle_cap}
use layup.Attempts.Cycles.{FormReason, no_command, refused_form, command, parse_cycle}

-- Why a command is refused: by its form, its author, its issue, the cap or the bound, with the numbers
-- and the texts that its message shows.
pub data RefusedFor : Type 0 where
  for_form : FormReason → RefusedFor
  for_author : RefusedFor
  for_issue : ℕ → Text → RefusedFor
  below_cap not_mergeable_cap : RefusedFor
  early : ℕ → ℕ → RefusedFor
  for_bound : ℕ → RefusedFor

-- `Decision` for the role operator.
unfoldable pub decision : Copy → List (Text × Text) → Bool
decision c approvers =
    text_eq c.seen (codes "1")
    && (is_empty c.app
        && any (λ a. text_eq a.0 c.author && text_eq a.1 (codes "operator")) approvers)

-- What `judgeCommand` gives: no command, a refusal, or the task.
pub data Judged : Type 0 where
  no_cycle : Judged
  refusal : RefusedFor → Judged
  passes : Text → Judged

unfoldable pub judge_command : Copy → ℕ → List (Text × Text) → Judged
judge_command c control approvers = elim (parse_cycle c.body) [
  | no_command ↦ no_cycle
  | refused_form reason ↦ refusal (for_form reason)
  | command task reason ↦
      if not (decision c approvers)
      then refusal for_author
      else if not (text_eq c.issue (decimal_text control))
      then refusal (for_issue control c.issue)
      else passes task
]

-- Whether a text starts with a digit.
unfoldable pub starts_with_digit : Text → Bool
starts_with_digit [] = false
starts_with_digit (c ∷ t) = leb b'0' c && leb c b'9'

-- The comment of a handoff, by `fmt.Sscanf` of "valid comment %d-%d".
unfoldable pub comment_of : Text → Option ℕ
comment_of detail = elim (cut_prefix (codes "valid comment ") detail) [
  | none ↦ none
  | some numbers ↦ elim (cut_byte b'-' numbers) [
    | none ↦ none
    | some (id, seen) ↦
        if starts_with_digit seen
          && (starts_with_digit id && not (any (λ c. not (leb b'0' c && leb c b'9')) id))
        then some (atoi id)
        else none
  ]
]

-- The cap round at a session: the comment of its handoff and its verdict.
unfoldable pub round_of : View → SessionRow → Option (ℕ × Text)
round_of v s =
    let detail = elim (last_handoff v s.id) as (λ o. Text) [ none ↦ [] | some d ↦ d ] in
    elim (comment_of detail) [
      | none ↦ none
      | some id ↦ elim (v.records s.id) [ none ↦ none | some r ↦ some (id, r.verdict) ]
    ]

-- `capRound` behind `n` rounds.
unfoldable pub cap_from : View → ℕ → List SessionRow → Option (ℕ × Text)
cap_from v n [] = none
cap_from v n (s ∷ ss) =
    let same = cap_from v n ss in
    let more = cap_from v (n + 1) ss in
    if not (has_findings v s) then same else if n + 1 == cycle_cap + 1 then round_of v s else more

unfoldable pub cap_round : View → Option (ℕ × Text)
unfolding cap_from
cap_round v = cap_from v 0 v.sessions

-- The ID of a candidate, and the stable sort by it.
unfoldable pub id_of : Copy → ℕ
id_of c = atoi c.comment

unfoldable pub insert_copy : Copy → List Copy → List Copy
insert_copy c [] = c ∷ []
insert_copy c (d ∷ ds) =
    let rest = insert_copy c ds in if leb (id_of c) (id_of d) then c ∷ d ∷ ds else d ∷ rest

unfoldable pub sort_copies : List Copy → List Copy
sort_copies [] = []
sort_copies (c ∷ cs) = insert_copy c (sort_copies cs)

-- The grant, 0 for none, and the refusals of the items cap and bound.
pub record Grants : Type 0 where
  pub grant : ℕ
  pub refused : List (ℕ × RefusedFor)

abbrev pub refuse : Grants → ℕ → RefusedFor → Grants
refuse g id for = record g { refused = g.refused ++ ((id, for) ∷ []) }

-- The `switch` of `judgeGrants`.
unfoldable pub weigh : Option (ℕ × Text) → Grants → ℕ → Grants
weigh none g id = refuse g id below_cap
weigh (some (cap, verdict)) g id =
    if text_eq verdict (codes "not mergeable, findings recorded")
    then refuse g id not_mergeable_cap
    else if leb id cap
    then refuse g id (early id cap)
    else if not (g.grant == 0)
    then refuse g id (for_bound g.grant)
    else record g { grant = id }

unfoldable pub judge_grant : View → Grants → Copy → Grants
judge_grant v g c = elim (judge_command c v.control v.approvers) [
  | no_cycle ↦ g
  | refusal for ↦ g
  | passes task ↦ if not (text_eq task v.task) then g else weigh (cap_round v) g (id_of c)
]

unfoldable pub judge_in : View → Grants → List Copy → Grants
judge_in v g [] = g
judge_in v g (c ∷ cs) = judge_in v (judge_grant v g c) cs

-- `judgeGrants`.
unfoldable pub judge_grants : View → List Copy → Grants
unfolding judge_in sort_copies
judge_grants v cands = judge_in v (record { grant = 0; refused = [] }) (sort_copies cands)

-- `grantOf`.
unfoldable pub grant_of : View → ℕ
grant_of v = if (judge_grants v v.cycles).grant == 0 then 0 else 1
