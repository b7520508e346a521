-- ===== src/Route/Admit.antt =====
-- internal/route/admit.go: the admission of a pair and the order of the routing register. An int of 64
-- bits is its number in two's complement: from 2^63 on it stands for a negative one.
use layup.Base.{
  ℕ, Bool, true, false, not, ◌&&◌, List, [], ◌∷◌, Option, none, some, leb, if◌then◌else◌, all, ◌==◌,
  ◌+◌, ◌-◌, ◌%◌, ◌||◌, is_empty,
}
use layup.Text.{Text, codes, text_eq}
use layup.Text.Numbers.{number_from, atoi}
use layup.Tsv.Schema.{Schema, Column}
use layup.Records.Fields.{fields}

abbrev route_column : Text → Text → Bool → Column
route_column name type_expr key = record {
  name = name;
  type_expr = type_expr;
  key = key;
  rule = [];
}

abbrev pub harnesses_schema : Schema
harnesses_schema = record {
  name = codes "harnesses";
  location = codes "records:harnesses.tsv";
  no_header = false;
  columns =
      route_column (codes "session") (codes "id(S-xxxxxxxx)") true
      ∷ route_column (codes "harness") (codes "id(<word>)") false
      ∷ route_column (codes "version") (codes "text") false
      ∷ route_column (codes "model") (codes "text") false
      ∷ route_column (codes "result") (codes "enum(passed|failed)") false
      ∷ route_column (codes "reason") (codes "text") false
      ∷ route_column (codes "files") (codes "list(text)") false
      ∷ route_column (codes "models") (codes "list(text)") false
      ∷ route_column (codes "end") (codes "time") false
      ∷ [];
}

abbrev pub models_schema : Schema
models_schema = record {
  name = codes "models";
  location = codes "host:registers/models.tsv";
  no_header = false;
  columns =
      route_column (codes "harness") (codes "id(<word>)") true
      ∷ route_column (codes "model") (codes "text") true
      ∷ route_column (codes "context") (codes "int") false
      ∷ route_column (codes "source") (codes "text") false
      ∷ route_column (codes "date") (codes "time") false
      ∷ route_column (codes "use") (codes "enum(yes|no)") false
      ∷ route_column (codes "reason") (codes "text") false
      ∷ [];
}

abbrev pub routing_schema : Schema
routing_schema = record {
  name = codes "routing";
  location = codes "records:routing.tsv";
  no_header = false;
  columns =
      route_column (codes "role") (codes "text") true
      ∷ route_column (codes "tier") (codes "enum(reasoning|execution)") true
      ∷ route_column (codes "position") (codes "int") true
      ∷ route_column (codes "harness") (codes "id(<word>)") false
      ∷ route_column (codes "model") (codes "text") false
      ∷ [];
}

-- `Probed`: the result of the last row of the harness and the version.
unfoldable pub probed_from : Bool → List (List Text) → Text → Text → Bool
probed_from passed [] harness version = passed
probed_from passed (r ∷ rows) harness version =
    let f = fields harnesses_schema r in
    if text_eq (f (codes "harness")) harness && text_eq (f (codes "version")) version
    then probed_from (text_eq (f (codes "result")) (codes "passed")) rows harness version
    else probed_from passed rows harness version

unfoldable pub probed : List (List Text) → Text → Text → Bool
probed rows = probed_from false rows

-- The loop of `Admitted` over models.tsv.
unfoldable pub model_use : List (List Text) → Text → Text → Bool
model_use [] harness model = false
model_use (r ∷ rows) harness model =
    let f = fields models_schema r in
    let rest = model_use rows harness model in
    if text_eq (f (codes "harness")) harness && text_eq (f (codes "model")) model
    then text_eq (f (codes "use")) (codes "yes")
    else rest

-- `Admitted`.
unfoldable pub admitted : List (List Text) → List (List Text) → Text → Text → Text → Bool
admitted harnesses models harness version model =
    if not (probed harnesses harness version) then false else model_use models harness model

pub record Choice : Type 0 where
  pub position : ℕ
  pub harness : Text
  pub model : Text

abbrev pub int_limit : ℕ
int_limit = 9223372036854775808

abbrev pub int_size : ℕ
int_size = 18446744073709551616

-- `p, _ := strconv.Atoi(t)`: 0 for a text that is no number, and the bound next to one out of range.
unfoldable pub negative : Text → ℕ
negative t =
    if is_empty t || not (all (λ c. leb b'0' c && leb c b'9') t)
    then 0
    else if leb (number_from 0 t) int_limit
    then (int_size - number_from 0 t) % int_size
    else int_limit

unfoldable pub position_of : Text → ℕ
position_of [] = 0
position_of (c ∷ t) = if c == b'-' then negative t else if c == b'+' then atoi t else atoi (c ∷ t)

-- `a.position - b.position`, which wraps around, is not positive.
unfoldable pub not_behind : Choice → Choice → Bool
not_behind c d =
    let difference = (c.position + int_size - d.position) % int_size in
    (difference == 0) || leb int_limit difference

-- The rows of the role and the tier.
unfoldable pub choices : List (List Text) → Text → Text → List Choice
choices [] role tier = []
choices (r ∷ rows) role tier =
    let f = fields routing_schema r in
    let rest = choices rows role tier in
    if text_eq (f (codes "role")) role && text_eq (f (codes "tier")) tier
    then record {
      position = position_of (f (codes "position"));
      harness = f (codes "harness");
      model = f (codes "model");
    }
      ∷ rest
    else rest

unfoldable pub insert : Choice → List Choice → List Choice
insert c [] = c ∷ []
insert c (d ∷ ds) = let rest = insert c ds in if not_behind c d then c ∷ d ∷ ds else d ∷ rest

-- `slices.SortFunc` by the position; rows of one position, which it may order in any way, keep their
-- order here.
unfoldable pub sort : List Choice → List Choice
sort [] = []
sort (c ∷ cs) = insert c (sort cs)

unfoldable pub first_admitted : (Text → Text → Bool) → List Choice → Option (Text × Text)
first_admitted admit [] = none
first_admitted admit (c ∷ cs) =
    let rest = first_admitted admit cs in
    if admit c.harness c.model then some (c.harness, c.model) else rest

-- `Pair`; `none` is `ErrNoPair`.
unfoldable pub pair : List (List Text) → Text → Text → (Text → Text → Bool) → Option (Text × Text)
pair routing role tier admit = first_admitted admit (sort (choices routing role tier))
