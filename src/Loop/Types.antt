-- ===== src/Loop/Types.antt =====
-- internal/run/register.go, reopen.go, shapeloop.go and steps.go: the rows and the results that the
-- step loop reads and gives. An error is its message.
use layup.Base.{ℕ, Bool, List}
use layup.Text.{Text, codes, before_byte}

pub record Task : Type 0 where
  pub id : Text
  pub issue : ℕ
  pub kind : Text
  pub requirements : List Text
  pub size : Text
  pub predecessors : List Text
  pub pr : ℕ
  pub opened : ℕ

-- A row of spec/reopenings.tsv, as its read gives it.
pub record Reopening : Type 0 where
  pub n : Text
  pub fact : Text
  pub reclassed : Text
  pub token : Text
  pub requirement : Text
  pub task : Text
  pub copy : Text

pub record Step : Type 0 where
  pub name : Text
  pub result : Text
  pub detail : Text

pub record Advance : Type 0 where
  pub task : Text
  pub verified : Bool
  pub merged : Bool
  pub head : Text
  pub attempt : ℕ
  pub waiting : Text
  pub stop : Text
  pub replaced : Text

unfoldable pub done : Text → Text → Step
done name detail = record { name = name; result = codes "done"; detail = detail }

unfoldable pub failf : Text → Text → Step
failf name detail = record { name = name; result = codes "fail"; detail = detail }

-- The detail is the first line of the error.
unfoldable pub fail : Text → Text → Step
unfolding before_byte
fail name message = record {
  name = name;
  result = codes "fail";
  detail = before_byte b'\n' message;
}
