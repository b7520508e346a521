-- ===== src/Lib.antt =====
-- layup: a command that runs work items through roles, gates and a forge, and keeps its records as
-- tab-separated text. The parts modelled, with their files here:
--
-- * Tsv (internal/tsv/tsv.go and types.go): the codec of records. Tsv.Schema has Schema and Column;
--   Tsv.Types and its children the closed list of types (parseType, idPattern and its expressions);
--   Tsv.Row is checkHeader and checkRow; Tsv.Codec is fieldRule, Write, Read and JoinList. The other
--   modules prove what their names say. Write gives its text, the io.Writer is outside. Tsv.Blocks and
--   Tsv.Compare have the tsv-schema blocks of Markdown files (internal/tsv/block.go): parseBlocks as a
--   scan with the open fence and the open block as its state, ReadBlocks and Compare.
-- * Handoff (internal/handoff): Handoff.Table has the transition table, InForce and CheckTable,
--   Handoff.Check the check of a handoff against a table, and Handoff.Stored the table as a record of
--   the codec, WriteTable and ReadTable.
-- * Forge (internal/forge/forge.go and fake.go): Forge.Types has the checks of the interface,
--   Forge.Fake and Forge.Calls the stand-in forge, each call a function from the state to a result
--   and the new state. Forge.Invariant makes one type of the calls, with what holds between them.
-- * Lease (internal/run/lease.go and store.go): Lease.Take and Lease.Fenced have the rules of the
--   lease over the interfaces Store and Clock, as functions on a state of the world; Lease.Records has
--   the store of the records branch, with git as a parameter: a record of its calls and of documented
--   behaviour (a push that is not forced is taken only when the commit is the head already or the
--   head is an ancestor of it). What holds once another run pushed rests on a condition of its own,
--   NewCommits: no commit that is made is byte for byte the head already.
-- * Records (internal/records/records.go): Records.Fields reads a row by the names of its columns,
--   Records.Stalls has the record of stalls with the rules of a row and of the order of the rows.
-- * Gate (internal/gate/scope.go, manifest.go and result.go): Gate.Scope has the scope patterns,
--   Gate.Manifest the manifest and the results of a kind, with the tools and the commands as functions.
-- * Route (internal/route/admit.go and register.go): Route.Admit has the admission of a pair and the
--   order of the routing register, Route.Register the rules of a row of the harness register.
-- * Posting (internal/run/statuses.go and attempt.go): Posting.Fit and Posting.Post have the posting of a
--   commit status on the stand-in forge, Posting.Attempts the findings that go back to the developer.
-- * Loop (internal/run/loop.go): Loop.Order has the merge order of the tasks and the pick of the next,
--   Loop.Acts what an act on a task is and the boundary of a step, and Loop.Running the scheduler
--   runLoop over its environment loopEnv, a record of functions on a state of the world; a pass gives
--   the step that the loop returns, or the variables of the next pass. Each act of the scheduler calls
--   into the records, the forge and the sessions: what the environment does is a parameter.
-- * Attempts (internal/run/shapeloop.go): Attempts.View has the events and the sessions of a task and
--   the reads of them (validHandoff of frozen.go, startRow and answerSession of questionloop.go, the
--   step table of internal/session/context.go), Attempts.Stages how a session ended and how far a
--   stage has come, Attempts.Retries the ends that a retry replaces, Attempts.Rejections the plans
--   that a review rejected, and Attempts.Sorting, Attempts.Position and Attempts.Walk loopPosition,
--   whose chain of returns is a chain of results. A question of the attempt is a position; its stages
--   (questionPosition) are not modelled. Attempts.Cycles and Attempts.Grants have the command of the
--   Operator for one more cycle (internal/run/cycle.go), and Attempts.Driver AdvanceShapeTask, over
--   a record of the acts that it calls.
-- * Base, Text and Members are shared: tests on numbers, results, Go strings as lists of bytes with
--   the functions of strings and utf8 that the code calls, and lists with a decided predicate.
-- * Tests has runs at concrete inputs.
--
-- Numbers of the source that are never negative where they are used are natural numbers. Errors are
-- data types with a constructor for each message. Recursion is structural but for parseType, whose
-- fuel is the length of the type and one more, which Tsv.TypesFuel shows to be enough, and for the
-- wait of Take, which runs on a number of rounds that Lease.Ends bounds, and runLoop, for which
-- Loop.Counted shows that 203 passes are enough. AdvanceShapeTask counts its 100 acts down as its source
-- counts them up. In Attempts and Route a number of the records saturates at the largest int, as with Atoi;
-- in Route, where one may be negative, it is an int of 64 bits in two's complement.
--
-- Not modelled: processes, git, the forge's HTTP client and the files of a repository, which the
-- code only calls, and the commands of the loop that are built of such calls.
pub mod Base
pub mod Text
pub mod Members
pub mod Tsv
pub mod Handoff
pub mod Forge
pub mod Lease
pub mod Records
pub mod Gate
pub mod Route
pub mod Posting
pub mod Loop
pub mod Attempts
pub mod Tests
