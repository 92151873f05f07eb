-- ===== src/Lib.antt =====
-- cgpipe: a verification library for the syntax, the evaluator, the build driver and the job ledger.
--
-- A pipeline is read (internal/lexer, internal/parser) and evaluated (internal/eval) to a program of
-- targets (eval.Target). The driver
-- (internal/runner/driver.go) looks for each goal for the rule that makes it, decides whether the
-- target is stale, and hands stale targets, their prerequisites first, to a backend, which runs them
-- or submits them to a scheduler. The scheduler backends record what they submit in a ledger
-- (internal/ledger/ledger.go), which tells later runs what job will make a path.
--
-- Shared modules:
--   Prelude       library names, Boolean tests on ℕ, lists, association lists for Go maps
--   Text          Go strings as lists of bytes, with the functions of `strings` that the code calls
--   Exec          methods with a state that may fail; Exec/Triple has their pre- and postconditions
--
-- The driver (Runner):
--   Runner/Cache            the cache of file times
--   Runner/Target           eval.Target, eval.Program and Label
--   Runner/Wildcard         MatchWildcard and Instantiate, for `%` rules
--   Runner/Driver           the driver's fields, the backend, and candidatesFor
--   Runner/Driver/Choose    satisfiable, inputSatisfiable, producerFor
--   Runner/Driver/Resolve   resolve
--   Runner/Driver/JobArrays detectArrays, collapseFullArrayDeps, arrayDepDirectives, sameDeps
--   Runner/Driver/Submit    submit, collectDeps, submitArrayGroup, doSubmit
--   Runner/Driver/Build     Build, buildGoal, the opportunistic targets
--   Runner/Guarantees       the promises of these for a call from a given state
-- A pointer to a target is a `Ref`: the target's place in the program, or the rule and the stem of
-- an instance, which is the key of wildInstances. candCache and wildInstances keep answers of a
-- function that depends on the program only, so the model calls the function. The cache of file
-- times (Runner/Cache) answers a path the same way all through a build, so the driver has it as a
-- function `stat`; times count from 1970. The backend is a parameter whose answers may depend on
-- every call made to it before;
-- ExternalDep and the task index that a body sets (Program.ArrayIndex) are parameters too. Errors
-- are constructors of `Error`. The recursion through rules is bounded by `depth` and `fuel`; a bound
-- above the rank of a target is enough, where a rank falls from each rule to the rules that make
-- its inputs, which is what a pipeline without cycles has. Debug output is not modelled.
--
-- The ledger (Ledger):
--   Ledger          Job, record, ordKey, state.apply, load, OwnerOf, Record
--   Ledger/Order    the order of the records
--   Ledger/Fold     what the folded view holds
--   Ledger/Vacuum   Vacuum, and what it keeps
--   Ledger/Query    Search, Dump, Jobs, Owners and the names of the logs
-- A line of a log is a decoded record, or `none` for one that is blank or malformed. JSON, the file
-- system and its failures, and the test whether a process is alive are outside of the model.
--
-- The syntax (Syntax):
--   Syntax/Token            internal/token/token.go
--   Syntax/Lexer            internal/lexer/lexer.go
--   Syntax/Ast              the expressions of internal/ast/ast.go
--   Syntax/Cursor           the cursor of internal/parser/parser.go, and parse errors
--   Syntax/Parser           ParseExpr and the functions below it; Syntax/Parser/Print has the printer
--                           that the round trip is about
--   Syntax/Words            declWords and the spans that it copies
--   Syntax/Stmt             the statements of internal/ast/ast.go
--   Syntax/Lookahead        lineIsAssignment, lhsHasIndex, findColon, scanDeclEnd
--   Syntax/Targets          bodies, names and targets, and the statements without expressions
--   Syntax/Simple           the statements with expressions, but without blocks
--   Syntax/Statements       blocks, if, for, parseStmt, Parse and extractHelp
-- A Lexer holds what is left of its source and the position of that, in place of the source and an
-- offset. lexCode calls itself and lexBody loops once for each byte at most, so the bytes that are
-- left are fuel enough; Tokenize has three turns for a byte and one more, since each token reads a
-- byte, or begins or ends a body, or is the last. The parser's fuel bounds the nesting
-- of expressions and statements and the turns of each loop; the number of the tokens is enough. A parse error is a
-- position and a `Problem`, the text of which is not modelled.
--
-- Other parts:
--   Eval/Body       the body of a target and its % lines, internal/eval/body.go from renderBodyText to
--                   parseExprFromHeader; as many calls and branches as there are lines are enough
--   Eval/Range      RangeVal of internal/eval/value.go, the index into a range and clampIndex, on int64
--   Eval/Scope      Scope of internal/eval/value.go, a list of frames; Eval/Frames has their handles
--   Eval/Value      the values of internal/eval/value.go, stringify, truthy, asList, ParseScalar
--   Eval/Operators  applyBinary, evalUnary, valueEqual, intPow of internal/eval/eval.go
--   Eval/Methods    callMethod's methods of maps, ranges, texts and lists, and the index into a value
--   Eval/Interp     interp and eval; Eval/Execute execStmts and the statements; Eval/Start Run, ExportNames
--   Container       internal/container/container.go; the search for a heredoc marker has a bound
--   Command/Args    cmd/cgpipe/args.go
--   Command/Subst   cmd/cgpipe/subst.go; a turn of its loop uses up a byte, so as many turns as the
--                   text has bytes are enough
-- Functions of filepath, strconv and strings that these call on and that the text does not spell out
-- are parameters. So are the operations on float64, and what the evaluator takes from the templates of
-- internal/eval/interp.go, from open and from the methods of files. A map is a reference into a heap,
-- since an assignment to a key is seen through every name of the map. A source that is included or
-- evaluated takes fuel; loops need none, since maxLoopIterations bounds those with a condition. Sleeping,
-- debug output, the rendering of bodies, the scheduler commands, the language server and the commands
-- that only print are not modelled.
pub mod Prelude
pub mod Text
pub mod Exec
pub mod Syntax
pub mod Runner
pub mod Ledger
pub mod Eval
pub mod Container
pub mod Command
