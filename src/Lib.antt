-- ===== src/Lib.antt =====
-- The linter of this repository, build_support/cpplint.py, modelled component by component.
--
-- The parts and how they interact. ProcessFile splits the text of a file into lines and removes carriage
-- returns; ProcessFileData puts marker lines around them, blanks comments that span lines, makes the
-- cleansed copies (CleansedLines) and runs the checks over the lines, in order, with three states: the
-- includes seen (_IncludeState), the open function (_FunctionState) and the open blocks (NestingState).
-- A check hands its reports to Error, which asks _ShouldPrintError, that is, the NOLINT suppressions, the
-- verbose level and the filters, and then counts and prints in _CppLintState.
--
-- Which file models what:
--   Base        lists on native numbers, Python's str methods on lists of code points, decimal numerals.
--   Regex       Python's re: patterns as data (Regex/Forms writes them), a backtracking matcher with groups
--               and lookahead (match_re, search_re, sub for Match, Search, ReplaceAll); Regex/Laws has what
--               every match keeps; Regex/Language says what a pattern accepts, without a search, as a
--               relation of places (Regex/Exact, Finding, Pieces, Eats, Greedy and Suffix work with it).
--   Expression  FindEndOfExpressionInLine (find_end_of_expression_in_line, one round of its loop is
--               end_round) and CloseExpression (close_expression).
--   Reverse     FindStartOfExpressionInLine (one round of its loop is back_round) and ReverseCloseExpression.
--   Include     _IncludeState and the append to include_list in CheckIncludeLine.
--   Lint        State: _CppLintState. Categories: the tables of categories and filters. Suppress, Nolint:
--               the NOLINT suppressions. Report: _ShouldPrintError and Error, on a Linter, which holds the
--               module's variables that these functions read or write.
--   Lines       Comments: RemoveMultiLineComments. RawStrings: CleanseRawStrings. Collapse:
--               CleanseComments and _CollapseStrings. Cleansed: the class CleansedLines. RawTotal,
--               CollapseTotal: the loops end; Removal, Rounds, Steps: what RemoveMultiLineComments is to do.
--   Nesting     Block: _BlockInfo, its subclasses and NestingState. Preprocessor: UpdatePreprocessor. Ends:
--               CheckBegin, CheckEnd and CheckCompletedBlocks. Templates: InTemplateArgumentList. Braces,
--               Update: NestingState.Update.
--   Checks      the checks of single lines, a function to the list of the calls of `error` for each: Calls,
--               Formats, Nonstandard, FunctionSpacing, Comments, Spacing, Operators, Parentheses, Braces, EmptyBodies,
--               Macros, Tokens, BraceSpacing, Classes, Features; Width: GetLineWidth; Places: the helpers.
--   Classify    the extensions of files, _DropCommonSuffixes and _ClassifyInclude (classify_include); Headers:
--               _CPP_HEADERS; Paths: the functions of os.path that these call.
--   Names       FileInfo (the name of a file in its repository); Directories: the functions of os.path that it calls;
--               Split: FileInfo.Split; SameModule: FilesBelongToSameModule; Guard: GetHeaderGuardCPPVariable;
--               HeaderGuard: CheckForHeaderGuard.
--   Functions   _FunctionState and CheckForFunctionLengths.
--   Files       the split of a text into lines and the checks of a whole file.
-- The other files under these hold the proofs; the files Tests hold runs at concrete inputs.
--
-- How state is modelled. A class is a record and a method is a function from the state before to the state
-- after, beside its result; a function that reports takes and returns the Linter. Python's stacks, which
-- grow at their end, are lists with the top in front. A dict is an association list or a test on keys.
-- A tuple with None is an Option or a data type with the results that the code can return.
--
-- Loops and fuel. Most loops are structural recursion on the lines or the text that is left. remove_go
-- (RemoveMultiLineComments) runs on one round more than there are lines, since each round passes a line.
-- open_go and collapse_go (CleanseRawStrings, _CollapseStrings) run on one round more than the line has
-- characters, since each round takes a character away at least. The matcher repeats at most as often as there
-- are characters left, since a repetition that consumes nothing ends. floor_log (in _FunctionState.Check) runs on the
-- number itself, which is a bound of its logarithm.
--
-- namespaces_go and braces_go (NestingState.Update) run on the length of the line, since each round takes a
-- character away; template_go (InTemplateArgumentList) on one round more than there are characters and
-- lines; blank_operators (CheckOperatorSpacing) on one round more than there are characters.
--
-- Exceptions. Where the code can raise one, the function gives an Option or a result beside the state: none
-- of collapse_number is the AttributeError of a failed match, none of is_filtered the AssertionError for a
-- filter with no sign, none of collapse_args an IndexError; add_filters gives the filter of the ValueError.
-- should_print_error prints nothing when the assertion fails, which ends the run of the program.
--
-- What is assumed of Python: numbers are not bounded; the letters for \w, case and upper are those of
-- ASCII; the verbose level is not negative.
--
-- directories and split_back (FileInfo.RepositoryName, PathSplitToList) run on one round more than the name
-- has characters, since dirname shortens a name or is at its end. A call of RepositoryName that does not
-- return, for a Subversion checkout at the root, is none.
--
-- Not modelled: CheckIncludeLine, the checks of single lines that are not named
-- above, the command line and the configuration files. Not modelled
-- since they are input and output: the XML report, opening files. The cache of compiled patterns changes no
-- result. The scripts build_support/run_clang_format.py and build_support/run_clang_tidy.py start other
-- programs. The server itself (src/tcp, src/http, src/log, src/timer, src/base) is C++ and has no model here.
pub mod Base
pub mod Regex
pub mod Expression
pub mod Include
pub mod Lint
pub mod Lines
pub mod Nesting
pub mod Functions
pub mod Files
pub mod Reverse
pub mod Classify
pub mod Names
pub mod Checks
