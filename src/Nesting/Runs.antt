-- ===== src/Nesting/Runs.antt =====
-- Runs of the models of NestingState.Update and what it calls, at concrete lines.
use concurrency_tcp_server.Base.{
  drop, ℕ, zero, suc, ◌+◌, ◌≤◌, ◌<◌, ◌≡◌, refl, Bool, true, false, Option, none, some, List, [],
  ◌∷◌, ◌++◌, map, reverse, Text, length, codes, arith, get_or,
}
use concurrency_tcp_server.Lines.Cleansed.{CleansedLines}
use concurrency_tcp_server.Lint.Report.{Report}
use concurrency_tcp_server.Nesting.Block.{NestingState, new_nesting_state, new_namespace}
use concurrency_tcp_server.Nesting.Ends.{check_end_namespace, check_completed_blocks}
use concurrency_tcp_server.Nesting.Comments.{check_end_namespace-asked_for}
use concurrency_tcp_server.Nesting.Completed.{check_completed_blocks-open_reports, open_reports}
use concurrency_tcp_server.Nesting.Templates.{in_template_argument_list}
use concurrency_tcp_server.Nesting.Answers.{in_template_argument_list-answers}
use concurrency_tcp_server.Nesting.Braces.{braces_go, consume_braces}
use concurrency_tcp_server.Nesting.Scan.{scan, braces_go-scan}
use concurrency_tcp_server.Nesting.Bodies.{shape, depth}
use concurrency_tcp_server.Nesting.Update.{update}
use concurrency_tcp_server.Nesting.BodyLines.{IsBodyLine}
use concurrency_tcp_server.Nesting.Restored.{update_lines, lines_depth, update_lines-restores}

abbrev file : CleansedLines
file = record {
  elided =
      codes "namespace net {"
      ∷ codes "class Socket : public Base {"
      ∷ codes "  public:"
      ∷ codes "  int fd() {"
      ∷ codes "    if (a) { f(b);"
      ∷ codes "    } }"
      ∷ codes "};"
      ∷ codes "}"
      ∷ [];
  lines = [];
  raw_lines =
      codes "namespace net {"
      ∷ codes "class Socket : public Base {"
      ∷ codes "  public:"
      ∷ codes "  int fd() {"
      ∷ codes "    if (a) { f(b);"
      ∷ codes "    } }"
      ∷ codes "};"
      ∷ codes "}  // namespace net"
      ∷ [];
  num_lines = 8;
  lines_without_raw_strings = [];
}

abbrev name : Text
name = codes "a.cc"

-- How many blocks are open behind the first lines, and what was reported.
abbrev depths : NestingState × List Report → ℕ × List ℕ
depths (s, calls) = (length s.stack, map (λ (r : Report). r.linenum) calls)

in_body : depths (update_lines name file 0 5 new_nesting_state) ≡ (4, 2 ∷ [])
unfolding update_lines update concurrency_tcp_server.Base.text_eq
    concurrency_tcp_server.Nesting.Preprocessor.directive_of
in_body = refl

all_closed : depths (update_lines name file 0 8 new_nesting_state) ≡ (0, 2 ∷ [])
unfolding update_lines update concurrency_tcp_server.Base.text_eq
    concurrency_tcp_server.Nesting.Preprocessor.directive_of
all_closed = refl

abbrev outside : NestingState
outside = record new_nesting_state { stack = new_namespace (some (codes "net")) 0 ∷ [] }

abbrev open_outside : NestingState
open_outside = record outside {
  stack = record (new_namespace (some (codes "net")) 0) { seen_open_brace = true } ∷ [];
}

body-IsBodyLine : (j : ℕ) → j < 3 → IsBodyLine (get_or file.elided (3 + j) [])
unfolding concurrency_tcp_server.Nesting.Preprocessor.directive_of
body-IsBodyLine zero h = record {
  one_line = refl;
  directive_is = refl;
  no_namespace = refl;
  no_class = refl;
  no_access = refl;
}
body-IsBodyLine (suc zero) h = record {
  one_line = refl;
  directive_is = refl;
  no_namespace = refl;
  no_class = refl;
  no_access = refl;
}
body-IsBodyLine (suc (suc zero)) h = record {
  one_line = refl;
  directive_is = refl;
  no_namespace = refl;
  no_class = refl;
  no_access = refl;
}
body-IsBodyLine (suc (suc (suc j))) h = absurd (omega (arith, h))

body-depth : lines_depth file 3 3 0 ≡ some 0
unfolding lines_depth depth
body-depth = refl

update_lines-restores_example :
    (map shape (update_lines name file 3 3 open_outside).0.stack ≡ map shape open_outside.stack)
    × (drop 1 (update_lines name file 3 3 open_outside).0.stack ≡ drop 1 open_outside.stack)
    × ((update_lines name file 3 3 open_outside).1 ≡ [])
    × ((update_lines name file 3 3 open_outside).0.pp_stack ≡ [])
update_lines-restores_example =
    update_lines-restores name file 3 3 open_outside body-IsBodyLine refl body-depth

braces_go-scan_example :
    (braces_go 40 name file 4 (codes "    if (a) { f(b);") []
      ≡ scan name file 4 (codes "    if (a) { f(b);") (codes "    if (a) { f(b);") [])
    × (consume_braces name file 4 (codes "    if (a) { f(b);") []
        ≡ scan name file 4 (codes "    if (a) { f(b);") (codes "    if (a) { f(b);") [])
braces_go-scan_example =
    braces_go-scan name file 4 40 (codes "    if (a) { f(b);") [] (omega arith) refl

check_end_namespace-asked_for_example : check_end_namespace name file 7 0 (codes "net") ≡ []
unfolding concurrency_tcp_server.Base.is_space
check_end_namespace-asked_for_example =
    check_end_namespace-asked_for name file 7 0 (codes "net") [] (codes "  ") refl refl refl

check_completed_blocks-open_reports_example :
    (check_completed_blocks name (record outside { stack = [] }) ≡ [])
    × (check_completed_blocks name
          (record outside { stack = new_namespace (some (codes "net")) 0 ∷ [] })
        ≡ check_completed_blocks name (record outside { stack = [] })
          ++ (open_reports name (new_namespace (some (codes "net")) 0)
              ++ check_completed_blocks name (record outside { stack = [] })))
check_completed_blocks-open_reports_example =
    check_completed_blocks-open_reports name outside [] [] (new_namespace (some (codes "net")) 0)

in_template_argument_list-answers_example :
    (b : Bool) × (in_template_argument_list file 1 12 ≡ some b)
in_template_argument_list-answers_example =
    in_template_argument_list-answers file 1 12 refl (omega arith)
