-- ===== src/Functions/Tests.antt =====
-- Runs of the model of _FunctionState at concrete lines.
use concurrency_tcp_server.Base.{
  ℕ, zero, suc, ◌+◌, ◌*◌, ◌^◌, ◌<◌, ◌≡◌, refl, Bool, true, false, not, ◌&&◌, List, [], ◌∷◌, Text,
  codes, arith, ltb, leb, if◌then◌else◌, drop,
}
use concurrency_tcp_server.Regex.{matches}
use concurrency_tcp_server.Lines.Cleansed.{CleansedLines}
use concurrency_tcp_server.Lint.State.{new_state}
use concurrency_tcp_server.Lint.Report.{Linter}
use concurrency_tcp_server.Functions.{
  new_function_state, found, base_trigger, error_level, starting_func, find_body, function_title,
  function_end_re,
}
use concurrency_tcp_server.Functions.Level.{is_silenced}
use concurrency_tcp_server.Functions.Bodies.{
  line_at, IsInner, run_lines, non_blank, run_lines-error_count,
}

abbrev body_lines : List Text
body_lines =
    codes "int net::main(int argc," ∷ codes "    char** argv) {" ∷ codes "  int i = 0;" ∷ []

abbrev file : CleansedLines
file = record {
  elided = [];
  lines =
      codes "static int add(int a) {"
      ∷ codes "  a += 1;"
      ∷ []
      ∷ codes "  return a;"
      ∷ codes "}"
      ∷ [];
  raw_lines = [];
  num_lines = 5;
  lines_without_raw_strings = [];
}

function_title-joined :
    find_body [] body_lines ≡ found (codes " int net::main(int argc, char** argv) {")
unfolding find_body
function_title-joined = refl

function_title-name :
    function_title
      (codes "int net::main(int argc,")
      (codes " int net::main(int argc, char** argv) {")
    ≡ codes "net::main()"
unfolding function_title
function_title-name = refl

function_title-test :
    function_title (codes "TEST(Buffer, Clear) {") (codes " TEST(Buffer, Clear) {")
    ≡ codes "TEST(Buffer, Clear)"
unfolding function_title
function_title-test = refl

-- A macro starts no function.
starting_func-macro : starting_func (codes "DISALLOW_COPY(Buffer);") ≡ false
unfolding starting_func concurrency_tcp_server.Base.text_eq
starting_func-macro = refl

error_level-two : error_level 1999 250 ≡ 2
unfolding error_level
error_level-two = refl

error_level-five : error_level 1000000 400 ≡ 5
unfolding error_level
error_level-five = refl

abbrev linter : Linter
linter = record {
  state = new_state;
  suppressions = record { everywhere = []; by_category = []; global_categories = [] };
}

add-starts : starting_func (line_at file 0) ≡ true
unfolding starting_func concurrency_tcp_server.Base.text_eq
add-starts = refl

add-body : find_body [] (drop 0 file.lines) ≡ found (codes " static int add(int a) {")
unfolding find_body
add-body = refl

add-IsInner : (j : ℕ) → j < 3 → IsInner (line_at file (0 + 1 + j))
unfolding starting_func matches
add-IsInner zero h = record { starts_none = refl; ends_none = refl }
add-IsInner (suc zero) h = record { starts_none = refl; ends_none = refl }
add-IsInner (suc (suc zero)) h = record { starts_none = refl; ends_none = refl }
add-IsInner (suc (suc (suc j))) h = absurd (omega arith)

add-starts_last : starting_func (line_at file (0 + suc 3)) ≡ false
unfolding starting_func
add-starts_last = refl

add-ends : matches function_end_re (line_at file (0 + suc 3)) ≡ true
unfolding matches
add-ends = refl

run_lines-error_count_example :
    ((run_lines (codes "a.cc") file 0 5 new_function_state linter).0.in_a_function ≡ false)
    × ((run_lines (codes "a.cc") file 0 5 new_function_state linter).1.state.error_count
        ≡ 0
          + (if ltb
                  (base_trigger (function_title (line_at file 0) (codes " static int add(int a) {"))
                    * 2 ^ 1)
                  (non_blank file 1 3)
                && leb 1 5
                && not (is_silenced 4 linter)
              then 1
              else 0))
run_lines-error_count_example =
    run_lines-error_count (codes "a.cc") file 0 3 (codes " static int add(int a) {")
      new_function_state linter add-starts add-body add-IsInner add-starts_last add-ends
