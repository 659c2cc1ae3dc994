-- ===== src/Functions.antt =====
-- build_support/cpplint.py: _FunctionState and CheckForFunctionLengths, the lengths of functions.
pub mod Level
pub mod Bodies
mod Tests
use concurrency_tcp_server.Base.{
  ℕ, zero, suc, ◌+◌, ◌*◌, ◌/◌, ◌^◌, Bool, true, false, not, ◌&&◌, ◌||◌, Option, none, some, List,
  [], ◌∷◌, ◌++◌, Text, if◌then◌else◌, codes, text_eq, ltb, drop, get_or, reverse, is_space,
  is_upper, is_word, lstrip, decimal, ◌==◌,
}
use mathlib.Core.Option
use concurrency_tcp_server.Regex.{
  Regex, bol, eol, char_in, group, star, match_re, search_re, matches, searches, group_text, Found,
}
use concurrency_tcp_server.Regex.Forms.{◌⊙◌, ◌∣∣◌, lit, word, space, spaces, dot, plus, set_of}
use concurrency_tcp_server.Lines.Cleansed.{CleansedLines}
use concurrency_tcp_server.Lines.RawStrings.{group_or_empty}
use concurrency_tcp_server.Lint.Report.{Linter, Report, error}

pub record FunctionState : Type 0 where
  pub in_a_function : Bool
  pub lines_in_function : ℕ
  pub current_function : Text

-- __init__
abbrev pub new_function_state : FunctionState
new_function_state = record { in_a_function = false; lines_in_function = 0; current_function = [] }

-- Begin
abbrev pub begin : Text → FunctionState → FunctionState
begin function_name f = record {
  in_a_function = true;
  lines_in_function = 0;
  current_function = function_name;
}

-- Count
abbrev pub count_line : FunctionState → FunctionState
count_line f =
    if f.in_a_function then record f { lines_in_function = f.lines_in_function + 1 } else f

-- End
abbrev pub finish : FunctionState → FunctionState
finish f = record f { in_a_function = false }

-- _NORMAL_TRIGGER and _TEST_TRIGGER
abbrev pub normal_trigger : ℕ
normal_trigger = 250

abbrev pub test_trigger : ℕ
test_trigger = 400

-- T(EST|est)
abbrev pub test_re : Regex
test_re = lit "T" ⊙ (lit "EST" ∣∣ lit "est")

unfoldable pub base_trigger : Text → ℕ
unfolding matches
base_trigger name = if matches test_re name then test_trigger else normal_trigger

-- int(math.log(lines / bound, 2)) in exact arithmetic, for 0 < bound ≤ lines: how often bound can be
-- doubled up to lines. The fuel is a bound of the result.
unfoldable pub floor_log : ℕ → ℕ → ℕ → ℕ
floor_log zero lines bound = 0
floor_log (suc fuel) lines bound = elim (ltb lines (bound * 2)) [
  | true ↦ 0
  | false ↦ suc (floor_log fuel lines (bound * 2))
]

unfoldable pub error_level : ℕ → ℕ → ℕ
unfolding floor_log
error_level lines base = let level = floor_log lines lines base in if ltb 5 level then 5 else level

abbrev pub too_long : Text → ℕ → ℕ → ℕ → FunctionState → Report
too_long filename linenum base trigger f = record {
  filename = filename;
  linenum = linenum;
  category = codes "readability/fn_size";
  confidence = error_level f.lines_in_function base;
  message =
      codes "Small and focused functions are preferred: "
      ++ (f.current_function
          ++ (codes " has "
              ++ (decimal f.lines_in_function
                  ++ (codes " non-comment lines (error triggered by exceeding "
                      ++ (decimal trigger ++ codes " lines).")))));
}

-- trigger
abbrev pub trigger_of : FunctionState → Linter → ℕ
trigger_of f l = base_trigger f.current_function * 2 ^ l.state.verbose_level

-- Check
unfoldable pub check : Text → ℕ → FunctionState → Linter → Linter
unfolding base_trigger error_level
check filename linenum f l =
    if not f.in_a_function
    then l
    else if ltb (trigger_of f l) f.lines_in_function
    then error (too_long filename linenum (base_trigger f.current_function) (trigger_of f l) f) l
    else l

-- (\w(\w|::|\*|\&|\s)*)\(
abbrev pub head_re : Regex
head_re =
    group 1 (word ⊙ star (group 2 (word ∣∣ lit "::" ∣∣ lit "*" ∣∣ lit "&" ∣∣ space))) ⊙ lit "("

-- [A-Z_]+$
abbrev pub macro_re : Regex
macro_re = plus (char_in (λ c. is_upper c || c == b'_')) ⊙ eol

-- ((\w|:)*)\(
abbrev pub name_re : Regex
name_re = group 1 (star (group 2 (word ∣∣ lit ":"))) ⊙ lit "("

-- (\(.*\))
abbrev pub parameter_re : Regex
parameter_re = group 1 (lit "(" ⊙ star dot ⊙ lit ")")

-- ^\}\s*$ and ^\s*$
abbrev pub function_end_re : Regex
function_end_re = bol ⊙ lit "}" ⊙ spaces ⊙ eol

abbrev pub blank_re : Regex
blank_re = bol ⊙ spaces ⊙ eol

take_word : Text → Text
unfolding is_space
take_word [] = []
take_word (c ∷ s) = let rest = take_word s in if is_space c then [] else c ∷ rest

-- s.split()[-1], for a text that holds a word
unfoldable pub last_word : Text → Text
unfolding take_word lstrip
last_word s = reverse (take_word (lstrip (reverse s)))

starts_with_name : Found → Bool
unfolding last_word matches group_text
starts_with_name m =
    let function_name = last_word (group_or_empty 1 m) in
    text_eq function_name (codes "TEST")
    || text_eq function_name (codes "TEST_F")
    || not (matches macro_re function_name)

-- starting_func
unfoldable pub starting_func : Text → Bool
unfolding starts_with_name match_re
starting_func line = elim (match_re head_re line) [ none ↦ false | some m ↦ starts_with_name m ]

-- What the loop over the lines finds: nothing, a line with `;` or `}`, or a body and joined_line.
pub data Body : Type 0 where
  not_found declaration : Body
  found : Text → Body

unfoldable pub find_body : Text → List Text → Body
unfolding searches lstrip
find_body joined [] = not_found
find_body joined (start_line ∷ rest) =
    let joined_line = joined ++ (b' ' ∷ lstrip start_line) in
    let later = find_body joined_line rest in
    if searches (lit ";" ∣∣ lit "}") start_line
    then declaration
    else if searches (lit "{") start_line
    then found joined_line
    else later

-- Search(...).group(1)
unfoldable pub name_before_parenthesis : Text → Text
unfolding search_re group_text
name_before_parenthesis line = elim (search_re name_re line) [
  | none ↦ []
  | some m ↦ group_or_empty 1 m
]

-- The name that Begin is given. The search for it succeeds, since the line holds a parenthesis.
unfoldable pub function_title : Text → Text → Text
unfolding name_before_parenthesis search_re matches group_text
function_title line joined_line =
    let function = name_before_parenthesis line in
    if matches (lit "TEST") function
    then elim (search_re parameter_re joined_line) [
      | none ↦ function
      | some m ↦ function ++ group_or_empty 1 m
    ]
    else function ++ codes "()"

abbrev pub no_body : Text → ℕ → Report
no_body filename linenum = record {
  filename = filename;
  linenum = linenum;
  category = codes "readability/fn_size";
  confidence = 5;
  message = codes "Lint failed to find start of function body.";
}

abbrev at_body : Text → ℕ → Text → Body → FunctionState → Linter → FunctionState × Linter
at_body filename linenum line not_found f l = (f, error (no_body filename linenum) l)
at_body filename linenum line declaration f l = (f, l)
at_body filename linenum line (found joined_line) f l =
    (begin (function_title line joined_line) f, l)

-- CheckForFunctionLengths
unfoldable pub check_for_function_lengths :
    Text → CleansedLines → ℕ → FunctionState → Linter → FunctionState × Linter
unfolding starting_func find_body function_title check matches
check_for_function_lengths filename clean_lines linenum f l =
    let line = get_or clean_lines.lines linenum [] in
    if starting_func line
    then at_body filename linenum line (find_body [] (drop linenum clean_lines.lines)) f l
    else if matches function_end_re line
    then (finish f, check filename linenum f l)
    else if not (matches blank_re line)
    then (count_line f, l)
    else (f, l)
