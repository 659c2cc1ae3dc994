-- ===== src/Functions/Level.antt =====
-- The error level of a function that is too long (build_support/cpplint.py, _FunctionState.Check).
use concurrency_tcp_server.Base.{
  not, ◌&&◌, ◌||◌, codes, leb, ℕ, zero, suc, ◌+◌, ◌*◌, ◌^◌, ◌≤◌, ◌<◌, ◌≡◌, sym, ap, ◌∙◌, subst, inl,
  inr, Bool, false, Text, arith, ltb, if◌then◌else◌, Bool-cases,
}
use native.Mathlib.Nat.{pow-succ', mul_assoc, pow-le-pow_right, mul-le-mul_left}
use concurrency_tcp_server.Lint.Report.{
  Linter, Report, error, is_filtered, is_held_back, should_print_error,
}
use concurrency_tcp_server.Lint.Suppress.{is_error_suppressed_by_nolint}
use concurrency_tcp_server.Lint.Counts.{emit-counts}
use concurrency_tcp_server.Lint.State.{increment_error_count}
use concurrency_tcp_server.Functions.{
  FunctionState, base_trigger, floor_log, error_level, too_long, trigger_of, check,
}

double_pow : (b k : ℕ) → b * 2 * 2 ^ k ≡ b * 2 ^ suc k
double_pow b k = mul_assoc b 2 (2 ^ k) ∙ ap (λ n. b * n) (sym (pow-succ' 2 k))

floor_log-bounds :
    (fuel lines bound : ℕ)
    → 0 < bound
    → bound ≤ lines
    → lines ≤ bound + fuel
    → (bound * 2 ^ floor_log fuel lines bound ≤ lines)
      × (lines < bound * 2 ^ suc (floor_log fuel lines bound))
unfolding floor_log
floor_log-bounds zero lines bound p h f = (omega arith, omega arith)
floor_log-bounds (suc fuel) lines bound p h f = elim (Bool-cases (ltb lines (bound * 2))) [
  | inl e ↦ rw (e, floor_log) (omega arith, ground arith)
  | inr e ↦
      let (lo, hi) =
        floor_log-bounds fuel lines (bound * 2) (omega arith) (ground arith) (omega arith) in
      rw (e, floor_log)
        (
          subst (λ n. n ≤ lines) (double_pow bound (floor_log fuel lines (bound * 2))) lo,
          subst (λ n. lines < n) (double_pow bound (suc (floor_log fuel lines (bound * 2)))) hi,
        )
]

pow_mono : (base i j : ℕ) → i ≤ j → base * 2 ^ i ≤ base * 2 ^ j
pow_mono base i j h = mul-le-mul_left base (pow-le-pow_right (omega arith) h)

-- The level of a function that is over the limit for a verbosity reaches it exactly up to 5.
error_level-reaches :
    (lines base verbose : ℕ)
    → 0 < base
    → base * 2 ^ verbose < lines
    → ltb (error_level lines base) verbose ≡ ltb 5 verbose
unfolding error_level
error_level-reaches lines base verbose p h =
    let start = pow_mono base 0 verbose (omega arith) in
    let (lo, hi) = floor_log-bounds lines lines base p (omega (arith, start, h)) (omega arith) in
    let k = floor_log lines lines base in
    let reached : verbose ≤ k = below k hi in ground (arith, reached)
  where
    below : (k : ℕ) → lines < base * 2 ^ suc k → verbose ≤ k
    below k hi = elim (Bool-cases (ltb k verbose)) [
      | inr e ↦ ground arith
      | inl e ↦
          let far = pow_mono base (suc k) verbose (ground arith) in
          absurd (omega (arith, far, hi, h))
    ]

base_trigger-pos : (name : Text) → 0 < base_trigger name
unfolding base_trigger
base_trigger-pos name = ground arith

error-error_count :
    (r : Report) (l : Linter)
    → (error r l).state.error_count
      ≡ l.state.error_count
        + (if should_print_error r.category r.confidence r.linenum l then 1 else 0)
unfolding error increment_error_count
error-error_count r l =
    let (n, _, _) = emit-counts r (increment_error_count r.category l.state) in ground (arith, n)

-- What keeps a report of this category from being printed, its confidence aside.
abbrev pub is_silenced : ℕ → Linter → Bool
is_silenced linenum l =
    is_error_suppressed_by_nolint (codes "readability/fn_size") linenum l.suppressions
    || is_held_back (is_filtered (codes "readability/fn_size") l.state.filters false)

fn_size-printed :
    (f : FunctionState) (l : Linter) (linenum : ℕ)
    → trigger_of f l < f.lines_in_function
    → should_print_error
        (codes "readability/fn_size")
        (error_level f.lines_in_function (base_trigger f.current_function))
        linenum
        l
      ≡ (leb l.state.verbose_level 5 && not (is_silenced linenum l))
unfolding should_print_error
fn_size-printed f l linenum h =
    let level =
      error_level-reaches f.lines_in_function (base_trigger f.current_function)
        l.state.verbose_level (base_trigger-pos f.current_function) h in
    rw level (ground arith)

-- At the end of a function the number of errors grows by one exactly if a function is open, it has
-- more lines than its trigger, the verbose level is 5 at most, and neither a NOLINT nor a filter
-- silences the category; else it stays.
pub check-error_count :
    (filename : Text) (linenum : ℕ) (f : FunctionState) (l : Linter)
    → (check filename linenum f l).state.error_count
      ≡ l.state.error_count
        + (if f.in_a_function
              && ltb (trigger_of f l) f.lines_in_function
              && leb l.state.verbose_level 5
              && not (is_silenced linenum l)
            then 1
            else 0)
unfolding check
check-error_count filename linenum f l = elim (Bool-cases f.in_a_function) [
  | inr e ↦ rw e (omega arith)
  | inl e ↦ elim (Bool-cases (ltb (trigger_of f l) f.lines_in_function)) [
    | inr g ↦ rw (e, g) (omega arith)
    | inl g ↦
        rw (e, g)
          (error-error_count
              (too_long filename linenum (base_trigger f.current_function) (trigger_of f l) f) l
            ∙ ap (λ (b : Bool). l.state.error_count + (if b then 1 else 0))
                (fn_size-printed f l linenum (ground arith)))
  ]
]
