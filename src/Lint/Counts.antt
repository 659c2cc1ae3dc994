-- ===== src/Lint/Counts.antt =====
-- The counts of build_support/cpplint.py: IncrementErrorCount and Error.
use concurrency_tcp_server.Base.{
  ℕ, ◌+◌, ◌≡◌, ◌⊎◌, refl, sym, ap, ◌∙◌, Bool, true, false, ◌&&◌, List, [], ◌∷◌, ◌++◌, Text, any,
  split, split-cons, ◌==◌, if◌then◌else◌, arith, codes, text_eq, text_eq_iff, one_of, inl, inr,
  Bool-cases,
}
use concurrency_tcp_server.Lint.State.{
  CppLintState, bump, first_part, counted_category, increment_error_count, reset_error_counts,
  print_error,
}
use concurrency_tcp_server.Lint.Report.{Linter, Report, should_print_error, emit, error}

abbrev pub total : List (Text × ℕ) → ℕ
total [] = 0
total ((_, n) ∷ rest) = n + total rest

-- d.get(category, 0)
pub count_of : Text → List (Text × ℕ) → ℕ
count_of category [] = 0
count_of category ((c, n) ∷ rest) = if text_eq c category then n else count_of category rest

total-bump : (category : Text) (d : List (Text × ℕ)) → total (bump category d) ≡ total d + 1
unfolding bump
total-bump category [] = refl
total-bump category ((c, n) ∷ rest) = ground (arith, total-bump category rest)

count_of-bump :
    (category c : Text) (d : List (Text × ℕ))
    → count_of c (bump category d) ≡ count_of c d + (if text_eq category c then 1 else 0)
unfolding count_of bump
count_of-bump category c [] = ground arith
count_of-bump category c ((b, n) ∷ rest) = ground (
  arith,
  count_of-bump category c rest,
  text_eq_iff b c,
  text_eq_iff b category,
  text_eq_iff category c,
)

-- The counting styles that count by category.
abbrev pub counts_categories : CppLintState → Bool
counts_categories s = one_of s.counting (codes "toplevel" ∷ codes "detailed" ∷ [])

-- emit writes to the streams and the lists of failures alone.
pub emit-counts :
    (r : Report) (s : CppLintState)
    → ((emit r s).error_count ≡ s.error_count)
      × ((emit r s).errors_by_category ≡ s.errors_by_category)
      × ((emit r s).counting ≡ s.counting)
unfolding emit print_error
emit-counts r s = ground arith

-- The reports of a run, one after another.
pub report_all : List Report → Linter → Linter
report_all [] l = l
report_all (r ∷ rs) l = report_all rs (error r l)

increment-total :
    (category : Text) (s : CppLintState)
    → counts_categories s ≡ true
    → total s.errors_by_category ≡ s.error_count
    → total (increment_error_count category s).errors_by_category
      ≡ (increment_error_count category s).error_count
unfolding increment_error_count
increment-total category s c h =
    rw c
      (total-bump (counted_category s.counting category) s.errors_by_category ∙ ap (λ n. n + 1) h)

increment-counting :
    (category : Text) (s : CppLintState) → (increment_error_count category s).counting ≡ s.counting
unfolding increment_error_count
increment-counting category s = ground arith

-- The categories are counted, and their counts add up to the number of errors.
pub record IsBalanced (s : CppLintState) : Type 0 where
  pub counted : counts_categories s ≡ true
  pub adds_up : total s.errors_by_category ≡ s.error_count

error-IsBalanced : (r : Report) (l : Linter) → IsBalanced l.state → IsBalanced (error r l).state
unfolding error
error-IsBalanced r l b =
    elim (Bool-cases (should_print_error r.category r.confidence r.linenum l)) [
      | inr e ↦ rw (e, error) b
      | inl e ↦
          let one = increment_error_count r.category l.state in
          let (n, cs, style) = emit-counts r one in
          rw (e, error)
            (record {
              counted =
                  ap (λ t. one_of t (codes "toplevel" ∷ codes "detailed" ∷ []))
                    (style ∙ increment-counting r.category l.state)
                  ∙ b.counted;
              adds_up =
                  ap total cs ∙ increment-total r.category l.state b.counted b.adds_up ∙ sym n;
            })
    ]

-- With the counting style `toplevel` or `detailed`, after a reset of the counts and any reports, the
-- counts of the categories add up to the number of errors.
pub report_all-IsBalanced :
    (rs : List Report) (l : Linter)
    → counts_categories l.state ≡ true
    → IsBalanced (report_all rs (record l { state = reset_error_counts l.state })).state
unfolding report_all
report_all-IsBalanced rs l c =
    go rs (record l { state = reset_error_counts l.state }) (record { counted = c; adds_up = refl })
  where
    go : (rs : List Report) (l : Linter) → IsBalanced l.state → IsBalanced (report_all rs l).state
    go [] l b = b
    go (r ∷ rs) l b = go rs (error r l) (error-IsBalanced r l b)

abbrev pub printed : Report → Linter → Bool
printed r l = should_print_error r.category r.confidence r.linenum l

increment-counts :
    (category c : Text) (s : CppLintState)
    → counts_categories s ≡ true
    → ((increment_error_count category s).error_count ≡ s.error_count + 1)
      × (count_of c (increment_error_count category s).errors_by_category
          ≡ count_of c s.errors_by_category
            + (if text_eq (counted_category s.counting category) c then 1 else 0))
unfolding increment_error_count
increment-counts category c s h =
    rw h (refl, count_of-bump (counted_category s.counting category) c s.errors_by_category)

abbrev pub begins_part : Text → Bool
begins_part [] = true
begins_part (c ∷ _) = c == b'/'

-- The category that a report counts for, by the counting style.
abbrev pub IsOwn : Text → Text → Text → Type 0
IsOwn style category own =
    ((style ≡ codes "detailed") × (own ≡ category))
    ⊎ ((style ≡ codes "toplevel")
        × (rest : Text) × (category ≡ own ++ rest)
        × (any (◌==◌ b'/') own ≡ false)
        × (begins_part rest ≡ true))

IsOwn-counts :
    (s : CppLintState) (category own : Text)
    → IsOwn s.counting category own
    → counts_categories s ≡ true
IsOwn-counts s category own (inl (e, _)) = rw e (unfold text_eq in refl)
IsOwn-counts s category own (inr (e, _, _, _, _)) = rw e (unfold text_eq in refl)

-- What stands before the first slash.
split-first :
    (a rest : Text)
    → any (◌==◌ b'/') a ≡ false
    → begins_part rest ≡ true
    → first_part (split b'/' (a ++ rest)) ≡ a
unfolding split
split-first [] [] h k = refl
split-first [] (c ∷ rest) h k = ground (arith, k)
split-first (c ∷ a) rest h k =
    let further = split-first a rest (ground (arith, h)) k in
    let (w, ws, e) = split-cons b'/' (a ++ rest) in ground (arith, h, further, e)

counted_category-IsOwn :
    (style category own : Text) → IsOwn style category own → counted_category style category ≡ own
unfolding counted_category text_eq
counted_category-IsOwn style category own (inl (e, f)) = rw e (sym f)
counted_category-IsOwn style category own (inr (e, rest, f, h, k)) =
    rw (e, f) (split-first own rest h k)

-- With the counting style `detailed` or `toplevel`, a report that is printed adds one to the number of
-- errors and to the count of its own category, and to no other count; its own category is the whole
-- category if the style is `detailed`, and what stands before the first slash if it is `toplevel`. A
-- report that is not printed leaves the number and every count as they are.
pub error-counts :
    (r : Report) (l : Linter) (own c : Text)
    → IsOwn l.state.counting r.category own
    → ((error r l).state.error_count ≡ l.state.error_count + (if printed r l then 1 else 0))
      × (count_of c (error r l).state.errors_by_category
          ≡ count_of c l.state.errors_by_category + (if printed r l && text_eq own c then 1 else 0))
unfolding error
error-counts r l own c o =
    let h = IsOwn-counts l.state r.category own o in
    let same = counted_category-IsOwn l.state.counting r.category own o in
    elim (Bool-cases (printed r l)) [
      | inr e ↦ rw (e, error) (omega arith)
      | inl e ↦
          let one = increment_error_count r.category l.state in
          let (n, cs, style) = emit-counts r one in
          let (m, k) = increment-counts r.category c l.state h in
          rw (e, error)
            (
              n ∙ m,
              ap (count_of c) cs
                  ∙ k
                  ∙ ap
                      (λ (t : Text).
                        count_of c l.state.errors_by_category + (if text_eq t c then 1 else 0))
                      same,
            )
    ]
