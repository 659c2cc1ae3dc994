-- ===== src/Lint/Comments.antt =====
-- build_support/cpplint.py: ParseNolintSuppressions on the text of a line.
use concurrency_tcp_server.Base.{
  ℕ, suc, ◌+◌, ◌-◌, ◌≡◌, ◌≢◌, refl, sym, ap, ◌∙◌, Bool, true, false, ◌&&◌, ◌||◌, some, List, [],
  ◌∷◌, ◌++◌, Text, any, all, arith, codes, length, reverse, find, starts_with, ends_with-append,
  text_eq, ◌==◌, if◌then◌else◌, append-nil, take, take-length-append, length-append, is_some,
}
use concurrency_tcp_server.Regex.{
  Capture, Found, capture, head_is_word, search_at, search_re, group_text, find_group, capture_text,
}
use concurrency_tcp_server.Regex.Groups.{captured, group_text-last}
use concurrency_tcp_server.Regex.Pieces.{captured-passed, passed-groups}
use concurrency_tcp_server.Regex.Greedy.{place}
use concurrency_tcp_server.Lint.Suppress.{is_error_suppressed_by_nolint}
use concurrency_tcp_server.Lint.Categories.{is_known}
use concurrency_tcp_server.Lint.Report.{Linter}
use concurrency_tcp_server.Lint.Silence.{speaks_of, parse_nolint-found}
use concurrency_tcp_server.Lint.Nolint.{nolint_re, inner, parse_nolint_suppressions}
use concurrency_tcp_server.Lint.Mentions.{
  in_group, behind_category, category_place, Finds, finds, search_at_first,
}

-- A line whose first NOLINT begins a word, is NOLINT or NOLINTNEXTLINE, and has a category in parentheses
-- right behind it.
pub record IsNolint (line : Text) (next : Bool) (category : Text) : Type 0 where
  pub before : Text
  pub behind : Text
  pub line_is :
      line
      ≡ before
        ++ ((if next then codes "NOLINTNEXTLINE" else codes "NOLINT")
            ++ (codes "(" ++ (category ++ (codes ")" ++ behind))))
  pub is_first : find (codes "NOLINT") line ≡ some (length before)
  pub new_word : head_is_word (reverse before) ≡ false
  pub filled : category ≢ []
  pub inside : any (◌==◌ b')') category ≡ false

inside-in_group : (t : Text) → any (◌==◌ b')') t ≡ false → all in_group t ≡ true
inside-in_group [] h = refl
inside-in_group (c ∷ t) h = ground (arith, h, inside-in_group t (ground (arith, h)))

-- What the search finds in such a line.
record SearchFinds (line : Text) (next : Bool) (category : Text) : Type 0 where
  match : Found
  is_found : search_re nolint_re line ≡ some match
  has_next : is_some (group_text 1 match) ≡ next
  has_category : group_text 2 match ≡ some (b'(' ∷ (category ++ codes ")"))

place_found :
    (n : ℕ) (b : Text) (next : Bool) (c : ℕ) (cat behind line : Text)
    (f : Finds b next c cat behind)
    → search_re nolint_re line
      ≡ some (record {
        start = n;
        stop =
            capture 2 f.at_category
              (behind_category f.at_category.before f.at_category.groups c cat behind);
      })
    → SearchFinds line next (c ∷ cat)
unfolding group_text find_group
place_found n b next c cat behind line f e =
    let p = f.at_category in
    let rest = cat ++ (b')' ∷ behind) in
    let q = behind_category p.before p.groups c cat behind in
    let text = b'(' ∷ c ∷ (cat ++ codes ")") in
    record {
      match = record { start = n; stop = capture 2 p q };
      is_found = e;
      has_next =
          ap (λ (gs : List (ℕ × Capture)). is_some (capture_text (find_group 1 gs)))
            (passed-groups cat (b')' ∷ behind) (place (c ∷ b'(' ∷ p.before) rest p.groups))
          ∙ f.groups_are;
      has_category =
          group_text-last 2 p q (record { start = n; stop = capture 2 p q }) refl
          ∙ ap some (
              ap (captured p) (category_place p.before p.groups c cat behind)
              ∙ captured-passed text behind (place p.before (b'(' ∷ c ∷ rest) p.groups));
    }

line_found :
    (line : Text) (next : Bool) (c : ℕ) (cat : Text)
    → IsNolint line next (c ∷ cat)
    → SearchFinds line next (c ∷ cat)
unfolding search_re
line_found line false c cat s =
    let after = b'(' ∷ c ∷ (cat ++ (b')' ∷ s.behind)) in
    let f =
      finds (reverse s.before ++ []) false c cat s.behind
        (ap head_is_word (append-nil (reverse s.before)) ∙ s.new_word)
        (inside-in_group (c ∷ cat) s.inside) in
    let (n, e) =
      search_at_first [] s.before (codes "OLINT" ++ after) b'N' _
        (ap (find (codes "NOLINT")) (sym s.line_is) ∙ s.is_first) f.runs in
    place_found n _ false c cat s.behind line f (ap (search_at nolint_re []) s.line_is ∙ e)
line_found line true c cat s =
    let after = b'(' ∷ c ∷ (cat ++ (b')' ∷ s.behind)) in
    let f =
      finds (reverse s.before ++ []) true c cat s.behind
        (ap head_is_word (append-nil (reverse s.before)) ∙ s.new_word)
        (inside-in_group (c ∷ cat) s.inside) in
    let (n, e) =
      search_at_first [] s.before (codes "OLINTNEXTLINE" ++ after) b'N' _
        (ap (find (codes "NOLINT")) (sym s.line_is) ∙ s.is_first) f.runs in
    place_found n _ true c cat s.behind line f (ap (search_at nolint_re []) s.line_is ∙ e)

star_is : (t : Text) → text_eq (t ++ codes ")") (codes "*)") ≡ text_eq t (codes "*")
unfolding text_eq
star_is [] = refl
star_is (x ∷ []) = ground arith
star_is (x ∷ y ∷ []) = ground arith
star_is (x ∷ y ∷ z ∷ t) = ground arith

inner_is : (t : Text) → inner (b'(' ∷ (t ++ codes ")")) ≡ t
inner_is t =
    let n : suc (length (t ++ codes ")")) - 2 ≡ length t =
      omega (arith, length-append t (codes ")")) in
    ap (λ (k : ℕ). take k (t ++ codes ")")) n ∙ take-length-append t (codes ")")

speaks_of_is :
    (t c : Text)
    → speaks_of (some (b'(' ∷ (t ++ codes ")"))) c
      ≡ (text_eq t (codes "*") || (is_known t && text_eq t c))
unfolding text_eq starts_with
speaks_of_is t c = rw (star_is t, ends_with-append (b'(' ∷ t) (codes ")"), inner_is t) refl

-- A line whose first NOLINT begins a word, is NOLINT or NOLINTNEXTLINE, and has a category in parentheses
-- right behind it: after the line is parsed, an error is suppressed exactly if it was before, or if it is on
-- the line of the comment for NOLINT, on the next one for NOLINTNEXTLINE, and the category is a star, or one
-- that the linter knows and the error's own.
pub parse_nolint-silences :
    (filename line : Text) (linenum : ℕ) (next : Bool) (category c : Text) (n : ℕ) (l : Linter)
    → IsNolint line next category
    → is_error_suppressed_by_nolint c n
        (parse_nolint_suppressions filename line linenum l).suppressions
      ≡ ((text_eq category (codes "*") || (is_known category && text_eq category c))
            && (if next then linenum + 1 else linenum) == n
          || is_error_suppressed_by_nolint c n l.suppressions)
parse_nolint-silences filename line linenum next [] c n l s = absurd (s.filled refl)
parse_nolint-silences filename line linenum next (d ∷ cat) c n l s =
    let f = line_found line next d cat s in
    parse_nolint-found filename line linenum c n l
    ∙ rw (f.is_found, f.has_category, f.has_next, speaks_of_is (d ∷ cat) c) refl
