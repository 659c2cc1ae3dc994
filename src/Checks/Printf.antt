-- ===== src/Checks/Printf.antt =====
-- build_support/cpplint.py: the lines that CheckPrintf reports for sprintf.
use concurrency_tcp_server.Base.{
  ℕ, ◌≡◌, ◌↔◌, refl, sym, ap, ◌∙◌, Bool, true, false, ◌||◌, Option, none, some, List, [], ◌∷◌, ◌++◌,
  reverse, Text, all, any, codes, is_space, is_word, get_or, arith, ◌==◌, append_assoc,
}
use concurrency_tcp_server.Regex.{
  Cursor, Found, cursor, head_is_word, searches, search_re, at_boundary,
}
use concurrency_tcp_server.Regex.Language.{Accepts}
use concurrency_tcp_server.Regex.Finding.{searches_iff}
use concurrency_tcp_server.Regex.Pieces.{literal-after, star_chars-Passes}
use concurrency_tcp_server.Regex.Eats.{seq-Eats, literal-Eats, chars-Eats}
use concurrency_tcp_server.Lines.Cleansed.{CleansedLines}
use concurrency_tcp_server.Lint.Report.{Report, say_if}
use concurrency_tcp_server.Checks.FeaturePatterns.{sprintf_re, snprintf_re, strcpy_re}
use concurrency_tcp_server.Checks.Features.{check_printf, snprintf_calls, strcpy_calls}

-- A call of sprintf in a line: a word of its own, with any white space before the parenthesis.
pub record CallsSprintf (line : Text) : Type 0 where
  pub before : Text
  pub gap : Text
  pub behind : Text
  pub line_is : line ≡ before ++ (codes "sprintf" ++ (gap ++ (codes "(" ++ behind)))
  pub is_gap : all is_space gap ≡ true
  pub new_word : head_is_word (reverse before) ≡ false

boundary_new_word :
    (before after : Text)
    → head_is_word after ≡ true
    → at_boundary (cursor before after) ≡ true
    → head_is_word before ≡ false
boundary_new_word before after w h = ground (arith, w, h)

new_word_boundary :
    (before after : Text)
    → head_is_word before ≡ false
    → head_is_word after ≡ true
    → at_boundary (cursor before after) ≡ true
new_word_boundary before after w h = ground (arith, w, h)

searches-CallsSprintf : (line : Text) → searches sprintf_re line ≡ true → CallsSprintf line
unfolding Accepts
searches-CallsSprintf line h =
    let (a, b, e, (q, (p0, (w, e0), (p1, l, (p2, i, x))))) = (searches_iff sprintf_re line).0 h in
    let gap = star_chars-Passes is_space i in
    let b_is : b ≡ codes "sprintf" ++ p1.after =
      ap (λ (z : Cursor). z.after) e0 ∙ literal-after (codes "sprintf") p0 p1 l in
    let rest_is : p1.after ≡ gap.text ++ (codes "(" ++ q.after) =
      gap.after_is ∙ ap (λ (t : Text). gap.text ++ t) (literal-after (codes "(") p2 q x) in
    record {
      before = a;
      gap = gap.text;
      behind = q.after;
      line_is =
          e ∙ ap (λ (t : Text). a ++ t) (b_is ∙ ap (λ (t : Text). codes "sprintf" ++ t) rest_is);
      is_gap = gap.are;
      new_word = boundary_new_word (reverse a) b (rw b_is (unfold is_word in refl)) w;
    }

CallsSprintf-searches : (line : Text) → CallsSprintf line → searches sprintf_re line ≡ true
unfolding Accepts
CallsSprintf-searches line c =
    let text = codes "sprintf" ++ (c.gap ++ codes "(") in
    let p = cursor (reverse c.before) (text ++ c.behind) in
    let eats =
      seq-Eats (literal-Eats (codes "sprintf"))
        (seq-Eats (chars-Eats is_space c.gap c.is_gap) (literal-Eats (codes "("))) in
    let (q, a, _) = eats.go p c.behind refl in
    (searches_iff sprintf_re line).1 (
      c.before,
      text ++ c.behind,
      c.line_is
          ∙ ap (λ (t : Text). c.before ++ (codes "sprintf" ++ t))
              (sym (append_assoc c.gap (codes "(") c.behind)),
      (
        q,
        (
          p,
          (
            new_word_boundary (reverse c.before) (text ++ c.behind) c.new_word
                (unfold is_word in refl),
            refl,
          ),
          a,
        ),
      ),
    )

-- The reports of full confidence.
abbrev pub has_certain : List Report → Bool
has_certain calls = any (λ r. r.confidence == 5) calls

has_certain-append : (a b : List Report) → has_certain (a ++ b) ≡ (has_certain a || has_certain b)
has_certain-append [] b = refl
has_certain-append (r ∷ a) b = ground (arith, has_certain-append a b)

snprintf_calls_uncertain :
    (filename : Text) (linenum : ℕ) (o : Option Found)
    → has_certain (snprintf_calls filename linenum o) ≡ false
unfolding snprintf_calls
snprintf_calls_uncertain filename linenum none = refl
snprintf_calls_uncertain filename linenum (some m) = ground arith

strcpy_calls_uncertain :
    (filename : Text) (linenum : ℕ) (o : Option Found)
    → has_certain (strcpy_calls filename linenum o) ≡ false
unfolding strcpy_calls
strcpy_calls_uncertain filename linenum none = refl
strcpy_calls_uncertain filename linenum (some m) = refl

certain_if :
    (b : Bool) (r : Report) → (r.confidence == 5) ≡ true → has_certain (say_if b (r ∷ [])) ≡ b
certain_if true r h = rw h refl
certain_if false r h = refl

only_middle :
    (a b c : List Report)
    → has_certain a ≡ false
    → has_certain c ≡ false
    → has_certain (a ++ b ++ c) ≡ has_certain b
only_middle a b c f g = has_certain-append (a ++ b) c ∙ ground (arith, has_certain-append a b, f, g)

check_printf_certain :
    (filename : Text) (clean : CleansedLines) (linenum : ℕ)
    → has_certain (check_printf filename clean linenum)
      ≡ searches sprintf_re (get_or clean.elided linenum [])
unfolding check_printf
check_printf_certain filename clean linenum =
    let line = get_or clean.elided linenum [] in
    only_middle (snprintf_calls filename linenum (search_re snprintf_re line)) _
      (strcpy_calls filename linenum (search_re strcpy_re line))
      (snprintf_calls_uncertain filename linenum (search_re snprintf_re line))
      (strcpy_calls_uncertain filename linenum (search_re strcpy_re line))
    ∙ certain_if (searches sprintf_re line) _ refl

-- CheckPrintf makes a report of confidence 5 exactly if the line calls sprintf: the word stands in the
-- line, not behind a word character, with nothing but white space between it and a parenthesis.
pub check_printf_iff :
    (filename : Text) (clean : CleansedLines) (linenum : ℕ)
    → (has_certain (check_printf filename clean linenum) ≡ true)
      ↔ CallsSprintf (get_or clean.elided linenum [])
check_printf_iff filename clean linenum =
    let e = check_printf_certain filename clean linenum in
    (
      λ h. searches-CallsSprintf (get_or clean.elided linenum []) (sym e ∙ h),
      λ c. e ∙ CallsSprintf-searches (get_or clean.elided linenum []) c,
    )
