-- ===== src/Nesting/Comments.antt =====
-- build_support/cpplint.py: the comment at the end of a namespace, and the blocks left open at the end.
use concurrency_tcp_server.Base.{
  ℕ, ◌≡◌, refl, subst, Bool, true, false, List, [], ◌∷◌, ◌++◌, Text, all, if◌then◌else◌, get_or,
  codes, append-nil, is_space, is_word,
}
use concurrency_tcp_server.Regex.{matches}
use concurrency_tcp_server.Regex.Eats.{
  seq-EatsAll, seq-Eats, chars-Eats, char-Eats, star-Eats_nil, literal-Eats, left-Eats, group-Eats,
  word_start-EatsAll, eol-EatsAll, bol-matches,
}
use concurrency_tcp_server.Lines.Cleansed.{CleansedLines}
use concurrency_tcp_server.Lint.Report.{Report}
use concurrency_tcp_server.Nesting.Ends.{
  named_end_re, anonymous_end_re, check_end_namespace, named_calls, anonymous_calls, comment_calls,
  short_without_comment,
}
use concurrency_tcp_server.Nesting.Tokens.{not_newline}

-- The line that ends a namespace, with any white space before and behind the brace.
abbrev pub ending : Text → Text → Text → Text
ending indent gap tail = indent ++ (codes "}" ++ (gap ++ (codes "// namespace" ++ tail)))

module _ (indent gap : Text) (i : all is_space indent ≡ true) (g : all is_space gap ≡ true) where
  named_ending :
      (name : Text)
      → matches (named_end_re name) (ending indent gap (codes " " ++ (name ++ []))) ≡ true
  unfolding is_word is_space
  named_ending name = bol-matches (
      seq-EatsAll (chars-Eats is_space indent i) (
        seq-EatsAll (literal-Eats (codes "}")) (
          seq-EatsAll (star-Eats_nil _) (
            seq-EatsAll (chars-Eats is_space gap g) (
              seq-EatsAll (group-Eats 1 (left-Eats (literal-Eats (codes "//")))) (
                word_start-EatsAll not_newline b' ' b'n' refl refl refl (
                  seq-EatsAll (literal-Eats (codes "namespace")) (
                    seq-EatsAll (seq-Eats (char-Eats is_space b' ' refl) (star-Eats_nil _)) (
                      seq-EatsAll (literal-Eats name)
                        (seq-EatsAll (star-Eats_nil _) eol-EatsAll))))))))))

  anonymous_ending : matches anonymous_end_re (ending indent gap []) ≡ true
  unfolding is_word is_space
  anonymous_ending = bol-matches (
      seq-EatsAll (chars-Eats is_space indent i) (
        seq-EatsAll (literal-Eats (codes "}")) (
          seq-EatsAll (star-Eats_nil _) (
            seq-EatsAll (chars-Eats is_space gap g) (
              seq-EatsAll (group-Eats 1 (left-Eats (literal-Eats (codes "//")))) (
                word_start-EatsAll not_newline b' ' b'n' refl refl refl (
                  seq-EatsAll (literal-Eats (codes "namespace"))
                    (seq-EatsAll (star-Eats_nil _) eol-EatsAll))))))))

-- The comment that the check asks for, for a namespace of this name.
abbrev pub asked_for : Text → Text
asked_for [] = []
asked_for (c ∷ name) = codes " " ++ (c ∷ name)

comment_calls-ending :
    (filename : Text) (linenum : ℕ) (name indent gap : Text)
    → all is_space indent ≡ true
    → all is_space gap ≡ true
    → comment_calls filename linenum name (ending indent gap (asked_for name)) ≡ []
unfolding comment_calls named_calls anonymous_calls
comment_calls-ending filename linenum [] indent gap i g = rw (anonymous_ending indent gap i g) refl
comment_calls-ending filename linenum (c ∷ name) indent gap i g =
    let named =
      subst
        (λ (t : Text).
          matches (named_end_re (c ∷ name)) (ending indent gap (codes " " ++ (c ∷ t))) ≡ true)
        (append-nil name) (named_ending indent gap i g (c ∷ name)) in
    rw named refl

nothing_either_way : (b : Bool) (calls : List Report) → calls ≡ [] → (if b then [] else calls) ≡ []
nothing_either_way true calls e = refl
nothing_either_way false calls e = e

-- For every namespace, named or not: a line that ends it as the report of the check asks for, with a brace,
-- any white space around it, and the comment `// namespace` with the name behind, passes the check,
-- whatever the length of the namespace.
pub check_end_namespace-asked_for :
    (filename : Text) (clean : CleansedLines) (linenum start : ℕ) (name indent gap : Text)
    → all is_space indent ≡ true
    → all is_space gap ≡ true
    → get_or clean.raw_lines linenum [] ≡ ending indent gap (asked_for name)
    → check_end_namespace filename clean linenum start name ≡ []
unfolding check_end_namespace
check_end_namespace-asked_for filename clean linenum start name indent gap i g e =
    nothing_either_way (short_without_comment linenum start (get_or clean.raw_lines linenum []))
      (comment_calls filename linenum name (get_or clean.raw_lines linenum []))
      (rw e (comment_calls-ending filename linenum name indent gap i g))
