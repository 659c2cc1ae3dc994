-- ===== src/Nesting/Answers.antt =====
-- build_support/cpplint.py: the loop of NestingState.InTemplateArgumentList ends.
use concurrency_tcp_server.Base.{
  ℕ, zero, suc, ◌+◌, ◌≤◌, ◌<◌, ◌≡◌, refl, Bool, true, false, some, List, [], Text, length, arith,
  Option-cases, Bool-cases, inl, inr, if◌then◌else◌, ltb, leb, get_or, drop, length-drop,
}
use concurrency_tcp_server.Regex.{match_re, whole}
use concurrency_tcp_server.Lines.Cleansed.{CleansedLines}
use concurrency_tcp_server.Nesting.Templates.{
  TemplateRound, answer, go_to, fails, template_re, at_token, template_round, template_go,
  text_size, in_template_argument_list,
}
use concurrency_tcp_server.Nesting.Remaining.{
  whole-bounds, left_at, IsWithin, text_size-drop, text_size-shorter,
}
use concurrency_tcp_server.Nesting.Rounds.{GoesOn, next_line-GoesOn, behind_angle-GoesOn}

record Steps (elided : List Text) (linenum pos : ℕ) (r : TemplateRound) : Type 0 where
  goes : GoesOn elided linenum pos r

if-Steps :
    {elided : List Text} {linenum pos : ℕ} (b : Bool) {x y : TemplateRound}
    → Steps elided linenum pos x
    → Steps elided linenum pos y
    → Steps elided linenum pos (if b then x else y)
if-Steps true p q = p
if-Steps false p q = q

answer-Steps :
    {elided : List Text} {linenum pos : ℕ} (b : Bool) → Steps elided linenum pos (answer b)
answer-Steps b = record { goes = tt }

next_char-GoesOn :
    (elided : List Text) (linenum pos new : ℕ)
    → linenum < length elided
    → IsWithin elided linenum pos
    → pos < new
    → GoesOn elided linenum pos (
        if leb (length (get_or elided linenum [])) (new + 1)
        then go_to (linenum + 1) 0
        else go_to linenum (new + 1))
next_char-GoesOn elided linenum pos new h w l =
    elim (Bool-cases (leb (length (get_or elided linenum [])) (new + 1))) [
      | inl e ↦ rw e (next_line-GoesOn elided linenum pos h w)
      | inr e ↦
          let short : new + 1 < length (get_or elided linenum []) = ground (arith, e) in
          rw e (omega (arith, short), omega (arith, short, text_size-drop elided linenum h))
    ]

at_token-Steps :
    (clean : CleansedLines) (linenum pos new : ℕ) (token : Text)
    → linenum < length clean.elided
    → IsWithin clean.elided linenum pos
    → pos < new
    → new ≤ length (get_or clean.elided linenum [])
    → Steps clean.elided linenum pos
        (at_token clean linenum (get_or clean.elided linenum []) new token)
unfolding at_token
at_token-Steps clean linenum pos new token h w l k = if-Steps _ (answer-Steps false) (
    if-Steps _ (answer-Steps true) (
      if-Steps _ (record { goes = next_char-GoesOn clean.elided linenum pos new h w l })
        (record { goes = behind_angle-GoesOn clean linenum pos new h w l k })))

template_round-GoesOn :
    (clean : CleansedLines) (linenum pos : ℕ)
    → linenum < length clean.elided
    → IsWithin clean.elided linenum pos
    → GoesOn clean.elided linenum pos (template_round clean linenum pos)
unfolding template_round
template_round-GoesOn clean linenum pos h w =
    let line = get_or clean.elided linenum [] in
    elim (Option-cases (match_re template_re (drop pos line))) [
      | inl e ↦ rw (e, template_round) (next_line-GoesOn clean.elided linenum pos h w)
      | inr (m, e) ↦
          let (a, b) = whole-bounds (drop pos line) m e in
          rw (e, template_round)
            (at_token-Steps clean linenum pos (pos + length (whole m)) _ h w (omega (arith, a))
              (omega (arith, b, w, length-drop pos line))).goes
    ]

template_go-answers :
    (n : ℕ) (clean : CleansedLines) (linenum pos : ℕ)
    → clean.num_lines ≡ length clean.elided
    → IsWithin clean.elided linenum pos
    → left_at clean.elided linenum pos < n
    → (b : Bool) × (template_go n clean linenum pos ≡ some b)
template_go-answers zero clean linenum pos s w h = absurd (omega (arith, h))
template_go-answers (suc n) clean linenum pos s w h =
    elim (Bool-cases (ltb linenum clean.num_lines)) [
      | inr e ↦ (false, unfold template_go in rw (e, template_go) refl)
      | inl e ↦
          go (template_round clean linenum pos) refl e
            (template_round-GoesOn clean linenum pos (ground (arith, e, s)) w)
            (λ l p x y. template_go-answers n clean l p s x (omega (arith, y, h)))
    ]
  where
    go :
        (r : TemplateRound)
        → template_round clean linenum pos ≡ r
        → ltb linenum clean.num_lines ≡ true
        → GoesOn clean.elided linenum pos r
        → ((l p : ℕ)
            → IsWithin clean.elided l p
            → left_at clean.elided l p < left_at clean.elided linenum pos
            → (b : Bool) × (template_go n clean l p ≡ some b))
        → (b : Bool) × (template_go (suc n) clean linenum pos ≡ some b)
    go (answer b) e t g later = (b, unfold template_go in rw (t, e, template_go) refl)
    go fails e t g later = elim g [ ]
    go (go_to l p) e t (x, y) later =
        let (b, f) = later l p x y in (b, unfold template_go in rw (t, e, template_go) f)

-- InTemplateArgumentList returns, from every place that is within a line of the file or below its last
-- line: the loop ends, and CloseExpression is only called at a character of a line.
pub in_template_argument_list-answers :
    (clean : CleansedLines) (linenum pos : ℕ)
    → clean.num_lines ≡ length clean.elided
    → IsWithin clean.elided linenum pos
    → (b : Bool) × (in_template_argument_list clean linenum pos ≡ some b)
unfolding in_template_argument_list
in_template_argument_list-answers clean linenum pos s w =
    template_go-answers (suc (text_size clean.elided)) clean linenum pos s w
      (omega (arith, text_size-shorter linenum clean.elided))
