-- ===== src/Nesting/Rounds.antt =====
-- build_support/cpplint.py: a round of the loop of NestingState.InTemplateArgumentList goes on behind its place.
use concurrency_tcp_server.Base.{
  ℕ, suc, ◌+◌, ◌-◌, ◌≤◌, ◌<◌, ◌≡◌, sym, ap, ◌∙◌, subst, none, some, List, [], Text, length, arith,
  Bool-cases, inl, inr, ltb, get_or, drop,
}
use concurrency_tcp_server.Regex.Groups.{some-injective}
use concurrency_tcp_server.Lines.Cleansed.{CleansedLines}
use concurrency_tcp_server.Expression.{Closing, close_expression}
use concurrency_tcp_server.Expression.Lines.{close_expression-IsPlace, get_elem?-length}
use concurrency_tcp_server.Expression.Advances.{close_expression-further, close_expression-some}
use concurrency_tcp_server.Nesting.Templates.{
  TemplateRound, answer, go_to, fails, behind_angle, text_size,
}
use concurrency_tcp_server.Nesting.Remaining.{
  left_at, IsWithin, text_size-drop, get_elem?-get_or, get_elem?-some, text_size-later,
}

-- A round answers, or goes on at a place behind.
abbrev pub GoesOn : List Text → ℕ → ℕ → TemplateRound → Type 0
GoesOn elided linenum pos (answer b) = Unit {0}
GoesOn elided linenum pos fails = ⊥
GoesOn elided linenum pos (go_to linenum' pos') =
    IsWithin elided linenum' pos' × (left_at elided linenum' pos' < left_at elided linenum pos)

pub next_line-GoesOn :
    (elided : List Text) (linenum pos : ℕ)
    → linenum < length elided
    → IsWithin elided linenum pos
    → GoesOn elided linenum pos (go_to (linenum + 1) 0)
next_line-GoesOn elided linenum pos h w =
    let one : linenum + 1 ≡ suc linenum = omega arith in
    rw one (omega arith, omega (arith, text_size-drop elided linenum h, w))

-- The place behind a closing angle bracket.
closing-GoesOn :
    (elided : List Text) (linenum pos start m p : ℕ) (line : Text)
    → linenum < length elided
    → IsWithin elided linenum pos
    → pos ≤ start
    → close_expression elided linenum start ≡ some (line, m, some p)
    → GoesOn elided linenum pos (go_to m p)
closing-GoesOn elided linenum pos start m p line h w le e =
    let place = close_expression-IsPlace elided linenum start p m line e in
    let m_in = get_elem?-length elided m place.line_is in
    let line_is : get_or elided m [] ≡ line =
      some-injective (sym (get_elem?-get_or elided m m_in) ∙ place.line_is) in
    let within : p ≤ length (get_or elided m []) = rw line_is place.within in
    (
      within,
      elim (Bool-cases (ltb linenum m)) [
        | inl below ↦
            let later = text_size-later elided (suc linenum) m (ground (arith, below)) in
            omega (arith, later, text_size-drop elided linenum h, place.positive, w)
        | inr not_below ↦
            let same : m ≡ linenum = ground (arith, not_below, place.not_above) in
            let further = close_expression-further elided linenum start p line (
              subst (λ k. close_expression elided linenum start ≡ some (line, k, some p)) same e) in
            omega (
              arith,
              further,
              le,
              within,
              text_size-drop elided m m_in,
              ap (λ k. text_size (drop k elided)) same,
            )
      ],
    )

pub behind_angle-GoesOn :
    (clean : CleansedLines) (linenum pos new : ℕ)
    → linenum < length clean.elided
    → IsWithin clean.elided linenum pos
    → pos < new
    → new ≤ length (get_or clean.elided linenum [])
    → GoesOn clean.elided linenum pos (behind_angle clean linenum new)
behind_angle-GoesOn clean linenum pos new h w l k =
    let (c, f) = get_elem?-some (get_or clean.elided linenum []) (new - 1) (omega arith) in
    let (r, e) =
      close_expression-some clean.elided linenum (new - 1) (get_elem?-get_or clean.elided linenum h)
        f in
    go r e
  where
    go :
        (r : Closing)
        → close_expression clean.elided linenum (new - 1) ≡ some r
        → GoesOn clean.elided linenum pos (behind_angle clean linenum new)
    go (line, m, none) e = unfold behind_angle in rw (e, behind_angle) tt
    go (line, m, some p) e =
        unfold behind_angle in
        rw (e, behind_angle)
          (closing-GoesOn clean.elided linenum pos (new - 1) m p line h w (omega (arith, l)) e)
