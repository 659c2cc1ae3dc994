-- ===== src/Names/Shape.antt =====
-- build_support/cpplint.py: what the loop of CheckForHeaderGuard finds in a header with a guard.
use concurrency_tcp_server.Base.{
  ℕ, ◌+◌, ◌≡◌, refl, ap, ◌∙◌, true, List, [], ◌∷◌, ◌++◌, Text, all, arith, length, text_eq,
  starts_with, codes,
}
use concurrency_tcp_server.Names.HeaderGuard.{
  Guards, no_guards, words, find_guards, see_words, see_endif, see_ifndef, see_define,
}
use concurrency_tcp_server.Names.Keeps.{
  is_plain, closes_none, find_guards-append, has_names, see_settled, sees_endif, closes_all,
  all-closes, with_endif, see_endif-with_endif, find_guards-keeps, find_guards-closed, plain-Skips,
  settled-Skips,
}

-- What the two lines of a guard leave behind.
sees_ifndef :
    (n : ℕ) (name : Text) (rest : List Text) (x : Text × ℕ)
    → see_words n (codes "#ifndef" ∷ name ∷ rest) (with_endif no_guards x)
      ≡ with_endif (record no_guards { ifndef = name; ifndef_linenum = n }) x
unfolding see_words see_ifndef see_define text_eq
sees_ifndef n name rest x = refl

sees_define :
    (n t : ℕ) (name other : Text) (rest : List Text) (x : Text × ℕ)
    → see_words n
        (codes "#define" ∷ other ∷ rest)
        (with_endif (record no_guards { ifndef = name; ifndef_linenum = t }) x)
      ≡ with_endif (record no_guards { ifndef = name; ifndef_linenum = t; define = other }) x
unfolding see_words see_ifndef see_define text_eq
sees_define n t name other rest x = ground arith

-- A header with a guard: its lines up to #ifndef, those two lines, the body, the last #endif and what follows.
pub record IsGuarded (lines : List Text) (found : Guards) : Type 0 where
  pub top : List Text
  pub ifndef_line : Text
  pub define_line : Text
  pub body : List Text
  pub bottom : List Text
  pub ifndef_rest : List Text
  pub define_rest : List Text
  pub lines_are : lines ≡ top ++ (ifndef_line ∷ define_line ∷ (body ++ (found.endif ∷ bottom)))
  pub plain : all is_plain top ≡ true
  pub ifndef_words : words ifndef_line ≡ codes "#ifndef" ∷ found.ifndef ∷ ifndef_rest
  pub define_words : words define_line ≡ codes "#define" ∷ found.define ∷ define_rest
  pub filled : has_names found ≡ true
  pub at_ifndef : found.ifndef_linenum ≡ length top
  pub ends : starts_with (codes "#endif") found.endif ≡ true
  pub at_endif : found.endif_linenum ≡ length top + 2 + length body
  pub closed : all closes_none bottom ≡ true

-- The end of the loop, when both names are found.
find_guards-last :
    (g : Guards) (n : ℕ) (body : List Text) (last : Text) (bottom : List Text) (x : Text × ℕ)
    → has_names g ≡ true
    → starts_with (codes "#endif") last ≡ true
    → all closes_none bottom ≡ true
    → find_guards n (body ++ (last ∷ bottom)) (with_endif g x)
      ≡ with_endif g (last, n + length body)
unfolding find_guards has_names
find_guards-last g n body last bottom x h ends closed =
    let m = n + length body in
    let (y, e) =
      find_guards-keeps closes_all g (settled-Skips closes_all g h) n body x (all-closes body) in
    find_guards-append n body (last ∷ bottom) (with_endif g x)
    ∙ ap (find_guards m (last ∷ bottom)) e
    ∙ ap (λ (k : Guards). find_guards (m + 1) bottom (see_endif m last k))
        (see_settled m (words last) (with_endif g y) h)
    ∙ ap (find_guards (m + 1) bottom) (sees_endif m last (with_endif g y) ends)
    ∙ find_guards-closed g (settled-Skips closes_none g h) (m + 1) bottom (last, m) closed

-- The loop of CheckForHeaderGuard
pub find_guards-IsGuarded :
    (lines : List Text) (found : Guards)
    → IsGuarded lines found
    → find_guards 0 lines no_guards ≡ found
unfolding find_guards has_names
find_guards-IsGuarded lines found s =
    let t = 0 + length s.top in
    let rest = s.body ++ (found.endif ∷ s.bottom) in
    let one = record no_guards { ifndef = found.ifndef; ifndef_linenum = t } in
    let two = record one { define = found.define } in
    let at_ifndef : t ≡ found.ifndef_linenum = omega (arith, s.at_ifndef) in
    let at_endif : t + 1 + 1 + length s.body ≡ found.endif_linenum = omega (arith, s.at_endif) in
    let (x, e) =
      find_guards-keeps is_plain no_guards (plain-Skips no_guards) 0 s.top ([], 0) s.plain in
    let (y, f) = see_endif-with_endif t s.ifndef_line (with_endif one x) in
    let (z, g) = see_endif-with_endif (t + 1) s.define_line (with_endif two y) in
    ap (λ (ls : List Text). find_guards 0 ls no_guards) s.lines_are
    ∙ find_guards-append 0 s.top (s.ifndef_line ∷ s.define_line ∷ rest) no_guards
    ∙ ap (find_guards t (s.ifndef_line ∷ s.define_line ∷ rest)) e
    ∙ ap
        (λ (ws : List Text).
          find_guards (t + 1) (s.define_line ∷ rest)
            (see_endif t s.ifndef_line (see_words t ws (with_endif no_guards x))))
        s.ifndef_words
    ∙ ap (λ (k : Guards). find_guards (t + 1) (s.define_line ∷ rest) (see_endif t s.ifndef_line k))
        (sees_ifndef t found.ifndef s.ifndef_rest x)
    ∙ ap (find_guards (t + 1) (s.define_line ∷ rest)) f
    ∙ ap
        (λ (ws : List Text).
          find_guards (t + 1 + 1) rest
            (see_endif (t + 1) s.define_line (see_words (t + 1) ws (with_endif one y))))
        s.define_words
    ∙ ap (λ (k : Guards). find_guards (t + 1 + 1) rest (see_endif (t + 1) s.define_line k))
        (sees_define (t + 1) t found.ifndef found.define s.define_rest y)
    ∙ ap (find_guards (t + 1 + 1) rest) g
    ∙ find_guards-last two (t + 1 + 1) s.body found.endif s.bottom z s.filled s.ends s.closed
    ∙ ap (λ (k : ℕ). record found { ifndef_linenum = k; endif_linenum = t + 1 + 1 + length s.body })
        at_ifndef
    ∙ ap (λ (k : ℕ). record found { endif_linenum = k }) at_endif
