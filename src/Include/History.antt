-- ===== src/Include/History.antt =====
-- FindHeader of build_support/cpplint.py against the operations that change the list of includes.
use concurrency_tcp_server.Base.{
  ℕ, ◌≡◌, ◌≢◌, refl, sym, ap, ◌∙◌, Option, none, some, List, [], ◌∷◌, ◌++◌, Text, codes,
  if◌then◌else◌, arith, text_eq, inl, inr, Option-cases,
}
use concurrency_tcp_server.Include.{
  IncludeState, reset_section, find_in_section, find_in_list, find_header, append_last, set_last,
  add_include,
}

-- The first of two answers that is there.
abbrev pub or_else : Option ℕ → Option ℕ → Option ℕ
or_else (some a) b = some a
or_else none b = b

find_in_section-append :
    (h : Text) (xs ys : List (Text × ℕ))
    → find_in_section h (xs ++ ys) ≡ or_else (find_in_section h xs) (find_in_section h ys)
unfolding find_in_section
find_in_section-append h [] ys = refl
find_in_section-append h ((f, n) ∷ xs) ys = ground (arith, find_in_section-append h xs ys)

find_in_list-cons :
    (h : Text) (x : List (Text × ℕ)) (xs : List (List (Text × ℕ)))
    → find_in_list h (x ∷ xs) ≡ or_else (find_in_section h x) (find_in_list h xs)
unfolding find_in_list
find_in_list-cons h x xs = elim (Option-cases (find_in_section h x)) [
  | inl e ↦ rw (e, find_in_list)
  | inr (n, e) ↦ rw (e, find_in_list)
]

find_in_list-nil : (h : Text) → find_in_list h [] ≡ none
unfolding find_in_list
find_in_list-nil h = refl

or_else-none : (a : Option ℕ) → or_else a none ≡ a
or_else-none none = refl
or_else-none (some n) = refl

or_else_assoc : (a b c : Option ℕ) → or_else (or_else a b) c ≡ or_else a (or_else b c)
or_else_assoc none b c = refl
or_else_assoc (some n) b c = refl

find_in_list-append_last :
    (h : Text) (e : Text × ℕ) (xs : List (List (Text × ℕ)))
    → xs ≢ []
    → find_in_list h (append_last xs e) ≡ or_else (find_in_list h xs) (find_in_section h (e ∷ []))
unfolding append_last
find_in_list-append_last h e [] n = absurd (n refl)
find_in_list-append_last h e (x ∷ []) n =
    rw (find_in_list-cons h (x ++ (e ∷ [])) [], find_in_list-cons h x [], find_in_list-nil h)
      (or_else-none _
        ∙ find_in_section-append h x (e ∷ [])
        ∙ ap (λ a. or_else a (find_in_section h (e ∷ []))) (sym (or_else-none _)))
find_in_list-append_last h e (x ∷ y ∷ xs) n =
    rw (find_in_list-cons h x (append_last (y ∷ xs) e), find_in_list-cons h x (y ∷ xs))
      (ap (or_else (find_in_section h x)) (find_in_list-append_last h e (y ∷ xs) (λ m. cc))
        ∙ sym (or_else_assoc (find_in_section h x) _ _))

-- A header that is recorded is found from then on at its line, unless it was found before: the first
-- line stays. The search for any other header is not changed.
pub find_header-add_include :
    (h include : Text) (linenum : ℕ) (s : IncludeState)
    → s.include_list ≢ []
    → find_header h (add_include include linenum s)
      ≡ or_else (find_header h s) (if text_eq include h then some linenum else none)
unfolding find_header add_include
find_header-add_include h include linenum s n =
    find_in_list-append_last h (include, linenum) s.include_list n
    ∙ ap (or_else (find_in_list h s.include_list)) (unfold find_in_section in refl)

-- The lists of the sections that stay open around the last one.
abbrev pub outer {ℓ} : {A : Type ℓ} → List A → List A
outer [] = []
outer (x ∷ []) = []
outer (x ∷ y ∷ xs) = x ∷ outer (y ∷ xs)

find_in_list-push :
    (h : Text) (xs : List (List (Text × ℕ))) → find_in_list h (xs ++ ([] ∷ [])) ≡ find_in_list h xs
find_in_list-push h [] = find_in_list-cons h [] [] ∙ unfold find_in_section in refl
find_in_list-push h (x ∷ xs) =
    find_in_list-cons h x (xs ++ ([] ∷ []))
    ∙ ap (or_else (find_in_section h x)) (find_in_list-push h xs)
    ∙ sym (find_in_list-cons h x xs)

find_in_list-set_last :
    (h : Text) (xs : List (List (Text × ℕ)))
    → find_in_list h (set_last xs []) ≡ find_in_list h (outer xs)
find_in_list-set_last h [] = refl
find_in_list-set_last h (x ∷ []) = find_in_list-cons h [] [] ∙ unfold find_in_section in refl
find_in_list-set_last h (x ∷ y ∷ xs) =
    find_in_list-cons h x (set_last (y ∷ xs) [])
    ∙ ap (or_else (find_in_section h x)) (find_in_list-set_last h (y ∷ xs))
    ∙ sym (find_in_list-cons h x (outer (y ∷ xs)))

outer-push : (xs : List (List (Text × ℕ))) → outer (xs ++ ([] ∷ [])) ≡ xs
outer-push [] = refl
outer-push (x ∷ []) = refl
outer-push (x ∷ y ∷ xs) = ap (λ (z : List (List (Text × ℕ))). x ∷ z) (outer-push (y ∷ xs))

-- `#if` forgets no header. `#else` forgets the headers of the last list of include_list and no other: those
-- recorded since the last #if, #ifdef, #ifndef, #elif or #else, wherever it stands. Lists are never popped, so
-- an #else behind a nested #if with nothing recorded since forgets no header, also none of the branch that it
-- ends.
pub find_header-reset_section :
    (h : Text) (s : IncludeState)
    → (find_header h (reset_section (codes "if") s) ≡ find_header h s)
      × (find_header h (reset_section (codes "else") s)
          ≡ find_header h (record s { include_list = outer s.include_list }))
      × (find_header h (reset_section (codes "else") (reset_section (codes "if") s))
          ≡ find_header h s)
unfolding find_header reset_section
find_header-reset_section h s = (
  find_in_list-push h s.include_list,
  find_in_list-set_last h s.include_list,
  find_in_list-set_last h (s.include_list ++ ([] ∷ []))
      ∙ ap (find_in_list h) (outer-push s.include_list),
)
