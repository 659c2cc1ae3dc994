-- ===== src/Lint/Filters.antt =====
-- The filters of build_support/cpplint.py: SetFilters, AddFilters, and the loop of _ShouldPrintError.
use mathlib.Core.List.{reverse-cons}
use concurrency_tcp_server.Base.{
  ℕ, ◌≡◌, ◌↔◌, refl, sym, ap, ◌∙◌, Bool, true, false, Option, none, some, List, [], ◌∷◌, ◌++◌, Text,
  ◌==◌, if◌then◌else◌, arith, all, reverse, split, strip, push_head, split-cons, starts_with,
  or_default, append_assoc, Bool-cases, inl, inr,
}
use concurrency_tcp_server.Lint.Categories.{default_filters}
use concurrency_tcp_server.Lint.State.{
  CppLintState, clean_filters, add_filter, has_sign, first_bad, add_filters, set_filters,
}
use concurrency_tcp_server.Lint.Report.{apply_filter, is_filtered}

-- What one filter says of a category: to drop it, to keep it, or nothing.
abbrev pub verdict : Text → Text → Option Bool
verdict category [] = none
verdict category (sign ∷ prefix) =
    if starts_with prefix category
    then (if sign == b'-' then some true else if sign == b'+' then some false else none)
    else none

-- The verdict of the first filter of a list that has one.
abbrev pub first_verdict : Text → List Text → Option Bool
first_verdict category [] = none
first_verdict category (f ∷ fs) = elim (verdict category f) [
  | some v ↦ some v
  | none ↦ first_verdict category fs
]

apply_filter-verdict :
    (category f : Text) (filtered : Bool)
    → has_sign f ≡ true
    → apply_filter category f filtered ≡ some (or_default filtered (verdict category f))
unfolding apply_filter
apply_filter-verdict category [] filtered h = ground (arith, h)
apply_filter-verdict category (sign ∷ prefix) filtered h = ground (arith, h)

apply_filter-none :
    (category f : Text) (filtered : Bool)
    → has_sign f ≡ false
    → apply_filter category f filtered ≡ none
unfolding apply_filter
apply_filter-none category [] filtered h = refl
apply_filter-none category (sign ∷ prefix) filtered h = ground (arith, h)

first_verdict-concat :
    (category f : Text) (fs : List Text) (d : Bool)
    → or_default d (first_verdict category (fs ++ (f ∷ [])))
      ≡ or_default (or_default d (verdict category f)) (first_verdict category fs)
first_verdict-concat category f [] d = ground arith
first_verdict-concat category f (g ∷ fs) d = ground (arith, first_verdict-concat category f fs d)

last_wins :
    (category : Text) (fs : List Text) (d : Bool)
    → all has_sign fs ≡ true
    → is_filtered category fs d ≡ some (or_default d (first_verdict category (reverse fs)))
unfolding is_filtered
last_wins category [] d h = refl
last_wins category (f ∷ fs) d h =
    let next = or_default d (verdict category f) in
    rw (apply_filter-verdict category f d (ground (arith, h)), is_filtered)
      (last_wins category fs next (ground (arith, h))
        ∙ ap some (
            sym (first_verdict-concat category f (reverse fs) d)
            ∙ ap (λ l. or_default d (first_verdict category l)) (sym (reverse-cons f fs))))

unsigned_fails :
    (category : Text) (fs : List Text) (d : Bool)
    → all has_sign fs ≡ false
    → is_filtered category fs d ≡ none
unfolding is_filtered
unsigned_fails category [] d h = ground (arith, h)
unsigned_fails category (f ∷ fs) d h = elim (Bool-cases (has_sign f)) [
  | inr e ↦ rw (apply_filter-none category f d e, is_filtered) refl
  | inl e ↦
      rw (apply_filter-verdict category f d e, is_filtered)
        (unsigned_fails category fs (or_default d (verdict category f)) (ground (arith, h, e)))
]

-- If each filter begins with + or -, the loop over the filters ends with the verdict of the last filter
-- that has one; else its assertion fails.
pub is_filtered-last :
    (category : Text) (fs : List Text) (d : Bool)
    → is_filtered category fs d ≡ (
        if all has_sign fs then some (or_default d (first_verdict category (reverse fs))) else none)
is_filtered-last category fs d = elim (Bool-cases (all has_sign fs)) [
  | inl e ↦ rw e (last_wins category fs d e)
  | inr e ↦ rw e (unsigned_fails category fs d e)
]

first_bad-none : (fs : List Text) → (first_bad fs ≡ none) ↔ (all has_sign fs ≡ true)
unfolding first_bad
first_bad-none [] = (λ _. refl, λ _. refl)
first_bad-none (f ∷ fs) = ground (arith, first_bad-none fs)

-- SetFilters raises no error exactly if each filter in the list begins with + or -, and exactly if
-- each filter that it has set then begins with + or -, as _ShouldPrintError asserts; the filters set
-- are the default ones and those of the list.
pub set_filters-none :
    (filters : Text) (s : CppLintState)
    → (((set_filters filters s).1 ≡ none)
        ↔ (all has_sign (clean_filters (split b',' filters)) ≡ true))
      × (((set_filters filters s).1 ≡ none)
          ↔ (all has_sign (set_filters filters s).0.filters ≡ true))
      × ((set_filters filters s).0.filters ≡ default_filters ++ clean_filters (split b',' filters))
unfolding set_filters add_filters
set_filters-none filters s =
    let fs = clean_filters (split b',' filters) in
    (first_bad-none (default_filters ++ fs), first_bad-none (default_filters ++ fs), refl)

push_head-append :
    (c : ℕ) (xs ys : List Text) {w : Text} {ws : List Text}
    → xs ≡ w ∷ ws
    → push_head c (xs ++ ys) ≡ push_head c xs ++ ys
push_head-append c [] ys e = cc
push_head-append c (x ∷ xs) ys e = refl

split-append : (sep : ℕ) (a b : Text) → split sep (a ++ (sep ∷ b)) ≡ split sep a ++ split sep b
unfolding split
split-append sep [] b = ground arith
split-append sep (c ∷ a) b =
    let (w, ws, e) = split-cons sep a in
    rw (split-append sep a b) (ground (arith, push_head-append c (split sep a) (split sep b) e))

add_filter-append : (f : Text) (xs ys : List Text) → add_filter f (xs ++ ys) ≡ add_filter f xs ++ ys
unfolding add_filter
add_filter-append [] xs ys = refl
add_filter-append (c ∷ f) xs ys = refl

clean_filters-append :
    (xs ys : List Text) → clean_filters (xs ++ ys) ≡ clean_filters xs ++ clean_filters ys
unfolding clean_filters
clean_filters-append [] ys = refl
clean_filters-append (x ∷ xs) ys =
    ap (add_filter (strip x)) (clean_filters-append xs ys) ∙ add_filter-append (strip x) _ _

first_bad-append :
    (xs ys : List Text)
    → first_bad (xs ++ ys) ≡ elim (first_bad xs) [ none ↦ first_bad ys | some f ↦ some f ]
unfolding first_bad
first_bad-append [] ys = refl
first_bad-append (x ∷ xs) ys = elim (Bool-cases (has_sign x)) [
  | inl e ↦ rw (e, first_bad) (first_bad-append xs ys)
  | inr e ↦ rw (e, first_bad) refl
]

added-append :
    (a b : Text) (fs : List Text)
    → fs ++ clean_filters (split b',' (a ++ (b',' ∷ b)))
      ≡ (fs ++ clean_filters (split b',' a)) ++ clean_filters (split b',' b)
added-append a b fs =
    ap (λ ws. fs ++ clean_filters ws) (split-append b',' a b)
    ∙ ap (λ ws. fs ++ ws) (clean_filters-append (split b',' a) (split b',' b))
    ∙ sym (append_assoc fs _ _)

-- What adding two lists joined by a comma is, beside adding the first: with no error there, the second is
-- added to what the first has left; with an error, so has the joined list, for the same filter.
pub Joins : Text → CppLintState × Option Text → CppLintState × Option Text → Type 0
Joins b (s, none) joined = joined ≡ add_filters b s
Joins b (s, some f) joined = joined.1 ≡ some f

-- To add the filters of two lists joined by a comma is, if adding those of the first raises no error, to
-- add those of the first and then those of the second, with the same error or none; if adding those of
-- the first raises an error for a filter, so does adding those of the joined lists, for the same filter.
pub add_filters-comma :
    (a b : Text) (s : CppLintState) → Joins b (add_filters a s) (add_filters (a ++ (b',' ∷ b)) s)
unfolding add_filters Joins
add_filters-comma a b s = go (first_bad (s.filters ++ clean_filters (split b',' a))) refl
  where
    one : List Text
    one = s.filters ++ clean_filters (split b',' a)

    go :
        (bad : Option Text)
        → first_bad one ≡ bad
        → Joins b (record s { filters = one }, bad) (add_filters (a ++ (b',' ∷ b)) s)
    go none e =
        ap (λ (fs : List Text). (record s { filters = fs }, first_bad fs))
          (added-append a b s.filters)
    go (some f) e =
        ap first_bad (added-append a b s.filters)
        ∙ first_bad-append one (clean_filters (split b',' b))
        ∙ rw e refl
