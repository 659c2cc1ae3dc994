-- ===== src/Regex.antt =====
-- Python's `re` as cpplint uses it: patterns as data, and the backtracking matcher. The patterns of
-- build_support/cpplint.py are written with these constructors. A repeated part consumes at least one
-- character in each of them; an iteration that consumes nothing ends the repetition.
pub mod Laws
pub mod Groups
pub mod Language
pub mod Exact
pub mod Finding
pub mod Pieces
pub mod Eats
pub mod Greedy
pub mod Suffix
pub mod Forms
mod Tests
use concurrency_tcp_server.Base.{
  ℕ, zero, suc, ◌+◌, ◌-◌, ◌≡◌, refl, Bool, true, false, not, ◌&&◌, ◌||◌, Option, none, some, List,
  [], ◌∷◌, ◌++◌, map, reverse, String, Text, codes, ltb, leb, ◌==◌, if◌then◌else◌, length, take,
  drop, any, is_space, is_word, is_digit, is_some,
}

pub data Regex : Type 0 where
  eps bol eol word_boundary : Regex
  char_in : (ℕ → Bool) → Regex
  seq alt : Regex → Regex → Regex
  star lazy_star : Regex → Regex
  group : ℕ → Regex → Regex
  ahead not_ahead : Regex → Regex

-- What a group has captured.
pub record Capture : Type 0 where
  pub start : ℕ
  pub text : Text

-- A place in the subject: what stands before it, nearest character first, and what follows.
pub record Cursor : Type 0 where
  pub before : Text
  pub after : Text
  pub groups : List (ℕ × Capture)

abbrev pub head_is_word : Text → Bool
head_is_word [] = false
head_is_word (c ∷ _) = is_word c

abbrev differ : Bool → Bool → Bool
differ true b = not b
differ false b = b

abbrev pub at_boundary : Cursor → Bool
at_boundary p = differ (head_is_word p.before) (head_is_word p.after)

abbrev pub at_start : Text → Bool
at_start [] = true
at_start (_ ∷ _) = false

-- `$` also stands before a newline at the end.
abbrev pub at_end : Text → Bool
at_end [] = true
at_end (c ∷ []) = c == b'\n'
at_end (c ∷ _ ∷ _) = false

abbrev pub advance : Cursor → ℕ → Text → Cursor
advance p c cs = record p { before = c ∷ p.before; after = cs }

abbrev pub capture : ℕ → Cursor → Cursor → Cursor
capture n from to = record to {
  groups =
      (
        n,
        record {
          start = length from.before;
          text = reverse (take (length to.before - length from.before) to.before);
        },
      )
      ∷ to.groups;
}

abbrev pub Matcher : Type 0
Matcher = Cursor → (Cursor → Option Cursor) → Option Cursor

abbrev pub guarded : Bool → Option Cursor → Option Cursor
guarded true r = r
guarded false r = none

abbrev pub consume : (ℕ → Bool) → Text → Matcher
consume f [] p k = none
consume f (c ∷ cs) p k = guarded (f c) (k (advance p c cs))

abbrev pub progressed : Cursor → Cursor → Bool
progressed p q = ltb (length q.after) (length p.after)

-- Greedy: once more if that leads to a match, else on.
unfoldable pub repeat : Matcher → ℕ → Matcher
repeat m zero p k = k p
repeat m (suc n) p k =
    elim (m p (λ q. elim (progressed p q) [ true ↦ repeat m n q k | false ↦ none ])) [
      | some r ↦ some r
      | none ↦ k p
    ]

-- Lazy: on if that leads to a match, else once more.
unfoldable pub repeat_lazy : Matcher → ℕ → Matcher
repeat_lazy m zero p k = k p
repeat_lazy m (suc n) p k = elim (k p) [
  | some r ↦ some r
  | none ↦ m p (λ q. elim (progressed p q) [ true ↦ repeat_lazy m n q k | false ↦ none ])
]

unfoldable pub run : Regex → Matcher
unfolding repeat repeat_lazy is_word is_space is_digit
run eps p k = k p
run bol p k = guarded (at_start p.before) (k p)
run eol p k = guarded (at_end p.after) (k p)
run word_boundary p k = guarded (at_boundary p) (k p)
run (char_in f) p k = consume f p.after p k
run (seq a b) p k = run a p (λ q. run b q k)
run (alt a b) p k = elim (run a p k) [ some r ↦ some r | none ↦ run b p k ]
run (star a) p k = repeat (run a) (length p.after) p k
run (lazy_star a) p k = repeat_lazy (run a) (length p.after) p k
run (group n a) p k = run a p (λ q. k (capture n p q))
run (ahead a) p k = elim (run a p some) [ some _ ↦ k p | none ↦ none ]
run (not_ahead a) p k = elim (run a p some) [ some _ ↦ none | none ↦ k p ]

abbrev pub cursor : Text → Text → Cursor
cursor before after = record { before = before; after = after; groups = [] }

-- A match: where it begins, and the place behind it.
pub record Found : Type 0 where
  pub start : ℕ
  pub stop : Cursor

abbrev at_place : ℕ → Option Cursor → Option Found
at_place i none = none
at_place i (some q) = some (record { start = i; stop = q })

unfoldable pub search_at : Regex → Text → Text → Option Found
unfolding run
search_at r before [] = at_place (length before) (run r (cursor before []) some)
search_at r before (c ∷ cs) = elim (run r (cursor before (c ∷ cs)) some) [
  | some q ↦ some (record { start = length before; stop = q })
  | none ↦ search_at r (c ∷ before) cs
]

-- Match(pattern, s)
unfoldable pub match_re : Regex → Text → Option Found
unfolding run
match_re r s = at_place 0 (run r (cursor [] s) some)

-- Search(pattern, s)
unfoldable pub search_re : Regex → Text → Option Found
unfolding search_at
search_re r s = search_at r [] s

-- `if Match(pattern, s)` and `if Search(pattern, s)`
unfoldable pub matches : Regex → Text → Bool
unfolding match_re
matches r s = is_some (match_re r s)

unfoldable pub searches : Regex → Text → Bool
unfolding search_re
searches r s = is_some (search_re r s)

unfoldable pub find_group : ℕ → List (ℕ × Capture) → Option Capture
find_group n [] = none
find_group n ((m, c) ∷ gs) = if m == n then some c else find_group n gs

abbrev pub capture_text : Option Capture → Option Text
capture_text none = none
capture_text (some c) = some c.text

-- m.group(n), with `none` for a group that took no part
unfoldable pub group_text : ℕ → Found → Option Text
unfolding find_group
group_text n m = capture_text (find_group n m.stop.groups)

-- m.end()
abbrev pub stop_at : Found → ℕ
stop_at m = length m.stop.before

-- m.group(0)
abbrev pub whole : Found → Text
whole m = reverse (take (stop_at m - m.start) m.stop.before)

-- pattern.sub(rep, s), for a pattern that matches no empty text: `skip` characters belong to the
-- match that was met last.
unfoldable pub sub_go : ℕ → Regex → Text → Text → Text → Text
unfolding run
sub_go skip r new before [] = []
sub_go (suc skip) r new before (c ∷ cs) = sub_go skip r new (c ∷ before) cs
sub_go zero r new before (c ∷ cs) = elim (run r (cursor before (c ∷ cs)) some) [
  | some q ↦ new ++ sub_go (length (c ∷ cs) - length q.after - 1) r new (c ∷ before) cs
  | none ↦ c ∷ sub_go 0 r new (c ∷ before) cs
]

unfoldable pub sub : Regex → Text → Text → Text
unfolding sub_go
sub r new s = sub_go 0 r new [] s
