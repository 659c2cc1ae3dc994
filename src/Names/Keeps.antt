-- ===== src/Names/Keeps.antt =====
-- build_support/cpplint.py: what each line does in the loop of CheckForHeaderGuard.
use concurrency_tcp_server.Base.{
  ℕ, ◌+◌, ◌≡◌, refl, ap, ◌∙◌, Bool, true, false, not, ◌&&◌, ◌||◌, List, [], ◌∷◌, ◌++◌, Text, all,
  arith, length, text_eq, starts_with, codes, if◌then◌else◌,
}
use concurrency_tcp_server.Names.HeaderGuard.{
  Guards, words, words_from, find_guards, see_words, see_endif, see_ifndef, see_define,
}

-- The words #ifndef or #define followed by a name.
unfoldable pub names_one : List Text → Bool
unfolding text_eq
names_one (first ∷ second ∷ _) = text_eq first (codes "#ifndef") || text_eq first (codes "#define")
names_one _ = false

unfoldable pub is_plain : Text → Bool
unfolding names_one words_from
is_plain line = not (names_one (words line))

unfoldable pub closes_none : Text → Bool
unfolding starts_with
closes_none line = not (starts_with (codes "#endif") line)

-- A loop over two parts is the loop over the first, then over the second.
pub find_guards-append :
    (n : ℕ) (a b : List Text) (g : Guards)
    → find_guards n (a ++ b) g ≡ find_guards (n + length a) b (find_guards n a g)
unfolding find_guards
find_guards-append n [] b g = ap (λ (k : ℕ). find_guards k b g) (omega arith)
find_guards-append n (line ∷ a) b g =
    find_guards-append (n + 1) a b (see_endif n line (see_words n (words line) g))
    ∙ ap
        (λ (k : ℕ).
          find_guards k b (find_guards (n + 1) a (see_endif n line (see_words n (words line) g))))
        (omega arith)

pub see_nothing :
    (n : ℕ) (ws : List Text) (g : Guards) → not (names_one ws) ≡ true → see_words n ws g ≡ g
unfolding names_one see_words see_ifndef see_define
see_nothing n [] g h = refl
see_nothing n (_ ∷ []) g h = refl
see_nothing n (first ∷ second ∷ _) g h = ground (arith, h)

unfoldable pub has_names : Guards → Bool
unfolding text_eq
has_names g = not (text_eq g.ifndef []) && not (text_eq g.define [])

pub see_settled : (n : ℕ) (ws : List Text) (g : Guards) → has_names g ≡ true → see_words n ws g ≡ g
unfolding has_names see_words see_ifndef see_define
see_settled n [] g h = refl
see_settled n (_ ∷ []) g h = refl
see_settled n (first ∷ second ∷ _) g h = ground (arith, h)

pub sees_endif :
    (n : ℕ) (line : Text) (g : Guards)
    → starts_with (codes "#endif") line ≡ true
    → see_endif n line g ≡ record g { endif = line; endif_linenum = n }
unfolding see_endif
sees_endif n line g h = rw h refl

pub closes_all : Text → Bool
closes_all _ = true

pub all-closes : (ls : List Text) → all closes_all ls ≡ true
unfolding closes_all
all-closes [] = refl
all-closes (_ ∷ ls) = all-closes ls

-- The guards with another line of #endif.
abbrev pub with_endif : Guards → Text × ℕ → Guards
with_endif g (line, linenum) = record g { endif = line; endif_linenum = linenum }

pub see_endif-with_endif :
    (n : ℕ) (line : Text) (g : Guards) → (x : Text × ℕ) × (see_endif n line g ≡ with_endif g x)
unfolding see_endif
see_endif-with_endif n line g = go (starts_with (codes "#endif") line)
  where
    go :
        (b : Bool)
        → (x : Text × ℕ) × ((if b then record g { endif = line; endif_linenum = n } else g)
            ≡ with_endif g x)
    go true = ((line, n), refl)
    go false = ((g.endif, g.endif_linenum), refl)

pub see_endif-closes_none :
    (n : ℕ) (line : Text) (g : Guards) → closes_none line ≡ true → see_endif n line g ≡ g
unfolding see_endif closes_none
see_endif-closes_none n line g h = ground (arith, h)

-- Lines whose words change nothing, and with them the whole loop.
abbrev pub Skips : (Text → Bool) → Guards → Type 0
Skips ok g =
    (n : ℕ) (line : Text) (x : Text × ℕ)
    → ok line ≡ true
    → see_words n (words line) (with_endif g x) ≡ with_endif g x

pub find_guards-keeps :
    (ok : Text → Bool) (g : Guards)
    → Skips ok g
    → (n : ℕ) (lines : List Text) (x : Text × ℕ) → all ok lines ≡ true
    → (y : Text × ℕ) × (find_guards n lines (with_endif g x) ≡ with_endif g y)
unfolding find_guards
find_guards-keeps ok g skips n [] x h = (x, refl)
find_guards-keeps ok g skips n (line ∷ lines) x h =
    let (y, e) = see_endif-with_endif n line (with_endif g x) in
    let (z, f) = find_guards-keeps ok g skips (n + 1) lines y (ground (arith, h)) in
    (
      z,
      ap (λ (k : Guards). find_guards (n + 1) lines (see_endif n line k))
            (skips n line x (ground (arith, h)))
          ∙ ap (find_guards (n + 1) lines) e
          ∙ f,
    )

pub find_guards-closed :
    (g : Guards)
    → Skips closes_none g
    → (n : ℕ) (lines : List Text) (x : Text × ℕ) → all closes_none lines ≡ true
    → find_guards n lines (with_endif g x) ≡ with_endif g x
unfolding find_guards
find_guards-closed g skips n [] x h = refl
find_guards-closed g skips n (line ∷ lines) x h =
    let closes : closes_none line ≡ true = ground (arith, h) in
    ap (λ (k : Guards). find_guards (n + 1) lines (see_endif n line k)) (skips n line x closes)
    ∙ ap (find_guards (n + 1) lines) (see_endif-closes_none n line (with_endif g x) closes)
    ∙ find_guards-closed g skips (n + 1) lines x (ground (arith, h))

pub plain-Skips : (g : Guards) → Skips is_plain g
unfolding is_plain
plain-Skips g n line x h = see_nothing n (words line) (with_endif g x) h

-- A guard of which both names are found.
pub settled-Skips : (ok : Text → Bool) (g : Guards) → has_names g ≡ true → Skips ok g
unfolding has_names
settled-Skips ok g h n line x _ = see_settled n (words line) (with_endif g x) h
