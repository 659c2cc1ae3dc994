-- ===== src/Files/Newlines.antt =====
-- The line ends of a file (build_support/cpplint.py: ProcessFile and CheckForNewlineAtEOF).
use concurrency_tcp_server.Base.{
  ℕ, suc, ◌+◌, ◌-◌, ◌<◌, ◌≡◌, refl, sym, ap, ◌∙◌, Bool, true, false, not, List, [], ◌∷◌, ◌++◌, Text,
  arith, if◌then◌else◌, codes, ltb, ◌==◌, length, get_or, split, push_head, length-append,
  split-cons, Bool-cases, inl, inr,
}
use concurrency_tcp_server.Lint.Report.{Linter, error}
use concurrency_tcp_server.Files.{
  strip_cr, is_filled, has_cr, remove_crs, read_lines, with_markers, no_newline,
  check_for_newline_at_eof,
}

-- A text that is empty or ends with a newline.
pub is_terminated : Text → Bool
is_terminated [] = true
is_terminated (c ∷ []) = c == b'\n'
is_terminated (c ∷ d ∷ s) = is_terminated (d ∷ s)

pub newlines : Text → ℕ
newlines [] = 0
newlines (c ∷ s) = (if c == b'\n' then 1 else 0) + newlines s

-- The last line, of a list that has one.
abbrev last_of : List Text → Text
last_of [] = []
last_of (x ∷ []) = x
last_of (x ∷ y ∷ ys) = last_of (y ∷ ys)

-- The line above the marker at the end.
second_last :
    (m e x : Text) (xs : List Text)
    → get_or (m ∷ ((x ∷ xs) ++ (e ∷ []))) (suc (length xs)) [] ≡ last_of (x ∷ xs)
second_last m e x [] = refl
second_last m e x (y ∷ ys) = second_last x e y ys

length-push_head :
    (c : ℕ) {ws : List Text} (w : Text) (rest : List Text)
    → ws ≡ w ∷ rest
    → length (push_head c ws) ≡ length ws
length-push_head c {ws = []} w rest e = cc
length-push_head c {ws = v ∷ ws} w rest e = refl

length-split : (s : Text) → length (split b'\n' s) ≡ newlines s + 1
unfolding split newlines
length-split [] = refl
length-split (c ∷ s) =
    let (w, rest, e) = split-cons b'\n' s in
    ground (arith, length-split s, length-push_head c w rest e)

abbrev head_of : List Text → Text
head_of [] = []
head_of (x ∷ _) = x

split-step :
    (c : ℕ) (s : Text)
    → split b'\n' (c ∷ s) ≡ (if c == b'\n' then [] ∷ split b'\n' s else push_head c (split b'\n' s))
unfolding split
split-step c s = refl

-- The one line of a text that has a character is not empty.
split-single : (c : ℕ) (s w : Text) → split b'\n' (c ∷ s) ≡ w ∷ [] → is_filled w ≡ true
split-single c s w e =
    let (v, rest, e') = split-cons b'\n' s in
    go (c == b'\n') v rest
      (sym (split-step c s ∙ ap (λ ws. if c == b'\n' then [] ∷ ws else push_head c ws) e') ∙ e)
  where
    go :
        (b : Bool) (v : Text) (rest : List Text)
        → (if b then [] ∷ v ∷ rest else push_head c (v ∷ rest)) ≡ w ∷ []
        → is_filled w ≡ true
    go true v rest q = cc
    go false v rest q = ap (λ (ws : List Text). is_filled (head_of ws)) (sym q)

last-step :
    (b : Bool) (c : ℕ) (w : Text) (rest : List Text) (t : Bool)
    → is_filled (last_of (w ∷ rest)) ≡ not t
    → (rest ≡ [] → is_filled w ≡ true)
    → is_filled (last_of (if b then [] ∷ w ∷ rest else push_head c (w ∷ rest))) ≡ not t
last-step true c w rest t h f = h
last-step false c w [] t h f = sym (f refl) ∙ h
last-step false c w (v ∷ rest) t h f = h

last_of-split : (s : Text) → is_filled (last_of (split b'\n' s)) ≡ not (is_terminated s)
last_of-split [] = unfold split is_terminated in refl
last_of-split (c ∷ []) = unfold split is_terminated in ground arith
last_of-split (c ∷ d ∷ s) =
    let (w, rest, e) = split-cons b'\n' (d ∷ s) in
    ap (λ ws. is_filled (last_of ws))
      (split-step c (d ∷ s) ∙ ap (λ ws. if c == b'\n' then [] ∷ ws else push_head c ws) e)
    ∙ last-step (c == b'\n') c w rest (is_terminated (d ∷ s))
        (ap (λ ws. is_filled (last_of ws)) (sym e) ∙ last_of-split (d ∷ s))
        (λ q. split-single d s w (e ∙ ap (λ r. w ∷ r) q))
    ∙ unfold is_terminated in refl

-- The lines of a result, whichever list of numbers the line went to.
remove_crs-cons :
    (n : ℕ) (x y : Text) (ys : List Text)
    → (z : Text) × ((remove_crs n (x ∷ y ∷ ys)).lines ≡ z ∷ (remove_crs (n + 1) (y ∷ ys)).lines)
unfolding remove_crs
remove_crs-cons n x y ys = elim (Bool-cases (has_cr x)) [
  | inl e ↦ (strip_cr x, rw (e, remove_crs) refl)
  | inr e ↦ (x, rw (e, remove_crs) refl)
]

length-remove_crs : (n : ℕ) (ls : List Text) → length (remove_crs n ls).lines ≡ length ls
length-remove_crs n [] = unfold remove_crs in refl
length-remove_crs n (x ∷ []) = unfold remove_crs in refl
length-remove_crs n (x ∷ y ∷ ys) =
    let (z, e) = remove_crs-cons n x y ys in
    ap length e ∙ ap suc (length-remove_crs (n + 1) (y ∷ ys))

last_of-cons : (x : Text) (xs : List Text) → 0 < length xs → last_of (x ∷ xs) ≡ last_of xs
last_of-cons x [] h = absurd (omega arith)
last_of-cons x (y ∷ ys) h = refl

last_of-remove_crs : (n : ℕ) (ls : List Text) → last_of (remove_crs n ls).lines ≡ last_of ls
last_of-remove_crs n [] = unfold remove_crs in refl
last_of-remove_crs n (x ∷ []) = unfold remove_crs in refl
last_of-remove_crs n (x ∷ y ∷ ys) =
    let (z, e) = remove_crs-cons n x y ys in
    let len = length-remove_crs (n + 1) (y ∷ ys) in
    ap last_of e
    ∙ last_of-cons z (remove_crs (n + 1) (y ∷ ys)).lines (omega (arith, len))
    ∙ last_of-remove_crs (n + 1) (y ∷ ys)

checked_at :
    (filename : Text) (ls : List Text) (k : ℕ) (t : Bool) (l : Linter)
    → length ls ≡ k + 3
    → is_filled (get_or ls (k + 1) []) ≡ not t
    → check_for_newline_at_eof filename ls l
      ≡ (if t then l else error (no_newline filename (k + 1)) l)
unfolding check_for_newline_at_eof
checked_at filename ls k t l h f =
    let place : length ls - 2 ≡ k + 1 = omega (arith, h) in
    let long : ltb (length ls) 3 ≡ false = ground (arith, h) in rw (place, long, f) (ground arith)

checked :
    (filename m e : Text) (ls : List Text) (t : Bool) (n : ℕ) (l : Linter)
    → length ls ≡ n + 1
    → is_filled (last_of ls) ≡ not t
    → check_for_newline_at_eof filename (m ∷ (ls ++ (e ∷ []))) l
      ≡ (if t then l else error (no_newline filename (n + 1)) l)
checked filename m e [] t n l h f = absurd (omega (arith, h))
checked filename m e (x ∷ xs) t n l h f =
    let place : n + 1 ≡ suc (length xs) = omega (arith, h) in
    checked_at filename (m ∷ x ∷ (xs ++ (e ∷ []))) n t l
      (omega (arith, length-append xs (e ∷ []), h))
      (ap (λ (k : ℕ). is_filled (get_or (m ∷ x ∷ (xs ++ (e ∷ []))) k [])) place
        ∙ ap is_filled (second_last m e x xs)
        ∙ f)

-- The check at the end of the file reports, for every text, exactly if the text is not empty and its last
-- character is not a newline, and then at the number of its last line.
pub check_for_newline_at_eof_iff :
    (filename text : Text) (l : Linter)
    → check_for_newline_at_eof filename (with_markers (read_lines text).lines) l
      ≡ (if is_terminated text then l else error (no_newline filename (newlines text + 1)) l)
check_for_newline_at_eof_iff filename text l =
    checked filename (codes "// marker so line numbers and indices both start at 1")
      (codes "// marker so line numbers end in a known way") (read_lines text).lines
      (is_terminated text) (newlines text) l
      (length-remove_crs 0 (split b'\n' text) ∙ length-split text)
      (ap is_filled (last_of-remove_crs 0 (split b'\n' text)) ∙ last_of-split text)
