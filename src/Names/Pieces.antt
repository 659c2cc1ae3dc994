-- ===== src/Names/Pieces.antt =====
-- build_support/cpplint.py: the loop of PathSplitToList.
use mathlib.Core.List.{reverse-append, reverse-cons, reverse-reverse}
use concurrency_tcp_server.Base.{
  ℕ, zero, suc, ◌<◌, ◌≡◌, inl, inr, refl, sym, ap, ◌∙◌, Bool, true, false, ◌||◌, ◌≢◌, any, ◌==◌,
  codes, List, [], ◌∷◌, ◌++◌, reverse, Text, arith, length, text_eq, text_eq_iff, text_eq_refl,
  append_assoc, length-append, Bool-cases, if◌then◌else◌,
}
use concurrency_tcp_server.Classify.Paths.{path_split, cut_at, trim_head, drop_slashes}
use concurrency_tcp_server.Names.Directories.{dirname}
use concurrency_tcp_server.Names.Upward.{dirname-shortens}
use concurrency_tcp_server.Names.Guard.{split_back, path_split_to_list}

-- The head is shorter, unless the loop ends at it.
head-shortens :
    (path : Text) → text_eq (dirname path) path ≡ false → length (dirname path) < length path
head-shortens path e = elim (dirname-shortens path) [
  | inl t ↦ ground (arith, e, (text_eq_iff (dirname path) path).1 t)
  | inr l ↦ l
]

abbrev parts : Bool → Bool → Text → Text → List Text → List Text
parts ends starts head tail rest =
    if ends then head ∷ [] else if starts then tail ∷ [] else tail ∷ rest

parts_agree :
    (ends starts : Bool) (head tail : Text) {a b : List Text}
    → (ends ≡ false → a ≡ b)
    → parts ends starts head tail a ≡ parts ends starts head tail b
parts_agree true starts head tail h = refl
parts_agree false true head tail h = refl
parts_agree false false head tail h = ap (λ (r : List Text). tail ∷ r) (h refl)

-- Any fuel above the length gives the same parts.
split_back-fuel :
    (m n : ℕ) (path : Text)
    → length path < m
    → length path < n
    → split_back m path ≡ split_back n path
unfolding split_back
split_back-fuel zero n path h k = elim h [ ]
split_back-fuel (suc m) zero path h k = elim k [ ]
split_back-fuel (suc m) (suc n) path h k =
    parts_agree (text_eq (dirname path) path) (text_eq (path_split path).1 path) (dirname path)
      (path_split path).1
      (λ e.
        split_back-fuel m n (dirname path) (omega (arith, head-shortens path e, h))
          (omega (arith, head-shortens path e, k)))

-- The equation of the loop, without a bound on the rounds.
path_split_to_list-loop :
    (path : Text)
    → path_split_to_list path ≡ (
        let (head, tail) = path_split path in
        if text_eq head path
        then head ∷ []
        else if text_eq tail path
        then tail ∷ []
        else path_split_to_list head ++ (tail ∷ []))
unfolding path_split_to_list split_back
path_split_to_list-loop path =
    go (text_eq (dirname path) path) (text_eq (path_split path).1 path) refl
  where
    go :
        (ends starts : Bool)
        → text_eq (dirname path) path ≡ ends
        → reverse (
            parts ends starts
              (dirname path)
              (path_split path).1
              (split_back (length path) (dirname path)))
          ≡ (if ends
              then dirname path ∷ []
              else if starts
              then (path_split path).1 ∷ []
              else path_split_to_list (dirname path) ++ ((path_split path).1 ∷ []))
    go true starts e = refl
    go false true e = refl
    go false false e =
        ap (λ (r : List Text). reverse ((path_split path).1 ∷ r))
          (split_back-fuel (length path) (suc (length (dirname path))) (dirname path)
            (head-shortens path e) (omega arith))
        ∙ reverse-cons (path_split path).1 (split_back (suc (length (dirname path))) (dirname path))

-- A part of a path.
pub record IsName (w : Text) : Type 0 where
  pub head_is : (c : ℕ) × (cs : Text) × (w ≡ c ∷ cs)
  pub no_slash : any (◌==◌ b'/') w ≡ false

-- The paths that are made of names with one slash between them, relative or from the root, with their parts.
pub data IsPath : Text → List Text → Type 0 where
  root : IsPath (codes "/") (codes "/" ∷ [])
  name : (w : Text) → IsName w → IsPath w (w ∷ [])
  below_root : (w : Text) → IsName w → IsPath (b'/' ∷ w) (codes "/" ∷ w ∷ [])
  below :
      (p w : Text) (names : List Text)
      → IsPath p names
      → p ≢ codes "/"
      → IsName w
      → IsPath (p ++ (b'/' ∷ w)) (names ++ (w ∷ []))

cut_at-first :
    (c : ℕ) (a rest : Text) → any (◌==◌ c) a ≡ false → cut_at c (a ++ (c ∷ rest)) ≡ (a, c ∷ rest)
unfolding cut_at
cut_at-first c [] rest h = ground arith
cut_at-first c (x ∷ a) rest h = ground (arith, h, cut_at-first c a rest (ground (arith, h)))

cut_at-none : (c : ℕ) (a : Text) → any (◌==◌ c) a ≡ false → cut_at c a ≡ (a, [])
unfolding cut_at
cut_at-none c [] h = refl
cut_at-none c (x ∷ a) h = ground (arith, h, cut_at-none c a (ground (arith, h)))

any-append : (f : ℕ → Bool) (a b : Text) → any f (a ++ b) ≡ (any f a || any f b)
any-append f [] b = refl
any-append f (x ∷ a) b = ground (arith, any-append f a b)

any-reverse : (f : ℕ → Bool) (a : Text) → any f (reverse a) ≡ any f a
any-reverse f [] = refl
any-reverse f (x ∷ a) =
    ap (any f) (reverse-cons x a)
    ∙ any-append f (reverse a) (x ∷ [])
    ∙ ground (arith, any-reverse f a)

-- os.path.split at the last slash.
turned : (p w : Text) → reverse (p ++ (b'/' ∷ w)) ≡ reverse w ++ (b'/' ∷ reverse p)
turned p w =
    reverse-append p (b'/' ∷ w)
    ∙ ap (λ (t : Text). t ++ reverse p) (reverse-cons b'/' w)
    ∙ append_assoc (reverse w) (b'/' ∷ []) (reverse p)

split-below :
    (p w : Text) → IsName w → path_split (p ++ (b'/' ∷ w)) ≡ (trim_head (b'/' ∷ reverse p), w)
unfolding path_split
split-below p w n =
    ap (λ (z : Text × Text). (trim_head z.1, reverse z.0))
      (ap (cut_at b'/') (turned p w)
        ∙ cut_at-first b'/' (reverse w) (reverse p) (any-reverse (◌==◌ b'/') w ∙ n.no_slash))
    ∙ ap (λ (t : Text). (trim_head (b'/' ∷ reverse p), t)) (reverse-reverse w)

split-name : (w : Text) → IsName w → path_split w ≡ ([], w)
unfolding path_split trim_head
split-name w n =
    ap (λ (z : Text × Text). (trim_head z.1, reverse z.0))
      (cut_at-none b'/' (reverse w) (any-reverse (◌==◌ b'/') w ∙ n.no_slash))
    ∙ ap (λ (t : Text). ([], t)) (reverse-reverse w)

-- The last character, and that it is no slash.
abbrev LastClean : Text → Type 0
LastClean t = (c : ℕ) × (cs : Text) × (t ≡ c ∷ cs) × ((c == b'/') ≡ false)

name-last : (w : Text) → IsName w → LastClean (reverse w)
name-last w n = go (reverse w) refl
  where
    go : (t : Text) → reverse w ≡ t → LastClean (reverse w)
    go [] e =
        let (c, cs, f) = n.head_is in
        absurd (ground (arith, ap length (sym f ∙ sym (reverse-reverse w) ∙ ap reverse e)))
    go (x ∷ xs) e = (
      x,
      xs,
      e,
      ground (arith, sym (ap (any (◌==◌ b'/')) e) ∙ any-reverse (◌==◌ b'/') w ∙ n.no_slash),
    )

under : (p w : Text) → IsName w → LastClean (reverse (p ++ (b'/' ∷ w)))
under p w n =
    let (c, cs, e, h) = name-last w n in
    (c, cs ++ (b'/' ∷ reverse p), turned p w ∙ ap (λ (t : Text). t ++ (b'/' ∷ reverse p)) e, h)

path-last : (p : Text) (names : List Text) → IsPath p names → p ≢ codes "/" → LastClean (reverse p)
path-last p names root d = absurd (d refl)
path-last p names (name w n) d = name-last w n
path-last p names (below_root w n) d = under [] w n
path-last p names (below q w _ _ _ n) d = under q w n

trim_head-below : (p : Text) → LastClean (reverse p) → trim_head (b'/' ∷ reverse p) ≡ p
unfolding trim_head drop_slashes
trim_head-below p (c, cs, e, h) =
    let k : (b'/' == c) ≡ false = ground (arith, h) in
    rw (e, h, k) (ap reverse (sym e) ∙ reverse-reverse p)

abbrev after_split : Text → Text × Text → List Text
after_split path (head, tail) =
    if text_eq head path
    then head ∷ []
    else if text_eq tail path
    then tail ∷ []
    else path_split_to_list head ++ (tail ∷ [])

shorter_differs : (a b : Text) → length a < length b → text_eq a b ≡ false
shorter_differs a b l = elim (Bool-cases (text_eq a b)) [
  | inr e ↦ e
  | inl e ↦ absurd (omega (arith, l, ap length ((text_eq_iff a b).0 e)))
]

split_step :
    (head path w : Text)
    → path_split path ≡ (head, w)
    → length head < length path
    → length w < length path
    → path_split_to_list path ≡ path_split_to_list head ++ (w ∷ [])
split_step head path w e h k =
    path_split_to_list-loop path
    ∙ ap (after_split path) e
    ∙ rw (shorter_differs head path h, shorter_differs w path k) refl

root_parts : path_split_to_list (codes "/") ≡ codes "/" ∷ []
unfolding path_split_to_list split_back path_split cut_at trim_head text_eq
root_parts = refl

-- PathSplitToList gives the parts of a path that is made of names with one slash between them, relative or
-- from the root: the names in order, behind "/" if the path begins at the root.
pub path_split_to_list-IsPath :
    (path : Text) (names : List Text) → IsPath path names → path_split_to_list path ≡ names
path_split_to_list-IsPath path names root = root_parts
path_split_to_list-IsPath path names (name w n) =
    let (c, cs, f) = n.head_is in
    path_split_to_list-loop w
    ∙ ap (after_split w) (split-name w n)
    ∙ rw (shorter_differs [] w (omega (arith, ap length f)), text_eq_refl w) refl
path_split_to_list-IsPath path names (below_root w n) =
    let (c, cs, f) = n.head_is in
    split_step (codes "/") (b'/' ∷ w) w (split-below [] w n ∙ unfold trim_head in refl)
      (omega (arith, ap length f)) (omega arith)
    ∙ ap (λ (r : List Text). r ++ (w ∷ [])) root_parts
path_split_to_list-IsPath path names (below p w ps x d n) =
    let whole = length-append p (b'/' ∷ w) in
    split_step p (p ++ (b'/' ∷ w)) w
      (split-below p w n ∙ ap (λ (t : Text). (t, w)) (trim_head-below p (path-last p ps x d)))
      (omega (arith, whole)) (omega (arith, whole))
    ∙ ap (λ (r : List Text). r ++ (w ∷ [])) (path_split_to_list-IsPath p ps x)
