-- ===== src/Lines/Removal.antt =====
-- What RemoveMultiLineComments of build_support/cpplint.py is to do with the lines of a file.
use mathlib.Core.Option
use concurrency_tcp_server.Base.{
  ℕ, suc, ◌+◌, ◌≡◌, refl, ap, Bool, true, not, Option, none, some, List, [], ◌∷◌, ◌++◌, Text, arith,
  length, all, replicate, inl, inr, Option-cases, Bool-cases,
}
use concurrency_tcp_server.Lines.Comments.{begins_comment, ends_comment, find_first, blank_comment}

abbrev pub none_of : (Text → Bool) → List Text → Bool
none_of p ls = all (λ l. not (p l)) ls

-- The first line that passes the test is `at`, behind `before`.
pub record Splits (p : Text → Bool) (ls : List Text) (k : ℕ) : Type 0 where
  pub before : List Text
  pub at : Text
  pub behind : List Text
  pub is : ls ≡ before ++ (at ∷ behind)
  pub index : length before ≡ k
  pub first : none_of p before ≡ true
  pub passes : p at ≡ true

pub find_first-none :
    (p : Text → Bool) (ls : List Text) → find_first p ls ≡ none → none_of p ls ≡ true
unfolding find_first
find_first-none p [] e = refl
find_first-none p (l ∷ ls) e = ground (arith, find_first-none p ls)

pub find_first-Splits :
    (p : Text → Bool) (ls : List Text) (k : ℕ) → find_first p ls ≡ some k → Splits p ls k
unfolding find_first
find_first-Splits p [] k e = cc
find_first-Splits p (l ∷ ls) k e = elim (Bool-cases (p l)) [
  | inl h ↦ record {
    before = [];
    at = l;
    behind = ls;
    is = refl;
    index = let e' : ◌≡◌ {A = Option ℕ} (some 0) (some k) = rw h at e in cc e';
    first = refl;
    passes = h;
  }
  | inr h ↦ elim (Option-cases (find_first p ls)) [
    | inl n ↦ let e' : ◌≡◌ {A = Option ℕ} none (some k) = rw (h, n) at e in cc e'
    | inr (j, n) ↦
        let r = find_first-Splits p ls j n in
        let e' : ◌≡◌ {A = Option ℕ} (some (suc j)) (some k) = rw (h, n) at e in
        record {
          before = l ∷ r.before;
          at = r.at;
          behind = r.behind;
          is = ap (◌∷◌ l) r.is;
          index = let same : suc j ≡ k = cc e' in omega (arith, r.index);
          first = rw h r.first;
          passes = r.passes;
        }
  ]
]

-- The first line of `c` followed by `z`.
abbrev pub first_of : List Text → Text → Text
first_of [] z = z
first_of (x ∷ c) z = x

-- The lines of a file, the lines after the removal, and the place of a comment that does not end.
pub data Cleaned : List Text → List Text → Option ℕ → Type 0 where
  -- no comment begins
  clean : {xs ys : List Text} → ys ≡ xs → none_of begins_comment xs ≡ true → Cleaned xs ys none
  -- the first comment is blanked, up to its first line that ends a comment, and so are those below it
  comment :
      (a c : List Text) (z : Text) (b out : List Text) (e : Option ℕ) {xs ys : List Text}
      {e' : Option ℕ}
      → none_of begins_comment a ≡ true
      → begins_comment (first_of c z) ≡ true
      → none_of ends_comment c ≡ true
      → ends_comment z ≡ true
      → Cleaned b out e
      → xs ≡ a ++ (c ++ (z ∷ b))
      → ys ≡ a ++ (replicate (suc (length c)) blank_comment ++ out)
      → e' ≡ Option.map (λ n. length a + suc (length c) + n) e
      → Cleaned xs ys e'
  -- the first comment has no end: nothing more is changed
  unfinished :
      (a : List Text) (x : Text) (b : List Text) {xs ys : List Text}
      → none_of begins_comment a ≡ true
      → begins_comment x ≡ true
      → none_of ends_comment (x ∷ b) ≡ true
      → xs ≡ a ++ (x ∷ b)
      → ys ≡ xs
      → Cleaned xs ys (some (length a))
