-- ===== src/Expression/Complete.antt =====
-- FindEndOfExpressionInLine of build_support/cpplint.py finds the bracket that closes a bracketed text.
use concurrency_tcp_server.Base.{
  ℕ, ◌+◌, ◌≡◌, ◌≢◌, refl, sym, ap, ◌∙◌, true, false, List, [], ◌∷◌, ◌++◌, Text, ◌==◌, arith, length,
  reverse, append_assoc, length-append, subst, take-length-append, drop-length-append,
}
use concurrency_tcp_server.Expression.{
  EndResult, found, keep, stop, is_opener, is_closer, closes, drop_angles, close_round, end_round,
  find_end, find_end_of_expression_in_line,
}
use concurrency_tcp_server.Expression.Grammar.{
  IsBalanced, is_pair, is_pair-closes, is_left-opener, is_right-closer, empty, plain, bracket,
  skeleton, IsRooted,
}
use concurrency_tcp_server.Expression.Rounds.{
  IsRooted-tail, IsRooted-cons, end_round-SameBrackets, end_round-opener, drop_angles-cons,
  drop_angles-IsRooted, end_round-closer,
}

pub find_end-keep :
    (before : Text) (i c : ℕ) (cs : Text) (st st' : List ℕ)
    → end_round before i c st ≡ keep st'
    → find_end before i (c ∷ cs) st ≡ find_end (c ∷ before) (i + 1) cs st'
unfolding find_end
find_end-keep before i c cs st st' e = rw (e, find_end)

pub find_end-stop :
    (before : Text) (i c : ℕ) (cs : Text) (st : List ℕ) (r : EndResult)
    → end_round before i c st ≡ stop r
    → find_end before i (c ∷ cs) st ≡ r
unfolding find_end
find_end-stop before i c cs st r e = rw (e, find_end)

pub closer_of : (o c : ℕ) → closes o c ≡ true → (is_opener o ≡ true) × (is_closer c ≡ true)
closer_of o c h = ground arith

opener-ne-angle : (o : ℕ) → is_opener o ≡ true → (o == b'<') ≡ false
opener-ne-angle o h = ground arith

-- The search has passed `s`, and the stack holds the same brackets as before.
record Passes (before : Text) (i : ℕ) (s rest : Text) (st : List ℕ) : Type 0 where
  behind : Text
  next : List ℕ
  goes_on : find_end before i (s ++ rest) st ≡ find_end behind (i + length s) rest next
  rooted : IsRooted next
  same : skeleton next ≡ skeleton st

-- With brackets left on the stack, a closing bracket takes away the one it closes.
record Pops (before : Text) (i c : ℕ) (rest : Text) (st sk : List ℕ) : Type 0 where
  next : List ℕ
  goes_on : find_end before i (c ∷ rest) st ≡ find_end (c ∷ before) (i + 1) rest next
  rooted : IsRooted next
  same : skeleton next ≡ sk

close_keeps :
    (i o c : ℕ) (st : List ℕ)
    → closes o c ≡ true
    → skeleton st ≢ []
    → close_round i c (o ∷ st) ≡ keep st
close_keeps i o c [] h n = absurd (n refl)
close_keeps i o c (x ∷ st) h n = rw h

pop_bracket :
    (before : Text) (i o c : ℕ) (rest : Text) (st sk : List ℕ)
    → closes o c ≡ true
    → IsRooted st
    → skeleton st ≡ o ∷ sk
    → sk ≢ []
    → Pops before i c rest st sk
pop_bracket before i o c rest st sk h r e n =
    let (st', d, k) = drop_angles-cons st o sk e in
    let closed : close_round i c (drop_angles st) ≡ keep st' =
      rw d (close_keeps i o c st' h (λ m. n (sym k ∙ m))) in
    record {
      next = st';
      goes_on =
          find_end-keep before i c rest st st'
            (end_round-closer before i c st (closer_of o c h).1 ∙ closed);
      rooted = IsRooted-tail o st' (subst IsRooted d (drop_angles-IsRooted st r));
      same = k;
    }

cons-ne-nil : {o : ℕ} {sk : List ℕ} → (o ∷ sk) ≢ []
cons-ne-nil m = cc

rooted_empty : (st : List ℕ) → IsRooted st → skeleton st ≡ [] → st ≡ []
rooted_empty [] h e = refl
rooted_empty (x ∷ []) h e = cc (rw h at e)
rooted_empty (x ∷ y ∷ st) h e = ground (arith, rooted_empty (y ∷ st) h)

skeleton-push : (o : ℕ) (st : List ℕ) → is_opener o ≡ true → skeleton (o ∷ st) ≡ o ∷ skeleton st
skeleton-push o st h = rw (opener-ne-angle o h)

-- The whole text is passed, whatever `<`, `>` and `;` it holds.
find_end-IsBalanced :
    {s : Text} (b : IsBalanced s) (before : Text) (i : ℕ) (rest : Text) (st : List ℕ)
    → IsRooted st
    → skeleton st ≢ []
    → Passes before i s rest st
find_end-IsBalanced empty before i rest st r n = record {
  behind = before;
  next = st;
  goes_on = ap (λ j. find_end before j rest st) (omega arith);
  rooted = r;
  same = refl;
}
find_end-IsBalanced (plain c {s} o k b) before i rest st r n =
    let one =
      end_round-SameBrackets r n before i c (sym (is_left-opener c) ∙ o)
        (sym (is_right-closer c) ∙ k) in
    let more =
      find_end-IsBalanced b (c ∷ before) (i + 1) rest one.next one.rooted
        (λ m. n (sym one.same ∙ m)) in
    record {
      behind = more.behind;
      next = more.next;
      goes_on =
          find_end-keep before i c (s ++ rest) st one.next one.kept
          ∙ more.goes_on
          ∙ ap (λ j. find_end more.behind j rest more.next) (omega arith);
      rooted = more.rooted;
      same = more.same ∙ one.same;
    }
find_end-IsBalanced (bracket o c s t {u} h' b b' e) before i rest st r n =
    let h = sym (is_pair-closes o c) ∙ h' in
    let opens = (closer_of o c h).0 in
    let pushed = skeleton-push o st opens in
    let inner =
      find_end-IsBalanced b (o ∷ before) (i + 1) (c ∷ (t ++ rest)) (o ∷ st) (IsRooted-cons o st n r)
        (λ m. cons-ne-nil (sym pushed ∙ m)) in
    let pop =
      pop_bracket inner.behind (i + 1 + length s) o c (t ++ rest) inner.next (skeleton st) h
        inner.rooted (inner.same ∙ pushed) n in
    let more =
      find_end-IsBalanced b' (c ∷ inner.behind) (i + 1 + length s + 1) rest pop.next pop.rooted
        (λ m. n (sym pop.same ∙ m)) in
    record {
      behind = more.behind;
      next = more.next;
      goes_on =
          find_end-keep before i o (u ++ rest) st (o ∷ st) (end_round-opener before i o st opens)
          ∙ ap (λ v. find_end (o ∷ before) (i + 1) v (o ∷ st))
              (ap (λ v. v ++ rest) e ∙ append_assoc s (c ∷ t) rest)
          ∙ inner.goes_on
          ∙ pop.goes_on
          ∙ more.goes_on
          ∙ ap (λ j. find_end more.behind j rest more.next)
              (omega (arith, ap length e, length-append s (c ∷ t)));
      rooted = more.rooted;
      same = more.same ∙ pop.same;
    }

-- The bracket that was pushed on an empty stack is closed: the position behind it is found.
closes_last :
    (before : Text) (i o c : ℕ) (rest : Text) (st : List ℕ)
    → closes o c ≡ true
    → IsRooted st
    → skeleton st ≡ o ∷ []
    → find_end before i (c ∷ rest) st ≡ found (i + 1)
closes_last before i o c rest st h r e =
    let (st', d, k) = drop_angles-cons st o [] e in
    let none_left =
      rooted_empty st' (IsRooted-tail o st' (subst IsRooted d (drop_angles-IsRooted st r))) k in
    find_end-stop before i c rest st (found (i + 1)) (
      end_round-closer before i c st (closer_of o c h).1
      ∙ ap (close_round i c) (d ∙ ap (◌∷◌ o) none_left)
      ∙ rw h)

-- Where a bracket stands at `startpos`, a bracketed text follows and then the bracket that closes it,
-- the search from an empty stack returns the position just behind the closing bracket. The text
-- between may hold any `<`, `>`, `->`, shifts, operators and semicolons.
pub find_end-closing :
    (pre s rest : Text) (o c : ℕ)
    → IsBalanced s
    → is_pair o c ≡ true
    → find_end_of_expression_in_line (pre ++ (o ∷ (s ++ (c ∷ rest)))) (length pre) []
      ≡ found (length pre + length s + 2)
unfolding find_end_of_expression_in_line
find_end-closing pre s rest o c b pair =
    let h = sym (is_pair-closes o c) ∙ pair in
    let opens = (closer_of o c h).0 in
    let one = skeleton-push o [] opens in
    let inner =
      find_end-IsBalanced b (o ∷ reverse pre) (length pre + 1) (c ∷ rest) (o ∷ [])
        (opener-ne-angle o opens) (λ m. cons-ne-nil (sym one ∙ m)) in
    rw (take-length-append pre _, drop-length-append pre _)
      (find_end-keep (reverse pre) (length pre) o (s ++ (c ∷ rest)) [] (o ∷ [])
          (end_round-opener (reverse pre) (length pre) o [] opens)
        ∙ inner.goes_on
        ∙ closes_last inner.behind (length pre + 1 + length s) o c rest inner.next h inner.rooted
            (inner.same ∙ one)
        ∙ ap found (omega arith))
