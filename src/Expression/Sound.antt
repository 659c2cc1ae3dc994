-- ===== src/Expression/Sound.antt =====
-- What FindEndOfExpressionInLine of build_support/cpplint.py returns closes a bracketed text.
use concurrency_tcp_server.Base.{
  ℕ, ◌+◌, ◌≡◌, ◌≢◌, refl, sym, ap, ◌∙◌, true, false, List, [], ◌∷◌, ◌++◌, Text, arith, length, take,
  drop, reverse, append_assoc, length-append, subst, take-append-drop, inl, inr, Bool-cases,
}
use concurrency_tcp_server.Expression.{
  found, gave_up, is_opener, is_closer, closes, close_round, end_round, find_end,
  find_end_of_expression_in_line,
}
use concurrency_tcp_server.Expression.Grammar.{
  IsBalanced, is_pair, is_pair-closes, is_left-opener, is_right-closer, empty, plain, bracket,
  Closes, done, level, skeleton, IsRooted,
}
use concurrency_tcp_server.Expression.Rounds.{
  IsRooted-tail, IsRooted-cons, end_round-SameBrackets, end_round-opener, drop_angles-cons,
  drop_angles-IsRooted, end_round-closer,
}
use concurrency_tcp_server.Expression.Complete.{find_end-keep, find_end-stop}

Closes-plain :
    {sk : List ℕ} {u : Text} (c : ℕ)
    → is_opener c ≡ false
    → is_closer c ≡ false
    → sk ≢ []
    → Closes sk u
    → Closes sk (c ∷ u)
Closes-plain c o k n done = absurd (n refl)
Closes-plain c o k n (level o' c' s t h b r e) =
    level o' c' (c ∷ s) t h (plain c (is_left-opener c ∙ o) (is_right-closer c ∙ k) b) r
      (ap (◌∷◌ c) e)

Closes-open : {o : ℕ} {sk : List ℕ} {u : Text} → sk ≢ [] → Closes (o ∷ sk) u → Closes sk (o ∷ u)
Closes-open n (level o c s t h b done e) = absurd (n refl)
Closes-open n (level o c s t h b (level o' c' s' t' h' b' r e') e) =
    level o' c' (o ∷ (s ++ (c ∷ s'))) t' h' (bracket o c s s' h b b' refl) r
      (ap (◌∷◌ o) (e ∙ ap (λ v. s ++ (c ∷ v)) e' ∙ sym (append_assoc s (c ∷ s') (c' ∷ t'))))

-- The text up to the position found closes the brackets on the stack.
record Closed (i p : ℕ) (s : Text) (sk : List ℕ) : Type 0 where
  used : Text
  rest : Text
  splits : s ≡ used ++ rest
  ends : Closes sk used
  at : p ≡ i + length used

Closed-cons :
    {i p : ℕ} {s : Text} {sk sk' : List ℕ} (c : ℕ)
    → ((u : Text) → Closes sk u → Closes sk' (c ∷ u))
    → Closed (i + 1) p s sk
    → Closed i p (c ∷ s) sk'
Closed-cons c f d = record {
  used = c ∷ d.used;
  rest = d.rest;
  splits = ap (◌∷◌ c) d.splits;
  ends = f d.used d.ends;
  at = omega (arith, d.at);
}

-- A closing bracket that is not the last one.
Closes-closer :
    {o : ℕ} {sk : List ℕ} (c : ℕ)
    → closes o c ≡ true
    → (u : Text) → Closes sk u
    → Closes (o ∷ sk) (c ∷ u)
Closes-closer {o} c h u r = level o c [] u (is_pair-closes o c ∙ h) empty r refl

found-injective : {p q : ℕ} → found p ≡ found q → p ≡ q
found-injective e = cc

found_last :
    (before : Text) (i p o c : ℕ) (cs : Text) (full : List ℕ)
    → end_round before i c full ≡ close_round i c (o ∷ [])
    → find_end before i (c ∷ cs) full ≡ found p
    → Closed i p (c ∷ cs) (o ∷ [])
found_last before i p o c cs full round e = elim (Bool-cases (closes o c)) [
  | inl h ↦
      let stops = find_end-stop before i c cs full (found (i + 1)) (round ∙ rw h) in
      record {
        used = c ∷ [];
        rest = cs;
        splits = refl;
        ends = Closes-closer c h [] done;
        at = found-injective (sym e ∙ stops);
      }
  | inr h ↦ cc (e, find_end-stop before i c cs full gave_up (round ∙ rw h))
]

found_more :
    (before : Text) (i p o c x : ℕ) (cs : Text) (st full : List ℕ)
    → end_round before i c full ≡ close_round i c (o ∷ x ∷ st)
    → find_end before i (c ∷ cs) full ≡ found p
    → (closes o c ≡ true) × (find_end (c ∷ before) (i + 1) cs (x ∷ st) ≡ found p)
found_more before i p o c x cs st full round e = elim (Bool-cases (closes o c)) [
  | inl h ↦ (h, sym (find_end-keep before i c cs full (x ∷ st) (round ∙ rw h)) ∙ e)
  | inr h ↦ cc (e, find_end-stop before i c cs full gave_up (round ∙ rw h))
]

cons-ne-nil : {o : ℕ} {sk : List ℕ} → (o ∷ sk) ≢ []
cons-ne-nil m = cc

-- The skeleton of a stack whose lowest entry is a bracket.
skeleton-ne-nil : (x : ℕ) (st : List ℕ) → IsRooted (x ∷ st) → skeleton (x ∷ st) ≢ []
skeleton-ne-nil x [] h e = cc (rw h at e)
skeleton-ne-nil x (y ∷ st) h e = ground (arith, skeleton-ne-nil y st h)

skeleton-cases : (st : List ℕ) → skeleton st ≢ [] → (o : ℕ) × (sk : List ℕ) × (skeleton st ≡ o ∷ sk)
skeleton-cases st n = go (skeleton st) refl
  where
    go : (l : List ℕ) → skeleton st ≡ l → (o : ℕ) × (sk : List ℕ) × (skeleton st ≡ o ∷ sk)
    go [] e = absurd (n e)
    go (o ∷ sk) e = (o, sk, e)

opener-push : (o : ℕ) (st : List ℕ) → is_opener o ≡ true → skeleton (o ∷ st) ≡ o ∷ skeleton st
opener-push o st h = ground arith

-- A search that goes on below one bracket.
Below : Text → ℕ → ℕ → Text → Type 0
Below before i p s =
    (st : List ℕ)
    → IsRooted st
    → skeleton st ≢ []
    → find_end before i s st ≡ found p
    → Closed i p s (skeleton st)

found_closer :
    (before : Text) (i p c : ℕ) (cs : Text) (st : List ℕ)
    → IsRooted st
    → skeleton st ≢ []
    → is_closer c ≡ true
    → Below (c ∷ before) (i + 1) p cs
    → find_end before i (c ∷ cs) st ≡ found p
    → Closed i p (c ∷ cs) (skeleton st)
unfolding Below
found_closer before i p c cs st r n k ih e =
    let (o, sk, es) = skeleton-cases st n in
    let (st', d, ek) = drop_angles-cons st o sk es in
    subst (Closed i p (c ∷ cs)) (ap (◌∷◌ o) ek ∙ sym es) (
      go o st' (end_round-closer before i c st k ∙ ap (close_round i c) d)
        (IsRooted-tail o st' (subst IsRooted d (drop_angles-IsRooted st r))))
  where
    go :
        (o : ℕ) (st' : List ℕ)
        → end_round before i c st ≡ close_round i c (o ∷ st')
        → IsRooted st'
        → Closed i p (c ∷ cs) (o ∷ skeleton st')
    go o [] round h = found_last before i p o c cs st round e
    go o (x ∷ st') round h =
        let (h', e') = found_more before i p o c x cs st' st round e in
        Closed-cons c (Closes-closer c h') (ih (x ∷ st') h (skeleton-ne-nil x st' h) e')

find_end-Closed : (s before : Text) (i p : ℕ) → Below before i p s
unfolding Below find_end
find_end-Closed [] before i p st r n e = cc
find_end-Closed (c ∷ cs) before i p st r n e = elim (Bool-cases (is_opener c)) [
  | inl o ↦
      let e' =
        sym (find_end-keep before i c cs st (c ∷ st) (end_round-opener before i c st o)) ∙ e in
      let push = opener-push c st o in
      Closed-cons c (λ u. Closes-open n)
        (subst (Closed (i + 1) p cs) push (
          find_end-Closed cs (c ∷ before) (i + 1) p (c ∷ st) (IsRooted-cons c st n r)
            (λ m. cons-ne-nil (sym push ∙ m)) e'))
  | inr o ↦ elim (Bool-cases (is_closer c)) [
    | inl k ↦ found_closer before i p c cs st r n k (find_end-Closed cs (c ∷ before) (i + 1) p) e
    | inr k ↦
        let one = end_round-SameBrackets r n before i c o k in
        let e' = sym (find_end-keep before i c cs st one.next one.kept) ∙ e in
        Closed-cons c (λ u. Closes-plain c o k n)
          (subst (Closed (i + 1) p cs) one.same (
            find_end-Closed cs (c ∷ before) (i + 1) p one.next one.rooted
              (λ m. n (sym one.same ∙ m)) e'))
  ]
]

-- The text from `startpos` up to `stop_at`: a bracket, a bracketed text, and the bracket that closes it.
pub record IsExpression (line : Text) (startpos stop_at : ℕ) : Type 0 where
  pub opening : ℕ
  pub inside : Text
  pub closing : ℕ
  pub behind : Text
  pub line_is : line ≡ take startpos line ++ (opening ∷ (inside ++ (closing ∷ behind)))
  pub balanced : IsBalanced inside
  pub pair : is_pair opening closing ≡ true
  pub at : stop_at ≡ startpos + length inside + 2

IsExpression-Closed :
    {i p o : ℕ} {line s : Text}
    → drop i line ≡ o ∷ s
    → Closed (i + 1) p s (o ∷ [])
    → IsExpression line i p
IsExpression-Closed {i} {p} {o} {line} {s} d c = go c.ends c.splits c.at
  where
    go :
        {u : Text}
        → Closes (o ∷ []) u
        → s ≡ u ++ c.rest
        → p ≡ i + 1 + length u
        → IsExpression line i p
    go (level o k s' t h b done e) sp at = record {
      opening = o;
      inside = s';
      closing = k;
      behind = c.rest;
      line_is =
          sym (take-append-drop i line)
          ∙ ap (λ v. take i line ++ v)
              (d ∙ ap (◌∷◌ o) (sp ∙ ap (λ v. v ++ c.rest) e ∙ append_assoc s' (k ∷ []) c.rest));
      balanced = b;
      pair = h;
      at = omega (arith, at, ap length e, length-append s' (k ∷ []));
    }

-- Where a bracket stands at `startpos` and the search from an empty stack returns a position, a
-- bracketed text stands between, and the character before that position closes the bracket.
pub find_end-IsExpression :
    (line : Text) (startpos p o : ℕ) (s : Text)
    → drop startpos line ≡ o ∷ s
    → is_opener o ≡ true
    → find_end_of_expression_in_line line startpos [] ≡ found p
    → IsExpression line startpos p
unfolding find_end_of_expression_in_line
find_end-IsExpression line i p o s d h e =
    let before = reverse (take i line) in
    let e' =
      sym (find_end-keep before i o s [] (o ∷ []) (end_round-opener before i o [] h))
      ∙ subst (λ v. find_end before i v [] ≡ found p) d e in
    let push = opener-push o [] h in
    IsExpression-Closed d (
      subst (Closed (i + 1) p s) push (
        unfold Below in
        find_end-Closed s (o ∷ before) (i + 1) p (o ∷ []) (ground arith)
          (λ m. cons-ne-nil (sym push ∙ m)) e'))
