-- ===== src/Checks/Arguments.antt =====
-- build_support/cpplint.py: how CheckForNonStandardConstructs joins the arguments of a constructor.
use concurrency_tcp_server.Base.{
  ℕ, zero, suc, ◌≤◌, ◌≡◌, refl, sym, ap, ◌∙◌, true, false, not, Option, none, some, List, [], ◌∷◌,
  ◌++◌, Text, all, take, length, arith, append_assoc, codes, Bool-cases, inl, inr, impossible,
  Option-cases, ◌⊎◌,
}
use concurrency_tcp_server.Regex.Groups.{some-injective}
use concurrency_tcp_server.Checks.Nonstandard.{is_partial, collapse_from, collapse_args}

-- ','.join(args), for arguments of which the first is given
abbrev pub joined_from : Text → List Text → Text
joined_from arg [] = arg
joined_from arg (next ∷ rest) = arg ++ codes "," ++ joined_from next rest

abbrev pub joined_args : List Text → Text
joined_args [] = []
joined_args (arg ∷ rest) = joined_from arg rest

collapse_from_last : (arg : Text) → is_partial arg ≡ false → collapse_from arg [] ≡ some (arg ∷ [])
unfolding collapse_from
collapse_from_last arg e = rw e refl

collapse_from_raises : (arg : Text) → is_partial arg ≡ true → collapse_from arg [] ≡ none
unfolding collapse_from
collapse_from_raises arg e = rw e refl

collapse_from_joins :
    (arg next : Text) (rest : List Text)
    → is_partial arg ≡ true
    → collapse_from arg (next ∷ rest) ≡ collapse_from (arg ++ codes "," ++ next) rest
unfolding collapse_from
collapse_from_joins arg next rest e = rw (e, collapse_from) refl

abbrev prepend : Text → Option (List Text) → Option (List Text)
prepend arg o = elim o [ none ↦ none | some args ↦ some (arg ∷ args) ]

collapse_from_keeps :
    (arg next : Text) (rest : List Text)
    → is_partial arg ≡ false
    → collapse_from arg (next ∷ rest) ≡ prepend arg (collapse_from next rest)
unfolding collapse_from
collapse_from_keeps arg next rest e = rw (e, collapse_from) refl

-- Joining an argument to the first one leaves the joined text.
joined_from-append :
    (arg next : Text) (rest : List Text)
    → joined_from (arg ++ codes "," ++ next) rest ≡ joined_from arg (next ∷ rest)
joined_from-append arg next [] = refl
joined_from-append arg next (x ∷ rest) =
    ap (λ (t : Text). t ++ joined_from x rest) (append_assoc (arg ++ codes ",") next (codes ","))
    ∙ append_assoc (arg ++ codes ",") (next ++ codes ",") (joined_from x rest)

prepend-some :
    (arg : Text) (o : Option (List Text)) {r : List Text}
    → prepend arg o ≡ some r
    → (args : List Text) × (o ≡ some args) × (arg ∷ args ≡ r)
prepend-some arg none e = impossible e
prepend-some arg (some args) e = (args, refl, some-injective e)

-- The arguments as they come out: the same text, and none that opens more brackets than it closes.
pub record Collapses (arg : Text) (rest r : List Text) : Type 0 where
  pub first : Text
  pub others : List Text
  pub is : r ≡ first ∷ others
  pub same : joined_from first others ≡ joined_from arg rest
  pub complete : all (λ a. not (is_partial a)) (first ∷ others) ≡ true

collapse_from-Collapses :
    (arg : Text) (rest r : List Text) → collapse_from arg rest ≡ some r → Collapses arg rest r
collapse_from-Collapses arg [] r e = elim (Bool-cases (is_partial arg)) [
  | inl p ↦ impossible (sym (collapse_from_raises arg p) ∙ e)
  | inr p ↦ record {
    first = arg;
    others = [];
    is = sym (some-injective (sym (collapse_from_last arg p) ∙ e));
    same = refl;
    complete = rw p refl;
  }
]
collapse_from-Collapses arg (next ∷ rest) r e = elim (Bool-cases (is_partial arg)) [
  | inl p ↦
      let c =
        collapse_from-Collapses (arg ++ codes "," ++ next) rest r
          (sym (collapse_from_joins arg next rest p) ∙ e) in
      record {
        first = c.first;
        others = c.others;
        is = c.is;
        same = c.same ∙ joined_from-append arg next rest;
        complete = c.complete;
      }
  | inr p ↦
      let (args, f, g) =
        prepend-some arg (collapse_from next rest)
          (sym (collapse_from_keeps arg next rest p) ∙ e) in
      let c = collapse_from-Collapses next rest args f in
      record {
        first = arg;
        others = c.first ∷ c.others;
        is = sym g ∙ ap (◌∷◌ arg) c.is;
        same = ap (λ (t : Text). arg ++ codes "," ++ t) c.same;
        complete = ground (arith, p, c.complete);
      }
]

-- From some argument on, the brackets that are opened are never closed.
pub record NeverCloses (arg : Text) (rest : List Text) : Type 0 where
  pub front : List Text
  pub open_arg : Text
  pub back : List Text
  pub is : arg ∷ rest ≡ front ++ (open_arg ∷ back)
  pub stays : (k : ℕ) → k ≤ length back → is_partial (joined_from open_arg (take k back)) ≡ true

prepend-none : (arg : Text) (o : Option (List Text)) → prepend arg o ≡ none → o ≡ none
prepend-none arg none e = refl
prepend-none arg (some args) e = cc

cons-eq : {A : Type 0} {a b : A} {r s : List A} → a ∷ r ≡ b ∷ s → (a ≡ b) × (r ≡ s)
cons-eq e = (cc, cc)

-- What follows an argument that was joined to the one before it.
joined-NeverCloses :
    (arg next : Text) (rest : List Text)
    → is_partial arg ≡ true
    → NeverCloses (arg ++ codes "," ++ next) rest
    → NeverCloses arg (next ∷ rest)
joined-NeverCloses arg next rest p n = go n.front n.is
  where
    go :
        (front : List Text)
        → (arg ++ codes "," ++ next) ∷ rest ≡ front ++ (n.open_arg ∷ n.back)
        → NeverCloses arg (next ∷ rest)
    go [] e =
        let (a, b) = cons-eq e in
        record {
          front = [];
          open_arg = arg;
          back = next ∷ rest;
          is = refl;
          stays = λ k.
              elim k
                as (λ k.
                  k ≤ suc (length rest)
                  → is_partial (joined_from arg (take k (next ∷ rest))) ≡ true) [
                    | zero ↦ λ h. p
                    | suc j ↦ λ h.
                        ap is_partial (sym (joined_from-append arg next (take j rest)))
                        ∙ ap is_partial (rw (a, b) refl)
                        ∙ n.stays j (omega (arith, h, ap length b))
                  ];
        }
    go (f ∷ fs) e = record {
      front = arg ∷ next ∷ fs;
      open_arg = n.open_arg;
      back = n.back;
      is = ap (λ (r : List Text). arg ∷ next ∷ r) (cons-eq e).1;
      stays = n.stays;
    }

collapse_from-NeverCloses :
    (arg : Text) (rest : List Text) → collapse_from arg rest ≡ none → NeverCloses arg rest
collapse_from-NeverCloses arg [] e = elim (Bool-cases (is_partial arg)) [
  | inl p ↦ record {
    front = [];
    open_arg = arg;
    back = [];
    is = refl;
    stays = λ k h. elim k as (λ k. is_partial (joined_from arg (take k [])) ≡ true) [
      | zero ↦ p
      | suc j ↦ p
    ];
  }
  | inr p ↦ impossible (sym e ∙ collapse_from_last arg p)
]
collapse_from-NeverCloses arg (next ∷ rest) e = elim (Bool-cases (is_partial arg)) [
  | inl p ↦ joined-NeverCloses arg next rest p (
      collapse_from-NeverCloses (arg ++ codes "," ++ next) rest
        (sym (collapse_from_joins arg next rest p) ∙ e))
  | inr p ↦
      let n = collapse_from-NeverCloses next rest (
        prepend-none arg (collapse_from next rest)
          (sym (collapse_from_keeps arg next rest p) ∙ e)) in
      record {
        front = arg ∷ n.front;
        open_arg = n.open_arg;
        back = n.back;
        is = ap (◌∷◌ arg) n.is;
        stays = n.stays;
      }
]

-- What the loop that joins the arguments of a constructor does: the arguments that come out give the same
-- text, joined by commas, and none of them opens more angle brackets or parentheses than it closes; or
-- the code raises an IndexError, and then there is an argument from which on, whatever number of the
-- arguments behind it is joined to it, brackets stay open.
pub collapse_args_lem :
    (arg : Text) (rest : List Text)
    → ((r : List Text) × (collapse_args (arg ∷ rest) ≡ some r) × Collapses arg rest r)
      ⊎ ((collapse_args (arg ∷ rest) ≡ none) × NeverCloses arg rest)
unfolding collapse_args
collapse_args_lem arg rest = elim (Option-cases (collapse_from arg rest)) [
  | inl e ↦ inr (e, collapse_from-NeverCloses arg rest e)
  | inr (r, e) ↦ inl (r, e, collapse_from-Collapses arg rest r e)
]
