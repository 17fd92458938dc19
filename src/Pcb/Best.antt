-- ===== src/Pcb/Best.antt =====
-- `in_pcblookup` of Kernel/netinet/in_pcb.c: the block that it finds is the best one.
use Prim.{Unit}
use shaunos.Base.{
  ℕ, suc, ◌%◌, ◌^◌, ◌<◌, ◌≤◌, ◌≡◌, refl, sym, subst, ap, arith, Bool, Option, none, some, List, [],
  ◌∷◌, ◌++◌, ltb, ◌==◌, Bool-cases, inl, inr, ==→eq, ltb→lt, ltb→le,
}
use shaunos.Pcb.{
  Inpcb, Wanted, local_wild, foreign_wild, both_wild, wildcard_of, lookup_loop, in_pcblookup,
}

-- A block is passed over, or has at least `n` wildcards.
abbrev pub AtLeast : ℕ → Option ℕ → Type 0
AtLeast n none = Unit
AtLeast n (some k) = n ≤ k

abbrev pub AllFrom : Wanted → ℕ → List Inpcb → Type 0
AllFrom to n [] = Unit
AllFrom to n (p ∷ ps) = AtLeast n (wildcard_of to p) × AllFrom to n ps

-- The block `p` is the first one among those with the fewest wildcards.
pub record First (to : Wanted) (ps : List Inpcb) (p : Inpcb) : Type 0 where
  pub front : List Inpcb
  pub rear : List Inpcb
  pub wildcards : ℕ
  pub place : ps ≡ front ++ p ∷ rear
  pub scored : wildcard_of to p ≡ some wildcards
  pub worse : AllFrom to (suc wildcards) front
  pub no_better : AllFrom to wildcards rear

-- The loop has kept the block it started with, or found a better one.
data Outcome (to : Wanted) (ps : List Inpcb) (found : Option Inpcb) (n : ℕ) (r : Option Inpcb)
    : Type 0 where
  kept : r ≡ found → AllFrom to n ps → Outcome to ps found n r
  better :
      (p : Inpcb) → r ≡ some p → (f : First to ps p) → f.wildcards < n → Outcome to ps found n r

AtLeast-zero : (k : Option ℕ) → AtLeast 0 k
AtLeast-zero none = record {}
AtLeast-zero (some k) = omega arith

AllFrom-zero : (to : Wanted) (ps : List Inpcb) → AllFrom to 0 ps
AllFrom-zero to [] = record {}
AllFrom-zero to (p ∷ ps) = (AtLeast-zero (wildcard_of to p), AllFrom-zero to ps)

-- the best of a list with one more block in front
abbrev cons_first :
    (to : Wanted) (q : Inpcb) (ps : List Inpcb) (p : Inpcb) (f : First to ps p)
    → AtLeast (suc f.wildcards) (wildcard_of to q)
    → First to (q ∷ ps) p
cons_first to q ps p f h = record {
  front = q ∷ f.front;
  rear = f.rear;
  wildcards = f.wildcards;
  place = ap (λ xs. q ∷ xs) f.place;
  scored = f.scored;
  worse = (h, f.worse);
  no_better = f.no_better;
}

AtLeast-some : {k : Option ℕ} (n m : ℕ) → k ≡ some m → n ≤ m → AtLeast n k
AtLeast-some n m e h = rw e h

AtLeast-none : {k : Option ℕ} (n : ℕ) → k ≡ none → AtLeast n k
AtLeast-none n e = rw e (record {})

-- a block that is no better than what is found
skip :
    (to : Wanted) (p : Inpcb) (ps : List Inpcb) (found : Option Inpcb) (n : ℕ) (r : Option Inpcb)
    → ((m : ℕ) → m ≤ n → AtLeast m (wildcard_of to p))
    → Outcome to ps found n r
    → Outcome to (p ∷ ps) found n r
skip to p ps found n r h (kept e all) = kept e (h n (omega arith), all)
skip to p ps found n r h (better q e f less) =
    better q e (cons_first to p ps q f (h (suc f.wildcards) less)) less

-- a block that is better
replace :
    (to : Wanted) (p : Inpcb) (ps : List Inpcb) (found : Option Inpcb) (n k : ℕ) (r : Option Inpcb)
    → wildcard_of to p ≡ some k
    → k < n
    → Outcome to ps (some p) k r
    → Outcome to (p ∷ ps) found n r
replace to p ps found n k r e less (kept same all) =
    better p same
      (record {
        front = [];
        rear = ps;
        wildcards = k;
        place = refl;
        scored = e;
        worse = record {};
        no_better = all;
      })
      less
replace to p ps found n k r e less (better q same f fewer) =
    better q same (cons_first to p ps q f (AtLeast-some (suc f.wildcards) k e fewer)) (omega arith)

lookup_loop-Outcome :
    (to : Wanted) (ps : List Inpcb) (found : Option Inpcb) (n : ℕ)
    → Outcome to ps found n (lookup_loop to ps found n)
unfolding lookup_loop
lookup_loop-Outcome to [] found n = kept refl (record {})
lookup_loop-Outcome to (p ∷ ps) found n =
    go (wildcard_of to p) refl (lookup_loop-Outcome to ps found n)
      (λ k. lookup_loop-Outcome to ps (some p) k)
  where
    go :
        (k : Option ℕ)
        → wildcard_of to p ≡ k
        → Outcome to ps found n (lookup_loop to ps found n)
        → ((m : ℕ) → Outcome to ps (some p) m (lookup_loop to ps (some p) m))
        → Outcome to (p ∷ ps) found n (lookup_loop to (p ∷ ps) found n)
    go none e over with_p =
        rw (lookup_loop, e) (skip to p ps found n _ (λ m _. AtLeast-none m e) over)
    go (some k) e over with_p = elim (Bool-cases (ltb k n)) [
      | inr not_less ↦
          rw (lookup_loop, e, not_less)
            (skip to p ps found n _ (λ m h. AtLeast-some m k e (omega (arith, ltb→le _ _ not_less)))
              over)
      | inl less ↦ elim (Bool-cases (k == 0)) [
        | inl none_wild ↦
            let all : AllFrom to k ps =
              subst (λ m. AllFrom to m ps) (sym (==→eq _ _ none_wild)) (AllFrom-zero to ps) in
            rw (lookup_loop, e, less, none_wild)
              (replace to p ps found n k (some p) e (ltb→lt _ _ less) (kept refl all))
        | inr some_wild ↦
            rw (lookup_loop, e, less, some_wild)
              (replace to p ps found n k _ e (ltb→lt _ _ less) (with_p k))
      ]
    ]

local-le : (p : Inpcb) (to : Wanted) (k : ℕ) → local_wild p to ≡ some k → k ≤ 1
local-le p to k e = ground arith

foreign-le : (p : Inpcb) (to : Wanted) (k : ℕ) → foreign_wild p to ≡ some k → k ≤ 1
foreign-le p to k e = ground arith

both-le :
    (wild : Bool) (l f : Option ℕ)
    → ((k : ℕ) → l ≡ some k → k ≤ 1)
    → ((k : ℕ) → f ≡ some k → k ≤ 1)
    → (k : ℕ) → both_wild wild l f ≡ some k
    → k ≤ 2
both-le wild none f hl hf k e = cc
both-le wild (some l) none hl hf k e = cc
both-le wild (some l) (some f) hl hf k e = let a = hl l refl in let b = hf f refl in ground arith

-- a block has at most two wildcards
few_wildcards : (to : Wanted) (p : Inpcb) (k : ℕ) → wildcard_of to p ≡ some k → k ≤ 2
unfolding wildcard_of
few_wildcards to p k e = elim (Bool-cases (p.lport == to.lport % 2 ^ 16)) [
  | inl same ↦
      both-le to.wild (local_wild p to) (foreign_wild p to) (local-le p to) (foreign-le p to) k
        (rw same at e)
  | inr other ↦ let e' = rw other at e in cc
]

-- All blocks are passed over.
abbrev pub AllPassed : Wanted → List Inpcb → Type 0
AllPassed to [] = Unit
AllPassed to (p ∷ ps) = (wildcard_of to p ≡ none) × AllPassed to ps

-- no block scores from 3 up
AllFrom-passed : (to : Wanted) (ps : List Inpcb) → AllFrom to 3 ps → AllPassed to ps
AllFrom-passed to [] h = record {}
AllFrom-passed to (p ∷ ps) (h, hs) = (go (wildcard_of to p) refl h, AllFrom-passed to ps hs)
  where
    go : (k : Option ℕ) → wildcard_of to p ≡ k → AtLeast 3 k → wildcard_of to p ≡ none
    go none e h = e
    go (some k) e h = absurd (omega (arith, few_wildcards to p k e))

-- What `in_pcblookup` returns: nothing, when all blocks are passed over, or the first of the best.
pub data Looked (to : Wanted) (ps : List Inpcb) (r : Option Inpcb) : Type 0 where
  missing : r ≡ none → AllPassed to ps → Looked to ps r
  matched : (p : Inpcb) → r ≡ some p → First to ps p → Looked to ps r

-- A lookup returns the first of the control blocks that have the fewest wildcards among those that are not
-- passed over, and NULL when all of them are.
pub in_pcblookup-Looked : (ps : List Inpcb) (to : Wanted) → Looked to ps (in_pcblookup ps to)
unfolding in_pcblookup
in_pcblookup-Looked ps to = elim (lookup_loop-Outcome to ps none 3) [
  | kept e all ↦ missing e (AllFrom-passed to ps all)
  | better p e f less ↦ matched p e f
]
