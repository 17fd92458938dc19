-- ===== src/Socket/Links.antt =====
-- Kernel/net/uipc_socket2.c: lists of sockets linked by one of their fields.
use Prim.{Unit}
use shaunos.Base.{
  ℕ, zero, suc, ◌<◌, ◌≡◌, ◌≢◌, refl, sym, ◌∙◌, arith, true, false, none, some, List, [], ◌∷◌, ◌++◌,
  ◌==◌, length, ne→==,
}
use shaunos.Base.Fault.{ok}
use shaunos.Socket.{last_of, before}

-- The links from `p` on lead through `xs` and end.
abbrev pub Linked : (ℕ → ℕ) → ℕ → List ℕ → Type 0
Linked links p [] = links p ≡ 0
Linked links p (x ∷ xs) = (links p ≡ x) × (x ≢ 0) × Linked links x xs

abbrev pub Avoids : ℕ → List ℕ → Type 0
Avoids i [] = Unit
Avoids i (x ∷ xs) = (i ≢ x) × Avoids i xs

abbrev pub Distinct : List ℕ → Type 0
Distinct [] = Unit
Distinct (x ∷ xs) = Avoids x xs × Distinct xs

abbrev pub last : ℕ → List ℕ → ℕ
last p [] = p
last p (x ∷ xs) = last x xs

pub Avoids-last : (i p : ℕ) (xs : List ℕ) → Avoids i (p ∷ xs) → i ≢ last p xs
Avoids-last i p [] (h, _) = h
Avoids-last i p (x ∷ xs) (_, h) = Avoids-last i x xs h

pub last_of_lem :
    (fuel : ℕ) (links : ℕ → ℕ) (p : ℕ) (xs : List ℕ)
    → Linked links p xs
    → length xs < fuel
    → last_of fuel links p ≡ ok (last p xs)
unfolding last_of
last_of_lem zero links p xs h few = absurd (omega arith)
last_of_lem (suc fuel) links p [] h few = rw h refl
last_of_lem (suc fuel) links p (x ∷ xs) (e, nz, h) few =
    let more : x == 0 ≡ false = ne→== x 0 nz in
    rw (e, more) (last_of_lem fuel links x xs h (omega arith))

-- links that agree on a list
pub Linked-agree :
    (links links' : ℕ → ℕ) (p : ℕ) (xs : List ℕ) (i j : ℕ)
    → ((k : ℕ) → k ≢ i → k ≢ j → links' k ≡ links k)
    → Avoids i (p ∷ xs)
    → Avoids j (p ∷ xs)
    → Linked links p xs
    → Linked links' p xs
Linked-agree links links' p [] i j same (ai, _) (aj, _) h =
    same p (λ e. ai (sym e)) (λ e. aj (sym e)) ∙ h
Linked-agree links links' p (x ∷ xs) i j same (ai, bi) (aj, bj) (e, nz, h) = (
  same p (λ e. ai (sym e)) (λ e. aj (sym e)) ∙ e,
  nz,
  Linked-agree links links' x xs i j same bi bj h,
)

-- a socket linked behind the last one
pub Linked-insert :
    (links links' : ℕ → ℕ) (p : ℕ) (xs : List ℕ) (so : ℕ)
    → Linked links p xs
    → Distinct (p ∷ xs)
    → Avoids so (p ∷ xs)
    → so ≢ 0
    → ((k : ℕ) → k ≢ last p xs → k ≢ so → links' k ≡ links k)
    → links' (last p xs) ≡ so
    → links' so ≡ 0
    → Linked links' p (xs ++ so ∷ [])
Linked-insert links links' p [] so h d a nz same end done = (end, nz, done)
Linked-insert links links' p (x ∷ xs) so (e, xnz, h) (av, d) (ne, a) nz same end done = (
  same p (Avoids-last p x xs av) (λ q. ne (sym q)) ∙ e,
  xnz,
  Linked-insert links links' x xs so h d a nz same end done,
)

pub before-found :
    (fuel : ℕ) (links : ℕ → ℕ) (p : ℕ) (xs ys : List ℕ) (so : ℕ)
    → Linked links p (xs ++ so ∷ ys)
    → Avoids so xs
    → length xs < fuel
    → before fuel links so p ≡ ok (some (last p xs))
unfolding before
before-found zero links p xs ys so h a few = absurd (omega arith)
before-found (suc fuel) links p [] ys so (e, nz, h) a few =
    let found : so == so ≡ true = ground arith in rw (e, found) refl
before-found (suc fuel) links p (x ∷ xs) ys so (e, nz, h) (ne, a) few =
    let other : x == so ≡ false = ne→== x so (λ q. ne (sym q)) in
    let more : x == 0 ≡ false = ne→== x 0 nz in
    rw (e, other, more) (before-found fuel links x xs ys so h a (omega arith))

pub before-missing :
    (fuel : ℕ) (links : ℕ → ℕ) (p : ℕ) (xs : List ℕ) (so : ℕ)
    → Linked links p xs
    → Avoids so xs
    → so ≢ 0
    → length xs < fuel
    → before fuel links so p ≡ ok none
unfolding before
before-missing zero links p xs so h a nz few = absurd (omega arith)
before-missing (suc fuel) links p [] so h a nz few =
    let other : 0 == so ≡ false = ne→== 0 so (λ q. nz (sym q)) in rw (h, other) refl
before-missing (suc fuel) links p (x ∷ xs) so (e, xnz, h) (ne, a) nz few =
    let other : x == so ≡ false = ne→== x so (λ q. ne (sym q)) in
    let more : x == 0 ≡ false = ne→== x 0 xnz in
    rw (e, other, more) (before-missing fuel links x xs so h a nz (omega arith))

pub Avoids-append : (i : ℕ) (xs ys : List ℕ) → Avoids i (xs ++ ys) → Avoids i xs × Avoids i ys
Avoids-append i [] ys h = (record {}, h)
Avoids-append i (x ∷ xs) ys (ne, h) = let (a, b) = Avoids-append i xs ys h in ((ne, a), b)

-- a socket unlinked from a list
pub Linked-remove :
    (links links' : ℕ → ℕ) (p : ℕ) (xs ys : List ℕ) (so : ℕ)
    → Linked links p (xs ++ so ∷ ys)
    → Distinct (p ∷ xs ++ so ∷ ys)
    → ((k : ℕ) → k ≢ last p xs → k ≢ so → links' k ≡ links k)
    → links' (last p xs) ≡ links so
    → Linked links' p (xs ++ ys)
Linked-remove links links' p [] [] so (e, nz, h) d same end = end ∙ h
Linked-remove links links' p [] (y ∷ ys) so (e, nz, (ey, ynz, h)) (av, d) same end =
    (end ∙ ey, ynz, Linked-agree links links' y ys p so same av.1 d.0 h)
Linked-remove links links' p (x ∷ xs) ys so (e, nz, h) (av, d) same end =
    let (first, others) = Avoids-append p (x ∷ xs) (so ∷ ys) av in
    (
      same p (Avoids-last p x xs first) others.0 ∙ e,
      nz,
      Linked-remove links links' x xs ys so h d same end,
    )
