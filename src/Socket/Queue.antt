-- ===== src/Socket/Queue.antt =====
-- `soqinsque` and `soqremque` of Kernel/net/uipc_socket2.c: the queues of connections.
use Prim.{Unit}
use shaunos.Base.{
  ℕ, ◌%◌, ◌^◌, ◌≡◌, ◌≢◌, refl, sym, ◌∙◌, arith, Bool, true, false, List, [], ◌∷◌, ◌++◌, ◌==◌, not,
  length, Bool-cases, inl, inr, ==→eq, ne→==,
}
use shaunos.Socket.{State, Sock, Store, put, link, set_link, len, set_len, links}
use shaunos.Socket.Links.{Linked, Avoids, Distinct, Linked-agree}

-- what a store holds at one address after `put`, and at the others
pub put-here : (i : ℕ) (s : Sock) (store : Store) → put i s store i ≡ s
put-here i s store = let same : i == i ≡ true = ground arith in rw same refl

pub put-other : (i : ℕ) (s : Sock) (store : Store) (j : ℕ) → j ≢ i → put i s store j ≡ store j
put-other i s store j ne = rw (ne→== j i ne) refl

-- a field that `put` does not change
pub put-field {ℓ} :
    {A : Type ℓ} (f : Sock → A) (i : ℕ) (s : Sock) (store : Store)
    → f s ≡ f (store i)
    → (j : ℕ) → f (put i s store j) ≡ f (store j)
put-field f i s store same j = elim (Bool-cases (j == i)) [
  | inl here ↦ rw (here, ==→eq _ _ here) same
  | inr other ↦ rw other refl
]

pub link-set_link : (q : Bool) (i : ℕ) (s : Sock) → link q (set_link q i s) ≡ i
link-set_link true i s = refl
link-set_link false i s = refl

pub link-set_link-other :
    (q : Bool) (i : ℕ) (s : Sock) → link (not q) (set_link q i s) ≡ link (not q) s
link-set_link-other true i s = refl
link-set_link-other false i s = refl

pub link-set_len : (q r : Bool) (n : ℕ) (s : Sock) → link r (set_len q n s) ≡ link r s
link-set_len true true n s = refl
link-set_len true false n s = refl
link-set_len false true n s = refl
link-set_len false false n s = refl

pub len-set_link : (q r : Bool) (i : ℕ) (s : Sock) → len r (set_link q i s) ≡ len r s
len-set_link true true i s = refl
len-set_link true false i s = refl
len-set_link false true i s = refl
len-set_link false false i s = refl

pub len-set_len : (q : Bool) (n : ℕ) (s : Sock) → len q (set_len q n s) ≡ n % 2 ^ 16
len-set_len true n s = refl
len-set_len false n s = refl

pub len-set_len-other : (q : Bool) (n : ℕ) (s : Sock) → len (not q) (set_len q n s) ≡ len (not q) s
len-set_len-other true n s = refl
len-set_len-other false n s = refl

pub head-set_link : (q : Bool) (i : ℕ) (s : Sock) → (set_link q i s).head ≡ s.head
head-set_link true i s = refl
head-set_link false i s = refl

pub head-set_len : (q : Bool) (n : ℕ) (s : Sock) → (set_len q n s).head ≡ s.head
head-set_len true n s = refl
head-set_len false n s = refl

pub link-head : (r : Bool) (h : ℕ) (s : Sock) → link r (record s { head = h }) ≡ link r s
link-head true h s = refl
link-head false h s = refl

pub len-head : (r : Bool) (h : ℕ) (s : Sock) → len r (record s { head = h }) ≡ len r s
len-head true h s = refl
len-head false h s = refl

pub link-cleared : (r : Bool) (s : Sock) → link r (record s { q0 = 0; q = 0; head = 0 }) ≡ 0
link-cleared true s = refl
link-cleared false s = refl

pub len-cleared : (r : Bool) (s : Sock) → len r (record s { q0 = 0; q = 0; head = 0 }) ≡ len r s
len-cleared true s = refl
len-cleared false s = refl

abbrev pub head_of : Sock → ℕ
head_of s = s.head

abbrev pub state_of : Sock → State
state_of s = s.state

pub state-set_link : (q : Bool) (i : ℕ) (s : Sock) → (set_link q i s).state ≡ s.state
state-set_link true i s = refl
state-set_link false i s = refl

pub state-set_len : (q : Bool) (n : ℕ) (s : Sock) → (set_len q n s).state ≡ s.state
state-set_len true n s = refl
state-set_len false n s = refl

-- Each socket of a list has `head` as its `so_head`.
abbrev pub Backed : Store → ℕ → List ℕ → Type 0
Backed store head [] = Unit
Backed store head (x ∷ xs) = ((store x).head ≡ head) × Backed store head xs

-- The well-formed queue `q` of `head`, of the sockets `xs`.
pub record IsQueue (store : Store) (q : Bool) (head : ℕ) (xs : List ℕ) : Type 0 where
  pub linked : Linked (links q store) head xs
  pub distinct : Distinct (head ∷ xs)
  pub backed : Backed store head xs
  pub counted : len q (store head) ≡ length xs % 2 ^ 16

pub Backed-agree :
    (store store' : Store) (head so : ℕ) (xs : List ℕ)
    → ((k : ℕ) → k ≢ so → (store' k).head ≡ (store k).head)
    → Avoids so xs
    → Backed store head xs
    → Backed store' head xs
Backed-agree store store' head so [] same a h = h
Backed-agree store store' head so (x ∷ xs) same (ne, a) (e, h) =
    (same x (λ q. ne (sym q)) ∙ e, Backed-agree store store' head so xs same a h)

pub Backed-append :
    (store : Store) (head : ℕ) (xs ys : List ℕ)
    → Backed store head xs
    → Backed store head ys
    → Backed store head (xs ++ ys)
Backed-append store head [] ys h k = k
Backed-append store head (x ∷ xs) ys (e, h) k = (e, Backed-append store head xs ys h k)

pub Backed-parts :
    (store : Store) (head : ℕ) (xs ys : List ℕ)
    → Backed store head (xs ++ ys)
    → Backed store head xs × Backed store head ys
Backed-parts store head [] ys h = (record {}, h)
Backed-parts store head (x ∷ xs) ys (e, h) =
    let (a, b) = Backed-parts store head xs ys h in ((e, a), b)

-- What a queue operation on `so` leaves of the other sockets: all but the queue `q` and `so` itself.
pub record Keeps (store store' : Store) (q : Bool) (head so : ℕ) : Type 0 where
  pub heads : (k : ℕ) → k ≢ so → (store' k).head ≡ (store k).head
  pub others : (k : ℕ) → k ≢ so → links (not q) store' k ≡ links (not q) store k
  pub length_kept : len (not q) (store' head) ≡ len (not q) (store head)
  pub states : (k : ℕ) → (store' k).state ≡ (store k).state

-- the other queue, where it does not hold `so`
pub IsQueue-Keeps :
    (store store' : Store) (q : Bool) (head so : ℕ) (zs : List ℕ)
    → Keeps store store' q head so
    → Avoids so (head ∷ zs)
    → IsQueue store (not q) head zs
    → IsQueue store' (not q) head zs
IsQueue-Keeps store store' q head so zs k a h = record {
  linked =
      Linked-agree (links (not q) store) (links (not q) store') head zs so so
        (λ j ne _. k.others j ne) a a h.linked;
  distinct = h.distinct;
  backed = Backed-agree store store' head so zs k.heads a.1 h.backed;
  counted = k.length_kept ∙ h.counted;
}
