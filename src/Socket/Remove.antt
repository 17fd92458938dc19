-- ===== src/Socket/Remove.antt =====
-- `soqremque` of Kernel/net/uipc_socket2.c: a connection leaves a queue.
use shaunos.Base.{
  ℕ, ◌+◌, ◌-◌, ◌%◌, ◌^◌, ◌<◌, ◌≡◌, ◌≢◌, refl, sym, subst, ◌∙◌, ap, arith, Bool, true, false, Option,
  none, some, List, [], ◌∷◌, ◌++◌, not, length, length-append, ne→==,
}
use shaunos.Base.Fault.{Result, ok}
use shaunos.Socket.{
  Sock, Store, put, link, set_link, len, set_len, links, before, unlinked, unlink, soqremque,
}
use shaunos.Socket.Links.{
  Avoids, Distinct, last, Avoids-last, before-found, before-missing, Linked-remove, Avoids-append,
}
use shaunos.Socket.Queue.{
  put-here, put-other, put-field, link-set_link, link-set_link-other, link-set_len, len-set_link,
  len-set_len, len-set_len-other, head-set_link, head-set_len, len-cleared, state_of,
  state-set_link, state-set_len, head_of, IsQueue, Backed-agree, Backed-append, Backed-parts, Keeps,
}

Avoids-remove : (i so : ℕ) (xs ys : List ℕ) → Avoids i (xs ++ so ∷ ys) → Avoids i (xs ++ ys)
Avoids-remove i so [] ys (_, a) = a
Avoids-remove i so (x ∷ xs) ys (ne, a) = (ne, Avoids-remove i so xs ys a)

pub Distinct-remove :
    (so : ℕ) (xs ys : List ℕ)
    → Distinct (xs ++ so ∷ ys)
    → Distinct (xs ++ ys) × Avoids so (xs ++ ys)
Distinct-remove so [] ys (a, d) = (d, a)
Distinct-remove so (x ∷ xs) ys (a, d) =
    let (rest, avoided) = Distinct-remove so xs ys d in
    let (_, (ne, _)) = Avoids-append x xs (so ∷ ys) a in
    ((Avoids-remove x so xs ys a, rest), (λ e. ne (sym e), avoided))

module _ (store : Store) (head so : ℕ) (q : Bool) (prev : ℕ) where
  abbrev store1 : Store
  store1 = put prev (set_link q (links q store so) (store prev)) store

  abbrev shorter : Sock
  shorter = set_len q (len q (store1 head) + (2 ^ 16 - 1)) (store1 head)

  abbrev store2 : Store
  store2 = put head shorter store1

  abbrev cleared : Sock
  cleared = record (store2 so) { q0 = 0; q = 0; head = 0 }

  abbrev store3 : Store
  store3 = unlinked store head so q prev

  links-behind : (r : Bool) (k : ℕ) → k ≢ so → links r store3 k ≡ links r store1 k
  links-behind r k ne =
      ap (link r) (put-other so cleared store2 k ne)
      ∙ put-field (link r) head shorter store1
          (link-set_len q r (len q (store1 head) + (2 ^ 16 - 1)) (store1 head)) k

  link_moved : prev ≢ so → links q store3 prev ≡ links q store so
  link_moved ne =
      links-behind q prev ne
      ∙ ap (link q) (put-here prev (set_link q (links q store so) (store prev)) store)
      ∙ link-set_link q (links q store so) (store prev)

  links-store3 : (k : ℕ) → k ≢ prev → k ≢ so → links q store3 k ≡ links q store k
  links-store3 k np ns =
      links-behind q k ns
      ∙ ap (link q) (put-other prev (set_link q (links q store so) (store prev)) store k np)

  lengths_first : (r : Bool) (k : ℕ) → len r (store1 k) ≡ len r (store k)
  lengths_first r k =
      put-field (len r) prev (set_link q (links q store so) (store prev)) store
        (len-set_link q r (links q store so) (store prev)) k

  one_shorter : len q (store3 head) ≡ (len q (store head) + (2 ^ 16 - 1)) % 2 ^ 16
  one_shorter =
      put-field (len q) so cleared store2 (len-cleared q (store2 so)) head
      ∙ ap (len q) (put-here head shorter store1)
      ∙ len-set_len q (len q (store1 head) + (2 ^ 16 - 1)) (store1 head)
      ∙ ap (λ n. (n + (2 ^ 16 - 1)) % 2 ^ 16) (lengths_first q head)

  kept : Keeps store store3 q head so
  kept = record {
    heads = λ k ne.
        ap head_of (put-other so cleared store2 k ne)
        ∙ put-field head_of head shorter store1
            (head-set_len q (len q (store1 head) + (2 ^ 16 - 1)) (store1 head)) k
        ∙ put-field head_of prev (set_link q (links q store so) (store prev)) store
            (head-set_link q (links q store so) (store prev)) k;
    others = λ k ne.
        links-behind (not q) k ne
        ∙ put-field (link (not q)) prev (set_link q (links q store so) (store prev)) store
            (link-set_link-other q (links q store so) (store prev)) k;
    length_kept =
        put-field (len (not q)) so cleared store2 (len-cleared (not q) (store2 so)) head
        ∙ ap (len (not q)) (put-here head shorter store1)
        ∙ len-set_len-other q (len q (store1 head) + (2 ^ 16 - 1)) (store1 head)
        ∙ lengths_first (not q) head;
    states = λ k.
        put-field state_of so cleared store2 refl k
        ∙ put-field state_of head shorter store1
            (state-set_len q (len q (store1 head) + (2 ^ 16 - 1)) (store1 head)) k
        ∙ put-field state_of prev (set_link q (links q store so) (store prev)) store
            (state-set_link q (links q store so) (store prev)) k;
  }

  unlinked-IsQueue :
      (xs ys : List ℕ)
      → IsQueue store q head (xs ++ so ∷ ys)
      → prev ≡ last head xs
      → prev ≢ so
      → IsQueue store3 q head (xs ++ ys)
  unlinked-IsQueue xs ys h at ne =
      let (distinct', avoided) = Distinct-remove so (head ∷ xs) ys h.distinct in
      let (front, (_, rear)) = Backed-parts store head xs (so ∷ ys) h.backed in
      record {
        linked =
            Linked-remove (links q store) (links q store3) head xs ys so h.linked h.distinct
              (λ k np. links-store3 k (λ e. np (e ∙ at)))
              (ap (links q store3) (sym at) ∙ link_moved ne);
        distinct = distinct';
        backed =
            Backed-agree store store3 head so (xs ++ ys) kept.heads avoided.1
              (Backed-append store head xs ys front rear);
        counted =
            omega (arith, one_shorter, h.counted, length-append xs (so ∷ ys), length-append xs ys);
      }

-- What `soqremque` returns when it finds the socket.
pub record Left (store : Store) (q : Bool) (head so : ℕ) (rest : List ℕ) (r : Result (Store × Bool))
    : Type 0 where
  pub after : Store
  pub returns : r ≡ ok (after, true)
  pub queue : IsQueue after q head rest
  pub keeps : Keeps store after q head so
  pub free : (after so).head ≡ 0

soqremque_lem :
    (fuel : ℕ) (store : Store) (q : Bool) (so : ℕ) (found : Option ℕ)
    → (store so).head ≢ 0
    → before fuel (links q store) so (store so).head ≡ ok found
    → soqremque fuel store so q ≡ ok (unlink store (store so).head so q found)
unfolding soqremque
soqremque_lem fuel store q so found nz e = rw (ne→== (store so).head 0 nz, e) refl

-- A socket anywhere in a well-formed queue of a head that is not NULL is taken out of it, the order of the others is kept, and the
-- queue stays well-formed; the other queue and the other sockets' heads are as before. The loop
-- ends for any fuel beyond the number of sockets before it.
pub soqremque-Left :
    (fuel : ℕ) (store : Store) (q : Bool) (head so : ℕ) (xs ys : List ℕ)
    → IsQueue store q head (xs ++ so ∷ ys)
    → head ≢ 0
    → length xs < fuel
    → Left store q head so (xs ++ ys) (soqremque fuel store so q)
soqremque-Left fuel store q head so xs ys h nz few =
    let (front, (own_head, rear)) = Backed-parts store head xs (so ∷ ys) h.backed in
    let (_, avoided) = Distinct-remove so (head ∷ xs) ys h.distinct in
    let (before_it, _) = Avoids-append so (head ∷ xs) ys avoided in
    let prev = last head xs in
    let not_prev : prev ≢ so = λ e. Avoids-last so head xs before_it (sym e) in
    record {
      after = store3 store head so q prev;
      returns =
          subst (λ at. soqremque fuel store so q ≡ ok (unlinked store at so q prev, true)) own_head
            (soqremque_lem fuel store q so (some prev) (λ e. nz (sym own_head ∙ e))
              (ap (before fuel (links q store) so) own_head
                ∙ before-found fuel (links q store) head xs ys so h.linked before_it.1 few));
      queue = unlinked-IsQueue store head so q prev xs ys h refl not_prev;
      keeps = kept store head so q prev;
      free = ap head_of (put-here so (cleared store head so q prev) (store2 store head so q prev));
    }

-- A socket that has a head, but is not in the queue, is not found, and nothing changes.
pub soqremque-absent :
    (fuel : ℕ) (store : Store) (q : Bool) (so : ℕ) (xs : List ℕ)
    → IsQueue store q (store so).head xs
    → Avoids so xs
    → so ≢ 0
    → (store so).head ≢ 0
    → length xs < fuel
    → soqremque fuel store so q ≡ ok (store, false)
soqremque-absent fuel store q so xs h a nz head_nz few =
    soqremque_lem fuel store q so none head_nz
      (before-missing fuel (links q store) (store so).head xs so h.linked a nz few)
