-- ===== src/Socket/Insert.antt =====
-- `soqinsque` of Kernel/net/uipc_socket2.c: a connection joins a queue.
use shaunos.Base.{
  ℕ, ◌+◌, ◌%◌, ◌^◌, ◌<◌, ◌≡◌, ◌≢◌, refl, sym, ◌∙◌, ap, arith, Bool, List, [], ◌∷◌, ◌++◌, not,
  length, length-append,
}
use shaunos.Base.Fault.{Result, ok}
use shaunos.Socket.{Store, put, link, set_link, len, set_len, links, joined, soqinsque}
use shaunos.Socket.Links.{
  Avoids, Distinct, last, Avoids-last, last_of_lem, Linked-agree, Linked-insert,
}
use shaunos.Socket.Queue.{
  put-here, put-other, put-field, link-set_link, link-set_link-other, link-set_len, len-set_link,
  len-set_len, len-set_len-other, head-set_link, head-set_len, link-head, len-head, head_of,
  state_of, state-set_link, state-set_len, IsQueue, Backed-agree, Backed-append, Keeps,
}

-- one more socket behind distinct ones
Avoids-append : (i : ℕ) (xs : List ℕ) (so : ℕ) → Avoids i xs → i ≢ so → Avoids i (xs ++ so ∷ [])
Avoids-append i [] so a ne = (ne, record {})
Avoids-append i (x ∷ xs) so (h, a) ne = (h, Avoids-append i xs so a ne)

Distinct-append : (xs : List ℕ) (so : ℕ) → Distinct xs → Avoids so xs → Distinct (xs ++ so ∷ [])
Distinct-append [] so d a = (record {}, record {})
Distinct-append (x ∷ xs) so (h, d) (ne, a) =
    (Avoids-append x xs so h (λ e. ne (sym e)), Distinct-append xs so d a)

module _ (store : Store) (head so : ℕ) (q : Bool) where
  abbrev store1 : Store
  store1 = put so (record (store so) { head = head }) store

  abbrev store2 : Store
  store2 = put head (set_len q (len q (store1 head) + 1) (store1 head)) store1

  abbrev store3 : Store
  store3 = joined store head so q

  abbrev store4 : ℕ → Store
  store4 prev = put prev (set_link q so (store3 prev)) store3

  -- the links before the loop
  links-store2 : (r : Bool) (k : ℕ) → links r store2 k ≡ links r store k
  links-store2 r k =
      put-field (link r) head (set_len q (len q (store1 head) + 1) (store1 head)) store1
        (link-set_len q r (len q (store1 head) + 1) (store1 head)) k
      ∙ put-field (link r) so (record (store so) { head = head }) store
          (link-head r head (store so)) k

  links-joined : (k : ℕ) → k ≢ so → links q store3 k ≡ links q store k
  links-joined k ne =
      ap (link q) (put-other so (set_link q 0 (store2 so)) store2 k ne) ∙ links-store2 q k

  links-joined-other : (k : ℕ) → links (not q) store3 k ≡ links (not q) store k
  links-joined-other k =
      put-field (link (not q)) so (set_link q 0 (store2 so)) store2
        (link-set_link-other q 0 (store2 so)) k
      ∙ links-store2 (not q) k

  link_cleared : links q store3 so ≡ 0
  link_cleared =
      ap (link q) (put-here so (set_link q 0 (store2 so)) store2) ∙ link-set_link q 0 (store2 so)

  heads_behind : (prev k : ℕ) → (store4 prev k).head ≡ (store1 k).head
  heads_behind prev k =
      put-field head_of prev (set_link q so (store3 prev)) store3 (head-set_link q so (store3 prev))
        k
      ∙ put-field head_of so (set_link q 0 (store2 so)) store2 (head-set_link q 0 (store2 so)) k
      ∙ put-field head_of head (set_len q (len q (store1 head) + 1) (store1 head)) store1
          (head-set_len q (len q (store1 head) + 1) (store1 head)) k

  lengths_behind : (prev : ℕ) (r : Bool) (k : ℕ) → len r (store4 prev k) ≡ len r (store2 k)
  lengths_behind prev r k =
      put-field (len r) prev (set_link q so (store3 prev)) store3
        (len-set_link q r so (store3 prev)) k
      ∙ put-field (len r) so (set_link q 0 (store2 so)) store2 (len-set_link q r 0 (store2 so)) k

  lengths_first : (r : Bool) (k : ℕ) → len r (store1 k) ≡ len r (store k)
  lengths_first r k =
      put-field (len r) so (record (store so) { head = head }) store (len-head r head (store so)) k

  one_longer : (prev : ℕ) → len q (store4 prev head) ≡ (len q (store head) + 1) % 2 ^ 16
  one_longer prev =
      lengths_behind prev q head
      ∙ ap (len q) (put-here head (set_len q (len q (store1 head) + 1) (store1 head)) store1)
      ∙ len-set_len q (len q (store1 head) + 1) (store1 head)
      ∙ ap (λ n. (n + 1) % 2 ^ 16) (lengths_first q head)

  kept : (prev : ℕ) → Keeps store (store4 prev) q head so
  kept prev = record {
    heads = λ k ne.
        heads_behind prev k
        ∙ ap head_of (put-other so (record (store so) { head = head }) store k ne);
    others = λ k _.
        put-field (link (not q)) prev (set_link q so (store3 prev)) store3
          (link-set_link-other q so (store3 prev)) k
        ∙ links-joined-other k;
    length_kept =
        lengths_behind prev (not q) head
        ∙ ap (len (not q))
            (put-here head (set_len q (len q (store1 head) + 1) (store1 head)) store1)
        ∙ len-set_len-other q (len q (store1 head) + 1) (store1 head)
        ∙ lengths_first (not q) head;
    states = λ k.
        put-field state_of prev (set_link q so (store3 prev)) store3
          (state-set_link q so (store3 prev)) k
        ∙ put-field state_of so (set_link q 0 (store2 so)) store2 (state-set_link q 0 (store2 so)) k
        ∙ put-field state_of head (set_len q (len q (store1 head) + 1) (store1 head)) store1
            (state-set_len q (len q (store1 head) + 1) (store1 head)) k
        ∙ put-field state_of so (record (store so) { head = head }) store refl k;
  }

  links-store4 : (prev k : ℕ) → k ≢ prev → k ≢ so → links q (store4 prev) k ≡ links q store k
  links-store4 prev k np ns =
      ap (link q) (put-other prev (set_link q so (store3 prev)) store3 k np) ∙ links-joined k ns

  joined-IsQueue :
      (xs : List ℕ)
      → IsQueue store q head xs
      → Avoids so (head ∷ xs)
      → so ≢ 0
      → IsQueue (store4 (last head xs)) q head (xs ++ so ∷ [])
  joined-IsQueue xs h a nz =
      let prev = last head xs in
      let s = set_link q so (store3 prev) in
      let not_prev = Avoids-last so head xs a in
      let own_head =
        heads_behind prev so ∙ ap head_of (put-here so (record (store so) { head = head }) store) in
      record {
        linked =
            Linked-insert (links q store) (links q (store4 prev)) head xs so h.linked h.distinct a
              nz (links-store4 prev)
              (ap (link q) (put-here prev s store3) ∙ link-set_link q so (store3 prev))
              (ap (link q) (put-other prev s store3 so not_prev) ∙ link_cleared);
        distinct = Distinct-append (head ∷ xs) so h.distinct a;
        backed =
            Backed-append (store4 prev) head xs (so ∷ [])
              (Backed-agree store (store4 prev) head so xs (kept prev).heads a.1 h.backed)
              (own_head, record {});
        counted = omega (arith, one_longer prev, h.counted, length-append xs (so ∷ []));
      }

-- What `soqinsque` returns: `so` as the last of the queue.
pub record Joined (store : Store) (q : Bool) (head so : ℕ) (xs : List ℕ) (r : Result Store)
    : Type 0 where
  pub after : Store
  pub returns : r ≡ ok after
  pub queue : IsQueue after q head (xs ++ so ∷ [])
  pub keeps : Keeps store after q head so

-- A socket in none of the places of a well-formed queue is put behind the last of them, and the queue
-- stays well-formed; the other queue and the other sockets' heads are as before. The loop ends for
-- any fuel beyond the queue's length.
pub soqinsque-Joined :
    (fuel : ℕ) (store : Store) (q : Bool) (head so : ℕ) (xs : List ℕ)
    → IsQueue store q head xs
    → Avoids so (head ∷ xs)
    → so ≢ 0
    → length xs < fuel
    → Joined store q head so xs (soqinsque fuel store head so q)
unfolding soqinsque
soqinsque-Joined fuel store q head so xs h a nz few =
    let joined_links = links-joined store head so q in
    let linked =
      Linked-agree (links q store) _ head xs so so (λ k ne _. joined_links k ne) a a h.linked in
    let prev = last head xs in
    record {
      after = store4 store head so q prev;
      returns = rw (last_of_lem fuel (links q (store3 store head so q)) head xs linked few) refl;
      queue = joined-IsQueue store head so q xs h a nz;
      keeps = kept store head so q prev;
    }
