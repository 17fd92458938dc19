-- ===== src/Socket/Connect.antt =====
-- `soisconnected` of Kernel/net/uipc_socket2.c: a connection becomes ready to be accepted.
use shaunos.Base.{
  ℕ, ◌<◌, ◌≡◌, ◌≢◌, refl, sym, subst, ◌∙◌, ap, fun_ext, Bool, true, false, List, [], ◌∷◌, ◌++◌,
  length, ne→==,
}
use shaunos.Base.Fault.{Result, ok}
use shaunos.Socket.{
  State, Store, link, len, links, with_state, connected_state, soqinsque, soqremque, soisconnected,
}
use shaunos.Socket.Links.{Linked, Avoids}
use shaunos.Socket.Queue.{put-here, put-field, head_of, state_of, Backed, IsQueue, IsQueue-Keeps}
use shaunos.Socket.Insert.{soqinsque-Joined}
use shaunos.Socket.Remove.{soqremque-Left, Distinct-remove}

Backed-same :
    (store store' : Store) (head : ℕ) (xs : List ℕ)
    → ((k : ℕ) → (store' k).head ≡ (store k).head)
    → Backed store head xs
    → Backed store' head xs
Backed-same store store' head [] same h = h
Backed-same store store' head (x ∷ xs) same (e, h) =
    (same x ∙ e, Backed-same store store' head xs same h)

-- a change of a socket's state leaves the queues alone
pub IsQueue-with_state :
    (f : State → State) (store : Store) (so : ℕ) (q : Bool) (head : ℕ) (xs : List ℕ)
    → IsQueue store q head xs
    → IsQueue (with_state f store so) q head xs
IsQueue-with_state f store so q head xs h =
    let s = record (store so) { state = f (store so).state } in
    let same_links = fun_ext (put-field (link q) so s store (kept-link q)) in
    record {
      linked = subst (λ l. Linked l head xs) (sym same_links) h.linked;
      distinct = h.distinct;
      backed =
          Backed-same store (with_state f store so) head xs (put-field head_of so s store refl)
            h.backed;
      counted = put-field (len q) so s store (kept-len q) head ∙ h.counted;
    }
  where
    kept-link :
        (q : Bool) → link q (record (store so) { state = f (store so).state }) ≡ link q (store so)
    kept-link true = refl
    kept-link false = refl

    kept-len :
        (q : Bool) → len q (record (store so) { state = f (store so).state }) ≡ len q (store so)
    kept-len true = refl
    kept-len false = refl

Linked-ne-zero :
    (links : ℕ → ℕ) (p : ℕ) (xs ys : List ℕ) (so : ℕ) → Linked links p (xs ++ so ∷ ys) → so ≢ 0
Linked-ne-zero links p [] ys so (_, nz, _) = nz
Linked-ne-zero links p (x ∷ xs) ys so (_, _, h) = Linked-ne-zero links x xs ys so h

Backed-at :
    (store : Store) (head : ℕ) (xs ys : List ℕ) (so : ℕ)
    → Backed store head (xs ++ so ∷ ys)
    → (store so).head ≡ head
Backed-at store head [] ys so (e, _) = e
Backed-at store head (x ∷ xs) ys so (_, h) = Backed-at store head xs ys so h

-- What `soisconnected` makes of a connection that waited in the queue 0: it is the last of the queue 1.
pub record Ready (store : Store) (head so : ℕ) (rest zs : List ℕ) (r : Result Store) : Type 0 where
  pub after : Store
  pub returns : r ≡ ok after
  pub waiting : IsQueue after false head rest
  pub ready : IsQueue after true head (zs ++ so ∷ [])
  pub connected : (after so).state ≡ connected_state (store so).state

soisconnected_lem :
    (fuel : ℕ) (store after : Store) (so head : ℕ)
    → (store so).head ≡ head
    → head ≢ 0
    → soqremque fuel (with_state connected_state store so) so false ≡ ok (after, true)
    → soisconnected fuel store so ≡ soqinsque fuel after head so true
unfolding soisconnected
soisconnected_lem fuel store after so head e nz removed =
    rw (removed, ne→== (store so).head 0 (λ z. nz (sym e ∙ z)))
      (ap (λ h. soqinsque fuel after h so true) e)

-- A connection anywhere in the queue of partial connections of its head is moved to the end of the
-- queue of those to be accepted; both queues stay well-formed, and the socket is connected.
pub soisconnected-Ready :
    (fuel : ℕ) (store : Store) (head so : ℕ) (xs ys zs : List ℕ)
    → IsQueue store false head (xs ++ so ∷ ys)
    → IsQueue store true head zs
    → Avoids so zs
    → head ≢ 0
    → length xs < fuel
    → length zs < fuel
    → Ready store head so (xs ++ ys) zs (soisconnected fuel store so)
soisconnected-Ready fuel store head so xs ys zs h0 h1 a nz few few1 =
    let marked = with_state connected_state store so in
    let s = record (store so) { state = connected_state (store so).state } in
    let (_, avoided) = Distinct-remove so (head ∷ xs) ys h0.distinct in
    let waits = IsQueue-with_state connected_state store so false head (xs ++ so ∷ ys) h0 in
    let accepts = IsQueue-with_state connected_state store so true head zs h1 in
    let left = soqremque-Left fuel marked false head so xs ys waits nz few in
    let accepts' =
      IsQueue-Keeps marked left.after false head so zs left.keeps (avoided.0, a) accepts in
    let so_nz = Linked-ne-zero (links false store) head xs ys so h0.linked in
    let joined =
      soqinsque-Joined fuel left.after true head so zs accepts' (avoided.0, a) so_nz few1 in
    let own_head = Backed-at store head xs ys so h0.backed in
    record {
      after = joined.after;
      returns =
          soisconnected_lem fuel store left.after so head own_head nz left.returns ∙ joined.returns;
      waiting =
          IsQueue-Keeps left.after joined.after true head so (xs ++ ys) joined.keeps avoided
            left.queue;
      ready = joined.queue;
      connected = joined.keeps.states so ∙ left.keeps.states so ∙ ap state_of (put-here so s store);
    }
