-- ===== src/Socket/Newconn.antt =====
-- `sonewconn1` of Kernel/net/uipc_socket2.c: an attempt at a connection with a socket that accepts them.
-- `room` is the address that `kmalloc` finds, if it does, and `refused` tells whether the protocol's
-- `PRU_ATTACH` returns an error; what that changes of the socket, the fields that are copied from the
-- head beside its state, and the space that is reserved in the buffers are left out.
use shaunos.Base.{
  ◌%◌, ◌-◌, ℕ, ◌+◌, ◌*◌, ◌/◌, ◌<◌, ◌≡◌, ◌≢◌, refl, sym, subst, ◌∙◌, ap, Bool, true, false, Option,
  none, some, List, [], ◌∷◌, ◌++◌, append-nil, ltb, length, if◌then◌else◌,
}
use shaunos.Base.Fault.{Result, ok, ◌>>=◌}
use shaunos.Socket.{State, Sock, Store, put, link, len, links, with_state, soqinsque, soqremque}
use shaunos.Socket.Links.{Avoids, Linked-agree}
use shaunos.Socket.Queue.{put-other, head_of, IsQueue, Backed-agree}
use shaunos.Socket.Insert.{soqinsque-Joined}
use shaunos.Socket.Remove.{soqremque-Left}
use shaunos.Socket.Connect.{IsQueue-with_state}

-- `connstatus`: 0, `SS_ISCONFIRMING` or `SS_ISCONNECTED`
pub data Status : Type 0 where
  no_bits : Status
  is_confirming : Status
  is_connected : Status

-- `soqueue`
abbrev pub queue_of : Status → Bool
queue_of no_bits = false
queue_of is_confirming = true
queue_of is_connected = true

abbrev pub with_status : Status → State → State
with_status no_bits s = s
with_status is_confirming s = record s { confirming = true }
with_status is_connected s = record s { connected = true }

-- the new socket, of zeros but for the state
abbrev pub new_sock : State → Sock
new_sock s = record {
  state = record s { nofdref = true };
  head = 0;
  q0 = 0;
  q = 0;
  q0len = 0;
  qlen = 0;
  qlimit = 0;
}

-- The lengths of the queues are 16-bit patterns of signed shorts. Moved up by 2^16: the sum of two, and
-- `3 * so_qlimit / 2`, which is rounded towards 0.
abbrev pub signed_sum : ℕ → ℕ → ℕ
signed_sum a b = (a + 32768) % 65536 + (b + 32768) % 65536

abbrev pub half_more : ℕ → ℕ
half_more q = if ltb q 32768 then 65536 + 3 * q / 2 else 65536 - 3 * (65536 - q) / 2

-- the test of the lengths of the queues
abbrev pub overfull : Sock → Bool
overfull head = ltb (half_more head.qlimit) (signed_sum head.qlen head.q0len)

-- from the socket's memory on
unfoldable pub new_connection : ℕ → Store → ℕ → Status → Bool → ℕ → Result (Store × ℕ)
new_connection fuel store head status refused so =
    soqinsque fuel (put so (new_sock (store head).state) store) head so (queue_of status)
    >>= (λ store'.
        if refused
        then soqremque fuel store' so (queue_of status) >>= (λ r. ok (r.0, 0))
        else ok (with_state (with_status status) store' so, so))

unfoldable pub sonewconn1 : ℕ → Store → ℕ → Status → Option ℕ → Bool → Result (Store × ℕ)
unfolding new_connection
sonewconn1 fuel store head status none refused = ok (store, 0)
sonewconn1 fuel store head status (some so) refused =
    if overfull (store head)
    then ok (store, 0)
    else new_connection fuel store head status refused so

-- a socket that is in no place of a queue may be written
IsQueue-put :
    (store : Store) (q : Bool) (head so : ℕ) (s : Sock) (xs : List ℕ)
    → Avoids so (head ∷ xs)
    → IsQueue store q head xs
    → IsQueue (put so s store) q head xs
IsQueue-put store q head so s xs a h =
    let kept = put-other so s store in
    record {
      linked =
          Linked-agree (links q store) _ head xs so so (λ k ne _. ap (link q) (kept k ne)) a a
            h.linked;
      distinct = h.distinct;
      backed =
          Backed-agree store (put so s store) head so xs (λ k ne. ap head_of (kept k ne)) a.1
            h.backed;
      counted = ap (len q) (kept head (λ e. a.0 (sym e))) ∙ h.counted;
    }

-- What an attempt that is let in leaves: the new socket as the last of its queue, or, where the
-- protocol refuses it, NULL and the queue as it was.
pub record Attempted (status : Status) (refused : Bool) (head so : ℕ) (xs : List ℕ)
    (r : Result (Store × ℕ)) : Type 0 where
  pub after : Store
  pub returns : r ≡ ok (after, (if refused then 0 else so))
  pub queue : IsQueue after (queue_of status) head (if refused then xs else xs ++ so ∷ [])

-- An attempt at a connection that finds memory and room in the queues puts the new socket behind the
-- others of its queue and returns it; if the protocol refuses it, the socket is taken out
-- again, and the queue is what it was.
pub sonewconn1-Attempted :
    (fuel : ℕ) (store : Store) (head : ℕ) (status : Status) (so : ℕ) (refused : Bool) (xs : List ℕ)
    → IsQueue store (queue_of status) head xs
    → overfull (store head) ≡ false
    → Avoids so (head ∷ xs)
    → so ≢ 0
    → head ≢ 0
    → length xs < fuel
    → Attempted status refused head so xs (sonewconn1 fuel store head status (some so) refused)
unfolding sonewconn1
sonewconn1-Attempted fuel store head status so refused xs h fits a so_nz head_nz few =
    let store' = put so (new_sock (store head).state) store in
    let h' = IsQueue-put store (queue_of status) head so (new_sock (store head).state) xs a h in
    let joined = soqinsque-Joined fuel store' (queue_of status) head so xs h' a so_nz few in
    let left =
      soqremque-Left fuel joined.after (queue_of status) head so xs [] joined.queue head_nz few in
    rw (fits, joined.returns)
      (end refused joined.after left.after joined.queue left.returns left.queue)
  where
    end :
        (r : Bool) (after left : Store)
        → IsQueue after (queue_of status) head (xs ++ so ∷ [])
        → soqremque fuel after so (queue_of status) ≡ ok (left, true)
        → IsQueue left (queue_of status) head (xs ++ [])
        → Attempted status r head so xs (
            if r
            then soqremque fuel after so (queue_of status) >>= (λ r. ok (r.0, 0))
            else ok (with_state (with_status status) after so, so))
    end true after left q e q' = record {
      after = left;
      returns = rw e refl;
      queue = subst (IsQueue left (queue_of status) head) (append-nil xs) q';
    }
    end false after left q e q' = record {
      after = with_state (with_status status) after so;
      returns = refl;
      queue =
          IsQueue-with_state (with_status status) after so (queue_of status) head (xs ++ so ∷ []) q;
    }
