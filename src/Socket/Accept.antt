-- ===== src/Socket/Accept.antt =====
-- `kaccept` of Kernel/net/uipc_syscall.c, as far as the queue is concerned: the connection that is handed
-- out once one is ready. The waiting, the file and the address that it returns are left out.
use shaunos.Base.{ℕ, zero, suc, ◌≡◌, ◌≢◌, refl, arith, true, List, [], ◌∷◌, length}
use shaunos.Base.Fault.{Result, ok, ◌>>=◌}
use shaunos.Socket.{Store, soqremque}
use shaunos.Socket.Queue.{IsQueue}
use shaunos.Socket.Remove.{soqremque-Left}

-- `aso = so->so_q` and its removal; where it is not in the queue the kernel only logs that.
unfoldable pub take_ready : ℕ → Store → ℕ → Result (Store × ℕ)
take_ready fuel store head =
    let aso = (store head).q in soqremque fuel store aso true >>= (λ r. ok (r.0, aso))

-- `n` calls, one after the other
unfoldable pub take_times : ℕ → ℕ → Store → ℕ → Result (Store × List ℕ)
take_times zero fuel store head = ok (store, [])
take_times (suc n) fuel store head = do
  (store', aso) ← take_ready fuel store head
  (store'', rest) ← take_times n fuel store' head
  ok (store'', aso ∷ rest)

-- What calls of `kaccept` hand out: the connections `xs`, and the queue is empty.
pub record HandedOut (head : ℕ) (xs : List ℕ) (r : Result (Store × List ℕ)) : Type 0 where
  pub after : Store
  pub returns : r ≡ ok (after, xs)
  pub empty : IsQueue after true head []

take_ready-first :
    (fuel : ℕ) (store : Store) (head x : ℕ) (xs : List ℕ)
    → IsQueue store true head (x ∷ xs)
    → head ≢ 0
    → (after : Store) × (take_ready (suc fuel) store head ≡ ok (after, x))
      × IsQueue after true head xs
unfolding take_ready
take_ready-first fuel store head x xs h nz =
    let left = soqremque-Left (suc fuel) store true head x [] xs h nz (omega arith) in
    (left.after, rw (h.linked.0, left.returns) refl, left.queue)

-- As many accepts as there are ready connections in a well-formed queue hand them out in the order in
-- which they became ready, and leave the queue empty.
pub take_times-HandedOut :
    (fuel : ℕ) (store : Store) (head : ℕ) (xs : List ℕ)
    → IsQueue store true head xs
    → head ≢ 0
    → HandedOut head xs (take_times (length xs) (suc fuel) store head)
unfolding take_times
take_times-HandedOut fuel store head [] h nz = record { after = store; returns = refl; empty = h }
take_times-HandedOut fuel store head (x ∷ xs) h nz =
    let (after, taken, rest) = take_ready-first fuel store head x xs h nz in
    let more = take_times-HandedOut fuel after head xs rest nz in
    record { after = more.after; returns = rw (taken, more.returns) refl; empty = more.empty }
