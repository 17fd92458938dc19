-- ===== src/Socket.antt =====
-- Kernel/net/uipc_socket2.c: the states of a socket, and the queues of connections of a socket that
-- accepts them. The sockets lie in a store, at addresses that are not 0; 0 is NULL. A `short` is its
-- 16-bit pattern. The calls that wake up threads, and the fields they read, are left out.
pub mod Links
pub mod Queue
pub mod Insert
pub mod Remove
pub mod Connect
pub mod Newconn
pub mod Accept
mod Tests
use shaunos.Base.{
  ℕ, zero, suc, ◌+◌, ◌-◌, ◌*◌, ◌/◌, ◌%◌, ◌^◌, Bool, true, false, Option, none, some, ltb, ◌==◌,
  ◌||◌, not, if◌then◌else◌,
}
use shaunos.Base.Fault.{Result, ok, null_deref, out_of_fuel, ◌>>=◌}

-- the bits of `so_state` that are set or cleared here
pub record State : Type 0 where
  pub nofdref : Bool
  pub connected : Bool
  pub connecting : Bool
  pub disconnecting : Bool
  pub cantsendmore : Bool
  pub cantrcvmore : Bool
  pub confirming : Bool

-- `struct socket`
pub record Sock : Type 0 where
  pub state : State
  pub head : ℕ
  pub q0 : ℕ
  pub q : ℕ
  pub q0len : ℕ
  pub qlen : ℕ
  pub qlimit : ℕ

abbrev pub Store : Type 0
Store = ℕ → Sock

abbrev pub put : ℕ → Sock → Store → Store
put i s store j = if j == i then s else store j

-- the link of a queue, 0 or 1
abbrev pub link : Bool → Sock → ℕ
link true s = s.q
link false s = s.q0

abbrev pub set_link : Bool → ℕ → Sock → Sock
set_link true i s = record s { q = i }
set_link false i s = record s { q0 = i }

-- the length of a queue
abbrev pub len : Bool → Sock → ℕ
len true s = s.qlen
len false s = s.q0len

abbrev pub set_len : Bool → ℕ → Sock → Sock
set_len true n s = record s { qlen = n % 2 ^ 16 }
set_len false n s = record s { q0len = n % 2 ^ 16 }

abbrev pub links : Bool → Store → ℕ → ℕ
links q store i = link q (store i)

-- `for (prev = &(head->so_q); *prev; ) prev = &((*prev)->so_q)`: the socket whose link `prev` is
unfoldable pub last_of : ℕ → (ℕ → ℕ) → ℕ → Result ℕ
last_of zero links p = out_of_fuel
last_of (suc fuel) links p =
    let rest = last_of fuel links (links p) in if links p == 0 then ok p else rest

-- the assignments of `soqinsque` before its loop
abbrev pub joined : Store → ℕ → ℕ → Bool → Store
joined store head so q =
    let store1 = put so (record (store so) { head = head }) store in
    let store2 = put head (set_len q (len q (store1 head) + 1) (store1 head)) store1 in
    put so (set_link q 0 (store2 so)) store2

unfoldable pub soqinsque : ℕ → Store → ℕ → ℕ → Bool → Result Store
soqinsque fuel store head so q =
    let store' = joined store head so q in
    last_of fuel (links q store') head
    >>= (λ prev. ok (put prev (set_link q so (store' prev)) store'))

-- the loop of `soqremque`: the socket before `so`, where it is found
unfoldable pub before : ℕ → (ℕ → ℕ) → ℕ → ℕ → Result (Option ℕ)
before zero links so prev = out_of_fuel
before (suc fuel) links so prev =
    let rest = before fuel links so (links prev) in
    if links prev == so then ok (some prev) else if links prev == 0 then ok none else rest

-- the assignments of `soqremque` behind its loop
abbrev pub unlinked : Store → ℕ → ℕ → Bool → ℕ → Store
unlinked store head so q prev =
    let store1 = put prev (set_link q (links q store so) (store prev)) store in
    let store2 = put head (set_len q (len q (store1 head) + (2 ^ 16 - 1)) (store1 head)) store1 in
    put so (record (store2 so) { q0 = 0; q = 0; head = 0 }) store2

abbrev pub unlink : Store → ℕ → ℕ → Bool → Option ℕ → Store × Bool
unlink store head so q none = (store, false)
unlink store head so q (some prev) = (unlinked store head so q prev, true)

-- `soqremque`, and whether it returns 1
unfoldable pub soqremque : ℕ → Store → ℕ → Bool → Result (Store × Bool)
soqremque fuel store so q =
    let head = (store so).head in
    let found = before fuel (links q store) so head in
    if head == 0 then null_deref else found >>= (λ prev. ok (unlink store head so q prev))

-- the changes of the state in `soisconnecting`, `soisdisconnecting`, `soisconnected` and
-- `soisdisconnected`
abbrev pub connecting_state : State → State
connecting_state s = record s { connected = false; disconnecting = false; connecting = true }

abbrev pub disconnecting_state : State → State
disconnecting_state s = record s {
  connecting = false;
  disconnecting = true;
  cantrcvmore = true;
  cantsendmore = true;
}

abbrev pub connected_state : State → State
connected_state s = record s {
  connecting = false;
  disconnecting = false;
  confirming = false;
  connected = true;
}

abbrev pub disconnected_state : State → State
disconnected_state s = record s {
  connecting = false;
  connected = false;
  disconnecting = false;
  cantrcvmore = true;
  cantsendmore = true;
}

abbrev pub with_state : (State → State) → Store → ℕ → Store
with_state f store so = put so (record (store so) { state = f (store so).state }) store

unfoldable pub soisconnecting : Store → ℕ → Store
soisconnecting = with_state connecting_state

unfoldable pub soisdisconnecting : Store → ℕ → Store
soisdisconnecting = with_state disconnecting_state

unfoldable pub soisdisconnected : Store → ℕ → Store
soisdisconnected = with_state disconnected_state

unfoldable pub socantsendmore : Store → ℕ → Store
socantsendmore = with_state (λ s. record s { cantsendmore = true })

unfoldable pub socantrcvmore : Store → ℕ → Store
socantrcvmore = with_state (λ s. record s { cantrcvmore = true })

-- `soisconnected`: a connection that the queue 0 of its head holds moves to the queue 1.
unfoldable pub soisconnected : ℕ → Store → ℕ → Result Store
soisconnected fuel store so =
    let head = (store so).head in
    let store' = with_state connected_state store so in
    let removed = soqremque fuel store' so false in
    if head == 0 then ok store' else removed >>= accept head
  where
    accept : ℕ → Store × Bool → Result Store
    accept head (store', found) = if found then soqinsque fuel store' head so true else ok store'
