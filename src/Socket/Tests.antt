-- ===== src/Socket/Tests.antt =====
-- Kernel/net/uipc_socket2.c: a socket that accepts connections, with two that are partial and one that is ready.
use shaunos.Base.{ℕ, refl, arith, true, false, some, [], ◌∷◌, ◌==◌, if◌then◌else◌}
use shaunos.Socket.{State, Sock, Store, soqinsque, soqremque, soisconnected}
use shaunos.Socket.Queue.{IsQueue}
use shaunos.Socket.Insert.{Joined, soqinsque-Joined}
use shaunos.Socket.Remove.{Left, soqremque-Left}
use shaunos.Socket.Newconn.{is_connected, Attempted, sonewconn1, sonewconn1-Attempted}
use shaunos.Socket.Accept.{HandedOut, take_times, take_times-HandedOut}
use shaunos.Socket.Connect.{Ready, soisconnected-Ready}

abbrev fresh : State
fresh = record {
  nofdref = true;
  connected = false;
  connecting = true;
  disconnecting = false;
  cantsendmore = false;
  cantrcvmore = false;
  confirming = false;
}

abbrev queued : ℕ → ℕ → Sock
queued q0 q = record { state = fresh; head = 1; q0 = q0; q = q; q0len = 0; qlen = 0; qlimit = 5 }

abbrev accepting : Sock
accepting = record { state = fresh; head = 0; q0 = 2; q = 4; q0len = 2; qlen = 1; qlimit = 5 }

-- 1 accepts; 2 and 3 are in the queue 0, and 4 in the queue 1.
abbrev store : Store
store i = if i == 1 then accepting else if i == 2 then queued 3 0 else queued 0 0

partial : IsQueue store false 1 (2 ∷ 3 ∷ [])
partial = record {
  linked = (refl, omega arith, (refl, omega arith, refl));
  distinct =
      ((omega arith, (omega arith, record {})), ((omega arith, record {}), (record {}, record {})));
  backed = (refl, (refl, record {}));
  counted = refl;
}

ready : IsQueue store true 1 (4 ∷ [])
ready = record {
  linked = (refl, omega arith, refl);
  distinct = ((omega arith, record {}), (record {}, record {}));
  backed = (refl, record {});
  counted = refl;
}

soqinsque-Joined_example : Joined store true 1 5 (4 ∷ []) (soqinsque 9 store 1 5 true)
soqinsque-Joined_example =
    soqinsque-Joined 9 store true 1 5 (4 ∷ []) ready (omega arith, (omega arith, record {}))
      (omega arith) (omega arith)

soqremque-Left_example : Left store false 1 3 (2 ∷ []) (soqremque 9 store 3 false)
soqremque-Left_example =
    soqremque-Left 9 store false 1 3 (2 ∷ []) [] partial (omega arith) (omega arith)

soisconnected-Ready_example : Ready store 1 2 (3 ∷ []) (4 ∷ []) (soisconnected 9 store 2)
soisconnected-Ready_example =
    soisconnected-Ready 9 store 1 2 [] (3 ∷ []) (4 ∷ []) partial ready (omega arith, record {})
      (omega arith) (omega arith) (omega arith)

sonewconn1-Attempted_example :
    Attempted is_connected true 1 5 (4 ∷ []) (sonewconn1 9 store 1 is_connected (some 5) true)
sonewconn1-Attempted_example =
    sonewconn1-Attempted 9 store 1 is_connected 5 true (4 ∷ []) ready refl
      (omega arith, (omega arith, record {})) (omega arith) (omega arith) (omega arith)

take_times-HandedOut_example : HandedOut 1 (4 ∷ []) (take_times 1 9 store 1)
take_times-HandedOut_example = take_times-HandedOut 8 store 1 (4 ∷ []) ready (omega arith)
