-- ===== src/Pcb/Tests.antt =====
-- `in_pcblookup` of Kernel/netinet/in_pcb.c: a server's block, and the block of one of its connections.
use shaunos.Base.{◌≡◌, refl, true, some, [], ◌∷◌}
use shaunos.Pcb.{Inpcb, Wanted, in_pcblookup, wildcard_of}
use shaunos.Pcb.Best.{Looked, in_pcblookup-Looked}

abbrev server : Inpcb
server = record { faddr = 0; fport = 0; laddr = 0; lport = 80 }

abbrev connection : Inpcb
connection = record { faddr = 7; fport = 1000; laddr = 9; lport = 80 }

abbrev packet : Wanted
packet = record { faddr = 7; fport = 1000; laddr = 9; lport = 80; wild = true }

-- the connection's block, though the server's stands before it
connection_run : in_pcblookup (server ∷ connection ∷ []) packet ≡ some connection
unfolding in_pcblookup wildcard_of
connection_run = refl

in_pcblookup-Looked_example :
    Looked packet (server ∷ connection ∷ []) (in_pcblookup (server ∷ connection ∷ []) packet)
in_pcblookup-Looked_example = in_pcblookup-Looked (server ∷ connection ∷ []) packet
