-- ===== src/Pcb.antt =====
-- `in_pcblookup` of Kernel/netinet/in_pcb.c: which control block a packet belongs to.
-- The ring of control blocks behind `head` is the list of its blocks. An address is a 32-bit pattern,
-- and `INADDR_ANY` is 0.
pub mod Best
mod Tests
use shaunos.Base.{
  ℕ, suc, ◌+◌, ◌%◌, ◌^◌, Bool, true, false, Option, none, some, List, [], ◌∷◌, ltb, ◌==◌, ◌&&◌,
  ◌||◌, not, if◌then◌else◌,
}

-- `struct inpcb`: the addresses and the ports
pub record Inpcb : Type 0 where
  pub faddr : ℕ
  pub fport : ℕ
  pub laddr : ℕ
  pub lport : ℕ

-- the arguments of `in_pcblookup`; `wild` is the flag `INPLOOKUP_WILDCARD`.
pub record Wanted : Type 0 where
  pub faddr : ℕ
  pub fport : ℕ
  pub laddr : ℕ
  pub lport : ℕ
  pub wild : Bool

-- what the local address adds to `wildcard`, or nothing where the block is passed over
abbrev pub local_wild : Inpcb → Wanted → Option ℕ
local_wild inp to =
    if not (inp.laddr == 0)
    then (if to.laddr == 0 then some 1 else if not (inp.laddr == to.laddr) then none else some 0)
    else some (if not (to.laddr == 0) then 1 else 0)

-- and the foreign address with its port
abbrev pub foreign_wild : Inpcb → Wanted → Option ℕ
foreign_wild inp to =
    if not (inp.faddr == 0)
    then (if to.faddr == 0
        then some 1
        else if not (inp.faddr == to.faddr) || not (inp.fport == to.fport % 2 ^ 16)
        then none
        else some 0)
    else some (if not (to.faddr == 0) then 1 else 0)

-- `wildcard`, where it is 0 or wildcards are wanted
abbrev pub allowed : Bool → ℕ → Option ℕ
allowed wild n = if not (n == 0) && not wild then none else some n

abbrev pub both_wild : Bool → Option ℕ → Option ℕ → Option ℕ
both_wild wild none foreign = none
both_wild wild (some l) none = none
both_wild wild (some l) (some f) = allowed wild (l + f)

-- `wildcard` of a block, unless a `continue` passes it over
unfoldable pub wildcard_of : Wanted → Inpcb → Option ℕ
wildcard_of to inp =
    if not (inp.lport == to.lport % 2 ^ 16)
    then none
    else both_wild to.wild (local_wild inp to) (foreign_wild inp to)

-- the loop, with `match` and `matchwild`
unfoldable pub lookup_loop : Wanted → List Inpcb → Option Inpcb → ℕ → Option Inpcb
lookup_loop to [] found matchwild = found
lookup_loop to (inp ∷ inps) found matchwild = elim (wildcard_of to inp) [
  | none ↦ lookup_loop to inps found matchwild
  | some n ↦
      let next = lookup_loop to inps (some inp) n in
      let other = lookup_loop to inps found matchwild in
      if ltb n matchwild then (if n == 0 then some inp else next) else other
]

unfoldable pub in_pcblookup : List Inpcb → Wanted → Option Inpcb
unfolding lookup_loop
in_pcblookup inps to = lookup_loop to inps none 3
