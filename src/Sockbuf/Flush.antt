-- ===== src/Sockbuf/Flush.antt =====
-- `sbflush` and `sbrelease` of Kernel/net/uipc_socket2.c, which empty a buffer. The argument `locked` is
-- the flag `SB_LOCK`.
use shaunos.Base.{ℕ, zero, suc, Bool, length, ◌==◌, ◌&&◌, if◌then◌else◌}
use shaunos.Base.Fault.{Result, ok, assert_failed, out_of_fuel, ◌>>=◌}
use shaunos.Sockbuf.{Sockbuf, sbdrop}

-- `sb->sb_cc || sb->sb_mb` is false.
abbrev pub is_empty : Sockbuf → Bool
is_empty sb = sb.cc == 0 && length sb.mb == 0

-- the loop of `sbflush`
unfoldable pub flush_loop : ℕ → Sockbuf → Result Sockbuf
unfolding sbdrop
flush_loop zero sb = out_of_fuel
flush_loop (suc fuel) sb =
    let rest = sbdrop sb sb.cc >>= flush_loop fuel in
    if sb.mbcnt == 0 then (if is_empty sb then ok sb else assert_failed) else rest

unfoldable pub sbflush : ℕ → Bool → Sockbuf → Result Sockbuf
unfolding flush_loop
sbflush fuel locked sb = if locked then assert_failed else flush_loop fuel sb

unfoldable pub sbrelease : ℕ → Bool → Sockbuf → Result Sockbuf
unfolding sbflush
sbrelease fuel locked sb =
    sbflush fuel locked sb >>= (λ sb'. ok (record sb' { hiwat = 0; mbmax = 0 }))
