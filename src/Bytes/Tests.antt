-- ===== src/Bytes/Tests.antt =====
-- lib/string.c, the routines on memory: the theorems at concrete blocks.
use shaunos.Base.{◌%◌, ◌≡◌, arith, inl}
use shaunos.Bytes.{Memory, move, memcpy}
use shaunos.Bytes.Copy.{memcpy-moves}

abbrev ramp : Memory
ramp x = x % 256

memcpy-moves_example : memcpy 101 200 43 ramp ≡ (move 43 101 200 ramp, 101)
memcpy-moves_example =
    memcpy-moves 101 200 43 ramp (omega arith) (omega arith) (omega arith) (inl (omega arith))
