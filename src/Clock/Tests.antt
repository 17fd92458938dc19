-- ===== src/Clock/Tests.antt =====
-- Kernel/time.c: the theorems at dates of 2013 and 2016.
use shaunos.Base.{◌+◌, ◌%◌, ◌≡◌, refl, arith}
use shaunos.Base.Int.{u32_mod}
use shaunos.Clock.{mktime, initial_zone}
use shaunos.Clock.Epoch.{since_epoch, mktime-since_epoch}

-- 1 March 2016, 8 o'clock in the zone of the kernel
leap_year : mktime initial_zone 2016 3 1 8 0 0 ≡ 1456790400
unfolding mktime
leap_year = refl

mktime-since_epoch_example :
    mktime initial_zone 2016 3 1 8 0 0 ≡ (since_epoch 2016 3 1 8 0 0 + initial_zone) % u32_mod
mktime-since_epoch_example =
    mktime-since_epoch initial_zone 2016 3 1 8 0 0 (omega arith) (omega arith) (omega arith)
      (omega arith) (omega arith) (omega arith)
