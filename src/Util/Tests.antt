-- ===== src/Util/Tests.antt =====
-- Runs of the rounding functions, and the theorems at concrete addresses.
use svsm.Base.{◌+◌, ◌^◌, ◌≤◌, ◌<◌, ◌≡◌, refl, true, arith}
use svsm.Util.{align_up, align_down, is_aligned}
use svsm.Util.Align.{align_down-greatest, align_up-least}

align_down-greatest_example :
    (is_aligned (align_down 0x1234 (2 ^ 12)) (2 ^ 12) ≡ true)
    × (align_down 0x1234 (2 ^ 12) ≤ 0x1234)
    × (0x1234 < align_down 0x1234 (2 ^ 12) + 2 ^ 12)
align_down-greatest_example = align_down-greatest 12 0x1234 (omega arith) (omega arith)

align_up-least_example :
    (is_aligned (align_up 0x1234 (2 ^ 12)) (2 ^ 12) ≡ true)
    × (0x1234 ≤ align_up 0x1234 (2 ^ 12))
    × (align_up 0x1234 (2 ^ 12) < 0x1234 + 2 ^ 12)
align_up-least_example = align_up-least 12 0x1234 (omega arith) (omega arith)

align_up_run : align_up 0x1234 0x1000 ≡ 0x2000
unfolding align_up
align_up_run = refl
