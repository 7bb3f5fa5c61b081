-- ===== src/Arith/Samples.antt =====
-- The division theorems at concrete numbers, and runs of the loop.
use loom_bootloader.Base.{◌+◌, ◌*◌, ◌/◌, ◌%◌, ◌^◌, ◌≡◌, refl, arith}
use loom_bootloader.Arith.{rounds, round, udivmoddi4, udivdi3, umoddi3}
use loom_bootloader.Arith.Division.{shr_i686, udivmoddi4-div_mod, udivdi3-umoddi3_i686}

udivmoddi4-div_mod_example :
    ((udivmoddi4 1000000007 13).quotient ≡ 1000000007 / 13)
    × ((udivmoddi4 1000000007 13).rem ≡ 1000000007 % 13)
udivmoddi4-div_mod_example = udivmoddi4-div_mod 1000000007 13 (omega arith) (omega arith)

udivdi3-umoddi3_i686_example :
    (udivdi3 shr_i686 7 2 ≡ (7 * 2 ^ 32 + 7) / 2) × (umoddi3 shr_i686 7 2 ≡ (7 * 2 ^ 32 + 7) % 2)
udivdi3-umoddi3_i686_example = udivdi3-umoddi3_i686 7 2 (omega arith) (omega arith)

seven_by_two : udivdi3 shr_i686 7 2 ≡ 15032385539
unfolding udivdi3 rounds round
seven_by_two = refl

largest_by_three : (udivmoddi4 18446744073709551615 3).quotient ≡ 6148914691236517205
unfolding udivmoddi4 rounds round
largest_by_three = refl
