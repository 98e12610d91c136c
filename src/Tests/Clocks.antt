-- ===== src/Tests/Clocks.antt =====
-- The clock of the reclaim strategy at small settings.
use atom_box.Prelude.{◌≡◌, ◌<◌, ◌≤◌, refl, true, false, [], ◌∷◌, some, arith, ◌*◌, ◌-◌}
use atom_box.Prelude.Int.{word}
use atom_box.Machine.{alone, returns, whole, Tick}
use atom_box.ReclaimStrategy
use atom_box.ReclaimStrategy.{eager, manual, timed_capped}
use atom_box.ReclaimStrategy.{TimedCappedSettings, at_settings}
use atom_box.ReclaimStrategy.Timeout.{
  granted, check_sync_time_twice, check_sync_time_contended, check_sync_time_overflow,
}
use atom_box.Tests.{settings}

check_sync_time_twice_example :
    (ReclaimStrategy.check_sync_time whole (some 5) [] settings
      ≡ returns (true, [], granted settings 5))
    × (9 ≤ 15
        → ReclaimStrategy.check_sync_time whole (some 9) [] (granted settings 5)
          ≡ returns (false, [], granted settings 5))
    × (15 < 9
        → ReclaimStrategy.check_sync_time whole (some 9) [] (granted settings 5)
          ≡ returns (true, [], granted settings 9))
check_sync_time_twice_example =
    check_sync_time_twice whole 5 9 settings (omega arith) (omega arith) (omega arith)

abbrev overtaking : Tick TimedCappedSettings
overtaking = record { others = λ s. granted s 4; weak_fails = false }

check_sync_time_contended_example :
    ReclaimStrategy.check_sync_time whole (some 5) (alone ∷ overtaking ∷ []) settings
    ≡ returns (false, [], granted settings 4)
check_sync_time_contended_example =
    check_sync_time_contended whole 5 (alone ∷ overtaking ∷ []) settings (omega arith) (omega arith)
      refl

-- The longest `Duration`, as one who wants no attempts by the clock may choose.
abbrev longest : TimedCappedSettings
longest = record settings { sync_timeout = word * 1000000000 - 1 }

check_sync_time_overflow_example :
    (ReclaimStrategy.check_sync_time whole (some 5) [] longest
      ≡ returns (true, [], granted longest 5))
    × (ReclaimStrategy.check_sync_time whole (some 6) [] (granted longest 5)
        ≡ returns (true, [], granted longest 6))
check_sync_time_overflow_example =
    check_sync_time_overflow whole 5 6 longest (omega arith) (omega arith) (omega arith)
      (omega arith) (omega arith)
