-- ===== src/Domain/Clock.antt =====
-- `should_reclaim` of a domain: the count of retired items stands in for that of hazard pointers.
use atom_box.Prelude.{ℕ, suc, ◌*◌, ◌^◌, ◌<◌, ◌≤◌, ◌≡◌, [], Option, arith}
use atom_box.Prelude.Int.{pos, of_bits-small}
use atom_box.Machine.{◌within◌}
use atom_box.ReclaimStrategy
use atom_box.ReclaimStrategy.{TimedCappedSettings, timed_capped, at_settings, check_sync_time}
use atom_box.ReclaimStrategy.Threshold.{should_reclaim-check_sync_time}
use atom_box.World.{World}
use atom_box.Domain.{strategy, should_reclaim}

-- With a multiplier of at least 2 and a positive threshold, as the defaults are, and while the
-- product of count and multiplier is within an `isize`, a thread that runs alone finds that the
-- number of retired items never calls for an attempt, however few the hazard pointers: only the
-- clock decides.
pub should_reclaim-clock :
    {V : Type 0} (d : ℕ) (now : Option ℕ) (s : World V) (x : TimedCappedSettings) (m t : ℕ)
    → (s.domains d).reclaim_strategy ≡ timed_capped x
    → x.hazard_pointer_multiplier ≡ pos m
    → x.retired_threshold ≡ pos (suc t)
    → 2 ≤ m
    → (s.domains d).retired.count * m < 2 ^ 63
    → should_reclaim d now [] s ≡ check_sync_time (at_settings within strategy d) now [] s
unfolding should_reclaim ReclaimStrategy.should_reclaim
should_reclaim-clock d now s x m t e em et two small =
    rw (e, of_bits-small (s.domains d).retired.count (grind arith))
      (should_reclaim-check_sync_time (at_settings within strategy d) now
        (s.domains d).retired.count m t [] s (rw e em) (rw e et) two small)
