-- ===== src/ReclaimStrategy/Threshold.antt =====
-- The thresholds of `TimedCappedSettings::should_reclaim`, at the two counts that a domain passes.
use atom_box.Prelude.{ℕ, suc, ◌*◌, ◌^◌, ◌<◌, ◌≤◌, ◌≡◌, false, Option, arith, leb, ◌&&◌}
use atom_box.Prelude.Int.{pos, isize_mul-pos}
use atom_box.Machine.{Env, Lens}
use atom_box.ReclaimStrategy.{
  TimedCappedSettings, exceeds, check_sync_time, should_reclaim_settings,
}

-- With different counts the thresholds mean what their documentation says.
pub exceeds-thresholds :
    (s : TimedCappedSettings) (hazards items m t : ℕ)
    → s.hazard_pointer_multiplier ≡ pos m
    → s.retired_threshold ≡ pos t
    → hazards * m < 2 ^ 63
    → exceeds s (pos hazards) (pos items) ≡ (leb t items && leb (hazards * m) items)
unfolding exceeds
exceeds-thresholds s hazards items m t em et small =
    rw (em, et, isize_mul-pos hazards m small) (ground arith)

-- The same count twice.
same_count :
    (s : TimedCappedSettings) (items m t : ℕ)
    → s.hazard_pointer_multiplier ≡ pos m
    → s.retired_threshold ≡ pos (suc t)
    → 2 ≤ m
    → items * m < 2 ^ 63
    → exceeds s (pos items) (pos items) ≡ false
same_count s items m t em et two small =
    rw (exceeds-thresholds s items items m (suc t) em et small) (grind arith)

module _ {S : Type 0} (self : Lens S TimedCappedSettings) where
  -- Given one count for both, with a positive threshold and a multiplier of at least 2, the numbers
  -- never call for an attempt: only the clock decides.
  pub should_reclaim-check_sync_time :
      (now : Option ℕ) (items m t : ℕ) (env : Env S) (s : S)
      → (self.get s).hazard_pointer_multiplier ≡ pos m
      → (self.get s).retired_threshold ≡ pos (suc t)
      → 2 ≤ m
      → items * m < 2 ^ 63
      → should_reclaim_settings self now (pos items) (pos items) env s
        ≡ check_sync_time self now env s
  unfolding should_reclaim_settings
  should_reclaim-check_sync_time now items m t env s em et two small =
      rw (same_count (self.get s) items m t em et two small)
