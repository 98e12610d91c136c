-- ===== src/ReclaimStrategy.antt =====
-- src/domain/reclaim_strategy.rs: when a domain tries to reclaim, with the feature `std`.
-- The clock answers `none` for a time before the epoch. Sums and products wrap, as they do in a
-- build without overflow checks.
pub mod Threshold
pub mod Timeout
use atom_box.Prelude.{
  ℕ, ◌+◌, ◌%◌, refl, Bool, true, false, ◌&&◌, Option, none, some, ltb, if◌then◌else◌,
}
use atom_box.Prelude.Int.{ℤ, pos, word, leb_ℤ, isize_mul}
use atom_box.Machine.{
  panics, M, Result, ok, err, pure, stop, ◌>>=◌, Lens, ◌within◌, load, compare_exchange,
}

-- `Duration::from_nanos(2000000000)`
abbrev pub default_sync_threshold : ℕ
default_sync_threshold = 2000000000

abbrev pub default_retired_threshold : ℤ
default_retired_threshold = pos 1000

abbrev pub default_hazard_pointer_multiplier : ℤ
default_hazard_pointer_multiplier = pos 2

-- `last_sync_time` is a `u64`, `sync_timeout` the nanoseconds of a `Duration`; the others are `isize`s.
pub record TimedCappedSettings : Type 0 where
  pub last_sync_time : ℕ
  pub sync_timeout : ℕ
  pub hazard_pointer_multiplier : ℤ
  pub retired_threshold : ℤ

unfoldable pub new_with_timeout : ℕ → ℤ → ℤ → TimedCappedSettings
new_with_timeout sync_timeout retired_threshold hazard_pointer_multiplier = record {
  last_sync_time = 0;
  sync_timeout = sync_timeout;
  hazard_pointer_multiplier = hazard_pointer_multiplier;
  retired_threshold = retired_threshold;
}

unfoldable pub new : ℤ → ℤ → TimedCappedSettings
new retired_threshold hazard_pointer_multiplier = record {
  last_sync_time = 0;
  sync_timeout = default_sync_threshold;
  hazard_pointer_multiplier = hazard_pointer_multiplier;
  retired_threshold = retired_threshold;
}

unfoldable pub default_settings : TimedCappedSettings
unfolding new
default_settings = new default_retired_threshold default_hazard_pointer_multiplier

unfoldable pub with_timeout : TimedCappedSettings → ℕ → TimedCappedSettings
with_timeout s sync_timeout = record s { sync_timeout = sync_timeout }

unfoldable pub with_hazard_pointer_multiplier : TimedCappedSettings → ℤ → TimedCappedSettings
with_hazard_pointer_multiplier s multiplier = record s { hazard_pointer_multiplier = multiplier }

unfoldable pub with_retired_threshold : TimedCappedSettings → ℤ → TimedCappedSettings
with_retired_threshold s threshold = record s { retired_threshold = threshold }

pub data ReclaimStrategy : Type 0 where
  eager : ReclaimStrategy
  timed_capped : TimedCappedSettings → ReclaimStrategy
  manual : ReclaimStrategy

unfoldable pub default : ReclaimStrategy
unfolding default_settings
default = timed_capped default_settings

abbrev pub at_last_sync_time : Lens TimedCappedSettings ℕ
at_last_sync_time = record {
  get = λ s. s.last_sync_time;
  put = λ t s. record s { last_sync_time = t };
  get-put = λ t s. refl;
  put-put = λ t u s. refl;
}

abbrev no_settings : TimedCappedSettings
no_settings = record {
  last_sync_time = 0;
  sync_timeout = 0;
  hazard_pointer_multiplier = pos 0;
  retired_threshold = pos 0;
}

-- The settings of a strategy that has some. It is used at no other, and the variant never changes.
abbrev settings_of : ReclaimStrategy → TimedCappedSettings
settings_of (timed_capped s) = s
settings_of _ = no_settings

abbrev pub at_settings : Lens ReclaimStrategy TimedCappedSettings
at_settings = record {
  get = settings_of;
  put = λ s _. timed_capped s;
  get-put = λ s _. refl;
  put-put = λ s t _. refl;
}

abbrev is_ok : {A B : Type 0} → Result A B → Bool
is_ok (ok _) = true
is_ok (err _) = false

-- Whether the numbers of items alone call for an attempt.
unfoldable pub exceeds : TimedCappedSettings → ℤ → ℤ → Bool
exceeds s hazard_pointer_count retired_count =
    leb_ℤ s.retired_threshold retired_count
    && leb_ℤ (isize_mul hazard_pointer_count s.hazard_pointer_multiplier) retired_count

module _ {S : Type 0} (self : Lens S TimedCappedSettings) where
  -- `u64::try_from(now.duration_since(UNIX_EPOCH).expect(..).as_nanos()).expect(..)`
  unfoldable pub nanos : Option ℕ → M S ℕ
  nanos none = stop panics
  nanos (some t) = if ltb t word then pure t else stop panics

  unfoldable pub check_sync_time : Option ℕ → M S Bool
  unfolding nanos
  check_sync_time now = do
    time ← nanos now
    last_sync_time ← load (at_last_sync_time within self)
    timeout ← (λ e s. pure ((self.get s).sync_timeout % word) e s)
    if ltb last_sync_time time
        then (do
          r ←
              compare_exchange (at_last_sync_time within self) last_sync_time
                ((time + timeout) % word)
          pure (is_ok r))
        else pure false

  unfoldable pub should_reclaim_settings : Option ℕ → ℤ → ℤ → M S Bool
  unfolding check_sync_time exceeds
  should_reclaim_settings now hazard_pointer_count retired_count = do
    capped ← (λ e s. pure (exceeds (self.get s) hazard_pointer_count retired_count) e s)
    if capped then pure true else check_sync_time now

unfoldable pub should_reclaim : {S : Type 0} → Lens S ReclaimStrategy → Option ℕ → ℤ → ℤ → M S Bool
unfolding should_reclaim_settings
should_reclaim self now hazard_pointer_count retired_count e s = elim (self.get s) [
  | eager ↦ pure true e s
  | timed_capped _ ↦
      should_reclaim_settings (at_settings within self) now hazard_pointer_count retired_count e s
  | manual ↦ pure false e s
]
