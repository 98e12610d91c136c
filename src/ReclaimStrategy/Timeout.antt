-- ===== src/ReclaimStrategy/Timeout.antt =====
-- `check_sync_time`: at most one attempt for each period of the clock.
use atom_box.Prelude.{
  ℕ, ◌+◌, ◌%◌, ◌<◌, ◌≤◌, ◌≡◌, refl, true, false, [], some, arith, ltb, ◌==◌, if◌then◌else◌, eq→==,
  lt→ltb, ◌∙◌, Bool-cases, inl, inr,
}
use atom_box.Prelude.Int.{ℤ, word}
use atom_box.Machine.{returns, Env, Lens, compare_exchange, meets, later, atomic-meets}
use atom_box.ReclaimStrategy.{
  TimedCappedSettings, exceeds, check_sync_time, should_reclaim_settings,
}

-- The settings once an attempt has been granted at time `t`.
abbrev pub granted : TimedCappedSettings → ℕ → TimedCappedSettings
granted x t = record x { last_sync_time = (t + x.sync_timeout % word) % word }

module _ {S : Type 0} (self : Lens S TimedCappedSettings) where
  -- A thread that runs alone is granted an attempt exactly when the clock has passed the time kept in
  -- `last_sync_time`; then that time moves to the end of the next period, and otherwise nothing changes.
  pub check_sync_time_lem :
      (t : ℕ) (s : S)
      → t < word
      → check_sync_time self (some t) [] s ≡ (
          if ltb (self.get s).last_sync_time t
          then returns (true, [], self.put (granted (self.get s) t) s)
          else returns (false, [], s))
  unfolding check_sync_time compare_exchange
  check_sync_time_lem t s small =
      ground (arith, eq→== (self.get s).last_sync_time (self.get s).last_sync_time refl)

  pub should_reclaim_settings_lem :
      (t : ℕ) (hazards items : ℤ) (s : S)
      → t < word
      → should_reclaim_settings self (some t) hazards items [] s ≡ (
          if exceeds (self.get s) hazards items
          then returns (true, [], s)
          else (if ltb (self.get s).last_sync_time t
              then returns (true, [], self.put (granted (self.get s) t) s)
              else returns (false, [], s)))
  unfolding should_reclaim_settings
  should_reclaim_settings_lem t hazards items s small =
      elim (Bool-cases (exceeds (self.get s) hazards items)) [
        | inl many ↦ rw many
        | inr few ↦ rw few (check_sync_time_lem t s small)
      ]

  -- While no time overflows, and the clock has passed the time kept: after an attempt at time `t`
  -- none is granted until the timeout has passed, and the first check after it is granted again.
  pub check_sync_time_twice :
      (t u : ℕ) (s : S)
      → t + (self.get s).sync_timeout < word
      → u < word
      → (self.get s).last_sync_time < t
      → let s' : S = self.put (granted (self.get s) t) s in
        (check_sync_time self (some t) [] s ≡ returns (true, [], s'))
        × (u ≤ t + (self.get s).sync_timeout
            → check_sync_time self (some u) [] s' ≡ returns (false, [], s'))
        × (t + (self.get s).sync_timeout < u
            → check_sync_time self (some u) [] s'
              ≡ returns (true, [], self.put (granted (self.get s) u) s))
  check_sync_time_twice t u s small small' due =
      let s' : S = self.put (granted (self.get s) t) s in
      (
        check_sync_time_lem t s (omega arith) ∙ rw (lt→ltb (self.get s).last_sync_time t due),
        λ early. check_sync_time_lem u s' small' ∙ rw self.get-put (ground arith),
        λ late. check_sync_time_lem u s' small' ∙ rw self.get-put (rw self.put-put (ground arith)),
      )

  -- Where the end of the next period is beyond 64 bits it wraps, and is earlier than the attempt: after
  -- an attempt at time `t` with such a timeout every check at `t` or later, within 64 bits, is
  -- granted at once, as if there were no timeout.
  pub check_sync_time_overflow :
      (t u : ℕ) (s : S)
      → t < word
      → u < word
      → (self.get s).last_sync_time < t
      → t ≤ u
      → word ≤ t + (self.get s).sync_timeout % word
      → let s' : S = self.put (granted (self.get s) t) s in
        (check_sync_time self (some t) [] s ≡ returns (true, [], s'))
        × (check_sync_time self (some u) [] s'
            ≡ returns (true, [], self.put (granted (self.get s) u) s))
  check_sync_time_overflow t u s small small' due after over =
      let s' : S = self.put (granted (self.get s) t) s in
      (
        check_sync_time_lem t s small ∙ rw (lt→ltb (self.get s).last_sync_time t due),
        check_sync_time_lem u s' small' ∙ rw self.get-put (rw self.put-put (ground arith)),
      )

  -- If the clock, within 64 bits, has passed the time that is read, and another thread changes
  -- `last_sync_time` before the exchange, none is granted, and the time is left as that thread has
  -- set it.
  pub check_sync_time_contended :
      (t : ℕ) (env : Env S) (s : S)
      → t < word
      → let loaded : S = meets env s in
        let found : S = meets (later env) loaded in
        (self.get loaded).last_sync_time < t
        → ((self.get found).last_sync_time == (self.get loaded).last_sync_time) ≡ false
        → check_sync_time self (some t) env s ≡ returns (false, later (later env), found)
  unfolding check_sync_time compare_exchange
  check_sync_time_contended t env s small due moved = rw (lt→ltb t word small) (
      rw (atomic-meets _ env s)
        (rw (lt→ltb _ t due) (rw (atomic-meets _ (later env) (meets env s)) (rw moved))))
