-- ===== src/Domain/Deciding.antt =====
-- `should_reclaim` of a thread that runs alone: what each strategy decides, and what it writes.
use atom_box.Prelude.{
  ℕ, ◌<◌, ◌≡◌, refl, ◌∙◌, sym, ap, fun_ext, Bool, true, false, [], some, arith, ltb, if◌then◌else◌,
  Bool-cases, inl, inr,
}
use atom_box.Prelude.Int.{ℤ, word, of_bits}
use atom_box.Machine.{returns, ◌within◌}
use atom_box.ReclaimStrategy
use atom_box.ReclaimStrategy.{
  ReclaimStrategy, TimedCappedSettings, eager, timed_capped, manual, at_settings, exceeds,
  should_reclaim_settings,
}
use atom_box.ReclaimStrategy.Timeout.{granted, should_reclaim_settings_lem}
use atom_box.World.{World, update, update_self}
use atom_box.Domain.{strategy, should_reclaim}

-- Whether a strategy calls for a reclamation at the time `t` with the given number of retired items,
-- and the strategy afterwards.
unfoldable pub decide : ReclaimStrategy → ℕ → ℤ → Bool × ReclaimStrategy
decide eager t items = (true, eager)
decide manual t items = (false, manual)
decide (timed_capped x) t items =
    if exceeds x items items
    then (true, timed_capped x)
    else (if ltb x.last_sync_time t
        then (true, timed_capped (granted x t))
        else (false, timed_capped x))

module _ {V : Type 0} (d : ℕ) (s : World V) where
  -- The memory with another strategy in the domain.
  abbrev pub decided : ReclaimStrategy → World V
  decided r = (strategy d).put r s

  pub decided-domain :
      (r : ReclaimStrategy) → (decided r).domains d ≡ record (s.domains d) { reclaim_strategy = r }
  decided-domain r = update_self s.domains d _

  decided_same : decided (s.domains d).reclaim_strategy ≡ s
  decided_same = λ i. record {
    domains = fun_ext {f = update s.domains d (s.domains d)} {g = s.domains} (λ e. ground arith) i;
    values = s.values;
    boxes = s.boxes;
  }

  decided_still : (r : ReclaimStrategy) → (s.domains d).reclaim_strategy ≡ r → decided r ≡ s
  decided_still r e = ap decided (sym e) ∙ decided_same

  abbrev items : ℤ
  items = of_bits (s.domains d).retired.count

  should_reclaim-variant :
      (t : ℕ) (r : ReclaimStrategy)
      → t < word
      → (s.domains d).reclaim_strategy ≡ r
      → should_reclaim d (some t) [] s
        ≡ returns ((decide r t items).0, [], decided (decide r t items).1)
  unfolding should_reclaim ReclaimStrategy.should_reclaim should_reclaim_settings decide
  should_reclaim-variant t eager small e = rw e (rw (decided_still eager e))
  should_reclaim-variant t manual small e = rw e (rw (decided_still manual e))
  should_reclaim-variant t (timed_capped x) small e =
      let run = should_reclaim_settings_lem (at_settings within strategy d) t items items s small in
      elim (Bool-cases (exceeds x items items)) [
        | inl many ↦ rw e (run ∙ rw e (rw many (rw (decided_still (timed_capped x) e))))
        | inr few ↦ elim (Bool-cases (ltb x.last_sync_time t)) [
          | inl due ↦ rw e (run ∙ rw e (rw (few, due)))
          | inr early ↦ rw e (run ∙ rw e (rw (few, early) (rw (decided_still (timed_capped x) e))))
        ]
      ]

  -- A thread that runs alone, at a time `t` within 64 bits: `should_reclaim` answers what the
  -- strategy decides for the count of retired items, passed for both numbers, and the only change
  -- is that of the strategy's own state.
  pub should_reclaim-decide :
      (t : ℕ)
      → t < word
      → should_reclaim d (some t) [] s
        ≡ returns (
          (decide (s.domains d).reclaim_strategy t items).0,
          [],
          decided (decide (s.domains d).reclaim_strategy t items).1,
        )
  should_reclaim-decide t small = should_reclaim-variant t (s.domains d).reclaim_strategy small refl
