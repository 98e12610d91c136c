-- ===== src/Tests/Retirements.antt =====
-- `retire` with the timed and capped strategy at small memories: the clock is at 5, and the next attempt
-- was due at 3.
use atom_box.LockFreeList
use atom_box.HazardPointerList
use atom_box.ReclaimStrategy.{manual}
use atom_box.Prelude.{Bool-cases, inl, inr, ◌∷◌}
use atom_box.Machine.{
  null, write, Env, Tick, is_free, access, read, box_drop, compare_exchange_weak,
}
use atom_box.Domain.Spared.Pushing.{pushing}
use atom_box.Domain.Spared.Taken.{IsSpared, Respects, front, has-Rest}
use atom_box.LockFreeList.{LockFreeList}
use atom_box.LockFreeList.Chain.{node, frame}
use atom_box.World.{Retire}
use atom_box.Prelude.{none, false}
use atom_box.Domain.Spared.Unlisted.{bulk_reclaim-unlisted}
use atom_box.Tests.{swapping, memory}
use atom_box.Prelude.{◌≡◌, refl, true, [], some, arith, ℕ}
use atom_box.Prelude.Int.{of_bits}
use atom_box.Machine.{returns}
use atom_box.ReclaimStrategy.{timed_capped, exceeds}
use atom_box.ReclaimStrategy.Timeout.{granted}
use atom_box.World.{World}
use atom_box.Domain
use atom_box.Domain.Deciding.{decide, decided, should_reclaim-decide}
use atom_box.Domain.Settling.{Retires, retire_lem}
use atom_box.Tests.{small, small_items, small_hazards, small-IsDomain, settings}

should_reclaim-decide_example :
    Domain.should_reclaim 0 (some 5) [] (small (timed_capped settings))
    ≡ returns
        (true, [], decided 0 (small (timed_capped settings)) (timed_capped (granted settings 5)))
unfolding decide exceeds of_bits
should_reclaim-decide_example =
    should_reclaim-decide 0 (small (timed_capped settings)) 5 (omega arith)

retire_lem_example :
    (s' : World ℕ) × (Domain.retire 0 4 (some 5) 12 3 [] (small (timed_capped settings))
      ≡ returns (tt, [], s'))
    × Retires 0 (small (timed_capped settings)) 12 3 5 true small_items small_hazards s'
unfolding decide exceeds of_bits
retire_lem_example =
    retire_lem 0 (small (timed_capped settings)) 12 3 5 3 small_items small_hazards 300
      (omega arith) refl (small-IsDomain (timed_capped settings)) refl refl (omega arith)
      (omega arith)

-- Another thread loads the value at 3, which is in the box, through a new hazard pointer at 30.
abbrev loading : Tick (World ℕ)
loading = pushing 0 20 1 100 30 (record { ptr = 3; active = true })

loading-Respects : Respects 0 3 small_items loading
loading-Respects = record {
  taken = λ xs s z w. elim (Bool-cases (is_free (s.domains 0).hazard_ptrs.nodes 30)) [
    | inl free ↦ rw free w
    | inr taken ↦ rw taken w
  ];
  spared = λ s g. elim (Bool-cases (is_free (s.domains 0).hazard_ptrs.nodes 30)) [
    | inl free ↦ rw free g
    | inr taken ↦ rw taken g
  ];
}

-- Another thread that reclaims as well frees a node of its own, at 40.
abbrev without_own : LockFreeList Retire → LockFreeList Retire
without_own l = record l { nodes = write l.nodes 40 none }

abbrev freeing : Tick (World ℕ)
freeing = record {
  others = λ s. (Domain.retired 0).put (without_own (s.domains 0).retired) s;
  weak_fails = false;
}

freeing-Respects : Respects 0 3 small_items freeing
freeing-Respects = record {
  taken = λ xs s z w.
      frame (s.domains 0).retired.nodes _ null (front xs) xs
        (λ a i. ground (arith, has-Rest small_items xs a z)) w;
  spared = λ s g. g;
}

-- Another thread puts the value at 3, which it has swapped out, on the retired list, with a node at 41.
abbrev retiring_own : LockFreeList Retire → LockFreeList Retire
retiring_own l = record l {
  head = 41;
  nodes = write l.nodes 41 (some (node (record { ptr = 3; retirable = 3 }) l.head));
}

abbrev retiring : Tick (World ℕ)
retiring = record {
  others = λ s. (Domain.retired 0).put (retiring_own (s.domains 0).retired) s;
  weak_fails = false;
}

retiring-Respects : Respects 0 3 small_items retiring
retiring-Respects = record {
  taken = λ xs s z w.
      frame (s.domains 0).retired.nodes _ null (front xs) xs
        (λ a i. ground (arith, has-Rest small_items xs a z)) w;
  spared = λ s g. g;
}

abbrev while_loading : Env (World ℕ)
while_loading = swapping ∷ loading ∷ freeing ∷ retiring ∷ []

abbrev reclaimed : World ℕ
reclaimed = memory (Domain.bulk_reclaim 0 3 while_loading (small manual))

bulk_reclaim-unlisted_example : IsSpared 3 reclaimed
unfolding Domain.bulk_reclaim Domain.get_guarded_ptrs Domain.collect_guarded
    Domain.reclaim_unguarded Domain.reclaim_loop Domain.drop_in_place HazardPointerList.load
    LockFreeList.iter LockFreeList.next LockFreeList.push_all LockFreeList.push_all_loop
    compare_exchange_weak access read box_drop
bulk_reclaim-unlisted_example =
    bulk_reclaim-unlisted 0 3 3 1 small_items while_loading [] (small manual) reclaimed
      (small-IsDomain manual).items (refl, (refl, tt)) refl (λ same. cc)
      (loading-Respects, (freeing-Respects, (retiring-Respects, tt))) refl
