-- ===== src/Tests/Boxes.antt =====
-- The atom box at small memories.
use atom_box.Prelude.{ℕ, zero, suc, ◌≡◌, refl, if◌then◌else◌, [], ◌∷◌, some, none, arith}
use atom_box.Machine.{
  alone, spurious, Env, returns, fault, ok, err, access, read, box_new, compare_exchange_weak,
}
use atom_box.LockFreeList
use atom_box.LockFreeList.{LockFreeList}
use atom_box.HazardPointerList
use atom_box.HazardPointerList.{HazardPointerList}
use atom_box.ReclaimStrategy.{eager, manual}
use atom_box.World.{World}
use atom_box.Domain
use atom_box.Domain.{retired, strategy}
use atom_box.Domain.Guarded.{held}
use atom_box.Domain.Safety.{IsDomain}
use atom_box.AtomBox
use atom_box.AtomBox.Building.{load-new_static}
use atom_box.AtomBox.{LoadGuard, StoreGuard}
use atom_box.AtomBox.Validation.{Protects, load-Protects}
use atom_box.AtomBox.Exchange.{
  store_guard, bare_guard, holding, allocated, answer, swap_from_guard_lem, compare_exchange_lem,
  compare_exchange_from_guard_lem, compare_exchange_weak-compare_exchange,
}
use atom_box.AtomBox.Replace.{store_lem}
use atom_box.AtomBox.Unprotected.{compare_exchange-use_after_drop}
use atom_box.HazardPointerList.Idle.{IsIdle}
use atom_box.AtomBox.Loading.{with_hazard, load_lem, load-store}
use atom_box.Prelude.{true}
use atom_box.Tests.{one_hazard, small, small_items, small_hazards, small-IsDomain, swapping, memory}

store_lem_example :
    (s' : World ℕ) × (AtomBox.store 0 4 none 4 12 400 [] (small eager) ≡ returns (tt, [], s'))
    × ((s'.boxes 0).ptr ≡ 4)
    × (AtomBox.deref 4 [] s' ≡ returns (400, [], s'))
    × (AtomBox.deref 3 [] s'
        ≡ (if Domain.contains (held small_hazards) 3 then returns (300, [], s') else fault))
store_lem_example =
    store_lem 0 3 none 4 12 400 300 (small eager) small_items small_hazards refl
      (small-IsDomain eager) refl refl refl refl (omega arith) (omega arith)

swap_from_guard_lem_example :
    AtomBox.swap_from_guard 0 (store_guard 2 0) [] (small manual)
    ≡ returns (store_guard 3 0, [], holding 0 (small manual) 2)
swap_from_guard_lem_example = swap_from_guard_lem 0 (small manual) (store_guard 2 0)

compare_exchange_lem_example :
    AtomBox.compare_exchange 0 4 (bare_guard 3 0) 400 [] (small manual)
    ≡ answer
        (bare_guard 3 0)
        (ok (store_guard 3 0))
        (holding 0 (allocated 0 (small manual) 4 400) 4)
compare_exchange_lem_example = compare_exchange_lem 0 (small manual) 4 400 (bare_guard 3 0) refl

compare_exchange_from_guard_lem_example :
    AtomBox.compare_exchange_from_guard 0 (bare_guard 2 0) (store_guard 1 0) [] (small manual)
    ≡ answer (bare_guard 2 0) (err (bare_guard 3 0, store_guard 1 0)) (small manual)
compare_exchange_from_guard_lem_example =
    compare_exchange_from_guard_lem 0 (small manual) (bare_guard 2 0) (store_guard 1 0)

compare_exchange_weak-compare_exchange_example :
    (AtomBox.compare_exchange_weak 0 4 (bare_guard 3 0) 400 [] (small manual)
      ≡ AtomBox.compare_exchange 0 4 (bare_guard 3 0) 400 [] (small manual))
    × (AtomBox.compare_exchange_weak 0 4 (bare_guard 3 0) 400 (alone ∷ spurious ∷ []) (small manual)
        ≡ answer (bare_guard 3 0) (err (bare_guard 3 0)) (allocated 0 (small manual) 4 400))
    × (AtomBox.compare_exchange_weak_from_guard 0
          (bare_guard 3 0)
          (store_guard 2 0)
          []
          (small manual)
        ≡ AtomBox.compare_exchange_from_guard 0
            (bare_guard 3 0)
            (store_guard 2 0)
            []
            (small manual))
    × (AtomBox.compare_exchange_weak_from_guard 0
          (bare_guard 3 0)
          (store_guard 2 0)
          (spurious ∷ [])
          (small manual)
        ≡ answer (bare_guard 3 0) (err (bare_guard 3 0, store_guard 2 0)) (small manual))
compare_exchange_weak-compare_exchange_example =
    compare_exchange_weak-compare_exchange 0 (small manual) 4 (bare_guard 3 0) 400 (store_guard 2 0)
      refl

-- A failed exchange leaves the value 400 at 4 behind.
abbrev after_failure : World ℕ
after_failure = allocated 0 (small eager) 4 400

after_failure-IsDomain : IsDomain 0 small_items small_hazards after_failure
after_failure-IsDomain = record {
  items = (11, refl, refl, refl, (0, refl, refl, refl, refl));
  hazards = (0, refl, refl, refl, refl);
  promised = (100, refl, refl, refl, (200, refl, refl, refl, tt));
}

failing_run :
    AtomBox.compare_exchange 0 4 (bare_guard 2 0) 400 [] (small eager)
    ≡ returns (err (bare_guard 3 0), [], after_failure)
unfolding AtomBox.drop_load_guard
failing_run = compare_exchange_lem 0 (small eager) 4 400 (bare_guard 2 0) refl

compare_exchange-use_after_drop_example :
    ((bare_guard 3 0).haz_ptr ≡ none)
    × (AtomBox.deref 3 [] after_failure ≡ returns (300, [], after_failure))
    × (s'' : World ℕ) × (AtomBox.store 0 4 none 5 12 500 [] after_failure ≡ returns (tt, [], s''))
    × (AtomBox.deref 3 [] s'' ≡ fault)
compare_exchange-use_after_drop_example =
    compare_exchange-use_after_drop 0 (small eager) after_failure 4 400 (bare_guard 2 0)
      (bare_guard 3 0) refl failing_run 3 none 5 12 500 300 small_items small_hazards refl
      after_failure-IsDomain refl refl refl refl (omega arith) (omega arith) refl

abbrev quiet : ℕ → Env (World ℕ) → Env (World ℕ)
quiet zero e = e
quiet (suc n) e = alone ∷ quiet n e

abbrev acquired : World ℕ
acquired = memory (Domain.acquire_haz_ptr 0 3 22 (quiet 9 []) (small manual))

abbrev loaded : World ℕ
loaded = memory (AtomBox.load 0 3 22 (quiet 11 (swapping ∷ [])) (small manual))

abbrev found : LoadGuard
found = record { ptr = 2; domain = 0; haz_ptr = some 22 }

-- The box holds 3 when it is first read and 2 when it is checked, so that the loop goes round again.
load-Protects_example : (found.haz_ptr ≡ some 22) × (found.domain ≡ 0) × Protects 0 0 22 2 loaded
unfolding AtomBox.load AtomBox.load_loop Domain.acquire_haz_ptr Domain.acquire_new_haz_ptr
    Domain.protect Domain.reset HazardPointerList.get_available HazardPointerList.find_available
    HazardPointerList.is_available HazardPointerList.try_acquire HazardPointerList.take_active
    HazardPointerList.load HazardPointerList.store HazardPointerList.push_in_use LockFreeList.iter
    LockFreeList.next LockFreeList.push LockFreeList.push_all LockFreeList.push_all_loop
    compare_exchange_weak box_new access read
load-Protects_example =
    load-Protects 0 3 22 22 (quiet 11 (swapping ∷ [])) (quiet 2 (swapping ∷ [])) [] (small manual)
      acquired loaded found refl ((λ s. refl), ((λ s. refl), ((λ s. refl), tt))) refl

abbrev found_first : LoadGuard
found_first = record { ptr = 3; domain = 0; haz_ptr = some 22 }

small-IsIdle : IsIdle one_hazard.nodes
small-IsIdle a n own off = absurd (ground arith)

load_lem_example :
    AtomBox.load 0 2 22 [] (small eager)
    ≡ returns (found_first, [], with_hazard 0 (small eager) 22 (record { ptr = 3; active = true }))
load_lem_example =
    load_lem 0 1 (small eager) 22 small_hazards refl (small-IsDomain eager).hazards small-IsIdle
      (omega arith)

load-new_static_example :
    (s₁ s₂ : World ℕ) × (AtomBox.new_static 7 4 400 [] (small eager) ≡ returns (7, [], s₁))
    × (AtomBox.load 7 2 22 [] s₁
        ≡ returns (record { ptr = 4; domain = 0; haz_ptr = some 22 }, [], s₂))
    × (AtomBox.deref 4 [] s₂ ≡ returns (400, [], s₂))
load-new_static_example =
    load-new_static 7 4 22 1 400 (small eager) small_hazards refl refl
      (small-IsDomain eager).hazards small-IsIdle (omega arith)

load-store_example :
    (s' s'' : World ℕ) × (guard : LoadGuard) × (AtomBox.load 0 4 22 [] (small eager)
      ≡ returns (guard, [], s'))
    × (AtomBox.store 0 4 none 4 12 400 [] s' ≡ returns (tt, [], s''))
    × ((s''.boxes 0).ptr ≡ 4)
    × (AtomBox.deref guard.ptr [] s'' ≡ returns (300, [], s''))
load-store_example =
    load-store 0 3 none 22 4 12 400 300 (small eager) small_items small_hazards
      (small-IsDomain eager) small-IsIdle refl refl refl refl refl refl (omega arith) (omega arith)
