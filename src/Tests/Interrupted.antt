-- ===== src/Tests/Interrupted.antt =====
-- A load between whose steps another thread stores in the same box: the hazard pointer is 20, the box
-- holds the value 100 at 1 at first, and then the value 200 at 2.
use atom_box.Prelude.{
  suc, Bool-cases, inl, inr, subst, if◌then◌else◌, ℕ, ◌≡◌, refl, [], ◌∷◌, some, arith, false, ◌<◌,
  ◌==◌, true,
}
use atom_box.Machine.{
  Ptr, Tick, Env, returns, is_free, alone, access, read, box_new, compare_exchange_weak,
}
use atom_box.LockFreeList
use atom_box.HazardPointerList
use atom_box.ReclaimStrategy
use atom_box.World.{World}
use atom_box.Domain
use atom_box.AtomBox
use atom_box.AtomBox.{deref}
use atom_box.Client.{
  Client, Reader, swap, Ready, store, begin_load, go_on_load, to_protect, to_check, to_reset,
  load_start, load_guard, perform, Reach, call,
}
use atom_box.Client.Turns.{idle, next, Turn, Loop, check_succeeds, check_fails}
use atom_box.Client.Interrupted.{load-Loop}
use atom_box.Client.Ticks.{Interrupts}
use atom_box.Client.Schedules.{load-returns}
use atom_box.Client.Safety.{Reach-IsSound}
use atom_box.Client.Swapping.{swapped}
use atom_box.AtomBox.Exchange.{holding, allocated, swap_lem}
use atom_box.Tests.Clients.{after, boxed, boxed-Reach}

abbrev becomes : World ℕ → Tick (World ℕ)
becomes w = record { others = λ _. w; weak_fails = false }

abbrev begun : Client ℕ
begun = after (begin_load 0 20) boxed

abbrev protected : Client ℕ
protected = after (go_on_load 20 (to_protect 0 1)) begun

abbrev stored : Client ℕ
stored = after (store 0 2 10 200) protected

abbrev failed : Client ℕ
failed = after (go_on_load 20 (to_check 0 1)) stored

abbrev cleared : Client ℕ
cleared = after (go_on_load 20 (to_reset 0 1 2)) failed

abbrev again : Client ℕ
again = after (go_on_load 20 (to_protect 0 2)) cleared

abbrev done : Client ℕ
done = after (go_on_load 20 (to_check 0 2)) again

abbrev ticks : Env (World ℕ)
ticks = alone ∷ becomes stored.world ∷ alone ∷ alone ∷ alone ∷ []

abbrev all_ticks : Env (World ℕ)
all_ticks = alone ∷ alone ∷ alone ∷ alone ∷ alone ∷ alone ∷ alone ∷ ticks

story :
    (perform 0 9 (some 5) (begin_load 0 20) boxed ≡ returns begun)
    × (perform 0 9 (some 5) (go_on_load 20 (to_protect 0 1)) begun ≡ returns protected)
    × (perform 0 9 (some 5) (store 0 2 10 200) protected ≡ returns stored)
    × (perform 0 9 (some 5) (go_on_load 20 (to_check 0 1)) stored ≡ returns failed)
    × (perform 0 9 (some 5) (go_on_load 20 (to_reset 0 1 2)) failed ≡ returns cleared)
    × (perform 0 9 (some 5) (go_on_load 20 (to_protect 0 2)) cleared ≡ returns again)
    × (perform 0 9 (some 5) (go_on_load 20 (to_check 0 2)) again ≡ returns done)
    × Ready 0 (begin_load 0 20) boxed
    × Ready 0 (store 0 2 10 200) protected
    × (load_start 0 2 20 all_ticks boxed.world ≡ returns ((20, 1), ticks, begun.world))
unfolding perform AtomBox.new_with_domain Domain.acquire_haz_ptr Domain.acquire_new_haz_ptr
    Domain.protect Domain.reset HazardPointerList.get_available HazardPointerList.find_available
    HazardPointerList.store HazardPointerList.push_in_use LockFreeList.iter LockFreeList.next
    LockFreeList.push LockFreeList.push_all LockFreeList.push_all_loop compare_exchange_weak box_new
    access read AtomBox.store AtomBox.swap AtomBox.drop_store_guard Domain.retire
    Domain.should_reclaim ReclaimStrategy.should_reclaim Domain.bulk_reclaim Domain.get_guarded_ptrs
    Domain.collect_guarded HazardPointerList.load Domain.reclaim_unguarded Domain.reclaim_loop
story = (refl, refl, refl, refl, refl, refl, refl, (refl, refl), (refl, refl, refl), refl)

-- Where the load is at each of its steps, and what its checks find.
readings :
    (begun.reading 20 ≡ some (to_protect 0 1))
    × (stored.reading 20 ≡ some (to_check 0 1))
    × (failed.reading 20 ≡ some (to_reset 0 1 2))
    × (cleared.reading 20 ≡ some (to_protect 0 2))
    × (again.reading 20 ≡ some (to_check 0 2))
    × ((stored.world.boxes 0).ptr ≡ 2)
    × (((again.world.boxes 0).ptr == 2) ≡ true)
    × ((boxed.world.boxes 0).domain ≡ 0)
unfolding perform AtomBox.new_with_domain Domain.acquire_haz_ptr Domain.acquire_new_haz_ptr
    Domain.protect Domain.reset HazardPointerList.get_available HazardPointerList.find_available
    HazardPointerList.store HazardPointerList.push_in_use LockFreeList.iter LockFreeList.next
    LockFreeList.push LockFreeList.push_all LockFreeList.push_all_loop compare_exchange_weak box_new
    access read AtomBox.store AtomBox.swap AtomBox.drop_store_guard Domain.retire
    Domain.should_reclaim ReclaimStrategy.should_reclaim Domain.bulk_reclaim Domain.get_guarded_ptrs
    Domain.collect_guarded HazardPointerList.load Domain.reclaim_unguarded Domain.reclaim_loop
readings = (refl, refl, refl, refl, refl, refl, refl, refl)

begun-Reach : Reach 0 2 begun
begun-Reach = call (begin_load 0 20) 8 5 boxed-Reach story.7 (omega arith) (omega arith) story.0

-- A step with no calls of the others before it.
abbrev turn :
    (n : ℕ) (c c' : Client ℕ) (r : Reader)
    → c.reading 20 ≡ some r
    → perform 0 9 (some 5) (go_on_load 20 r) c ≡ returns c'
    → n < 8
    → Turn 0 20 n c r
turn n c c' r ready run enough = record {
  count = n;
  before = c;
  others = idle;
  ready = ready;
  rounds = 8;
  time = 5;
  enough = enough;
  small = omega arith;
  after = c';
  run = run;
}

-- The store, and then the check.
abbrev check : Turn 0 20 3 protected (to_check 0 1)
check = record {
  count = 4;
  before = stored;
  others = next (store 0 2 10 200) 8 5 idle story.8 (omega arith) (omega arith) story.2;
  ready = readings.1;
  rounds = 8;
  time = 5;
  enough = omega arith;
  small = omega arith;
  after = failed;
  run = story.3;
}

loop : Loop 0 20 0 2 begun 1 2 ticks 8 done
loop =
    check_fails alone (becomes stored.world) alone
      (turn 2 begun protected (to_protect 0 1) readings.0 story.1 (omega arith)) check
      (turn 5 failed cleared (to_reset 0 1 2) readings.2 story.4 (omega arith)) refl refl refl
      readings.5 refl
      (check_succeeds alone alone
        (turn 6 cleared again (to_protect 0 2) readings.3 story.5 (omega arith))
        (turn 7 again done (to_check 0 2) readings.4 story.6 (omega arith)) refl refl readings.6)

load-Loop_example :
    (q : Ptr) × (AtomBox.load 0 2 20 all_ticks boxed.world
      ≡ returns (load_guard 0 (some 20) q, [], done.world))
    × (done.loads 20 ≡ some q)
    × Reach 0 8 done
    × (v : ℕ) × (deref q [] done.world ≡ returns (v, [], done.world))
load-Loop_example =
    load-Loop 0 20 0 2 begun 1 20 2 all_ticks ticks 8 boxed.world done begun-Reach readings.7
      story.9 loop

-- The other thread swaps another value in, if its address is free.
abbrev swaps : Tick (World ℕ)
swaps = record {
  others = λ s. if is_free s.values 5 then holding 0 (allocated 0 s 5 500) 5 else s;
  weak_fails = false;
}

swaps-Interrupts : Interrupts 0 20 0 swaps
unfolding perform
swaps-Interrupts n c r h ready here =
    let sound = Reach-IsSound 0 n c h in
    let there : c.boxes 0 ≡ true =
      subst (λ (x : ℕ). c.boxes x ≡ true) here (sound.under_way 20 r ready).1 in
    elim (Bool-cases (is_free c.world.values 5)) [
      | inl free ↦ (
        suc n,
        swapped c 0 5 500,
        next (swap 0 5 500) (suc n) 0 idle (there, free) (omega arith) (omega arith)
            (rw (swap_lem 0 c.world 5 500 free) refl),
        ready,
        rw free refl,
      )
      | inr taken ↦ (n, c, idle, ready, rw taken refl)
    ]

start_swapped :
    load_start 0 5 20
      (alone ∷ alone ∷ alone ∷ alone ∷ alone ∷ alone ∷ alone ∷ alone ∷ swaps ∷ swaps ∷ [])
      boxed.world
    ≡ returns ((20, 1), alone ∷ swaps ∷ swaps ∷ [], begun.world)
unfolding perform AtomBox.new_with_domain Domain.acquire_haz_ptr Domain.acquire_new_haz_ptr
    Domain.protect Domain.reset HazardPointerList.get_available HazardPointerList.find_available
    HazardPointerList.store HazardPointerList.push_in_use LockFreeList.iter LockFreeList.next
    LockFreeList.push LockFreeList.push_all LockFreeList.push_all_loop compare_exchange_weak box_new
    access read AtomBox.store AtomBox.swap AtomBox.drop_store_guard Domain.retire
    Domain.should_reclaim ReclaimStrategy.should_reclaim Domain.bulk_reclaim Domain.get_guarded_ptrs
    Domain.collect_guarded HazardPointerList.load Domain.reclaim_unguarded Domain.reclaim_loop
start_swapped = refl

load-returns_example :
    (q : Ptr) × (e' : Env (World ℕ)) × (m : ℕ) × (c' : Client ℕ) × (AtomBox.load 0 5 20
        (alone ∷ alone ∷ alone ∷ alone ∷ alone ∷ alone ∷ alone ∷ alone ∷ swaps ∷ swaps ∷ [])
        boxed.world
      ≡ returns (load_guard 0 (some 20) q, e', c'.world))
    × (c'.loads 20 ≡ some q)
    × Reach 0 m c'
    × (v : ℕ) × (deref q [] c'.world ≡ returns (v, [], c'.world))
load-returns_example =
    load-returns 0 20 0 5 2
      (alone ∷ alone ∷ alone ∷ alone ∷ alone ∷ alone ∷ alone ∷ alone ∷ swaps ∷ swaps ∷ [])
      (alone ∷ swaps ∷ swaps ∷ []) boxed.world begun 1 20 begun-Reach readings.0 readings.7
      start_swapped
      (
        (λ n c r h ready here. (n, c, idle, ready, refl)),
        (swaps-Interrupts, (swaps-Interrupts, tt)),
      )
      (omega arith)
