-- ===== src/Tests/Clients.antt =====
-- A small program: it makes a box with the value 100 at 1, loads it through the hazard pointer 20, and
-- stores the value 200 at 2, with the node 10 for the retired list. Then it tries to exchange the value
-- that it has loaded, which fails, since the box has another by now.
use atom_box.Prelude.{ℕ, ◌≡◌, refl, false, [], some, none, arith, inl}
use atom_box.Machine.{
  returns, access, read, box_new, compare_exchange_weak as cas_weak, compare_exchange as cas,
}
use atom_box.LockFreeList
use atom_box.HazardPointerList
use atom_box.ReclaimStrategy
use atom_box.ReclaimStrategy.{eager}
use atom_box.World.{World}
use atom_box.Domain
use atom_box.Domain.{new_unchecked}
use atom_box.AtomBox
use atom_box.AtomBox.{deref}
use atom_box.Client.{
  Client, Request, Ready, new, load, store, compare_exchange, compare_exchange_weak, reclaim,
  perform, empty, Reach, start, call,
}
use atom_box.Client.Safety.{perform-returns, deref-returns}
use atom_box.Client.Owners.{OneOwner, Reach-OneOwner}
use atom_box.Client.Reading.{Holds, begin, next, deref-Holds}
use atom_box.Client.Collection.{Collects, reclaim-Collects}

abbrev pub blank : World ℕ
blank = record {
  domains = λ _. new_unchecked eager;
  values = λ _. none;
  boxes = λ _. record { ptr = 0; domain = 0 };
}

abbrev pub after : Request ℕ → Client ℕ → Client ℕ
after r c = elim (perform 0 9 (some 5) r c) [ returns c' ↦ c' | _ ↦ c ]

abbrev pub boxed : Client ℕ
boxed = after (new 0 1 100) (empty blank)

abbrev guarded : Client ℕ
guarded = after (load 0 20) boxed

abbrev stored : Client ℕ
stored = after (store 0 2 10 200) guarded

abbrev refused : Client ℕ
refused = after (compare_exchange 0 3 (some 20) 1 300) stored

pub boxed-Reach : Reach 0 1 boxed
unfolding perform AtomBox.new_with_domain box_new
boxed-Reach =
    call (new 0 1 100) 8 5 (start blank eager refl) (refl, refl) (omega arith) (omega arith) refl

-- What the two calls leave.
story :
    (perform 0 9 (some 5) (load 0 20) boxed ≡ returns guarded)
    × (perform 0 9 (some 5) (store 0 2 10 200) guarded ≡ returns stored)
    × Ready 0 (load 0 20) boxed
    × Ready 0 (store 0 2 10 200) guarded
    × (guarded.loads 20 ≡ some 1)
    × (stored.loads 20 ≡ some 1)
    × (deref 1 [] guarded.world ≡ returns (100, [], guarded.world))
unfolding perform AtomBox.new_with_domain AtomBox.load AtomBox.load_loop Domain.acquire_haz_ptr
    Domain.acquire_new_haz_ptr Domain.protect Domain.reset HazardPointerList.get_available
    HazardPointerList.find_available HazardPointerList.store HazardPointerList.push_in_use
    LockFreeList.iter LockFreeList.next LockFreeList.push LockFreeList.push_all
    LockFreeList.push_all_loop cas_weak box_new access read AtomBox.store AtomBox.swap
    AtomBox.drop_store_guard Domain.retire Domain.should_reclaim ReclaimStrategy.should_reclaim
    Domain.bulk_reclaim Domain.get_guarded_ptrs Domain.collect_guarded HazardPointerList.load
    Domain.reclaim_unguarded Domain.reclaim_loop deref
story = (refl, refl, (refl, refl), (refl, refl, refl), refl, refl, refl)

guarded-Reach : Reach 0 2 guarded
guarded-Reach = call (load 0 20) 8 5 boxed-Reach story.2 (omega arith) (omega arith) story.0

stored-Reach : Reach 0 3 stored
stored-Reach = call (store 0 2 10 200) 8 5 guarded-Reach story.3 (omega arith) (omega arith) story.1

-- What the failed exchange leaves: a guard of the value in the box, without a hazard pointer.
refused_story :
    (perform 0 9 (some 5) (compare_exchange 0 3 (some 20) 1 300) stored ≡ returns refused)
    × Ready 0 (compare_exchange 0 3 (some 20) 1 300) stored
    × Ready 0 (compare_exchange_weak 0 4 none 2 400 false) refused
unfolding perform AtomBox.new_with_domain AtomBox.load AtomBox.load_loop Domain.acquire_haz_ptr
    Domain.acquire_new_haz_ptr Domain.protect Domain.reset HazardPointerList.get_available
    HazardPointerList.find_available HazardPointerList.store HazardPointerList.push_in_use
    LockFreeList.iter LockFreeList.next LockFreeList.push LockFreeList.push_all
    LockFreeList.push_all_loop cas_weak box_new access read AtomBox.store AtomBox.swap
    AtomBox.drop_store_guard Domain.retire Domain.should_reclaim ReclaimStrategy.should_reclaim
    Domain.bulk_reclaim Domain.get_guarded_ptrs Domain.collect_guarded HazardPointerList.load
    Domain.reclaim_unguarded Domain.reclaim_loop deref AtomBox.compare_exchange cas
    AtomBox.drop_load_guard Domain.release_hazard_ptr HazardPointerList.set_node_available
refused_story = (refl, (refl, refl, refl), (refl, refl, omega arith))

refused-Reach : Reach 0 4 refused
refused-Reach =
    call (compare_exchange 0 3 (some 20) 1 300) 8 5 stored-Reach refused_story.1 (omega arith)
      (omega arith) refused_story.0

-- It tries again with the guard that the failed exchange has returned.
perform-returns_example :
    (c' : Client ℕ) × (perform 0 9 (some 5) (compare_exchange_weak 0 4 none 2 400 false) refused
      ≡ returns c')
    × Reach 0 5 c'
perform-returns_example =
    perform-returns 0 4 8 5 refused (compare_exchange_weak 0 4 none 2 400 false) refused-Reach
      refused_story.2 (omega arith) (omega arith)

-- The value that has been replaced and retired is still there for its reader.
deref-returns_example : (v : ℕ) × (deref 1 [] stored.world ≡ returns (v, [], stored.world))
deref-returns_example = deref-returns 0 3 stored 1 stored-Reach (inl (20, story.5))

Reach-OneOwner_example : OneOwner 0 stored
Reach-OneOwner_example = Reach-OneOwner 0 3 stored stored-Reach

reclaim-Collects_example :
    (c' : Client ℕ) × (perform 0 9 (some 5) reclaim stored ≡ returns c') × Collects 0 stored c'
reclaim-Collects_example = reclaim-Collects 0 3 8 5 stored stored-Reach (omega arith)

guarded-Holds : Holds 0 20 1 2 guarded 3 stored
guarded-Holds =
    next (store 0 2 10 200) 8 5 (begin story.4) story.3 (omega arith) (omega arith) story.1 story.5

deref-Holds_example : deref 1 [] stored.world ≡ returns (100, [], stored.world)
deref-Holds_example = deref-Holds 0 20 1 2 3 guarded stored 100 guarded-Reach guarded-Holds story.6
