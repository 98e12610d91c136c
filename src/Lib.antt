-- ===== src/Lib.antt =====
-- A model of the crate atom_box: boxes whose values threads replace atomically, with hazard pointers
-- that keep a value alive while a thread reads it.
--
-- The program and the files
--   * Machine: what the code runs on. Addresses, heaps of cells, `Box::new` and the end of a box,
--     and the monad of an operation. An operation is a sequence of atomic steps; before each one
--     the environment, a list of ticks, may change the memory as other threads would, and decides
--     whether a weak compare-exchange fails spuriously. The empty environment is a thread that runs
--     alone. A run returns, panics, aborts on a failed allocation, faults (undefined behaviour: a
--     dangling or null access, a double free, a use of a dropped value), or uses up its rounds.
--     Machine/Logic has assertions on the memory that the other threads keep true.
--   * LockFreeList models src/domain/list.rs: `push`, `push_all`, `iter`, `next` and the list's
--     drop. LockFreeList/Chain says which sequence of nodes a list stands for; LockFreeList/Push
--     has pushes by a thread that runs alone, LockFreeList/Contended pushes among other threads,
--     LockFreeList/Release the drop, and LockFreeList/Order the specification of pushes and
--     iteration.
--   * HazardPointerList models src/domain/hazard_pointer_list.rs, a LockFreeList of hazard
--     pointers. HazardPointerList/Idle and Reuse are about `get_available` after any history of
--     calls, HazardPointerList/Acquire about `try_acquire` among other threads.
--   * Bicephaly models src/domain/bicephaly.rs (the feature `bicephany`), the other list of hazard
--     pointers. Bicephaly/Pool is its specification, a pool of nodes; Bicephaly/Refinement has the
--     calls that take, give back and add a node, Bicephaly/Visiting iteration and the drop,
--     Bicephaly/Reuse a node that is given back and handed out again, and Bicephaly/Aba
--     `get_available` among other threads.
--   * HazardPointers is the type alias of this name in src/domain/mod.rs, which is one list or the
--     other: what a domain uses of it, with the laws that it relies on, and the domain's functions
--     over that. HazardPointers/OneHead and TwoHeads are the two lists as such, with Listed, Values
--     and Pooled about the addresses that their nodes hold; HazardPointers/InDomain is the one that
--     Domain has, and HazardPointers/Protecting the life of a hazard pointer with either.
--   * ReclaimStrategy models src/domain/reclaim_strategy.rs with the feature `std`; its clock is an
--     argument. ReclaimStrategy/Threshold and ReclaimStrategy/Timeout are its two tests.
--   * World is the memory of the program: the domains, the boxed values and the atom boxes.
--   * Domain models src/domain/mod.rs over the hazard pointer list: `acquire_haz_ptr`,
--     `release_hazard_ptr`, `retire`, `bulk_reclaim` and `drop`. A retired value is held by its
--     address in the retired list; a reclamation takes that list, collects the addresses that the
--     hazard pointers hold, drops the other values and puts the rest back. Domain/Guarded, Kept,
--     Reclaim, Unguarded and Bulk follow `bulk_reclaim` part by part, Domain/Safety says what it
--     means for the values, Domain/Spared what it spares among other threads. Domain/Deciding and
--     Domain/Clock are about `should_reclaim`, Domain/Retiring and Domain/Settling about `retire`,
--     Domain/Ending about `drop`, and Domain/Hazard about `release_hazard_ptr`.
--   * AtomBox models src/lib.rs: the atom box, its guards, and `load`, `store`, `swap`, the four
--     compare-exchanges and the variants that take a guard. AtomBox/Loading is about `load` by a
--     thread that runs alone, AtomBox/Validation about `load` among other threads, AtomBox/Exchange
--     about the exchanges on every branch, AtomBox/Building about `new_static`, AtomBox/Replace
--     about `store` and the value that it replaces, AtomBox/Unprotected about the guard of a failed
--     exchange.
--   * Client is a program over one domain: the boxes and guards that it holds, the guards of failed
--     exchanges included, the calls that it may make with them, and what it can come to. Its calls run
--     one after another, but for the loops of loads: each atomic step of such a loop is a step of the
--     program, and any calls and steps of other loads may come between. Client/Holdings is what it
--     holds and Client/Sound its invariant; Client/Values, Ownership, Hazards and Reclaiming are the
--     effects of which its calls consist, Client/Swapping, Calls, Guards and Exchanges the calls,
--     Client/Underway and Checking the steps of loads, and Client/Turns what may come between.
--     Client/Safety, Reading, Owners and Collection say what every such program can rely on, and
--     Client/Interrupted that `load` among other threads makes these steps, which Client/Stepping and
--     Ticks compare one by one; Client/Schedules says that it comes to an end.
--   * Prelude is what the parts share, and Tests has small runs.
--
-- An operation of a method works on the part of the memory that its `&self` is, a lens. Numbers are
-- natural numbers; an `isize` count is its 64-bit pattern and wraps, and so does a `u64` time. An
-- address that `Box::new` answers with is an argument: an address in use stands for a failed
-- allocation. A loop takes a number of rounds. For a thread that runs alone one or two more than the
-- lengths of the lists are enough, as the theorems say; a push among other threads returns with two
-- rounds more than there are ticks.
--
-- Not modelled: memory orderings weaker than sequential consistency, with the fences that restore
-- them; programs whose threads interrupt other calls than the loops of loads, of which the theorems
-- on single operations among other threads speak; unwinding after a panic; reclamation with the
-- feature `bicephany`; the feature `std` left out; the re-exports of src/sync.rs, the macro of
-- src/lib.rs and build.rs.
pub mod Prelude
pub mod Machine
pub mod LockFreeList
pub mod HazardPointerList
pub mod Bicephaly
pub mod ReclaimStrategy
pub mod World
pub mod Domain
pub mod AtomBox
pub mod HazardPointers
pub mod Client
pub mod Tests
