-- ===== src/Domain.antt =====
-- src/domain/mod.rs: a domain hands out hazard pointers, and keeps retired values until no hazard
-- pointer holds them. It is built over the hazard pointer list (without the feature `bicephany`).
-- Fences order accesses that are in order here anyway, and leave no trace in the model. `rounds`
-- bounds each loop, and `now` is the clock.
pub mod Guarded
pub mod Hazard
pub mod Kept
pub mod Reclaim
pub mod Unguarded
pub mod Bulk
pub mod Safety
pub mod Spared
pub mod Deciding
pub mod Retiring
pub mod Settling
pub mod Ending
pub mod Clock
use atom_box.Prelude.{
  ℕ, zero, suc, ◌+◌, ◌%◌, Bool, true, false, ◌&&◌, ◌||◌, List, [], ◌∷◌, Option, none, some, ◌==◌,
  if◌then◌else◌,
}
use atom_box.Prelude.Int.{of_bits}
use atom_box.Machine.{
  Ptr, null, Out, fault, panics, starved, returns, M, pure, stop, atomic, ◌>>=◌, ◌>>◌, Lens,
  ◌within◌, load, store, swap, write, cell, box_drop,
}
use atom_box.LockFreeList
use atom_box.LockFreeList.{
  LockFreeList, at_head, at_count, at_nodes, isize_mod, read_node, store_next, push_all, push, iter,
  next,
}
use atom_box.HazardPointerList
use atom_box.HazardPointerList.{HazardPointerList, get_available, set_node_available, push_in_use}
use atom_box.ReclaimStrategy
use atom_box.World.{
  Boxed, live, dropped, Retire, Domain, World, at_values, at_domain, at_retired, at_hazard_ptrs,
  at_strategy,
}

-- `_new`
abbrev pub new_unchecked : ReclaimStrategy.ReclaimStrategy → Domain
new_unchecked reclaim_strategy = record {
  hazard_ptrs = LockFreeList.new;
  retired = LockFreeList.new;
  reclaim_strategy = reclaim_strategy;
}

abbrev pub shared_domain_id : ℕ
shared_domain_id = 0

-- The assertion stands in a nightly build only.
unfoldable pub new : Bool → ℕ → ReclaimStrategy.ReclaimStrategy → Out Domain
new nightly domain_id reclaim_strategy =
    if nightly && (domain_id == shared_domain_id)
    then panics
    else returns (new_unchecked reclaim_strategy)

-- `Domain::default`
abbrev pub default : Domain
unfolding ReclaimStrategy.default
default = new_unchecked ReclaimStrategy.default

-- `Set::contains`
abbrev pub contains : List Ptr → Ptr → Bool
contains [] a = false
contains (p ∷ ps) a = (p == a) || contains ps a

-- The local variables of the loop of `reclaim_unguarded`; `tail_ptr` is the node whose `next` it holds.
pub record Scan : Type 0 where
  pub still_retired : Ptr
  pub tail_ptr : Option Ptr
  pub reclaimed : ℕ
  pub number_remaining : ℕ

module _ {V : Type 0} where
  abbrev pub retired : ℕ → Lens (World V) (LockFreeList Retire)
  retired d = at_retired within at_domain d

  abbrev pub hazard_ptrs : ℕ → Lens (World V) HazardPointerList
  hazard_ptrs d = at_hazard_ptrs within at_domain d

  abbrev pub strategy : ℕ → Lens (World V) ReclaimStrategy.ReclaimStrategy
  strategy d = at_strategy within at_domain d

  -- `Pointer::reset` and `Pointer::protect`
  unfoldable pub reset : ℕ → Ptr → M (World V) (Unit {0})
  reset d haz_ptr = HazardPointerList.store (hazard_ptrs d) haz_ptr null

  unfoldable pub protect : ℕ → Ptr → Ptr → M (World V) (Unit {0})
  protect d haz_ptr ptr = HazardPointerList.store (hazard_ptrs d) haz_ptr ptr

  unfoldable pub acquire_new_haz_ptr : ℕ → ℕ → Ptr → M (World V) Ptr
  acquire_new_haz_ptr d rounds fresh = push_in_use (hazard_ptrs d) rounds fresh null

  unfoldable pub acquire_haz_ptr : ℕ → ℕ → Ptr → M (World V) Ptr
  unfolding acquire_new_haz_ptr
  acquire_haz_ptr d rounds fresh = do
    found ← get_available (hazard_ptrs d) rounds
    elim found [ some haz_ptr ↦ pure haz_ptr | none ↦ acquire_new_haz_ptr d rounds fresh ]

  unfoldable pub release_hazard_ptr : ℕ → Ptr → M (World V) (Unit {0})
  unfolding reset
  release_hazard_ptr d haz_ptr = do reset d haz_ptr; set_node_available (hazard_ptrs d) haz_ptr

  -- The iterator chain of `get_guarded_ptrs`, with its `filter_map` and `collect`.
  unfoldable pub collect_guarded : ℕ → ℕ → Ptr → M (World V) (List Ptr)
  collect_guarded d zero node = stop starved
  collect_guarded d (suc rounds) node = do
    item ← next (hazard_ptrs d) node
    elim item [
      | none ↦ pure []
      | some (haz_ptr, rest) ↦ do
        guarded_ptr ← HazardPointerList.load (hazard_ptrs d) haz_ptr
        others ← collect_guarded d rounds rest
        pure (if guarded_ptr == null then others else guarded_ptr ∷ others)
    ]

  unfoldable pub get_guarded_ptrs : ℕ → ℕ → M (World V) (List Ptr)
  unfolding collect_guarded
  get_guarded_ptrs d rounds = do node ← iter (hazard_ptrs d); collect_guarded d rounds node

  -- `drop_in_place`: the value ends and its memory stays allocated.
  unfoldable pub drop_in_place : Ptr → M (World V) (Unit {0})
  drop_in_place p = atomic λ s. elim (cell s.values p) [
    | some (live v) ↦ returns (tt, record s { values = write s.values p (some dropped) })
    | _ ↦ fault
  ]

  -- The `while` loop of `reclaim_unguarded`.
  unfoldable pub reclaim_loop : ℕ → ℕ → List Ptr → Ptr → Scan → M (World V) Scan
  unfolding drop_in_place
  reclaim_loop d zero guarded node_ptr l = stop starved
  reclaim_loop d (suc rounds) guarded node_ptr l = if node_ptr == null then pure l else (do
    node ← read_node (retired d) node_ptr
    if contains guarded node.value.ptr
        then (do
          store_next (retired d) node_ptr l.still_retired
          reclaim_loop d rounds guarded node.next (record {
            still_retired = node_ptr;
            tail_ptr = elim l.tail_ptr [ none ↦ some node_ptr | some t ↦ some t ];
            reclaimed = l.reclaimed;
            number_remaining = (l.number_remaining + 1) % isize_mod;
          }))
        else (do
          drop_in_place node.value.retirable
          box_drop (at_nodes within retired d) node_ptr
          reclaim_loop d rounds guarded node.next (record l { reclaimed = l.reclaimed + 1 })))

  unfoldable pub reclaim_unguarded : ℕ → ℕ → List Ptr → Ptr → M (World V) ℕ
  unfolding reclaim_loop
  reclaim_unguarded d rounds guarded retired_list = do
    l ←
        reclaim_loop d rounds guarded retired_list
          (record { still_retired = null; tail_ptr = none; reclaimed = 0; number_remaining = 0 })
    elim l.tail_ptr [
      | some tail ↦ do
        push_all (retired d) rounds l.still_retired tail l.number_remaining
        pure l.reclaimed
      | none ↦ pure l.reclaimed
    ]

  unfoldable pub bulk_reclaim : ℕ → ℕ → M (World V) ℕ
  unfolding reclaim_unguarded get_guarded_ptrs
  bulk_reclaim d rounds = do
    retired_list ← swap (at_head within retired d) null
    store (at_count within retired d) 0
    if retired_list == null then pure 0 else (do
      guarded_ptrs ← get_guarded_ptrs d rounds
      reclaim_unguarded d rounds guarded_ptrs retired_list)

  abbrev pub reclaim : ℕ → ℕ → M (World V) ℕ
  reclaim = bulk_reclaim

  unfoldable pub should_reclaim : ℕ → Option ℕ → M (World V) Bool
  should_reclaim d now = do
    first ← load (at_count within retired d)
    second ← load (at_count within retired d)
    ReclaimStrategy.should_reclaim (strategy d) now (of_bits first) (of_bits second)

  unfoldable pub retire : ℕ → ℕ → Option ℕ → Ptr → Ptr → M (World V) (Unit {0})
  unfolding should_reclaim bulk_reclaim
  retire d rounds now fresh value = do
    push (retired d) rounds fresh (record { ptr = value; retirable = value })
    wanted ← should_reclaim d now
    if wanted then bulk_reclaim d rounds >> pure tt else pure tt

  -- `Drop for Domain`, and then its fields.
  unfoldable pub drop : ℕ → ℕ → M (World V) (Unit {0})
  unfolding bulk_reclaim
  drop d rounds = do
    bulk_reclaim d rounds
    head ← load (at_head within retired d)
    if head == null
        then (do LockFreeList.drop (retired d) rounds; LockFreeList.drop (hazard_ptrs d) rounds)
        else stop panics
