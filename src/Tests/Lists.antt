-- ===== src/Tests/Lists.antt =====
-- The lists at small memories.
use atom_box.Prelude.{ℕ, ◌≡◌, ◌<◌, refl, true, false, [], ◌∷◌, some, none, arith}
use atom_box.Machine.{alone, Env, write, returns, whole, Tick, access, read}
use atom_box.LockFreeList
use atom_box.LockFreeList.{LockFreeList}
use atom_box.LockFreeList.Push.{pushed, push-pushed}
use atom_box.HazardPointerList
use atom_box.HazardPointerList.{HazardPointerList}
use atom_box.World.{Retire}
use atom_box.HazardPointerList.Idle.{given_back, set_node_available-given_back}
use atom_box.HazardPointerList.Reuse.{History, start, pushed_in_use, returned, get_available-none}
use atom_box.HazardPointerList.Acquire.{Takes, try_acquire-Takes}
use atom_box.LockFreeList.Contended.{Links, push_all-Links}
use atom_box.LockFreeList.Chain.{has}
use atom_box.LockFreeList.Release.{drop_lem}
use atom_box.Machine.{Ptr}
use atom_box.Prelude.{if◌then◌else◌}
use atom_box.LockFreeList.Order.{IsList, walk_all, push-walk_all, push_all-append}
use atom_box.Tests.{small_items, hazard, retired_node, two_retired, one_hazard}

-- A hazard pointer is made, and given back.
abbrev one_made : HazardPointerList
one_made = pushed LockFreeList.new 20 (record { ptr = 0; active = true })

abbrev one_returned : HazardPointerList
one_returned = record one_made {
  nodes = write one_made.nodes 20 (some (given_back (hazard 0 true 0)));
}

one_returned-History : History one_returned
unfolding HazardPointerList.push_in_use
one_returned-History =
    returned 20
      (pushed_in_use 0 20 0 start
        (push-pushed whole 0 20 (record { ptr = 0; active = true }) LockFreeList.new refl))
      (set_node_available-given_back whole 20 one_made (hazard 0 true 0) refl)

get_available-none_example :
    (n : ℕ) × ((rounds : ℕ)
      → n < rounds
      → HazardPointerList.get_available whole rounds [] one_returned
        ≡ returns (none, [], one_returned))
get_available-none_example = get_available-none one_returned one_returned-History

-- Another thread is at work between the two steps of `try_acquire`, but not on this node.
abbrev idle_hazard : HazardPointerList
idle_hazard = record one_hazard { nodes = write (λ _. none) 20 (some (hazard 1 false 0)) }

abbrev counting : Tick HazardPointerList
counting = record { others = λ l. record l { count = 7 }; weak_fails = false }

try_acquire-Takes_example :
    Takes whole 20
      (record idle_hazard { count = 7 })
      (record idle_hazard {
        count = 7;
        nodes = write idle_hazard.nodes 20 (some (hazard 1 true 0));
      })
unfolding HazardPointerList.try_acquire HazardPointerList.take_active access read
try_acquire-Takes_example = try_acquire-Takes whole 20 (alone ∷ counting ∷ []) [] idle_hazard refl

-- Another thread takes the whole list while the node 12 is pushed.
abbrev taking : Tick (LockFreeList Retire)
taking = record { others = λ l. record l { head = 0; count = 0 }; weak_fails = false }

abbrev with_node : LockFreeList Retire
with_node = record two_retired { nodes = write two_retired.nodes 12 (some (retired_node 3 0)) }

push_all-Links_example :
    (e : Env (LockFreeList Retire)) × (s' : LockFreeList Retire) × (LockFreeList.push_all whole 4 12
        12 1
        (alone ∷ taking ∷ [])
        with_node
      ≡ returns (12, e, s'))
    × Links whole 12 12 1 (record { ptr = 3; retirable = 3 }) (alone ∷ taking ∷ []) with_node e s'
push_all-Links_example =
    push_all-Links whole 12 12 1 4 (alone ∷ taking ∷ []) with_node (retired_node 3 0)
      ((λ s. refl), ((λ s. refl), tt)) refl (omega arith)

drop_lem_example :
    (s' : LockFreeList Retire) × (LockFreeList.drop whole 3 [] two_retired ≡ returns (tt, [], s'))
    × ((a : Ptr) → s'.nodes a ≡ (if has a small_items then none else two_retired.nodes a))
    × (◌≡◌ {A = ℕ} 7 7)
drop_lem_example =
    drop_lem whole (λ _. 7) (λ l s. refl) 3 two_retired small_items
      (11, refl, refl, refl, (0, refl, refl, refl, refl)) (omega arith)

two_retired-IsList : IsList two_retired small_items
two_retired-IsList = record {
  items = (11, refl, refl, refl, (0, refl, refl, refl, refl));
  count = refl;
}

abbrev third : Retire
third = record { ptr = 3; retirable = 3 }

push-walk_all_example :
    (s' : LockFreeList Retire) × (LockFreeList.push whole 1 12 third [] two_retired
      ≡ returns (12, [], s'))
    × IsList s' ((12, third) ∷ small_items)
    × (walk_all whole 4 [] two_retired ≡ returns (10 ∷ 11 ∷ [], [], two_retired))
    × (walk_all whole 4 [] s' ≡ returns (12 ∷ 10 ∷ 11 ∷ [], [], s'))
push-walk_all_example =
    push-walk_all whole 0 4 12 third two_retired small_items two_retired-IsList refl (omega arith)

-- The list's own nodes aside, the nodes 12 and 13 are the caller's.
abbrev with_nodes : LockFreeList Retire
with_nodes = record two_retired {
  nodes =
      write (write two_retired.nodes 12 (some (retired_node 3 13))) 13 (some (retired_node 4 0));
}

push_all-append_example :
    (s' : LockFreeList Retire) × (LockFreeList.push_all whole 1 12 13 2 [] with_nodes
      ≡ returns (12, [], s'))
    × IsList s' ((12, third) ∷ (13, record { ptr = 4; retirable = 4 }) ∷ small_items)
push_all-append_example =
    push_all-append whole 0 12 13 0 (record { ptr = 4; retirable = 4 }) with_nodes
      ((12, third) ∷ []) small_items
      (record { items = (11, refl, refl, refl, (0, refl, refl, refl, refl)); count = refl })
      (13, refl, refl, refl, (0, refl, refl, refl, refl)) (λ a i. ground arith)
