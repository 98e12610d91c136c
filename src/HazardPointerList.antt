-- ===== src/HazardPointerList.antt =====
-- src/domain/hazard_pointer_list.rs: the hazard pointers of a domain, a list of nodes that are taken
-- and given back. A `&Node` is the node's address in the list `self`.
pub mod Idle
pub mod Reuse
pub mod Acquire
use atom_box.Prelude.{ℕ, zero, suc, Bool, true, false, Option, none, some, ◌==◌, if◌then◌else◌}
use atom_box.Machine.{Ptr, null, starved, M, pure, stop, ◌>>=◌, ◌>>◌, Lens, ◌within◌, access, read}
use atom_box.LockFreeList
use atom_box.LockFreeList.{LockFreeList, at_nodes, iter, next, push}

pub record Node : Type 0 where
  pub ptr : Ptr
  pub active : Bool

abbrev pub HazardPointerList : Type 0
HazardPointerList = LockFreeList Node

-- An access to the fields of the node at an address.
abbrev pub set_value : Node → LockFreeList.Node Node → LockFreeList.Node Node
set_value v n = record n { value = v }

module _ {S : Type 0} (self : Lens S HazardPointerList) where
  unfoldable pub load : Ptr → M S Ptr
  load node = read (at_nodes within self) node λ n. n.value.ptr

  unfoldable pub store : Ptr → Ptr → M S (Unit {0})
  store node value =
      access (at_nodes within self) node λ n. (tt, set_value (record n.value { ptr = value }) n)

  unfoldable pub reset : Ptr → M S (Unit {0})
  reset node =
      access (at_nodes within self) node λ n. (tt, set_value (record n.value { ptr = null }) n)

  unfoldable pub release : Ptr → M S (Unit {0})
  release node =
      access (at_nodes within self) node λ n. (tt, set_value (record n.value { active = false }) n)

  -- `active.compare_exchange(false, true, _, _).is_ok()`
  unfoldable pub take_active : Ptr → M S Bool
  take_active node = access (at_nodes within self) node λ n.
      if n.value.active then (false, n) else (true, set_value (record n.value { active = true }) n)

  unfoldable pub try_acquire : Ptr → M S Bool
  unfolding take_active
  try_acquire node = do
    active ← read (at_nodes within self) node λ n. n.value.active
    if active then pure false else take_active node

  -- The closure that `get_available` gives to `find`.
  unfoldable pub is_available : Ptr → M S Bool
  unfolding load try_acquire
  is_available node = do ptr ← load node; if ptr == null then pure false else try_acquire node

  -- `find` over a `ListIterator`
  unfoldable pub find_available : ℕ → Ptr → M S (Option Ptr)
  unfolding is_available
  find_available zero node = stop starved
  find_available (suc rounds) node = do
    item ← next self node
    elim item [
      | none ↦ pure none
      | some (found, rest) ↦ do
        available ← is_available found
        if available then pure (some found) else find_available rounds rest
    ]

  unfoldable pub get_available : ℕ → M S (Option Ptr)
  unfolding find_available
  get_available rounds = do node ← iter self; find_available rounds node

  unfoldable pub set_node_available : Ptr → M S (Unit {0})
  unfolding reset release
  set_node_available node = do reset node; release node

  unfoldable pub push_in_use : ℕ → Ptr → Ptr → M S Ptr
  push_in_use rounds fresh ptr = push self rounds fresh (record { ptr = ptr; active = true })
