-- ===== src/HazardPointerList/Acquire.antt =====
-- `try_acquire` among other threads.
use atom_box.Prelude.{◌≡◌, true, false, some, arith, Option-cases, Bool-cases, inl, inr}
use atom_box.Machine.{
  Ptr, returns, Env, cell, write, Lens, meets, later, atomic-meets, access, read,
}
use atom_box.LockFreeList
use atom_box.HazardPointerList.{Node, HazardPointerList, take_active, try_acquire}

-- A node that a thread has taken.
abbrev pub taken : LockFreeList.Node Node → LockFreeList.Node Node
taken n = record n { value = record n.value { active = true } }

-- From `before`, where the node is inactive, one step makes it active.
pub record Takes {S : Type 0} (self : Lens S HazardPointerList) (a : Ptr) (before after : S)
    : Type 0 where
  pub node : LockFreeList.Node Node
  pub own : cell (self.get before).nodes a ≡ some node
  pub inactive : node.value.active ≡ false
  pub result :
      after
      ≡ self.put
          (record (self.get before) { nodes = write (self.get before).nodes a (some (taken node)) })
          before

module _ {S : Type 0} (self : Lens S HazardPointerList) where
  take :
      (a : Ptr) (env e : Env S) (s : S) {s' : S}
      → take_active self a env s ≡ returns (true, e, s')
      → Takes self a (meets env s) s'
  unfolding take_active access
  take a env e s {s'} h = elim (Option-cases (cell (self.get (meets env s)).nodes a)) [
    | inl gone ↦ absurd (let h' = rw atomic-meets at h in ground arith)
    | inr (n, own) ↦
        let h' = rw atomic-meets at h in
        elim (Bool-cases n.value.active) [
          | inl busy ↦ absurd (ground arith)
          | inr idle ↦ record { node = n; own = own; inactive = idle; result = ground arith }
        ]
  ]

  -- Whatever other threads do before each of its two steps: a `try_acquire` that answers `true` has
  -- itself, in its last step, turned the node from inactive to active, and changed nothing else in
  -- that step.
  pub try_acquire-Takes :
      (a : Ptr) (env e : Env S) (s : S) {s' : S}
      → try_acquire self a env s ≡ returns (true, e, s')
      → Takes self a (meets (later env) (meets env s)) s'
  unfolding try_acquire read
  try_acquire-Takes a env e s {s'} h =
      let h' = rw atomic-meets at h in
      elim (Option-cases (cell (self.get (meets env s)).nodes a)) [
        | inl gone ↦ absurd (ground arith)
        | inr (n, own) ↦ elim (Bool-cases n.value.active) [
          | inl busy ↦ absurd (ground arith)
          | inr idle ↦ take a (later env) e (meets env s) (rw (own, idle) at h')
        ]
      ]
