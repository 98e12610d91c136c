-- ===== src/Domain/Hazard.antt =====
-- `release_hazard_ptr` of a thread that runs alone.
use atom_box.Prelude.{ℕ, ◌≡◌, ◌∙◌, [], some, arith}
use atom_box.Machine.{Ptr, null, write, cell, returns, access}
use atom_box.LockFreeList
use atom_box.LockFreeList.{at_nodes}
use atom_box.LockFreeList.Chain.{write-write}
use atom_box.HazardPointerList
use atom_box.HazardPointerList.{HazardPointerList, Node}
use atom_box.HazardPointerList.Idle.{given_back, set_node_available-given_back}
use atom_box.World.{World}
use atom_box.Domain.{hazard_ptrs, reset, release_hazard_ptr}

module _ {V : Type 0} (d : ℕ) (haz : Ptr) (s : World V) (n : LockFreeList.Node Node)
    (own : cell (s.domains d).hazard_ptrs.nodes haz ≡ some n) where
  -- The hazard pointers once the node has been given back.
  abbrev pub without : HazardPointerList
  without = record (s.domains d).hazard_ptrs {
    nodes = write (s.domains d).hazard_ptrs.nodes haz (some (given_back n));
  }

  abbrev cleared : LockFreeList.Node Node
  cleared = record n { value = record n.value { ptr = null } }

  abbrev halfway : HazardPointerList
  halfway = record (s.domains d).hazard_ptrs {
    nodes = write (s.domains d).hazard_ptrs.nodes haz (some cleared);
  }

  reset-halfway : reset d haz [] s ≡ returns (tt, [], (hazard_ptrs d).put halfway s)
  unfolding reset HazardPointerList.store access
  reset-halfway = rw own

  pub release_hazard_ptr-without :
      release_hazard_ptr d haz [] s ≡ returns (tt, [], (hazard_ptrs d).put without s)
  unfolding release_hazard_ptr
  release_hazard_ptr-without =
      let still : cell ((hazard_ptrs d).get ((hazard_ptrs d).put halfway s)).nodes haz
          ≡ some cleared =
        rw ((hazard_ptrs d).get-put halfway s) (ground (arith, own)) in
      rw reset-halfway (
        set_node_available-given_back (hazard_ptrs d) haz ((hazard_ptrs d).put halfway s) cleared
          still
        ∙ rw ((hazard_ptrs d).get-put halfway s) (
            rw ((hazard_ptrs d).put-put _ halfway s) (
              rw (
                write-write (s.domains d).hazard_ptrs.nodes haz (some cleared)
                  (some (given_back cleared))))))
