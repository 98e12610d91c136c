-- ===== src/Domain/Spared/Pushing.antt =====
-- Another thread that pushes a hazard pointer leaves the guarded value alone.
use atom_box.Prelude.{
  ◌≡◌, sym, subst, true, false, some, Option, if◌then◌else◌, arith, Bool-cases, inl, inr, ℕ,
}
use atom_box.Machine.{Ptr, Tick, Heap, cell, write, is_free}
use atom_box.LockFreeList
use atom_box.LockFreeList.Chain.{node}
use atom_box.LockFreeList.Push.{pushed}
use atom_box.HazardPointerList
use atom_box.HazardPointerList.{HazardPointerList}
use atom_box.World.{World, Domain, Retire, update_self}
use atom_box.Domain.{hazard_ptrs}
use atom_box.Domain.Spared.{Leads, here, behind, IsGuarded, Spares}

Leads-write :
    (h : Heap (LockFreeList.Node HazardPointerList.Node)) (a z q : Ptr)
    (c : Option (LockFreeList.Node HazardPointerList.Node))
    → is_free h a ≡ true
    → Leads h z q
    → Leads (write h a c) z q
Leads-write h a z q c free (here same) = here same
Leads-write h a z q c free (behind n own l) =
    behind n (ground arith) (Leads-write h a z n.next c free l)

module _ {V : Type 0} (d : ℕ) (haz p : Ptr) (v : V) (a : Ptr) (n : HazardPointerList.Node) where
  -- The whole of another thread's `push` at the address `a`; it aborts if the address is in use.
  abbrev pub pushing : Tick (World V)
  pushing = record {
    others = λ s.
        if is_free (s.domains d).hazard_ptrs.nodes a
        then (hazard_ptrs d).put (pushed (s.domains d).hazard_ptrs a n) s
        else s;
    weak_fails = false;
  }

  abbrev Any : HazardPointerList → Type 0
  Any _ = Unit {0}

  module _ (s : World V) (free : is_free (s.domains d).hazard_ptrs.nodes a ≡ true) where
    abbrev after : World V
    after = (hazard_ptrs d).put (pushed (s.domains d).hazard_ptrs a n) s

    after-domain :
        after.domains d
        ≡ record (s.domains d) { hazard_ptrs = pushed (s.domains d).hazard_ptrs a n }
    after-domain = update_self s.domains d _

    after-Leads :
        (z : Ptr)
        → Leads (s.domains d).hazard_ptrs.nodes z (s.domains d).hazard_ptrs.head
        → Leads (pushed (s.domains d).hazard_ptrs a n).nodes z a
    after-Leads z l =
        behind (node n (s.domains d).hazard_ptrs.head) (ground (arith, free))
          (Leads-write (s.domains d).hazard_ptrs.nodes a z _ _ free l)

    after-IsGuarded : IsGuarded d Any haz p v s → IsGuarded d Any haz p v after
    after-IsGuarded g = record {
      listed =
          subst (λ (x : Domain). Leads x.hazard_ptrs.nodes haz x.hazard_ptrs.head)
            (sym after-domain) (after-Leads haz g.listed);
      node = g.node;
      own =
          subst (λ (x : Domain). cell x.hazard_ptrs.nodes haz ≡ some g.node) (sym after-domain)
            (ground (arith, g.own, free));
      holds = g.holds;
      alive = g.alive;
      inv = tt;
      paired =
          subst
            (λ (x : Domain).
              (b : Ptr) (m : LockFreeList.Node Retire)
              → cell x.retired.nodes b ≡ some m
              → m.value.retirable ≡ m.value.ptr)
            (sym after-domain) g.paired;
    }

    after-leads :
        (q : Ptr)
        → Leads (s.domains d).hazard_ptrs.nodes q (s.domains d).hazard_ptrs.head
        → Leads (s.domains d).hazard_ptrs.nodes haz q
        → Leads (after.domains d).hazard_ptrs.nodes q (after.domains d).hazard_ptrs.head
          × Leads (after.domains d).hazard_ptrs.nodes haz q
    after-leads q l m =
        subst
          (λ (x : Domain).
            Leads x.hazard_ptrs.nodes q x.hazard_ptrs.head × Leads x.hazard_ptrs.nodes haz q)
          (sym after-domain)
          (after-Leads q l, Leads-write (s.domains d).hazard_ptrs.nodes a haz q _ free m)

  -- The push of a hazard pointer is one of the things that other threads may do during a reclamation.
  pub pushing-Spares : Spares d Any haz p v pushing
  pushing-Spares = record {
    guarded = λ s g. elim (Bool-cases (is_free (s.domains d).hazard_ptrs.nodes a)) [
      | inl free ↦ rw free (after-IsGuarded s free g)
      | inr taken ↦ rw taken g
    ];
    leads = λ s q g l m. elim (Bool-cases (is_free (s.domains d).hazard_ptrs.nodes a)) [
      | inl free ↦ rw free (after-leads s free q l m)
      | inr taken ↦ rw taken (l, m)
    ];
  }
