-- ===== src/AtomBox/Building.antt =====
-- `new_static` of a thread that runs alone.
use atom_box.Prelude.{ℕ, suc, ◌<◌, ◌≡◌, refl, true, [], some, arith, length, subst, sym}
use atom_box.Machine.{null, write, is_free, returns, box_new}
use atom_box.LockFreeList.Chain.{Cells, Seg}
use atom_box.HazardPointerList
use atom_box.HazardPointerList.Idle.{IsIdle}
use atom_box.World.{World, AtomBox, live, update, update_self}
use atom_box.AtomBox.{new_static, new, load, deref, shared_domain}
use atom_box.AtomBox.Loading.{with_hazard, load_lem}
use atom_box.AtomBox.Replace.{deref-live}

module _ {V : Type 0} (b fresh node rounds : ℕ) (v : V) (s : World V)
    (hs : Cells HazardPointerList.Node) (free : is_free s.values fresh ≡ true)
    (free' : is_free (s.domains shared_domain).hazard_ptrs.nodes node ≡ true)
    (hazards : Seg
      (s.domains shared_domain).hazard_ptrs.nodes
      null
      (s.domains shared_domain).hazard_ptrs.head
      hs)
    (idle : IsIdle (s.domains shared_domain).hazard_ptrs.nodes)
    (enough : length hs < suc rounds) where
  abbrev built : World V
  built = record s {
    values = write s.values fresh (some (live v));
    boxes = update s.boxes b (record { ptr = fresh; domain = shared_domain });
  }

  new_static-built : new_static b fresh v [] s ≡ returns (b, [], built)
  unfolding new_static new box_new
  new_static-built = rw free refl

  built_box : built.boxes b ≡ record { ptr = fresh; domain = shared_domain }
  built_box = update_self s.boxes b _

  -- A thread that runs alone, with free addresses and rounds for the hazard pointers of the shared
  -- domain, none of which holds an address while it is inactive, makes a box with `new_static` and
  -- loads it: the guard is of the shared domain and has the address of the value, and a read through
  -- it gives the value.
  pub load-new_static :
      (s₁ s₂ : World V) × (new_static b fresh v [] s ≡ returns (b, [], s₁))
      × (load b (suc rounds) node [] s₁
          ≡ returns (record { ptr = fresh; domain = shared_domain; haz_ptr = some node }, [], s₂))
      × (deref fresh [] s₂ ≡ returns (v, [], s₂))
  load-new_static = (
    built,
    with_hazard shared_domain built node (record { ptr = fresh; active = true }),
    new_static-built,
    subst
        (λ (x : AtomBox).
          load b (suc rounds) node [] built
          ≡ returns (
            record { ptr = x.ptr; domain = x.domain; haz_ptr = some node },
            [],
            with_hazard x.domain built node (record { ptr = x.ptr; active = true }),
          ))
        built_box
        (load_lem b rounds built node hs
          (subst (λ (x : AtomBox). is_free (s.domains x.domain).hazard_ptrs.nodes node ≡ true)
            (sym built_box) free')
          (subst
            (λ (x : AtomBox).
              Seg (s.domains x.domain).hazard_ptrs.nodes null (s.domains x.domain).hazard_ptrs.head
                hs)
            (sym built_box) hazards)
          (subst (λ (x : AtomBox). IsIdle (s.domains x.domain).hazard_ptrs.nodes) (sym built_box)
            idle)
          enough),
    deref-live _ fresh v (ground (arith, free)),
  )
