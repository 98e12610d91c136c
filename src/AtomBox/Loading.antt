-- ===== src/AtomBox/Loading.antt =====
-- `load` of a thread that runs alone, and the value behind its guard while others are stored.
use atom_box.Prelude.{
  ℕ, suc, ◌<◌, ◌≡◌, refl, ◌∙◌, sym, ap, subst, true, false, [], ◌∷◌, some, Option, ◌==◌, arith,
  length, eq→==,
}
use atom_box.Machine.{Ptr, null, returns, write, cell, is_free, Lens, ◌within◌, access}
use atom_box.LockFreeList
use atom_box.LockFreeList.{at_nodes, iter}
use atom_box.LockFreeList.Chain.{Cells, Seg, node, write-write}
use atom_box.LockFreeList.Order.{addresses, length-addresses}
use atom_box.LockFreeList.Push.{pushed, push-pushed, Seg-pushed}
use atom_box.HazardPointerList
use atom_box.HazardPointerList.{HazardPointerList, set_value, get_available, push_in_use}
use atom_box.HazardPointerList.Idle.{IsIdle, find_available-none, Seg-Shape}
use atom_box.World.{World, Domain, live, Retire, update_self}
use atom_box.ReclaimStrategy.{eager}
use atom_box.Domain.{contains, hazard_ptrs, protect, acquire_new_haz_ptr, acquire_haz_ptr}
use atom_box.Domain.Guarded.{held}
use atom_box.Domain.Safety.{mentions, IsDomain}
use atom_box.AtomBox.{LoadGuard, load_loop, load, store, deref}
use atom_box.AtomBox.Replace.{store_lem}

-- A pushed node that is written again.
pushed-rewritten :
    {S T : Type 0} (self : Lens S (LockFreeList.LockFreeList T)) (l : LockFreeList.LockFreeList T)
    (s : S) (fresh : Ptr) (v w : T)
    → (at_nodes within self).put
        (write (self.get (self.put (pushed l fresh v) s)).nodes fresh (some (node w l.head)))
        (self.put (pushed l fresh v) s)
      ≡ self.put (pushed l fresh w) s
pushed-rewritten self l s fresh v w = simp (
  self.get-put,
  self.put-put,
  write-write l.nodes fresh (some (node v l.head)) (some (node w l.head)),
)

module _ {V : Type 0} (d : ℕ) (s : World V) where
  -- The memory with one more hazard pointer in the domain.
  abbrev pub with_hazard : Ptr → HazardPointerList.Node → World V
  with_hazard fresh n = (hazard_ptrs d).put (pushed (s.domains d).hazard_ptrs fresh n) s

  pub protect-writes :
      (haz ptr : Ptr) (n : LockFreeList.Node HazardPointerList.Node)
      → cell (s.domains d).hazard_ptrs.nodes haz ≡ some n
      → protect d haz ptr [] s
        ≡ returns (
          tt,
          [],
          (at_nodes within hazard_ptrs d).put
              (write
                (s.domains d).hazard_ptrs.nodes
                haz
                (some (set_value (record n.value { ptr = ptr }) n)))
              s,
        )
  unfolding protect HazardPointerList.store access
  protect-writes haz ptr n own = rw own refl

  pub acquire_haz_ptr-pushes :
      (rounds : ℕ) (fresh : Ptr) (hs : Cells HazardPointerList.Node)
      → Seg (s.domains d).hazard_ptrs.nodes null (s.domains d).hazard_ptrs.head hs
      → IsIdle (s.domains d).hazard_ptrs.nodes
      → is_free (s.domains d).hazard_ptrs.nodes fresh ≡ true
      → length hs < suc rounds
      → acquire_haz_ptr d (suc rounds) fresh [] s
        ≡ returns (fresh, [], with_hazard fresh (record { ptr = null; active = true }))
  unfolding acquire_haz_ptr acquire_new_haz_ptr get_available push_in_use iter
  acquire_haz_ptr-pushes rounds fresh hs seg idle free enough =
      rw
        (find_available-none (hazard_ptrs d) (suc rounds) s (s.domains d).hazard_ptrs.head
          (addresses hs) idle (Seg-Shape _ _ hs seg) (rw (length-addresses hs) enough))
        (push-pushed (hazard_ptrs d) rounds fresh (record { ptr = null; active = true }) s free)

module _ {V : Type 0} (b rounds : ℕ) (s : World V) (fresh : Ptr) (hs : Cells HazardPointerList.Node)
    (free : is_free (s.domains (s.boxes b).domain).hazard_ptrs.nodes fresh ≡ true) where
  abbrev d : ℕ
  d = (s.boxes b).domain

  abbrev p : Ptr
  p = (s.boxes b).ptr

  -- A hazard pointer in use that holds `ptr`.
  abbrev pub active : Ptr → HazardPointerList.Node
  active ptr = record { ptr = ptr; active = true }

  abbrev first : World V
  first = with_hazard d s fresh (active null)

  protected : protect d fresh p [] first ≡ returns (tt, [], with_hazard d s fresh (active p))
  protected =
      let l = (s.domains d).hazard_ptrs in
      let kept : (first.domains d).hazard_ptrs ≡ pushed l fresh (active null) =
        (hazard_ptrs d).get-put (pushed l fresh (active null)) s in
      let own : cell (first.domains d).hazard_ptrs.nodes fresh ≡ some (node (active null) l.head) =
        subst (λ (x : HazardPointerList). cell x.nodes fresh ≡ some (node (active null) l.head))
          (sym kept) (ground (arith, free)) in
      protect-writes d first fresh p (node (active null) l.head) own
      ∙ ap (λ (w : World V). returns (tt, [], w))
          (pushed-rewritten (hazard_ptrs d) l s fresh (active null) (active p))

  load_loop-first :
      load_loop b d (suc rounds) fresh p [] first
      ≡ returns (p, [], with_hazard d s fresh (active p))
  unfolding load_loop
  load_loop-first = rw protected (rw (eq→== p p refl) refl)

  module _ (seg : Seg (s.domains d).hazard_ptrs.nodes null (s.domains d).hazard_ptrs.head hs)
      (idle : IsIdle (s.domains d).hazard_ptrs.nodes) (enough : length hs < suc rounds) where
    -- A thread that runs alone, where no inactive hazard pointer of the domain holds an address,
    -- and with a free address and rounds for all hazard pointers, loads the address in the box: a
    -- new hazard pointer in front of the domain's list holds it, and nothing else has changed.
    pub load_lem :
        load b (suc rounds) fresh [] s
        ≡ returns (
          record { ptr = p; domain = d; haz_ptr = some fresh },
          [],
          with_hazard d s fresh (active p),
        )
    unfolding load
    load_lem =
        rw (acquire_haz_ptr-pushes d s rounds fresh hs seg idle free enough)
          (rw load_loop-first refl)

module _ {V : Type 0} (b rounds : ℕ) (now : Option ℕ) (fresh value node : Ptr) (v old : V)
    (s : World V) (xs : Cells Retire) (hs : Cells HazardPointerList.Node)
    (inv : IsDomain (s.boxes b).domain xs hs s)
    (idle : IsIdle (s.domains (s.boxes b).domain).hazard_ptrs.nodes)
    (is_eager : (s.domains (s.boxes b).domain).reclaim_strategy ≡ eager)
    (alive : cell s.values (s.boxes b).ptr ≡ some (live old))
    (once : mentions xs (s.boxes b).ptr ≡ false)
    (free : is_free (s.domains (s.boxes b).domain).hazard_ptrs.nodes fresh ≡ true)
    (free' : is_free s.values value ≡ true)
    (free'' : is_free (s.domains (s.boxes b).domain).retired.nodes node ≡ true)
    (enough : length xs < rounds) (enough' : suc (length hs) < rounds) where
  abbrev loaded : World V
  loaded = with_hazard (s.boxes b).domain s fresh (record { ptr = (s.boxes b).ptr; active = true })

  loaded_domain : loaded.domains (s.boxes b).domain ≡ record (s.domains (s.boxes b).domain) {
    hazard_ptrs =
        pushed
          (s.domains (s.boxes b).domain).hazard_ptrs
          fresh
          (record { ptr = (s.boxes b).ptr; active = true });
  }
  loaded_domain = update_self s.domains (s.boxes b).domain _

  loaded-IsDomain :
      IsDomain
        (s.boxes b).domain
        xs
        ((fresh, record { ptr = (s.boxes b).ptr; active = true }) ∷ hs)
        loaded
  loaded-IsDomain = record {
    items =
        subst (λ (x : Domain). Seg x.retired.nodes null x.retired.head xs) (sym loaded_domain)
          inv.items;
    hazards =
        subst
          (λ (x : Domain).
            Seg x.hazard_ptrs.nodes null x.hazard_ptrs.head
              ((fresh, record { ptr = (s.boxes b).ptr; active = true }) ∷ hs))
          (sym loaded_domain)
          (Seg-pushed (s.domains (s.boxes b).domain).hazard_ptrs fresh _ hs free inv.hazards);
    promised = inv.promised;
  }

  -- A thread that runs alone loads a value from a box of an eager domain and then stores another
  -- one, where no inactive hazard pointer of the domain holds an address, the value is live and not
  -- retired, the addresses allocated are free, and there are rounds for all items and hazard
  -- pointers. Then the store retires the loaded value and reclaims at once, and a read through the
  -- guard still gives the loaded value.
  pub load-store :
      (s' s'' : World V) × (guard : LoadGuard) × (load b (suc rounds) fresh [] s
        ≡ returns (guard, [], s'))
      × (store b (suc rounds) now value node v [] s' ≡ returns (tt, [], s''))
      × ((s''.boxes b).ptr ≡ value)
      × (deref guard.ptr [] s'' ≡ returns (old, [], s''))
  load-store =
      let d : ℕ = (s.boxes b).domain in
      let p : Ptr = (s.boxes b).ptr in
      let (s'', run, holds, _, ends) =
        store_lem b rounds now value node v old loaded xs
          ((fresh, record { ptr = p; active = true }) ∷ hs)
          (ap (λ (x : Domain). x.reclaim_strategy) loaded_domain ∙ is_eager) loaded-IsDomain alive
          once free' (ap (λ (x : Domain). is_free x.retired.nodes node) loaded_domain ∙ free'')
          enough enough' in
      let there : (p == null) ≡ false = ground (arith, alive) in
      let is_held : contains (held ((fresh, record { ptr = p; active = true }) ∷ hs)) p ≡ true =
        ground (arith, eq→== p p refl) in
      (
        loaded,
        s'',
        record { ptr = p; domain = d; haz_ptr = some fresh },
        load_lem b rounds s fresh hs free inv.hazards idle (omega arith),
        run,
        holds,
        ends ∙ rw is_held refl,
      )
