-- ===== src/Domain/Spared.antt =====
-- A value that a hazard pointer holds, among threads that leave it there: the steps of a reclamation
-- that leave it alone.
pub mod Collect
pub mod Pushing
pub mod Bulk
pub mod Framed
pub mod Taken
pub mod Unlisted
use atom_box.Prelude.{
  ℕ, ◌≡◌, refl, sym, ap, subst, ◌∙◌, Bool, true, false, not, ◌&&◌, ◌||◌, List, [], ◌∷◌, Option,
  none, some, ◌==◌, if◌then◌else◌, arith, Bool-cases, Option-cases, inl, inr, ◌⊎◌, zero, suc, ◌+◌,
  ◌%◌,
}
use atom_box.Machine.{
  Ptr, null, Out, returns, Tick, Env, M, Heap, write, cell, Lens, ◌within◌, access, read, box_drop,
  atomic, compare_exchange_weak, compare_exchange_weak-meets, meets, later, fails_next, load, swap,
  store,
}
use atom_box.Machine.Logic.{
  IsStable, Keeps, Ensures, Leaves, atomic-Ensures, stable_meets, Keeps-later,
}
use atom_box.LockFreeList
use atom_box.LockFreeList.{
  LockFreeList, at_head, at_count, at_nodes, read_node, store_next, fetch_add, isize_mod,
}
use atom_box.HazardPointerList
use atom_box.HazardPointerList.{HazardPointerList}
use atom_box.World.{World, Domain, Boxed, live, dropped, Retire, update_self}
use atom_box.Domain.{retired, drop_in_place}

-- From `q` the `next` pointers lead to `haz`.
pub data Leads (h : Heap (LockFreeList.Node HazardPointerList.Node)) (haz : Ptr)
    : Ptr → Type 0 where
  here : {q : Ptr} → q ≡ haz → Leads h haz q
  behind :
      {q : Ptr} (n : LockFreeList.Node HazardPointerList.Node)
      → cell h q ≡ some n
      → Leads h haz n.next
      → Leads h haz q

-- A list goes on behind each of its nodes.
pub goes_on :
    {h : Heap (LockFreeList.Node HazardPointerList.Node)} {q r : Ptr}
    (n : LockFreeList.Node HazardPointerList.Node)
    → cell h q ≡ some n
    → Leads h q r
    → Leads h n.next r
goes_on n own (here same) = behind n (rw same own) (here refl)
goes_on n own (behind m own' l) = behind m own' (goes_on n own l)

-- `Inv` is what else the threads know of the hazard pointers, such as which nodes are not linked yet.
module _ {V : Type 0} (d : ℕ) (Inv : HazardPointerList → Type 0) (haz p : Ptr) (v : V) where
  abbrev pub chain : World V → HazardPointerList
  chain s = (s.domains d).hazard_ptrs

  -- Each retired item has one address for both purposes.
  abbrev pub Paired : Heap (LockFreeList.Node Retire) → Type 0
  Paired h =
      (a : Ptr) (n : LockFreeList.Node Retire) → cell h a ≡ some n → n.value.retirable ≡ n.value.ptr

  -- The hazard pointer `haz` of the domain's list holds `p`, and the value at `p` is live.
  pub record IsGuarded (s : World V) : Type 0 where
    pub listed : Leads (chain s).nodes haz (chain s).head
    pub node : LockFreeList.Node HazardPointerList.Node
    pub own : cell (chain s).nodes haz ≡ some node
    pub holds : node.value.ptr ≡ p
    pub alive : cell s.values p ≡ some (live v)
    pub inv : Inv (chain s)
    pub paired : Paired (s.domains d).retired.nodes

  -- Other threads leave the value and the hazard pointer as they are, and unlink no node that is in the
  -- list.
  pub record Spares (t : Tick (World V)) : Type 0 where
    pub guarded : (s : World V) → IsGuarded s → IsGuarded (t.others s)
    pub leads :
        (s : World V) (q : Ptr)
        → IsGuarded s
        → Leads (chain s).nodes q (chain s).head
        → Leads (chain s).nodes haz q
        → Leads (chain (t.others s)).nodes q (chain (t.others s)).head
          × Leads (chain (t.others s)).nodes haz q

  pub stable : IsStable Spares IsGuarded
  stable t s k g = k.guarded s g

  -- A change of the retired list that leaves its items paired.
  pub put-IsGuarded :
      (l : LockFreeList Retire) (s : World V)
      → Paired l.nodes
      → IsGuarded s
      → IsGuarded ((retired d).put l s)
  put-IsGuarded l s pairs g =
      let same : ((retired d).put l s).domains d ≡ record (s.domains d) { retired = l } =
        update_self s.domains d _ in
      record {
        listed =
            subst (λ (x : Domain). Leads x.hazard_ptrs.nodes haz x.hazard_ptrs.head) (sym same)
              g.listed;
        node = g.node;
        own = subst (λ (x : Domain). cell x.hazard_ptrs.nodes haz ≡ some g.node) (sym same) g.own;
        holds = g.holds;
        alive = g.alive;
        inv = subst (λ (x : Domain). Inv x.hazard_ptrs) (sym same) g.inv;
        paired = subst (λ (x : Domain). Paired x.retired.nodes) (sym same) pairs;
      }

  Paired-write :
      (h : Heap (LockFreeList.Node Retire)) (a : Ptr) (n : LockFreeList.Node Retire)
      → Paired h
      → n.value.retirable ≡ n.value.ptr
      → Paired (write h a (some n))
  Paired-write h a n pairs one b m own = elim (Bool-cases (b == a)) [
    | inl same ↦ ground arith
    | inr other ↦ pairs b m (ground arith)
  ]

  Paired-free : (h : Heap (LockFreeList.Node Retire)) (a : Ptr) → Paired h → Paired (write h a none)
  Paired-free h a pairs b m own = pairs b m (ground arith)

  module _ (e : Env (World V)) (s : World V) (k : Keeps Spares e) (g : IsGuarded s) where
    -- A change of a retired node that leaves its item as it is.
    pub store_next-Ensures :
        (a q : Ptr) → Ensures Spares (λ _. IsGuarded) (store_next (retired d) a q e s)
    unfolding access
    store_next-Ensures a q =
        atomic-Ensures Spares IsGuarded (λ _. IsGuarded) _ e s stable
          (λ s g. elim (Option-cases (cell (s.domains d).retired.nodes a)) [
            | inl gone ↦ rw gone tt
            | inr (n, own) ↦
                rw own (put-IsGuarded _ s (Paired-write _ a _ g.paired (g.paired a n own)) g)
          ])
          k g

    pub read_node-Ensures :
        (a : Ptr)
        → Ensures Spares
            (λ n s. IsGuarded s × (n.value.retirable ≡ n.value.ptr))
            (read_node (retired d) a e s)
    unfolding read
    read_node-Ensures a =
        atomic-Ensures Spares IsGuarded _ _ e s stable
          (λ s g. elim (Option-cases (cell (s.domains d).retired.nodes a)) [
            | inl gone ↦ rw gone tt
            | inr (n, own) ↦ rw own (g, g.paired a n own)
          ])
          k g

    pub box_drop-Ensures :
        (a : Ptr) → Ensures Spares (λ _. IsGuarded) (box_drop (at_nodes within retired d) a e s)
    unfolding box_drop
    box_drop-Ensures a =
        atomic-Ensures Spares IsGuarded (λ _. IsGuarded) _ e s stable
          (λ s g. elim (Option-cases (cell (s.domains d).retired.nodes a)) [
            | inl gone ↦ rw gone tt
            | inr (n, own) ↦ rw own (put-IsGuarded _ s (Paired-free _ a g.paired) g)
          ])
          k g

    -- The end of another value.
    pub drop_in_place-Ensures :
        (r : Ptr) → (p == r) ≡ false → Ensures Spares (λ _. IsGuarded) (drop_in_place r e s)
    unfolding drop_in_place
    drop_in_place-Ensures r other =
        atomic-Ensures Spares IsGuarded (λ _. IsGuarded) _ e s stable
          (λ s g. elim (Option-cases (cell s.values r)) [
            | inl gone ↦ rw gone tt
            | inr (dropped, own) ↦ rw own tt
            | inr (live w, own) ↦ rw own (record {
              listed = g.listed;
              node = g.node;
              own = g.own;
              holds = g.holds;
              alive = ground (arith, g.alive);
              inv = g.inv;
              paired = g.paired;
            })
          ])
          k g

    pub swap_head-Ensures :
        (q : Ptr) → Ensures Spares (λ _. IsGuarded) (swap (at_head within retired d) q e s)
    swap_head-Ensures q =
        atomic-Ensures Spares IsGuarded (λ _. IsGuarded)
          (λ s. returns ((s.domains d).retired.head, (at_head within retired d).put q s)) e s stable
          (λ s g. put-IsGuarded (record (s.domains d).retired { head = q }) s g.paired g) k g

    pub store_count-Ensures :
        (n : ℕ) → Ensures Spares (λ _. IsGuarded) (store (at_count within retired d) n e s)
    store_count-Ensures n =
        atomic-Ensures Spares IsGuarded (λ _. IsGuarded)
          (λ s. returns (tt, (at_count within retired d).put n s)) e s stable
          (λ s g. put-IsGuarded (record (s.domains d).retired { count = n }) s g.paired g) k g

    pub fetch_add-Ensures : (n : ℕ) → Ensures Spares (λ _. IsGuarded) (fetch_add (retired d) n e s)
    fetch_add-Ensures n =
        atomic-Ensures Spares IsGuarded (λ _. IsGuarded)
          (λ s. returns (
            tt,
            (retired d).put
                (record (s.domains d).retired {
                  count = ((s.domains d).retired.count + n) % isize_mod;
                })
                s,
          ))
          e s stable
          (λ s g.
            put-IsGuarded
              (record (s.domains d).retired {
                count = ((s.domains d).retired.count + n) % isize_mod;
              })
              s g.paired g)
          k g

    pub load_head-Ensures : Ensures Spares (λ _. IsGuarded) (load (at_head within retired d) e s)
    load_head-Ensures =
        atomic-Ensures Spares IsGuarded (λ _. IsGuarded)
          (λ s. returns ((s.domains d).retired.head, s)) e s stable (λ s g. g) k g

    pub exchange_head-Ensures :
        (old new : Ptr)
        → Ensures Spares
            (λ _. IsGuarded)
            (compare_exchange_weak (at_head within retired d) old new e s)
    exchange_head-Ensures old new =
        let t : World V = meets e s in
        let g' : IsGuarded t = stable_meets Spares IsGuarded stable e s k g in
        let k' : Keeps Spares (later e) = Keeps-later Spares e k in
        subst (Ensures Spares (λ _. IsGuarded))
          (sym (compare_exchange_weak-meets (at_head within retired d) old new e s))
          (elim (Bool-cases (((t.domains d).retired.head == old) && not (fails_next e))) [
            | inl done ↦
                rw done
                  (put-IsGuarded (record (t.domains d).retired { head = new }) t g'.paired g', k')
            | inr other ↦ rw other (g', k')
          ])
