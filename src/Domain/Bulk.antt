-- ===== src/Domain/Bulk.antt =====
-- `bulk_reclaim` of a thread that runs alone.
use atom_box.Prelude.{
  ℕ, ◌+◌, ◌<◌, ◌≡◌, refl, ◌∙◌, false, List, [], ◌∷◌, ◌==◌, arith, length, Bool-cases, ==→eq, inl,
  inr,
}
use atom_box.Machine.{Ptr, null, ◌within◌, returns}
use atom_box.LockFreeList.{LockFreeList, at_head, at_count}
use atom_box.LockFreeList.Chain.{Cells, Seg}
use atom_box.HazardPointerList
use atom_box.World.{World, Retire, update_self}
use atom_box.Domain.{retired, reclaim_unguarded, bulk_reclaim, get_guarded_ptrs}
use atom_box.Domain.Kept.{kept, Droppable}
use atom_box.Domain.Guarded.{held, get_guarded_ptrs-held}
use atom_box.Domain.Unguarded.{Swept, reclaim_unguarded-Swept}

module _ {V : Type 0} (d : ℕ) (s : World V) where
  abbrev emptied : LockFreeList Retire
  emptied = record (s.domains d).retired { head = null; count = 0 }

  -- The memory once the retired list has been taken.
  abbrev taken : World V
  taken = (retired d).put emptied s

  taken-domain : taken.domains d ≡ record (s.domains d) { retired = emptied }
  taken-domain = update_self s.domains d _

  two_stores : (at_count within retired d).put 0 ((at_head within retired d).put null s) ≡ taken
  two_stores = rw ((retired d).get-put emptied_head s) ((retired d).put-put emptied emptied_head s)
    where
      emptied_head : LockFreeList Retire
      emptied_head = record (s.domains d).retired { head = null }

  Swept-taken :
      (guarded : List Ptr) (xs : Cells Retire) (s' : World V)
      → Swept d guarded xs taken s'
      → Swept d guarded xs s s'
  Swept-taken guarded xs s' w = record {
    chain = w.chain;
    count = w.count;
    values = w.values;
    hazards = w.hazards ∙ rw taken-domain;
    strategy = w.strategy ∙ rw taken-domain;
    elsewhere = λ e ne. w.elsewhere e ne ∙ ground arith;
    boxes = w.boxes;
  }

  module _ (rounds : ℕ) (xs : Cells Retire) (hs : Cells HazardPointerList.Node)
      (items : Seg (s.domains d).retired.nodes null (s.domains d).retired.head xs)
      (hazards : Seg (s.domains d).hazard_ptrs.nodes null (s.domains d).hazard_ptrs.head hs)
      (drops : Droppable (held hs) xs s.values) (enough : length xs < rounds)
      (enough' : length hs < rounds) where
    nothing_retired :
        (s.domains d).retired.head ≡ null
        → (bulk_reclaim d rounds [] s ≡ returns (0, [], taken)) × (xs ≡ [])
    unfolding bulk_reclaim
    nothing_retired e = (rw (two_stores, e), nil_of_null xs e items)
      where
        nil_of_null :
            (xs : Cells Retire)
            → (s.domains d).retired.head ≡ null
            → Seg (s.domains d).retired.nodes null (s.domains d).retired.head xs
            → xs ≡ []
        nil_of_null [] e items = refl
        nil_of_null ((a, r) ∷ xs) e (q, f, c, o, seg) = absurd (ground arith)

    something_retired :
        ((s.domains d).retired.head == null) ≡ false
        → bulk_reclaim d rounds [] s
          ≡ reclaim_unguarded d rounds (held hs) (s.domains d).retired.head [] taken
    unfolding bulk_reclaim
    something_retired ne =
        let guards : get_guarded_ptrs d rounds [] taken ≡ returns (held hs, [], taken) =
          get_guarded_ptrs-held d rounds taken hs (rw taken-domain hazards) enough' in
        rw two_stores (rw ne (rw guards))

    taken-items : Seg (taken.domains d).retired.nodes null (s.domains d).retired.head xs
    taken-items = rw taken-domain items

    -- A thread that runs alone, with rounds for every retired item and every hazard pointer, ends
    -- `bulk_reclaim`: the retired items that no hazard pointer holds are dropped and counted in the
    -- result, the others are retired again, and nothing else changes.
    pub bulk_reclaim-Swept :
        (n : ℕ) × (s' : World V) × (bulk_reclaim d rounds [] s ≡ returns (n, [], s'))
        × (n + length (kept (held hs) xs []) ≡ length xs)
        × Swept d (held hs) xs s s'
    bulk_reclaim-Swept = elim (Bool-cases ((s.domains d).retired.head == null)) [
      | inl empty ↦
          let (run, no_items) = nothing_retired (==→eq _ _ empty) in
          (0, taken, run, rw no_items, Swept-taken (held hs) xs taken (swept_nothing no_items))
      | inr ne ↦
          let (n, s', run, total, swept) =
            reclaim_unguarded-Swept d (held hs) taken rounds (s.domains d).retired.head xs
              (rw taken-domain) (rw taken-domain) taken-items drops enough in
          (n, s', something_retired ne ∙ run, total, Swept-taken (held hs) xs s' swept)
    ]
      where
        swept_nothing : xs ≡ [] → Swept d (held hs) xs taken taken
        swept_nothing e = rw e (record {
          chain = rw taken-domain;
          count = rw taken-domain;
          values = refl;
          hazards = refl;
          strategy = refl;
          elsewhere = λ e ne. refl;
          boxes = refl;
        })
