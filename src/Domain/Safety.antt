-- ===== src/Domain/Safety.antt =====
-- What `bulk_reclaim` means for the values of the program, address by address.
use mathlib.Core.Path.{subst₂}
use atom_box.Prelude.{
  ℕ, ◌+◌, ◌%◌, ◌<◌, ◌≡◌, ◌≢◌, refl, sym, Bool, true, false, not, ◌&&◌, ◌||◌, List, [], ◌∷◌, Option,
  some, ◌==◌, if◌then◌else◌, arith, length, Bool-cases, inl, inr, ==→eq, eq→==,
}
use atom_box.Machine.{Ptr, null, Heap, write, cell, is_free, returns}
use atom_box.LockFreeList.{isize_mod}
use atom_box.LockFreeList.Chain.{Cells, Seg}
use atom_box.HazardPointerList
use atom_box.World.{World, Boxed, live, dropped, Retire}
use atom_box.Domain.{contains, bulk_reclaim}
use atom_box.Domain.Guarded.{held}
use atom_box.Domain.Kept.{kept, values_after, Droppable}
use atom_box.Domain.Bulk.{bulk_reclaim-Swept}

-- Whether the value at `p` is among the retired items.
abbrev pub mentions : Cells Retire → Ptr → Bool
mentions [] p = false
mentions ((_, r) ∷ xs) p = (r.ptr == p) || mentions xs p

module _ {V : Type 0} where
  -- Each item has one address for both purposes, no two have the same, and their values are live: what
  -- the callers of `retire` promise.
  abbrev pub Promised : Heap (Boxed V) → Cells Retire → Type 0
  Promised vs [] = Unit {0}
  Promised vs ((_, r) ∷ xs) =
      (v : V) × (r.retirable ≡ r.ptr)
      × (cell vs r.ptr ≡ some (live v))
      × (mentions xs r.ptr ≡ false)
      × Promised vs xs

  pub Promised-write :
      (vs : Heap (Boxed V)) (p : Ptr) (c : Option (Boxed V)) (xs : Cells Retire)
      → mentions xs p ≡ false
      → Promised vs xs
      → Promised (write vs p c) xs
  Promised-write vs p c [] o h = tt
  Promised-write vs p c ((a, r) ∷ xs) o (v, same, alive, once, h) =
      (v, same, ground arith, once, Promised-write vs p c xs (ground arith) h)

  pub Promised-live :
      (xs : Cells Retire) (vs : Heap (Boxed V)) (p : Ptr)
      → Promised vs xs
      → mentions xs p ≡ true
      → is_free vs p ≡ false
  Promised-live [] vs p h i = cc
  Promised-live ((a, r) ∷ xs) vs p (v, same, alive, once, h) i =
      ground (arith, Promised-live xs vs p h, ==→eq r.ptr p)

  module _ (guarded : List Ptr) where
    Promised-Droppable :
        (xs : Cells Retire) (vs : Heap (Boxed V)) → Promised vs xs → Droppable guarded xs vs
    Promised-Droppable [] vs h = tt
    Promised-Droppable ((a, r) ∷ xs) vs (v, same, alive, once, h) =
        elim (Bool-cases (contains guarded r.ptr)) [
          | inl is_held ↦ rw (is_held, Droppable) (Promised-Droppable xs vs h)
          | inr not_held ↦
              rw (not_held, Droppable)
                (rw same (v, alive, Promised-Droppable xs _ (Promised-write vs r.ptr _ xs once h)))
        ]

    values_after-lem :
        (xs : Cells Retire) (vs : Heap (Boxed V)) (p : Ptr)
        → Promised vs xs
        → values_after guarded xs vs p
          ≡ (if mentions xs p && not (contains guarded p) then some dropped else vs p)
    values_after-lem [] vs p h = refl
    values_after-lem ((a, r) ∷ xs) vs p (v, same, alive, once, h) =
        let later =
          values_after-lem xs (write vs r.ptr (some dropped)) p
            (Promised-write vs r.ptr _ xs once h) in
        ground (arith, values_after-lem xs vs p h, later, ==→eq r.ptr p)

mentions-kept :
    (guarded : List Ptr) (xs acc : Cells Retire) (p : Ptr)
    → mentions (kept guarded xs acc) p ≡ ((mentions xs p && contains guarded p) || mentions acc p)
mentions-kept guarded [] acc p = refl
mentions-kept guarded ((a, r) ∷ xs) acc p = ground (
  arith,
  mentions-kept guarded xs acc p,
  mentions-kept guarded xs ((a, r) ∷ acc) p,
  ==→eq r.ptr p,
)

Promised-kept :
    {V : Type 0} (guarded : List Ptr) (xs acc : Cells Retire) (vs : Heap (Boxed V))
    → Promised vs xs
    → Promised vs acc
    → ((p : Ptr) → mentions xs p ≡ true → mentions acc p ≡ false)
    → Promised (values_after guarded xs vs) (kept guarded xs acc)
Promised-kept guarded [] acc vs h k apart = k
Promised-kept {V} guarded ((a, r) ∷ xs) acc vs (v, same, alive, once, h) k apart =
    let out : mentions acc r.ptr ≡ false = apart r.ptr (ground (arith, eq→== r.ptr r.ptr refl)) in
    elim (Bool-cases (contains guarded r.ptr)) [
      | inl is_held ↦
          let same_values : values_after guarded ((a, r) ∷ xs) vs ≡ values_after guarded xs vs =
            rw is_held in
          let same_kept : kept guarded ((a, r) ∷ xs) acc ≡ kept guarded xs ((a, r) ∷ acc) =
            rw is_held in
          subst₂ Promised (sym same_values) (sym same_kept) (
            Promised-kept guarded xs ((a, r) ∷ acc) vs h (v, same, alive, out, k)
              (λ p i. ground (arith, apart p, ==→eq r.ptr p)))
      | inr not_held ↦
          let ended : Heap (Boxed V) = write vs r.retirable (some dropped) in
          let same_values : values_after guarded ((a, r) ∷ xs) vs ≡ values_after guarded xs ended =
            rw not_held in
          let same_kept : kept guarded ((a, r) ∷ xs) acc ≡ kept guarded xs acc = rw not_held in
          subst₂ Promised (sym same_values) (sym same_kept) (
            Promised-kept guarded xs acc ended (rw same (Promised-write vs r.ptr _ xs once h))
              (rw same (Promised-write vs r.ptr _ acc out k)) (λ p i. apart p (ground arith)))
    ]

-- The domain `d` with the retired items `xs` and the hazard pointers `hs`.
pub record IsDomain {V : Type 0} (d : ℕ) (xs : Cells Retire) (hs : Cells HazardPointerList.Node)
    (s : World V) : Type 0 where
  pub items : Seg (s.domains d).retired.nodes null (s.domains d).retired.head xs
  pub hazards : Seg (s.domains d).hazard_ptrs.nodes null (s.domains d).hazard_ptrs.head hs
  pub promised : Promised s.values xs

-- From `s` to `s'` a reclamation that counts `n` items.
pub record Reclaims {V : Type 0} (d : ℕ) (xs : Cells Retire) (hs : Cells HazardPointerList.Node)
    (n : ℕ) (s s' : World V) : Type 0 where
  pub left : Cells Retire
  pub domain : IsDomain d left hs s'
  pub waiting : (p : Ptr) → mentions left p ≡ (mentions xs p && contains (held hs) p)
  pub values :
      (p : Ptr)
      → s'.values p
        ≡ (if mentions xs p && not (contains (held hs) p) then some dropped else s.values p)
  pub total : n + length left ≡ length xs
  pub count : (s'.domains d).retired.count ≡ length left % isize_mod
  pub hazards : (s'.domains d).hazard_ptrs ≡ (s.domains d).hazard_ptrs
  pub elsewhere : (e : ℕ) → e ≢ d → s'.domains e ≡ s.domains e
  pub boxes : s'.boxes ≡ s.boxes

module _ {V : Type 0} (d rounds : ℕ) (s : World V) (xs : Cells Retire)
    (hs : Cells HazardPointerList.Node) (inv : IsDomain d xs hs s) (enough : length xs < rounds)
    (enough' : length hs < rounds) where
  -- A thread that runs alone, with rounds for every retired item and every hazard pointer, ends
  -- `bulk_reclaim` with the number of items reclaimed. A retired value is dropped exactly when no hazard
  -- pointer holds its address; those held stay retired, as they were; no other value, no other domain
  -- and no atom box changes, and the count is that of the items left.
  pub bulk_reclaim-Reclaims :
      (n : ℕ) × (s' : World V) × (bulk_reclaim d rounds [] s ≡ returns (n, [], s'))
      × Reclaims d xs hs n s s'
  bulk_reclaim-Reclaims =
      let (n, s', run, total, swept) =
        bulk_reclaim-Swept d s rounds xs hs inv.items inv.hazards
          (Promised-Droppable (held hs) xs s.values inv.promised) enough enough' in
      (
        n,
        s',
        run,
        record {
          left = kept (held hs) xs [];
          domain = record {
            items = swept.chain;
            hazards = rw swept.hazards inv.hazards;
            promised =
                rw swept.values
                  (Promised-kept (held hs) xs [] s.values inv.promised tt (λ p i. refl));
          };
          waiting = λ p. ground (arith, mentions-kept (held hs) xs [] p);
          values = λ p. rw swept.values (values_after-lem (held hs) xs s.values p inv.promised);
          total = total;
          count = swept.count;
          hazards = swept.hazards;
          elsewhere = swept.elsewhere;
          boxes = swept.boxes;
        },
      )

  -- The memory of a reclaimed value is never given back: a thread that runs alone, with rounds for
  -- every retired item and hazard pointer, ends `bulk_reclaim`, and then the allocator may hand out
  -- the very addresses that it could before.
  pub bulk_reclaim-leaks :
      (n : ℕ) × (s' : World V) × (bulk_reclaim d rounds [] s ≡ returns (n, [], s'))
      × ((p : Ptr) → is_free s'.values p ≡ is_free s.values p)
  bulk_reclaim-leaks =
      let (n, s', run, r) = bulk_reclaim-Reclaims in
      (n, s', run, λ p. ground (arith, r.values p, Promised-live xs s.values p inv.promised))
