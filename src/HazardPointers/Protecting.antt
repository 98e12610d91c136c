-- ===== src/HazardPointers/Protecting.antt =====
-- The life of a hazard pointer, with either list: acquired, set to an address, and released.
use atom_box.Prelude.{
  ℕ, zero, suc, ◌<◌, ◌≤◌, ◌≡◌, refl, ◌∙◌, ap, Bool, true, false, List, [], ◌∷◌, Option, none, some,
  ◌==◌, ◌||◌, ◌⊎◌, if◌then◌else◌, arith, length, Bool-cases, inl, inr, eq→==, ==→eq,
}
use atom_box.Machine.{Ptr, null, returns}
use atom_box.LockFreeList.Chain.{Cells}
use atom_box.LockFreeList.Entry.{entry, replaced, length-replaced, entry-replaced_here}
use atom_box.World.{update}
use atom_box.Domain.{contains}
use atom_box.HazardPointers.{
  HazardPointers, Found, acquire_haz_ptr, release_hazard_ptr, collect_guarded, get_guarded_ptrs,
}

-- What the nodes hold, nulls left out.
abbrev pub guarded : Cells Ptr → List Ptr
guarded [] = []
guarded ((_, p) ∷ ns) = if p == null then guarded ns else p ∷ guarded ns

contains-guarded :
    (ns : Cells Ptr) (a p : Ptr)
    → entry ns a ≡ some null
    → (p == null) ≡ false
    → (q : Ptr) → contains (guarded (replaced ns a p)) q ≡ ((p == q) || contains (guarded ns) q)
contains-guarded [] a p e there q = cc
contains-guarded ((b, r) ∷ ns) a p e there q = elim (Bool-cases (b == a)) [
  | inl here ↦ rw here (ground arith)
  | inr other ↦
      let others = contains-guarded ns a p (ground arith) there q in rw other (ground arith)
]

guarded-replaced :
    (ns : Cells Ptr) (a : Ptr)
    → entry ns a ≡ some null
    → (p : Ptr) → guarded (replaced (replaced ns a p) a null) ≡ guarded ns
guarded-replaced [] a e p = cc
guarded-replaced ((b, r) ∷ ns) a e p = elim (Bool-cases (b == a)) [
  | inl here ↦ let empty : (r == null) ≡ true = ground arith in rw here (rw here (rw empty refl))
  | inr other ↦ rw other (
      rw other (elim (Bool-cases (r == null)) [
        | inl empty ↦ rw empty (guarded-replaced ns a (ground arith) p)
        | inr full ↦ rw full (ap (λ ps. r ∷ ps) (guarded-replaced ns a (ground arith) p))
      ]))
]

module _ {S : Type 0} (hazard_ptrs : HazardPointers S) where
  collect_guarded-guarded :
      (rounds : ℕ) (s : S) (q : Ptr) (ns : Cells Ptr)
      → hazard_ptrs.At s q ns
      → length ns < rounds
      → collect_guarded hazard_ptrs rounds q [] s ≡ returns (guarded ns, [], s)
  unfolding collect_guarded
  collect_guarded-guarded zero s q ns at enough = absurd (omega arith)
  collect_guarded-guarded (suc rounds) s q [] at enough = rw (hazard_ptrs.next-none s q at) refl
  collect_guarded-guarded (suc rounds) s q ((a, p) ∷ ns) at enough =
      let (r, step, read, at') = hazard_ptrs.next-some s q a p ns at in
      rw step (rw read (rw (collect_guarded-guarded rounds s r ns at' (omega arith)) refl))

  get_guarded_ptrs-guarded :
      (rounds : ℕ) (s : S) (ns : Cells Ptr) (used : Ptr → Bool)
      → hazard_ptrs.Models s ns used
      → length ns < rounds
      → get_guarded_ptrs hazard_ptrs rounds [] s ≡ returns (guarded ns, [], s)
  unfolding get_guarded_ptrs
  get_guarded_ptrs-guarded rounds s ns used m enough =
      let (q, begin, at) = hazard_ptrs.iter-At s ns used m in
      rw begin (collect_guarded-guarded rounds s q ns at enough)

  -- A hazard pointer that has been acquired: it is in use and holds nothing, and the others are as before.
  abbrev pub Acquired : Cells Ptr → (Ptr → Bool) → Ptr → Cells Ptr → S → Type 0
  Acquired ns used a ns' s' =
      ((entry ns a ≡ none) ⊎ (used a ≡ false))
      × (entry ns' a ≡ some null)
      × (guarded ns' ≡ guarded ns)
      × (length ns' ≤ suc (length ns))
      × hazard_ptrs.Models s' ns' (update used a true)

  module _ (rounds : ℕ) (s : S) (ns : Cells Ptr) (used : Ptr → Bool) (fresh : Ptr)
      (m : hazard_ptrs.Models s ns used) (unused : hazard_ptrs.free s fresh ≡ true)
      (enough : length ns < suc rounds) where
    acquire_haz_ptr-Acquired :
        (a : Ptr) × (ns' : Cells Ptr) × (s' : S) × (acquire_haz_ptr hazard_ptrs
            (suc rounds)
            fresh
            []
            s
          ≡ returns (a, [], s'))
        × Acquired ns used a ns' s'
    unfolding acquire_haz_ptr
    acquire_haz_ptr-Acquired =
        let (found, s', run, left) = hazard_ptrs.get_available-used rounds s ns used m enough in
        go found s' run left
      where
        go :
            (found : Option Ptr) (s' : S)
            → hazard_ptrs.get_available (suc rounds) [] s ≡ returns (found, [], s')
            → Found (s' ≡ s) (hazard_ptrs.Models s') ns used found
            → (a : Ptr) × (ns' : Cells Ptr) × (s'' : S) × (acquire_haz_ptr hazard_ptrs
                  (suc rounds)
                  fresh
                  []
                  s
                ≡ returns (a, [], s''))
              × Acquired ns used a ns' s''
        go (some a) s' run (empty, unused', m') =
            (a, ns, s', rw run refl, (inr unused', empty, refl, omega arith, m'))
        go none s' run same =
            let (out, s'', pushed, m'') =
              hazard_ptrs.push_in_use-used rounds s ns used fresh null m unused in
            (
              fresh,
              (fresh, null) ∷ ns,
              s'',
              rw run (rw same (rw pushed refl)),
              (inl out, ground (arith, eq→== fresh fresh refl), refl, omega arith, m''),
            )

  -- A node that is in use is not acquired.
  acquired-other :
      (ns : Cells Ptr) (used : Ptr → Bool) (a b p : Ptr)
      → entry ns a ≡ some p
      → used a ≡ true
      → (entry ns b ≡ none) ⊎ (used b ≡ false)
      → (a == b) ≡ false
  acquired-other ns used a b p there in_use new = elim (Bool-cases (a == b)) [
    | inl here ↦ absurd (ground (arith, new, ==→eq a b here))
    | inr other ↦ other
  ]

  -- A hazard pointer of a domain over either list, in a thread that runs alone, with rounds for all
  -- hazard pointers, one more included, and free addresses for new nodes. Once it has been acquired
  -- and set to an address `p`, `get_guarded_ptrs` finds `p` and what it found before, and another
  -- hazard pointer that is acquired is a different one; once it has been released,
  -- `get_guarded_ptrs` answers as before.
  pub acquire_haz_ptr-release_hazard_ptr :
      (rounds : ℕ) (s : S) (ns : Cells Ptr) (used : Ptr → Bool) (fresh p : Ptr)
      → hazard_ptrs.Models s ns used
      → hazard_ptrs.free s fresh ≡ true
      → length ns < suc rounds
      → (p == null) ≡ false
      → (guards : List Ptr) × (get_guarded_ptrs hazard_ptrs (suc rounds) [] s
          ≡ returns (guards, [], s))
        × (a : Ptr) × (s₁ : S) × (acquire_haz_ptr hazard_ptrs (suc rounds) fresh [] s
            ≡ returns (a, [], s₁))
        × (s₂ : S) × (hazard_ptrs.store a p [] s₁ ≡ returns (tt, [], s₂))
        × (guards' : List Ptr) × (get_guarded_ptrs hazard_ptrs (suc (suc rounds)) [] s₂
            ≡ returns (guards', [], s₂))
        × ((q : Ptr) → contains guards' q ≡ ((p == q) || contains guards q))
        × ((fresh' : Ptr)
            → hazard_ptrs.free s₂ fresh' ≡ true
            → (b : Ptr) × (s' : S) × (acquire_haz_ptr hazard_ptrs (suc (suc rounds)) fresh' [] s₂
                ≡ returns (b, [], s'))
              × ((a == b) ≡ false))
        × (s₃ : S) × (release_hazard_ptr hazard_ptrs (suc rounds) a [] s₂ ≡ returns (tt, [], s₃))
        × (get_guarded_ptrs hazard_ptrs (suc (suc rounds)) [] s₃ ≡ returns (guards, [], s₃))
  unfolding release_hazard_ptr
  acquire_haz_ptr-release_hazard_ptr rounds s ns used fresh p m unused enough there =
      let (a, ns₁, s₁, acquired, (_, empty, same, longer, m₁)) =
        acquire_haz_ptr-Acquired rounds s ns used fresh m unused enough in
      let used₁ : Ptr → Bool = update used a true in
      let in_use : used₁ a ≡ true = ground (arith, eq→== a a refl) in
      let (s₂, set, m₂) = hazard_ptrs.store-replaced s₁ ns₁ used₁ a null p m₁ empty in_use in
      let ns₂ : Cells Ptr = replaced ns₁ a p in
      let found : entry ns₂ a ≡ some p = entry-replaced_here ns₁ a null p empty in
      let (s', cleared, m') = hazard_ptrs.store-replaced s₂ ns₂ used₁ a p null m₂ found in_use in
      let ns₃ : Cells Ptr = replaced ns₂ a null in
      let (s₃, given, m₃) =
        hazard_ptrs.set_node_available-unused rounds s' ns₃ used₁ a m'
          (entry-replaced_here ns₂ a p null found) in_use in
      let l₂ = length-replaced ns₁ a p in
      let l₃ = length-replaced ns₂ a null in
      let enough₂ : length ns₂ < suc (suc rounds) = omega arith in
      (
        guarded ns,
        get_guarded_ptrs-guarded (suc rounds) s ns used m enough,
        a,
        s₁,
        acquired,
        s₂,
        set,
        guarded ns₂,
        get_guarded_ptrs-guarded (suc (suc rounds)) s₂ ns₂ used₁ m₂ enough₂,
        λ q. contains-guarded ns₁ a p empty there q ∙ rw same refl,
        λ fresh' unused'.
            let (b, _, s', again, new) =
              acquire_haz_ptr-Acquired (suc rounds) s₂ ns₂ used₁ fresh' m₂ unused' enough₂ in
            (b, s', again, acquired-other ns₂ used₁ a b p found in_use new.0),
        s₃,
        rw cleared given,
        get_guarded_ptrs-guarded (suc (suc rounds)) s₃ ns₃ _ m₃ (omega arith)
            ∙ rw (guarded-replaced ns₁ a empty p ∙ same) refl,
      )
