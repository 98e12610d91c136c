-- ===== src/Tests/Holders.antt =====
-- The hazard pointers of a domain in the two-headed list: the nodes 20, 21 and 22, of which 20 is
-- available and 22 holds the address 7.
use atom_box.Prelude.{
  ◌≡◌, refl, Bool, true, false, ◌||◌, if◌then◌else◌, List, [], ◌∷◌, some, none, ◌==◌, arith,
}
use atom_box.Machine.{Ptr, returns, write, whole, is_free}
use atom_box.LockFreeList.Chain.{Cells}
use atom_box.Bicephaly.{Bicephaly, Node}
use atom_box.Domain.{contains}
use atom_box.HazardPointers.{HazardPointers, acquire_haz_ptr, release_hazard_ptr, get_guarded_ptrs}
use atom_box.HazardPointers.Pooled.{Holds}
use atom_box.HazardPointers.TwoHeads.{store, two_heads}
use atom_box.HazardPointers.Protecting.{acquire_haz_ptr-release_hazard_ptr}

abbrev holder : Ptr → Ptr → Ptr → Node Ptr
holder p q r = record { value = p; next_available = q; next_in_use = r }

abbrev holders : Bicephaly Ptr
holders = record {
  available_head = 20;
  in_use_head = 22;
  available_count = 1;
  in_use_count = 3;
  nodes =
      write (write (write (λ _. none) 20 (some (holder 0 0 0))) 21 (some (holder 0 0 20))) 22
        (some (holder 7 0 21));
}

abbrev held : Cells Ptr
held = (22, 7) ∷ (21, 0) ∷ (20, 0) ∷ []

abbrev in_use : Ptr → Bool
in_use a = if a == 20 then false else true

holders-Holds : Holds holders held in_use (20 ∷ [])
holders-Holds = record {
  pool = record {
    chain =
        (holder 7 0 21, refl, refl, (holder 0 0 20, refl, refl, (holder 0 0 0, refl, refl, refl)));
    ready = (holder 0 0 0, refl, refl, refl);
    distinct = (refl, (refl, (refl, tt)));
    once = (refl, tt);
    subset = λ a i. ground arith;
    all_counted = refl;
    free_counted = refl;
  };
  values = (holder 7 0 21, refl, refl, (holder 0 0 20, refl, refl, (holder 0 0 0, refl, refl, tt)));
  available = λ a p e. ground arith;
  empty = λ a i. ground arith;
}

abbrev pointers : HazardPointers (Bicephaly Ptr)
pointers = two_heads whole

acquire_haz_ptr-release_hazard_ptr_example :
    (guards : List Ptr) × (get_guarded_ptrs pointers 4 [] holders ≡ returns (guards, [], holders))
    × (a : Ptr) × (s₁ : Bicephaly Ptr) × (acquire_haz_ptr pointers 4 30 [] holders
        ≡ returns (a, [], s₁))
    × (s₂ : Bicephaly Ptr) × (store whole a 9 [] s₁ ≡ returns (tt, [], s₂))
    × (guards' : List Ptr) × (get_guarded_ptrs pointers 5 [] s₂ ≡ returns (guards', [], s₂))
    × ((q : Ptr) → contains guards' q ≡ ((9 == q) || contains guards q))
    × ((fresh' : Ptr)
        → is_free s₂.nodes fresh' ≡ true
        → (b : Ptr) × (s' : Bicephaly Ptr) × (acquire_haz_ptr pointers 5 fresh' [] s₂
            ≡ returns (b, [], s'))
          × ((a == b) ≡ false))
    × (s₃ : Bicephaly Ptr) × (release_hazard_ptr pointers 4 a [] s₂ ≡ returns (tt, [], s₃))
    × (get_guarded_ptrs pointers 5 [] s₃ ≡ returns (guards, [], s₃))
acquire_haz_ptr-release_hazard_ptr_example =
    acquire_haz_ptr-release_hazard_ptr pointers 3 holders held in_use 30 9 (20 ∷ [], holders-Holds)
      refl (omega arith) refl
