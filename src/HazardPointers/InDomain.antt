-- ===== src/HazardPointers/InDomain.antt =====
-- The hazard pointers of a domain without the feature `bicephany`.
use atom_box.Prelude.{ℕ, zero, suc, ◌≡◌, refl, ap, List, [], ◌∷◌, none, some, ◌==◌, if◌then◌else◌}
use atom_box.Machine.{Ptr, null, M, pure, ◌>>=◌}
use atom_box.LockFreeList.{iter, next}
use atom_box.HazardPointerList.{load}
use atom_box.World.{World}
use atom_box.Domain
use atom_box.Domain.{hazard_ptrs}
use atom_box.HazardPointers.{acquire_haz_ptr, release_hazard_ptr, collect_guarded, get_guarded_ptrs}
use atom_box.HazardPointers.OneHead.{one_head}

module _ {V : Type 0} (d : ℕ) where
  pub acquire_haz_ptr-one_head :
      Domain.acquire_haz_ptr {V = V} d ≡ acquire_haz_ptr (one_head (hazard_ptrs d))
  unfolding acquire_haz_ptr Domain.acquire_haz_ptr
  acquire_haz_ptr-one_head = refl

  pub release_hazard_ptr-one_head :
      (rounds : ℕ)
      → Domain.release_hazard_ptr {V = V} d ≡ release_hazard_ptr (one_head (hazard_ptrs d)) rounds
  unfolding release_hazard_ptr Domain.release_hazard_ptr
  release_hazard_ptr-one_head rounds = refl

  -- A round of `collect_guarded`.
  abbrev round : (Ptr → M (World V) (List Ptr)) → Ptr → M (World V) (List Ptr)
  round collect node = do
    item ← next (hazard_ptrs d) node
    elim item [
      | none ↦ pure []
      | some (haz_ptr, rest) ↦ do
        guarded_ptr ← load (hazard_ptrs d) haz_ptr
        others ← collect rest
        pure (if guarded_ptr == null then others else guarded_ptr ∷ others)
    ]

  collect_guarded-one_head :
      (rounds : ℕ)
      → Domain.collect_guarded {V = V} d rounds ≡ collect_guarded (one_head (hazard_ptrs d)) rounds
  unfolding collect_guarded Domain.collect_guarded
  collect_guarded-one_head zero = refl
  collect_guarded-one_head (suc rounds) = ap round (collect_guarded-one_head rounds)

  pub get_guarded_ptrs-one_head :
      (rounds : ℕ)
      → Domain.get_guarded_ptrs {V = V} d rounds
        ≡ get_guarded_ptrs (one_head (hazard_ptrs d)) rounds
  unfolding get_guarded_ptrs Domain.get_guarded_ptrs
  get_guarded_ptrs-one_head rounds =
      ap (λ collect. iter (hazard_ptrs d) >>= collect) (collect_guarded-one_head rounds)
