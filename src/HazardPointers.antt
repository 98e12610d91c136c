-- ===== src/HazardPointers.antt =====
-- The type alias `HazardPointers` of src/domain/mod.rs: what a domain uses of its list of hazard
-- pointers, which either list provides, and the domain's functions over it.
pub mod Protecting
pub mod OneHead
pub mod Listed
pub mod Values
pub mod Pooled
pub mod TwoHeads
pub mod InDomain
use atom_box.Prelude.{
  ℕ, zero, suc, ◌<◌, ◌≡◌, Bool, true, false, List, [], ◌∷◌, Option, none, some, ◌==◌, if◌then◌else◌,
  length,
}
use atom_box.Machine.{Ptr, null, M, returns, starved, pure, stop, ◌>>=◌, ◌>>◌}
use atom_box.LockFreeList.Chain.{Cells}
use atom_box.LockFreeList.Entry.{entry, replaced}
use atom_box.World.{update}

-- What a search for an available node leaves, where `M` is about the memory afterwards, and `Same` says
-- that it has not changed.
abbrev pub Found :
    Type 0 → (Cells Ptr → (Ptr → Bool) → Type 0) → Cells Ptr → (Ptr → Bool) → Option Ptr → Type 0
Found Same M ns used none = Same
Found Same M ns used (some a) =
    (entry ns a ≡ some null) × (used a ≡ false) × M ns (update used a true)

-- `Models s ns used` is to say that the hazard pointers are the nodes `ns`, with the addresses that they
-- hold, of which `used` says which are in use; `At s q ns` that an iterator at `q` has `ns` ahead.
-- Each law is about a thread that runs alone.
pub record HazardPointers (S : Type 0) : Type 1 where
  pub load : Ptr → M S Ptr
  pub store : Ptr → Ptr → M S (Unit {0})
  pub get_available : ℕ → M S (Option Ptr)
  pub set_node_available : ℕ → Ptr → M S (Unit {0})
  pub push_in_use : ℕ → Ptr → Ptr → M S Ptr
  pub iter : M S Ptr
  pub next : Ptr → M S (Option (Ptr × Ptr))
  pub free : S → Ptr → Bool
  pub Models : S → Cells Ptr → (Ptr → Bool) → Type 0
  pub At : S → Ptr → Cells Ptr → Type 0
  pub store-replaced :
      (s : S) (ns : Cells Ptr) (used : Ptr → Bool) (a p q : Ptr)
      → Models s ns used
      → entry ns a ≡ some p
      → used a ≡ true
      → (s' : S) × (store a q [] s ≡ returns (tt, [], s')) × Models s' (replaced ns a q) used
  pub get_available-used :
      (rounds : ℕ) (s : S) (ns : Cells Ptr) (used : Ptr → Bool)
      → Models s ns used
      → length ns < suc rounds
      → (found : Option Ptr) × (s' : S) × (get_available (suc rounds) [] s
          ≡ returns (found, [], s'))
        × Found (s' ≡ s) (Models s') ns used found
  pub set_node_available-unused :
      (rounds : ℕ) (s : S) (ns : Cells Ptr) (used : Ptr → Bool) (a : Ptr)
      → Models s ns used
      → entry ns a ≡ some null
      → used a ≡ true
      → (s' : S) × (set_node_available (suc rounds) a [] s ≡ returns (tt, [], s'))
        × Models s' ns (update used a false)
  pub push_in_use-used :
      (rounds : ℕ) (s : S) (ns : Cells Ptr) (used : Ptr → Bool) (fresh p : Ptr)
      → Models s ns used
      → free s fresh ≡ true
      → (entry ns fresh ≡ none)
        × (s' : S) × (push_in_use (suc rounds) fresh p [] s ≡ returns (fresh, [], s'))
        × Models s' ((fresh, p) ∷ ns) (update used fresh true)
  pub iter-At :
      (s : S) (ns : Cells Ptr) (used : Ptr → Bool)
      → Models s ns used
      → (q : Ptr) × (iter [] s ≡ returns (q, [], s)) × At s q ns
  pub next-none : (s : S) (q : Ptr) → At s q [] → next q [] s ≡ returns (none, [], s)
  pub next-some :
      (s : S) (q a p : Ptr) (ns : Cells Ptr)
      → At s q ((a, p) ∷ ns)
      → (r : Ptr) × (next q [] s ≡ returns (some (a, r), [], s))
        × (load a [] s ≡ returns (p, [], s))
        × At s r ns

module _ {S : Type 0} (hazard_ptrs : HazardPointers S) where
  unfoldable pub acquire_haz_ptr : ℕ → Ptr → M S Ptr
  acquire_haz_ptr rounds fresh = do
    found ← hazard_ptrs.get_available rounds
    elim found [ some haz_ptr ↦ pure haz_ptr | none ↦ hazard_ptrs.push_in_use rounds fresh null ]

  unfoldable pub release_hazard_ptr : ℕ → Ptr → M S (Unit {0})
  release_hazard_ptr rounds haz_ptr = do
    hazard_ptrs.store haz_ptr null
    hazard_ptrs.set_node_available rounds haz_ptr

  unfoldable pub collect_guarded : ℕ → Ptr → M S (List Ptr)
  collect_guarded zero node = stop starved
  collect_guarded (suc rounds) node = do
    item ← hazard_ptrs.next node
    elim item [
      | none ↦ pure []
      | some (haz_ptr, rest) ↦ do
        guarded_ptr ← hazard_ptrs.load haz_ptr
        others ← collect_guarded rounds rest
        pure (if guarded_ptr == null then others else guarded_ptr ∷ others)
    ]

  unfoldable pub get_guarded_ptrs : ℕ → M S (List Ptr)
  unfolding collect_guarded
  get_guarded_ptrs rounds = do node ← hazard_ptrs.iter; collect_guarded rounds node
