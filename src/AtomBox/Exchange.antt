-- ===== src/AtomBox/Exchange.antt =====
-- `swap`, `swap_from_guard` and the compare-exchanges of a thread that runs alone, on every branch.
use atom_box.Prelude.{
  ℕ, ◌≡◌, ap, true, [], ◌∷◌, some, none, ◌==◌, if◌then◌else◌, arith, Bool-cases, inl, inr, ==→eq,
}
use atom_box.Machine.{
  alone, spurious, Out, Env, pure, ◌>>◌, Ptr, returns, panics, ok, err, write, is_free, box_new,
  compare_exchange, compare_exchange_weak,
}
use atom_box.World.{World, live, AtomBox, update, update_self}
use atom_box.AtomBox
use atom_box.AtomBox.{
  StoreGuard, LoadGuard, swap, swap_from_guard, drop_load_guard, compare_exchange_from_guard,
  compare_exchange_weak_from_guard, deref,
}

abbrev pub store_guard : Ptr → ℕ → StoreGuard
store_guard p d = record { ptr = p; domain = d }

-- A guard with no hazard pointer.
abbrev pub bare_guard : Ptr → ℕ → LoadGuard
bare_guard p d = record { ptr = p; domain = d; haz_ptr = none }

module _ {V : Type 0} (b : ℕ) (s : World V) where
  -- The memory with `p` in the atom box.
  abbrev pub holding : Ptr → World V
  holding p = record s { boxes = update s.boxes b (record (s.boxes b) { ptr = p }) }

  -- The memory with a new value at `fresh`.
  abbrev pub allocated : Ptr → V → World V
  allocated fresh v = record s { values = write s.values fresh (some (live v)) }

  holding-domain : (p : Ptr) → ((holding p).boxes b).domain ≡ (s.boxes b).domain
  holding-domain p = ap (λ (x : AtomBox.AtomBox). x.domain) (update_self s.boxes b _)

  -- In a thread that runs alone `swap_from_guard` within the domain exchanges the two addresses,
  -- and allocates, drops and retires nothing; with a guard of another domain it panics.
  pub swap_from_guard_lem :
      (g : StoreGuard)
      → swap_from_guard b g [] s ≡ (
          if g.domain == (s.boxes b).domain
          then returns (store_guard (s.boxes b).ptr (s.boxes b).domain, [], holding g.ptr)
          else panics)
  unfolding swap_from_guard
  swap_from_guard_lem g = ground arith

-- The drop of the given guard, and then the result.
abbrev pub answer : {V R : Type 0} → LoadGuard → R → World V → Out (R × Env (World V) × World V)
answer g r = (drop_load_guard g >> pure r) []

module _ {V : Type 0} (b : ℕ) (s : World V) (fresh : Ptr) (v : V) where
  -- `swap` puts the new value in the box and answers with a guard of the old one.
  pub swap_lem :
      is_free s.values fresh ≡ true
      → swap b fresh v [] s
        ≡ returns (
          store_guard (s.boxes b).ptr (s.boxes b).domain,
          [],
          holding b (allocated b s fresh v) fresh,
        )
  unfolding swap box_new
  swap_lem free = rw free (rw (holding-domain b (allocated b s fresh v) fresh))

  -- In a thread that runs alone, and where the address allocated is free, `compare_exchange`
  -- succeeds exactly when the box holds the address of the given guard: then the new value is in
  -- the box and the guard returned owns the old one. Otherwise the box is as before, the new value
  -- stays allocated with nothing that refers to it, and the guard returned has no hazard pointer.
  -- In both cases the given guard is dropped at the end.
  pub compare_exchange_lem :
      (g : LoadGuard)
      → is_free s.values fresh ≡ true
      → AtomBox.compare_exchange b fresh g v [] s ≡ (
          if (s.boxes b).ptr == g.ptr
          then answer g
              (ok (store_guard (s.boxes b).ptr (s.boxes b).domain))
              (holding b (allocated b s fresh v) fresh)
          else answer g
              (err (bare_guard (s.boxes b).ptr (s.boxes b).domain))
              (allocated b s fresh v))
  unfolding AtomBox.compare_exchange compare_exchange box_new
  compare_exchange_lem g free = rw free (elim (Bool-cases ((s.boxes b).ptr == g.ptr)) [
    | inl same ↦ rw same (rw (holding-domain b (allocated b s fresh v) fresh) (rw (==→eq _ _ same)))
    | inr other ↦ rw other
  ])

  -- A `compare_exchange_weak` that fails spuriously, with no other interference and a free address,
  -- answers as a failed one does, even if the box holds the expected address.
  pub compare_exchange_weak-spurious :
      (g : LoadGuard)
      → is_free s.values fresh ≡ true
      → AtomBox.compare_exchange_weak b fresh g v (alone ∷ spurious ∷ []) s
        ≡ answer g (err (bare_guard (s.boxes b).ptr (s.boxes b).domain)) (allocated b s fresh v)
  unfolding AtomBox.compare_exchange_weak compare_exchange_weak box_new
  compare_exchange_weak-spurious g free = elim (Bool-cases ((s.boxes b).ptr == g.ptr)) [
    | inl same ↦ rw (free, same)
    | inr other ↦ rw (free, other)
  ]

module _ {V : Type 0} (b : ℕ) (s : World V) (g : LoadGuard) (value : StoreGuard) where
  -- In a thread that runs alone `compare_exchange_from_guard` panics with a guard of another
  -- domain. Within the domain it succeeds exactly when the box holds the expected address, and
  -- otherwise leaves the box as it is and hands the value's guard back; it allocates nothing.
  pub compare_exchange_from_guard_lem : compare_exchange_from_guard b g value [] s ≡ (
      if value.domain == (s.boxes b).domain
      then (if (s.boxes b).ptr == g.ptr
          then answer g
              (ok (store_guard (s.boxes b).ptr (s.boxes b).domain))
              (holding b s value.ptr)
          else answer g (err (bare_guard (s.boxes b).ptr (s.boxes b).domain, value)) s)
      else panics)
  unfolding compare_exchange_from_guard compare_exchange
  compare_exchange_from_guard_lem = elim (Bool-cases (value.domain == (s.boxes b).domain)) [
    | inr foreign ↦ rw foreign
    | inl near ↦ elim (Bool-cases ((s.boxes b).ptr == g.ptr)) [
      | inl same ↦ rw (near, same) (rw (==→eq _ _ same))
      | inr other ↦ rw (near, other)
    ]
  ]

pub compare_exchange_weak_alone :
    {V : Type 0} (b : ℕ) (s : World V) (fresh : Ptr) (g : LoadGuard) (v : V)
    → AtomBox.compare_exchange_weak b fresh g v [] s ≡ AtomBox.compare_exchange b fresh g v [] s
unfolding AtomBox.compare_exchange_weak AtomBox.compare_exchange compare_exchange_weak
    compare_exchange box_new
compare_exchange_weak_alone b s fresh g v = elim (Bool-cases (is_free s.values fresh)) [
  | inl free ↦ rw free
  | inr taken ↦ rw taken
]

pub compare_exchange_weak_from_guard_alone :
    {V : Type 0} (b : ℕ) (s : World V) (g : LoadGuard) (value : StoreGuard)
    → compare_exchange_weak_from_guard b g value [] s ≡ compare_exchange_from_guard b g value [] s
unfolding compare_exchange_weak compare_exchange compare_exchange_weak_from_guard
    compare_exchange_from_guard
compare_exchange_weak_from_guard_alone b s g value =
    elim (Bool-cases (value.domain == (s.boxes b).domain)) [
      | inl near ↦ rw near
      | inr foreign ↦ rw foreign
    ]

-- A `compare_exchange_weak_from_guard` that fails spuriously, with no other interference and a guard of
-- the domain, answers as a failed one does, and hands the value's guard back.
pub compare_exchange_weak_from_guard-spurious :
    {V : Type 0} (b : ℕ) (s : World V) (g : LoadGuard) (value : StoreGuard)
    → compare_exchange_weak_from_guard b g value (spurious ∷ []) s ≡ (
        if value.domain == (s.boxes b).domain
        then answer g (err (bare_guard (s.boxes b).ptr (s.boxes b).domain, value)) s
        else panics)
unfolding compare_exchange_weak compare_exchange_weak_from_guard
compare_exchange_weak_from_guard-spurious b s g value =
    elim (Bool-cases (value.domain == (s.boxes b).domain)) [
      | inr foreign ↦ rw foreign
      | inl near ↦ elim (Bool-cases ((s.boxes b).ptr == g.ptr)) [
        | inl same ↦ rw (near, same)
        | inr other ↦ rw (near, other)
      ]
    ]

-- In a thread that runs alone, and where the address allocated is free, `compare_exchange_weak` and
-- `compare_exchange_weak_from_guard` do what `compare_exchange` and `compare_exchange_from_guard` do,
-- unless they fail spuriously. If they fail so, the box is as before, even if it holds the expected
-- address; the guard returned has the address in the box and no hazard pointer, and the given guard is
-- dropped. A new value stays allocated, a guarded one is handed back, and a guard of another domain
-- makes the call panic.
pub compare_exchange_weak-compare_exchange :
    {V : Type 0} (b : ℕ) (s : World V) (fresh : Ptr) (g : LoadGuard) (v : V) (value : StoreGuard)
    → is_free s.values fresh ≡ true
    → (AtomBox.compare_exchange_weak b fresh g v [] s ≡ AtomBox.compare_exchange b fresh g v [] s)
      × (AtomBox.compare_exchange_weak b fresh g v (alone ∷ spurious ∷ []) s
          ≡ answer g (err (bare_guard (s.boxes b).ptr (s.boxes b).domain)) (allocated b s fresh v))
      × (compare_exchange_weak_from_guard b g value [] s
          ≡ compare_exchange_from_guard b g value [] s)
      × (compare_exchange_weak_from_guard b g value (spurious ∷ []) s ≡ (
          if value.domain == (s.boxes b).domain
          then answer g (err (bare_guard (s.boxes b).ptr (s.boxes b).domain, value)) s
          else panics))
compare_exchange_weak-compare_exchange b s fresh g v value free = (
  compare_exchange_weak_alone b s fresh g v,
  compare_exchange_weak-spurious b s fresh v g free,
  compare_exchange_weak_from_guard_alone b s g value,
  compare_exchange_weak_from_guard-spurious b s g value,
)
