-- ===== src/AtomBox.antt =====
-- src/lib.rs: a box whose value is replaced atomically, and the guards through which values are read.
-- A box is named by its index in the memory, a domain by its index, and a guard is passed by value:
-- an operation that takes one drops it at its end, unless the source forgets it or hands it on.
-- `fresh` and `node` are the addresses that `Box::new` answers with, for a value and for a list node.
pub mod Loading
pub mod Building
pub mod Validation
pub mod Exchange
pub mod Replace
pub mod Unprotected
use atom_box.Prelude.{ℕ, zero, suc, Option, none, some, ◌==◌, if◌then◌else◌}
use atom_box.Machine.{
  Ptr, null, fault, panics, starved, returns, M, Result, ok, err, pure, stop, atomic, ◌>>=◌, ◌>>◌,
  load as load_ptr, swap as swap_ptr, compare_exchange as cas, compare_exchange_weak as cas_weak,
  cell, box_new,
}
use atom_box.World.{live, World, AtomBox, at_values, at_box, update}
use atom_box.Domain.{acquire_haz_ptr, release_hazard_ptr, protect, reset, retire}

pub record StoreGuard : Type 0 where
  pub ptr : Ptr
  pub domain : ℕ

pub record LoadGuard : Type 0 where
  pub ptr : Ptr
  pub domain : ℕ
  pub haz_ptr : Option Ptr

-- `static SHARED_DOMAIN`
abbrev pub shared_domain : ℕ
shared_domain = 0

module _ {V : Type 0} where
  -- `self.domain`, which never changes
  abbrev pub domain_of : ℕ → M (World V) ℕ
  domain_of b e s = pure (s.boxes b).domain e s

  unfoldable pub new_with_domain : Ptr → V → ℕ → M (World V) AtomBox
  new_with_domain fresh value domain = do
    ptr ← box_new at_values fresh (live value)
    pure (record { ptr = ptr; domain = domain })

  unfoldable pub new : Ptr → V → M (World V) AtomBox
  new fresh value = do
    ptr ← box_new at_values fresh (live value)
    pure (record { ptr = ptr; domain = shared_domain })

  -- The box itself is put on the heap and leaked, where it has the index `b`.
  unfoldable pub new_static : ℕ → Ptr → V → M (World V) ℕ
  unfolding new
  new_static b fresh value = do
    atom_box ← new fresh value
    atomic λ s. returns (b, record s { boxes = update s.boxes b atom_box })

  -- `self.ptr.as_ref().expect("Non null")`, and a read of the value
  unfoldable pub deref : Ptr → M (World V) V
  deref p e s =
      if p == null
      then panics
      else atomic (λ t. elim (cell t.values p) [ some (live v) ↦ returns (v, t) | _ ↦ fault ]) e s

  unfoldable pub drop_store_guard : ℕ → Option ℕ → Ptr → StoreGuard → M (World V) (Unit {0})
  drop_store_guard rounds now node guard = retire guard.domain rounds now node guard.ptr

  unfoldable pub drop_load_guard : LoadGuard → M (World V) (Unit {0})
  drop_load_guard guard = elim guard.haz_ptr [
    | some haz_ptr ↦ release_hazard_ptr guard.domain haz_ptr
    | none ↦ pure tt
  ]

  -- The `loop` of `load`.
  unfoldable pub load_loop : ℕ → ℕ → ℕ → Ptr → Ptr → M (World V) Ptr
  load_loop b d zero haz_ptr original_ptr = stop starved
  load_loop b d (suc rounds) haz_ptr original_ptr = do
    protect d haz_ptr original_ptr
    current_ptr ← load_ptr (at_box b)
    if current_ptr == original_ptr
        then pure current_ptr
        else (do reset d haz_ptr; load_loop b d rounds haz_ptr current_ptr)

  unfoldable pub load : ℕ → ℕ → Ptr → M (World V) LoadGuard
  unfolding load_loop
  load b rounds node = do
    d ← domain_of b
    haz_ptr ← acquire_haz_ptr d rounds node
    original_ptr ← load_ptr (at_box b)
    ptr ← load_loop b d rounds haz_ptr original_ptr
    pure (record { ptr = ptr; domain = d; haz_ptr = some haz_ptr })

  unfoldable pub swap : ℕ → Ptr → V → M (World V) StoreGuard
  swap b fresh new_value = do
    new_ptr ← box_new at_values fresh (live new_value)
    old_ptr ← swap_ptr (at_box b) new_ptr
    d ← domain_of b
    pure (record { ptr = old_ptr; domain = d })

  -- `let _ = self.swap(value)` drops the guard at once.
  unfoldable pub store : ℕ → ℕ → Option ℕ → Ptr → Ptr → V → M (World V) (Unit {0})
  unfolding swap drop_store_guard
  store b rounds now fresh node value = do
    guard ← swap b fresh value
    drop_store_guard rounds now node guard

  unfoldable pub swap_from_guard : ℕ → StoreGuard → M (World V) StoreGuard
  swap_from_guard b new_value = do
    d ← domain_of b
    if new_value.domain == d
        then (do
          old_ptr ← swap_ptr (at_box b) new_value.ptr
          pure (record { ptr = old_ptr; domain = d }))
        else stop panics

  unfoldable pub store_from_guard : ℕ → ℕ → Option ℕ → Ptr → StoreGuard → M (World V) (Unit {0})
  unfolding swap_from_guard drop_store_guard
  store_from_guard b rounds now node value = do
    guard ← swap_from_guard b value
    drop_store_guard rounds now node guard

  -- The value of a failed attempt stays on the heap.
  unfoldable pub compare_exchange :
      ℕ → Ptr → LoadGuard → V → M (World V) (Result StoreGuard LoadGuard)
  unfolding drop_load_guard
  compare_exchange b fresh current_value new_value = do
    new_ptr ← box_new at_values fresh (live new_value)
    r ← cas (at_box b) current_value.ptr new_ptr
    d ← domain_of b
    drop_load_guard current_value
    pure (elim r [
      | ok ptr ↦ ok (record { ptr = ptr; domain = d })
      | err ptr ↦ err (record { ptr = ptr; domain = d; haz_ptr = none })
    ])

  -- The same with a value that is guarded already.
  unfoldable pub compare_exchange_from_guard :
      ℕ → LoadGuard → StoreGuard → M (World V) (Result StoreGuard (LoadGuard × StoreGuard))
  unfolding drop_load_guard
  compare_exchange_from_guard b current_value new_value = do
    d ← domain_of b
    if new_value.domain == d
        then (do
          r ← cas (at_box b) current_value.ptr new_value.ptr
          drop_load_guard current_value
          pure (elim r [
            | ok ptr ↦ ok (record { ptr = ptr; domain = d })
            | err ptr ↦ err (record { ptr = ptr; domain = d; haz_ptr = none }, new_value)
          ]))
        else stop panics

  -- The weak variants, which may fail with the box unchanged even if the address is the expected one.
  unfoldable pub compare_exchange_weak :
      ℕ → Ptr → LoadGuard → V → M (World V) (Result StoreGuard LoadGuard)
  unfolding drop_load_guard
  compare_exchange_weak b fresh current_value new_value = do
    new_ptr ← box_new at_values fresh (live new_value)
    r ← cas_weak (at_box b) current_value.ptr new_ptr
    d ← domain_of b
    drop_load_guard current_value
    pure (elim r [
      | ok ptr ↦ ok (record { ptr = ptr; domain = d })
      | err ptr ↦ err (record { ptr = ptr; domain = d; haz_ptr = none })
    ])

  unfoldable pub compare_exchange_weak_from_guard :
      ℕ → LoadGuard → StoreGuard → M (World V) (Result StoreGuard (LoadGuard × StoreGuard))
  unfolding drop_load_guard
  compare_exchange_weak_from_guard b current_value new_value = do
    d ← domain_of b
    if new_value.domain == d
        then (do
          r ← cas_weak (at_box b) current_value.ptr new_value.ptr
          drop_load_guard current_value
          pure (elim r [
            | ok ptr ↦ ok (record { ptr = ptr; domain = d })
            | err ptr ↦ err (record { ptr = ptr; domain = d; haz_ptr = none }, new_value)
          ]))
        else stop panics

  -- `Drop for AtomBox`
  unfoldable pub drop : ℕ → ℕ → Option ℕ → Ptr → M (World V) (Unit {0})
  drop b rounds now node = do
    ptr ← load_ptr (at_box b)
    d ← domain_of b
    retire d rounds now node ptr
