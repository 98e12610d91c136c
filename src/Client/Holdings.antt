-- ===== src/Client/Holdings.antt =====
-- What a program holds, and what it may do next.
use atom_box.Prelude.{ℕ, ◌+◌, ◌-◌, ◌<◌, ◌≡◌, ◌≢◌, Bool, true, false, Option, none, some}
use atom_box.Machine.{Ptr, null, is_free}
use atom_box.World.{World, update}
use atom_box.AtomBox.{StoreGuard, LoadGuard}

-- A `load` of the box `b` that a thread is in the middle of, with what its variables hold: it is about
-- to write to its hazard pointer, to read the box again, or to clear the hazard pointer.
pub data Reader : Type 0 where
  to_protect to_check : (b : ℕ) (original_ptr : Ptr) → Reader
  to_reset : (b : ℕ) (original_ptr current_ptr : Ptr) → Reader

-- `boxes` says which atom boxes exist, `stores` how many store guards have an address, `loads` which
-- address a load guard has, and `reading` which loads are under way, both by the hazard pointer.
-- `bare_loads` says how many load guards without a hazard pointer, those of failed exchanges, have an
-- address.
pub record Client (V : Type 0) : Type 0 where
  pub world : World V
  pub boxes : ℕ → Bool
  pub stores : Ptr → ℕ
  pub loads : Ptr → Option Ptr
  pub bare_loads : Ptr → ℕ
  pub reading : Ptr → Option Reader

abbrev pub box_read : Reader → ℕ
box_read (to_protect b p) = b
box_read (to_check b p) = b
box_read (to_reset b p q) = b

-- What the hazard pointer of a load holds at the time.
abbrev pub hazard_held : Reader → Ptr
hazard_held (to_protect b p) = null
hazard_held (to_check b p) = p
hazard_held (to_reset b p q) = p

-- The calls, with the addresses that the allocator answers with: `fresh` for a value and `node` for a
-- list node. A store guard is named by its address, and a load guard by its hazard pointer `haz`, if it
-- has one, and its address.
-- `begin_load` and `go_on_load` are a load that others interrupt: its start up to the loop, and one
-- atomic step of the loop. `fails` is a spurious failure.
pub data Request (V : Type 0) : Type 0 where
  new : (b : ℕ) (fresh : Ptr) (v : V) → Request V
  load : (b : ℕ) (node : Ptr) → Request V
  begin_load : (b : ℕ) (node : Ptr) → Request V
  go_on_load : (a : Ptr) (r : Reader) → Request V
  swap : (b : ℕ) (fresh : Ptr) (v : V) → Request V
  store : (b : ℕ) (fresh node : Ptr) (v : V) → Request V
  swap_from_guard : (b : ℕ) (p : Ptr) → Request V
  store_from_guard : (b : ℕ) (node p : Ptr) → Request V
  compare_exchange : (b : ℕ) (fresh : Ptr) (haz : Option Ptr) (p : Ptr) (v : V) → Request V
  compare_exchange_from_guard : (b : ℕ) (haz : Option Ptr) (p q : Ptr) → Request V
  compare_exchange_weak :
      (b : ℕ) (fresh : Ptr) (haz : Option Ptr) (p : Ptr) (v : V) (fails : Bool) → Request V
  compare_exchange_weak_from_guard :
      (b : ℕ) (haz : Option Ptr) (p q : Ptr) (fails : Bool) → Request V
  drop_store_guard : (node p : Ptr) → Request V
  drop_load_guard : (haz : Option Ptr) (p : Ptr) → Request V
  drop_box : (b : ℕ) (node : Ptr) → Request V
  reclaim : Request V

abbrev pub more : Ptr → (Ptr → ℕ) → Ptr → ℕ
more p f = update f p (f p + 1)

abbrev pub less : Ptr → (Ptr → ℕ) → Ptr → ℕ
less p f = update f p (f p - 1)

abbrev pub load_guard : ℕ → Option Ptr → Ptr → LoadGuard
load_guard d haz p = record { ptr = p; domain = d; haz_ptr = haz }

abbrev pub store_guard : ℕ → Ptr → StoreGuard
store_guard d p = record { ptr = p; domain = d }

-- A load guard with the address `p` is among those held, and what is held without it.
abbrev pub HasLoadGuard : Option Ptr → Ptr → (Ptr → Option Ptr) → (Ptr → ℕ) → Type 0
HasLoadGuard (some a) p loads bare_loads = loads a ≡ some p
HasLoadGuard none p loads bare_loads = 0 < bare_loads p

abbrev pub loads_less : Option Ptr → (Ptr → Option Ptr) → Ptr → Option Ptr
loads_less (some a) loads = update loads a none
loads_less none loads = loads

abbrev pub bare_less : Option Ptr → Ptr → (Ptr → ℕ) → Ptr → ℕ
bare_less (some a) p bare_loads = bare_loads
bare_less none p bare_loads = less p bare_loads

-- The client holds what it passes, and the allocator answers with free addresses.
abbrev pub Ready : {V : Type 0} → ℕ → Request V → Client V → Type 0
Ready d (new b fresh v) c = (c.boxes b ≡ false) × (is_free c.world.values fresh ≡ true)
Ready d (load b node) c =
    (c.boxes b ≡ true) × (is_free (c.world.domains d).hazard_ptrs.nodes node ≡ true)
Ready d (begin_load b node) c =
    (c.boxes b ≡ true) × (is_free (c.world.domains d).hazard_ptrs.nodes node ≡ true)
Ready d (go_on_load a r) c = c.reading a ≡ some r
Ready d (swap b fresh v) c = (c.boxes b ≡ true) × (is_free c.world.values fresh ≡ true)
Ready d (store b fresh node v) c =
    (c.boxes b ≡ true)
    × (is_free c.world.values fresh ≡ true)
    × (is_free (c.world.domains d).retired.nodes node ≡ true)
Ready d (swap_from_guard b p) c = (c.boxes b ≡ true) × (0 < c.stores p)
Ready d (store_from_guard b node p) c =
    (c.boxes b ≡ true) × (0 < c.stores p) × (is_free (c.world.domains d).retired.nodes node ≡ true)
Ready d (compare_exchange b fresh haz p v) c =
    (c.boxes b ≡ true)
    × (is_free c.world.values fresh ≡ true)
    × HasLoadGuard haz p c.loads c.bare_loads
Ready d (compare_exchange_from_guard b haz p q) c =
    (c.boxes b ≡ true) × HasLoadGuard haz p c.loads c.bare_loads × (0 < c.stores q)
Ready d (compare_exchange_weak b fresh haz p v fails) c =
    (c.boxes b ≡ true)
    × (is_free c.world.values fresh ≡ true)
    × HasLoadGuard haz p c.loads c.bare_loads
Ready d (compare_exchange_weak_from_guard b haz p q fails) c =
    (c.boxes b ≡ true) × HasLoadGuard haz p c.loads c.bare_loads × (0 < c.stores q)
Ready d (drop_store_guard node p) c =
    (0 < c.stores p) × (is_free (c.world.domains d).retired.nodes node ≡ true)
Ready d (drop_load_guard haz p) c = HasLoadGuard haz p c.loads c.bare_loads
Ready d (drop_box b node) c =
    (c.boxes b ≡ true)
    × (is_free (c.world.domains d).retired.nodes node ≡ true)
    × ((a : Ptr) (r : Reader) → c.reading a ≡ some r → box_read r ≢ b)
Ready d reclaim c = Unit {0}
