-- ===== src/Client.antt =====
-- A program over one domain: the values it holds from the interface of src/lib.rs and
-- src/domain/mod.rs, and its calls. They run one after another, but for the loop of `load`, between
-- whose steps there may be any others. The program keeps track of its boxes, of the guards that own a
-- value, and of the load guards, those that a failed exchange returns included. A call needs the boxes and
-- guards that it passes, and a box is not dropped while a load reads it.
pub mod Holdings
pub mod Sound
pub mod Values
pub mod Ownership
pub mod Hazards
pub mod Reclaiming
pub mod Underway
pub mod Checking
pub mod Swapping
pub mod Calls
pub mod Guards
pub mod Exchanges
pub mod Safety
pub mod Turns
pub mod Stepping
pub mod Interrupted
pub mod Ticks
pub mod Schedules
pub mod Reading
pub mod Owners
pub mod Collection
use atom_box.Prelude.{
  ℕ, zero, suc, ◌+◌, ◌-◌, ◌<◌, ◌≡◌, ◌≢◌, Bool, true, false, Option, none, some, ◌==◌, if◌then◌else◌,
  [], ◌∷◌,
}
use atom_box.Prelude.Int.{word}
use atom_box.Machine.{
  Ptr, null, Out, returns, fault, panics, aborts, starved, Env, M, pure, ◌>>=◌, alone, spurious, ok,
  err, is_free, load as load_ptr,
}
use atom_box.ReclaimStrategy.{ReclaimStrategy}
use atom_box.World.{World, update, at_box}
use atom_box.Domain
use atom_box.Domain.{new_unchecked, acquire_haz_ptr, protect, reset}
use atom_box.AtomBox
use atom_box.AtomBox.{StoreGuard, LoadGuard, domain_of}
pub use atom_box.Client.Holdings.{
  Client, Reader, to_protect, to_check, to_reset, box_read, hazard_held, Request, new, load,
  begin_load, go_on_load, swap, store, swap_from_guard, store_from_guard, compare_exchange,
  compare_exchange_from_guard, compare_exchange_weak, compare_exchange_weak_from_guard,
  drop_store_guard, drop_load_guard, drop_box, reclaim, more, less, load_guard, store_guard,
  HasLoadGuard, Ready, loads_less, bare_less,
}

module _ {V : Type 0} where
  abbrev pub finish :
      {A : Type 0} → Out (A × Env (World V) × World V) → (A → World V → Client V) → Out (Client V)
  finish (returns (a, e, s)) f = returns (f a s)
  finish fault f = fault
  finish panics f = panics
  finish aborts f = aborts
  finish starved f = starved

  -- The start of `load`, up to its loop: the hazard pointer, and the address that the box has.
  abbrev pub load_start : ℕ → ℕ → Ptr → M (World V) (Ptr × Ptr)
  load_start b rounds node = do
    d ← domain_of b
    haz_ptr ← acquire_haz_ptr d rounds node
    original_ptr ← load_ptr (at_box b)
    pure (haz_ptr, original_ptr)

  module _ (d rounds : ℕ) (now : Option ℕ) where
    -- A call, and what the client holds after it. A failed exchange has dropped the load guard that it
    -- was given; the one that it returns has no hazard pointer, and the client can pass it to the next
    -- attempt. It still holds the guard of a value that was to be stored.
    unfoldable pub perform : Request V → Client V → Out (Client V)
    perform (new b fresh v) c = finish (AtomBox.new_with_domain fresh v d [] c.world) λ box s.
        record c {
          world = record s { boxes = update s.boxes b box };
          boxes = update c.boxes b true;
        }
    perform (load b node) c = finish (AtomBox.load b rounds node [] c.world) λ g s. record c {
      world = s;
      loads = elim g.haz_ptr [ some a ↦ update c.loads a (some g.ptr) | none ↦ c.loads ];
    }
    perform (begin_load b node) c =
        finish (load_start b rounds node [] c.world)
          λ r s. record c { world = s; reading = update c.reading r.0 (some (to_protect b r.1)) }
    perform (go_on_load a (to_protect b p)) c =
        finish (protect d a p [] c.world)
          λ _ s. record c { world = s; reading = update c.reading a (some (to_check b p)) }
    perform (go_on_load a (to_check b p)) c = finish (load_ptr (at_box b) [] c.world) λ q s.
        record c {
          world = s;
          loads = if q == p then update c.loads a (some q) else c.loads;
          reading = update c.reading a (if q == p then none else some (to_reset b p q));
        }
    perform (go_on_load a (to_reset b p q)) c =
        finish (reset d a [] c.world)
          λ _ s. record c { world = s; reading = update c.reading a (some (to_protect b q)) }
    perform (swap b fresh v) c =
        finish (AtomBox.swap b fresh v [] c.world)
          λ g s. record c { world = s; stores = more g.ptr c.stores }
    perform (store b fresh node v) c =
        finish (AtomBox.store b rounds now fresh node v [] c.world) λ _ s. record c { world = s }
    perform (swap_from_guard b p) c =
        finish (AtomBox.swap_from_guard b (store_guard d p) [] c.world)
          λ g s. record c { world = s; stores = more g.ptr (less p c.stores) }
    perform (store_from_guard b node p) c =
        finish (AtomBox.store_from_guard b rounds now node (store_guard d p) [] c.world)
          λ _ s. record c { world = s; stores = less p c.stores }
    perform (compare_exchange b fresh haz p v) c =
        finish (AtomBox.compare_exchange b fresh (load_guard d haz p) v [] c.world) λ r s.
          record c {
            world = s;
            stores = elim r [ ok g ↦ more g.ptr c.stores | err _ ↦ c.stores ];
            loads = loads_less haz c.loads;
            bare_loads = elim r [
              | ok _ ↦ bare_less haz p c.bare_loads
              | err g ↦ more g.ptr (bare_less haz p c.bare_loads)
            ];
          }
    perform (compare_exchange_from_guard b haz p q) c =
        finish
          (AtomBox.compare_exchange_from_guard b (load_guard d haz p) (store_guard d q) [] c.world)
          λ r s. record c {
            world = s;
            stores = elim r [ ok g ↦ more g.ptr (less q c.stores) | err _ ↦ c.stores ];
            loads = loads_less haz c.loads;
            bare_loads = elim r [
              | ok _ ↦ bare_less haz p c.bare_loads
              | err (g, _) ↦ more g.ptr (bare_less haz p c.bare_loads)
            ];
          }
    perform (compare_exchange_weak b fresh haz p v fails) c =
        finish
          (AtomBox.compare_exchange_weak b fresh (load_guard d haz p) v
            (if fails then alone ∷ spurious ∷ [] else []) c.world)
          λ r s. record c {
            world = s;
            stores = elim r [ ok g ↦ more g.ptr c.stores | err _ ↦ c.stores ];
            loads = loads_less haz c.loads;
            bare_loads = elim r [
              | ok _ ↦ bare_less haz p c.bare_loads
              | err g ↦ more g.ptr (bare_less haz p c.bare_loads)
            ];
          }
    perform (compare_exchange_weak_from_guard b haz p q fails) c =
        finish
          (AtomBox.compare_exchange_weak_from_guard b (load_guard d haz p) (store_guard d q)
            (if fails then spurious ∷ [] else []) c.world)
          λ r s. record c {
            world = s;
            stores = elim r [ ok g ↦ more g.ptr (less q c.stores) | err _ ↦ c.stores ];
            loads = loads_less haz c.loads;
            bare_loads = elim r [
              | ok _ ↦ bare_less haz p c.bare_loads
              | err (g, _) ↦ more g.ptr (bare_less haz p c.bare_loads)
            ];
          }
    perform (drop_store_guard node p) c =
        finish (AtomBox.drop_store_guard rounds now node (store_guard d p) [] c.world)
          λ _ s. record c { world = s; stores = less p c.stores }
    perform (drop_load_guard haz p) c =
        finish (AtomBox.drop_load_guard (load_guard d haz p) [] c.world) λ _ s. record c {
          world = s;
          loads = loads_less haz c.loads;
          bare_loads = bare_less haz p c.bare_loads;
        }
    perform (drop_box b node) c =
        finish (AtomBox.drop b rounds now node [] c.world)
          λ _ s. record c { world = s; boxes = update c.boxes b false }
    perform reclaim c = finish (Domain.reclaim d rounds [] c.world) λ _ s. record c { world = s }

  -- A client that holds nothing.
  abbrev pub empty : World V → Client V
  empty s = record {
    world = s;
    boxes = λ _. false;
    stores = λ _. 0;
    loads = λ _. none;
    bare_loads = λ _. 0;
    reading = λ _. none;
  }

  -- What a client can come to in `n` calls, from a new domain with any strategy. A call may go round
  -- a loop once more than there have been calls.
  pub data Reach (d : ℕ) : ℕ → Client V → Type 0 where
    start :
        (s : World V) (strategy : ReclaimStrategy)
        → s.domains d ≡ new_unchecked strategy
        → Reach d 0 (empty s)
    call :
        {n : ℕ} {c c' : Client V} (request : Request V) (rounds time : ℕ)
        → Reach d n c
        → Ready d request c
        → n < rounds
        → time < word
        → perform d (suc rounds) (some time) request c ≡ returns c'
        → Reach d (suc n) c'
