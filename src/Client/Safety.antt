-- ===== src/Client/Safety.antt =====
-- What every program over one domain can rely on, however it mixes its calls.
use atom_box.Prelude.{ℕ, suc, ◌<◌, ◌≡◌, true, some, [], ap, subst, ◌⊎◌, inl, inr, arith}
use atom_box.Prelude.Int.{word}
use atom_box.Machine.{Ptr, returns}
use atom_box.ReclaimStrategy.{ReclaimStrategy}
use atom_box.World.{World, Domain}
use atom_box.Domain.{new_unchecked}
use atom_box.AtomBox.{deref}
use atom_box.AtomBox.Replace.{deref-live}
use atom_box.Client.{
  Client, Request, new, load, begin_load, go_on_load, swap, store, swap_from_guard,
  store_from_guard, compare_exchange, compare_exchange_from_guard, compare_exchange_weak,
  compare_exchange_weak_from_guard, drop_store_guard, drop_load_guard, drop_box, reclaim, Ready,
  perform, empty, Reach, start, call,
}
use atom_box.Client.Sound.{IsSound, Spared, is_live, is_live-live}
use atom_box.Client.Calls.{
  perform-new, perform-load, perform-swap, perform-store, perform-swap_from_guard,
  perform-store_from_guard, perform-drop_store_guard, perform-drop_box, perform-reclaim,
}
use atom_box.Client.Guards.{perform-drop_load_guard}
use atom_box.Client.Swapping.{Succeeds}
use atom_box.Client.Underway.{perform-begin_load}
use atom_box.Client.Checking.{perform-go_on_load}
use atom_box.Client.Exchanges.{
  perform-compare_exchange, perform-compare_exchange_from_guard, perform-compare_exchange_weak,
  perform-compare_exchange_weak_from_guard,
}

module _ {V : Type 0} (d n rounds time : ℕ) (enough : n < rounds) (small : time < word)
    (c : Client V) (sound : IsSound d n c) where
  perform-Succeeds :
      (r : Request V) → Ready d r c → Succeeds d (suc n) c (perform d (suc rounds) (some time) r c)
  perform-Succeeds (new b fresh v) h = perform-new d n rounds time enough small c sound b fresh v h
  perform-Succeeds (load b a) h = perform-load d n rounds time enough small c sound b a h
  perform-Succeeds (begin_load b a) h = perform-begin_load d n rounds time enough c sound b a h
  perform-Succeeds (go_on_load a r) h = perform-go_on_load d n rounds time enough c sound a r h
  perform-Succeeds (swap b fresh v) h =
      perform-swap d n rounds time enough small c sound b fresh v h
  perform-Succeeds (store b fresh a v) h =
      perform-store d n rounds time enough small c sound b fresh a v h
  perform-Succeeds (swap_from_guard b p) h =
      perform-swap_from_guard d n rounds time enough small c sound b p h
  perform-Succeeds (store_from_guard b a p) h =
      perform-store_from_guard d n rounds time enough small c sound b a p h
  perform-Succeeds (compare_exchange b fresh haz p v) h =
      perform-compare_exchange d n rounds time c sound b fresh haz p v h
  perform-Succeeds (compare_exchange_from_guard b haz p q) h =
      perform-compare_exchange_from_guard d n rounds time c sound b haz p q h
  perform-Succeeds (compare_exchange_weak b fresh haz p v fails) h =
      perform-compare_exchange_weak d n rounds time c sound b fresh haz p v h fails
  perform-Succeeds (compare_exchange_weak_from_guard b haz p q fails) h =
      perform-compare_exchange_weak_from_guard d n rounds time c sound b haz p q h fails
  perform-Succeeds (drop_store_guard a p) h =
      perform-drop_store_guard d n rounds time enough small c sound a p h
  perform-Succeeds (drop_load_guard haz p) h =
      perform-drop_load_guard d n c sound rounds time haz p h
  perform-Succeeds (drop_box b a) h = perform-drop_box d n rounds time enough small c sound b a h
  perform-Succeeds reclaim h = perform-reclaim d n rounds time enough small c sound

empty-IsSound :
    {V : Type 0} (d : ℕ) (s : World V) (strategy : ReclaimStrategy)
    → s.domains d ≡ new_unchecked strategy
    → IsSound d 0 (empty s)
empty-IsSound d s strategy fresh = record {
  items = [];
  hazards = [];
  domain = record {
    items = ap (λ (x : Domain). x.retired.head) fresh;
    hazards = ap (λ (x : Domain). x.hazard_ptrs.head) fresh;
    promised = tt;
  };
  idle = rw fresh (λ a n own. ground arith);
  near = λ b i. cc;
  boxed = λ b i. cc;
  apart = λ b b' i. cc;
  stored = λ p i. absurd (omega arith);
  loaded = λ a p i. cc;
  accounted = λ a m. cc;
  under_way = λ a r i. cc;
  few_items = omega arith;
  few_hazards = omega arith;
}

module _ {V : Type 0} (d n rounds time : ℕ) (c c' : Client V) (r : Request V) (enough : n < rounds)
    (small : time < word) (ready : Ready d r c)
    (run : perform d (suc rounds) (some time) r c ≡ returns c') where
  -- A call that has returned is the call that succeeds.
  pub returned-IsSound : IsSound d n c → IsSound d (suc n) c' × Spared c c'.world
  returned-IsSound sound =
      let (c'', same, sound', spared) =
        perform-Succeeds d n rounds time enough small c sound r ready in
      let e : c'' ≡ c' = cc (same, run) in
      subst (λ (x : Client V). IsSound d (suc n) x × Spared c x.world) e (sound', spared)

pub Reach-IsSound : {V : Type 0} (d n : ℕ) (c : Client V) → Reach d n c → IsSound d n c
Reach-IsSound d n c (start s strategy fresh) = empty-IsSound d s strategy fresh
Reach-IsSound d n c (call {n = k} {c = c₀} r rounds time h ready enough small run) =
    (returned-IsSound d k rounds time c₀ c r enough small ready run (Reach-IsSound d k c₀ h)).0

-- However the threads of a program have come to this point, by `n` calls of `new`, `load`, `swap`, `store`,
-- the exchanges, the variants that take a guard, the drops and `reclaim`, on one domain that was
-- new at first and has any strategy, where the calls run one after another but for the loops of
-- loads, whose steps count as calls and may stand in any order between the others: the next call or
-- step of a loop returns, and neither faults nor panics, if the program holds the boxes and guards that it
-- passes, no box is dropped of which a load is under way, the allocator answers with free addresses,
-- the clock is within 64 bits, and every loop may go round `n + 2` times. A weak exchange may fail
-- spuriously, and an exchange may be given the load guard that an earlier one returned when it
-- failed, which has no hazard pointer.
pub perform-returns :
    {V : Type 0} (d n rounds time : ℕ) (c : Client V) (r : Request V)
    → Reach d n c
    → Ready d r c
    → n < rounds
    → time < word
    → (c' : Client V) × (perform d (suc rounds) (some time) r c ≡ returns c') × Reach d (suc n) c'
perform-returns d n rounds time c r h ready enough small =
    let (c', run, _, _) =
      perform-Succeeds d n rounds time enough small c (Reach-IsSound d n c h) r ready in
    (c', run, call r rounds time h ready enough small run)

-- In every memory that a program comes to by such calls on one domain, in the middle of any loads as
-- well, an address that one of its load guards with a hazard pointer, such as `load` returns, one of
-- its store guards, or one of its boxes has gives a value: a read through it returns, and is neither
-- a use of a dropped value nor a panic. Of the guards of failed exchanges, which have no hazard pointer,
-- it says nothing.
pub deref-returns :
    {V : Type 0} (d n : ℕ) (c : Client V) (p : Ptr)
    → Reach d n c
    → ((a : Ptr) × (c.loads a ≡ some p))
      ⊎ (0 < c.stores p)
      ⊎ ((b : ℕ) × (c.boxes b ≡ true) × ((c.world.boxes b).ptr ≡ p))
    → (v : V) × (deref p [] c.world ≡ returns (v, [], c.world))
deref-returns d n c p h held =
    let (v, there) = is_live-live c.world.values p (alive held) in (v, deref-live c.world p v there)
  where
    sound : IsSound d n c
    sound = Reach-IsSound d n c h

    alive :
        ((a : Ptr) × (c.loads a ≡ some p))
          ⊎ (0 < c.stores p)
          ⊎ ((b : ℕ) × (c.boxes b ≡ true) × ((c.world.boxes b).ptr ≡ p))
        → is_live c.world.values p ≡ true
    alive (inl (a, i)) = (sound.loaded a p i).1
    alive (inr (inl own)) = (sound.stored p own).0.0
    alive (inr (inr (b, there, e))) = rw (← e) (sound.boxed b there).0.0
