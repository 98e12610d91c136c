-- ===== src/Client/Exchanges.antt =====
-- The compare-exchanges of a sound client that is ready for them.
use atom_box.Prelude.{
  ℕ, suc, ◌≡◌, ◌∙◌, refl, Bool, true, false, Option, some, ◌==◌, ap, arith, Bool-cases, inl, inr,
  eq→==,
}
use atom_box.Machine.{Ptr, Result, ok, err}
use atom_box.World.{World}
use atom_box.AtomBox.{StoreGuard, LoadGuard}
use atom_box.AtomBox.Exchange.{
  bare_guard, compare_exchange_lem, compare_exchange_from_guard_lem, compare_exchange_weak_alone,
  compare_exchange_weak_from_guard_alone, compare_exchange_weak-spurious,
  compare_exchange_weak_from_guard-spurious,
}
use atom_box.Client.{
  Client, Ready, perform, less, more, load_guard, store_guard, loads_less, bare_less,
  compare_exchange, compare_exchange_weak, compare_exchange_weak_from_guard,
  compare_exchange_from_guard,
}
use atom_box.Client.Sound.{IsSound}
use atom_box.Client.Values.{with_value, with_value-IsSound, with_value-Spared}
use atom_box.Client.Ownership.{IsSound-stores, less-IsSound, exchanged, exchanged-IsSound}
use atom_box.Client.Guards.{LetGo, answer-LetGo, let_go}
use atom_box.Client.Swapping.{Succeeds, swapped, swapped-IsSound}

-- The client after an exchange that succeeded, or failed and left the address `q` in the box. It no
-- longer has the load guard that it passed.
abbrev succeeded : {V : Type 0} → Client V → World V → Option Ptr → Ptr → Client V
succeeded c s haz p = record c {
  world = s;
  loads = loads_less haz c.loads;
  bare_loads = bare_less haz p c.bare_loads;
}

abbrev refused : {V : Type 0} → Client V → World V → Option Ptr → Ptr → Ptr → Client V
refused c s haz p q = record c {
  world = s;
  loads = loads_less haz c.loads;
  bare_loads = more q (bare_less haz p c.bare_loads);
}

module _ {V : Type 0} (d n rounds time : ℕ) (c : Client V) (sound : IsSound d n c) where
  module _ (b : ℕ) (fresh : Ptr) (haz : Option Ptr) (p : Ptr) (v : V)
      (ready : Ready d (compare_exchange b fresh haz p v) c) where
    -- The new value that is not stored is forgotten.
    abbrev forgotten : Client V
    forgotten = record (with_value c fresh v) { stores = c.stores }

    forgotten-IsSound : IsSound d n forgotten
    forgotten-IsSound =
        let c₁ : Client V = with_value c fresh v in
        IsSound-stores d n (record c₁ { stores = less fresh c₁.stores })
          (less-IsSound d n c₁ (with_value-IsSound d n c sound fresh v ready.1) fresh
            (ground arith))
          c.stores (λ q. ground arith)

    -- The load guard is dropped at the end of the call.
    forgotten-LetGo : LetGo d n forgotten haz p
    forgotten-LetGo = let_go d n forgotten forgotten-IsSound haz p ready.2

    abbrev refusal : Result StoreGuard LoadGuard
    refusal = err (bare_guard (c.world.boxes b).ptr (c.world.boxes b).domain)

    pub perform-compare_exchange :
        Succeeds d
          (suc n)
          c
          (perform d (suc rounds) (some time) (compare_exchange b fresh haz p v) c)
    unfolding perform
    perform-compare_exchange =
        let (there, free, held) = ready in
        let answered : Result StoreGuard LoadGuard =
          ok (store_guard (c.world.boxes b).domain (c.world.boxes b).ptr) in
        let spared = with_value-Spared d n c sound fresh v free in
        let run = compare_exchange_lem b c.world fresh v (load_guard d haz p) free in
        elim (Bool-cases ((c.world.boxes b).ptr == p)) [
          | inl same ↦
              let c₁ : Client V = swapped c b fresh v in
              let sound₁ = swapped-IsSound d n c sound b fresh v there free in
              let g : LetGo d n c₁ haz p = let_go d n c₁ sound₁ haz p held in
              (
                succeeded c₁ g.world haz p,
                rw run (rw same (rw (answer-LetGo d n c₁ haz p answered g) refl)),
                g.sound _,
                λ a r i. ap (λ vs. vs r) g.values ∙ spared a r i,
              )
          | inr other ↦
              let g : LetGo d n forgotten haz p = forgotten-LetGo in
              (
                refused forgotten g.world haz p (c.world.boxes b).ptr,
                rw run (rw other (rw (answer-LetGo d n forgotten haz p refusal g) refl)),
                g.sound _,
                λ a r i. ap (λ vs. vs r) g.values ∙ spared a r i,
              )
        ]

    pub perform-compare_exchange_weak :
        (fails : Bool)
        → Succeeds d
            (suc n)
            c
            (perform d (suc rounds) (some time) (compare_exchange_weak b fresh haz p v fails) c)
    unfolding perform
    perform-compare_exchange_weak false =
        rw (compare_exchange_weak_alone b c.world fresh (load_guard d haz p) v)
          perform-compare_exchange
    perform-compare_exchange_weak true =
        let run = compare_exchange_weak-spurious b c.world fresh v (load_guard d haz p) ready.1 in
        let g : LetGo d n forgotten haz p = forgotten-LetGo in
        (
          refused forgotten g.world haz p (c.world.boxes b).ptr,
          rw run (rw (answer-LetGo d n forgotten haz p refusal g) refl),
          g.sound _,
          λ a r i. ap (λ vs. vs r) g.values ∙ with_value-Spared d n c sound fresh v ready.1 a r i,
        )

  module _ (b : ℕ) (haz : Option Ptr) (p q : Ptr)
      (ready : Ready d (compare_exchange_from_guard b haz p q) c) where
    near : (d == (c.world.boxes b).domain) ≡ true
    near = rw (sound.near b ready.0) (eq→== d d refl)

    abbrev handed_back : Result StoreGuard (LoadGuard × StoreGuard)
    handed_back = err (bare_guard (c.world.boxes b).ptr (c.world.boxes b).domain, store_guard d q)

    pub perform-compare_exchange_from_guard :
        Succeeds d
          (suc n)
          c
          (perform d (suc rounds) (some time) (compare_exchange_from_guard b haz p q) c)
    unfolding perform
    perform-compare_exchange_from_guard =
        let (there, held, own) = ready in
        let answered : Result StoreGuard (LoadGuard × StoreGuard) =
          ok (store_guard (c.world.boxes b).domain (c.world.boxes b).ptr) in
        let run =
          compare_exchange_from_guard_lem b c.world (load_guard d haz p) (store_guard d q) in
        elim (Bool-cases ((c.world.boxes b).ptr == p)) [
          | inl same ↦
              let c₁ : Client V = exchanged c b q in
              let sound₁ = exchanged-IsSound d n c sound q own b there in
              let g : LetGo d n c₁ haz p = let_go d n c₁ sound₁ haz p held in
              (
                succeeded c₁ g.world haz p,
                rw run (rw (near, same) (rw (answer-LetGo d n c₁ haz p answered g) refl)),
                g.sound _,
                λ a r i. ap (λ vs. vs r) g.values,
              )
          | inr other ↦
              let g : LetGo d n c haz p = let_go d n c sound haz p held in
              (
                refused c g.world haz p (c.world.boxes b).ptr,
                rw run (rw (near, other) (rw (answer-LetGo d n c haz p handed_back g) refl)),
                g.sound _,
                λ a r i. ap (λ vs. vs r) g.values,
              )
        ]

    pub perform-compare_exchange_weak_from_guard :
        (fails : Bool)
        → Succeeds d (suc n) c (
            perform d (suc rounds) (some time) (compare_exchange_weak_from_guard b haz p q fails) c)
    unfolding perform
    perform-compare_exchange_weak_from_guard false =
        rw (compare_exchange_weak_from_guard_alone b c.world (load_guard d haz p) (store_guard d q))
          perform-compare_exchange_from_guard
    perform-compare_exchange_weak_from_guard true =
        let run =
          compare_exchange_weak_from_guard-spurious b c.world (load_guard d haz p)
            (store_guard d q) in
        let g : LetGo d n c haz p = let_go d n c sound haz p ready.1 in
        (
          refused c g.world haz p (c.world.boxes b).ptr,
          rw run (rw near (rw (answer-LetGo d n c haz p handed_back g) refl)),
          g.sound _,
          λ a r i. ap (λ vs. vs r) g.values,
        )
