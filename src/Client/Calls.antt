-- ===== src/Client/Calls.antt =====
-- Each call of a sound client that is ready for it returns, with a sound client, and the values that load
-- guards refer to are the same.
use atom_box.Prelude.{ℕ, suc, ◌<◌, ◌≡◌, refl, false, some, [], arith, subst, sym, ◌∙◌, eq→==}
use atom_box.Prelude.Int.{word}
use atom_box.Machine.{Ptr, returns, box_new}
use atom_box.World.{World, update}
use atom_box.Domain.{retire}
use atom_box.Domain.Settling.{bulk_reclaim-Settles}
use atom_box.AtomBox
use atom_box.AtomBox.{StoreGuard, LoadGuard}
use atom_box.AtomBox.Exchange.{holding, allocated, swap_lem, swap_from_guard_lem}
use atom_box.AtomBox.Loading.{with_hazard, load_lem}
use atom_box.Client.{
  Client, Ready, perform, less, load_guard, store_guard, new, load, swap, store, swap_from_guard,
  store_from_guard, drop_store_guard, drop_box, reclaim,
}
use atom_box.Client.Sound.{IsSound, active}
use atom_box.Client.Values.{with_value, with_value-IsSound, with_value-Spared}
use atom_box.Client.Ownership.{
  IsSound-stores, IsSound-suc, exchanged, exchanged-IsSound, built, built-IsSound, unboxed,
  unboxed-IsSound,
}
use atom_box.Client.Hazards.{guarding, guarding-IsSound}
use atom_box.Client.Reclaiming.{reclaimed-IsSound}
use atom_box.Client.Swapping.{
  Succeeds, store-retire, store_from_guard-retire, swapped, swapped-IsSound, retire-returns,
}

module _ {V : Type 0} (d n rounds time : ℕ) (enough : n < rounds) (small : time < word)
    (c : Client V) (sound : IsSound d n c) where
  pub perform-new :
      (b : ℕ) (fresh : Ptr) (v : V)
      → Ready d (new b fresh v) c
      → Succeeds d (suc n) c (perform d (suc rounds) (some time) (new b fresh v) c)
  unfolding perform AtomBox.new_with_domain box_new
  perform-new b fresh v (absent, free) =
      let c₁ : Client V = with_value c fresh v in
      let sound₁ = with_value-IsSound d n c sound fresh v free in
      (
        record (built c₁ b d fresh) { stores = c.stores },
        rw free,
        IsSound-suc d n _ (
            IsSound-stores d n (built c₁ b d fresh)
              (built-IsSound d n c₁ sound₁ fresh (ground arith) b absent) c.stores
              (λ p. ground arith)),
        with_value-Spared d n c sound fresh v free,
      )

  pub perform-load :
      (b : ℕ) (a : Ptr)
      → Ready d (load b a) c
      → Succeeds d (suc n) c (perform d (suc rounds) (some time) (load b a) c)
  unfolding perform
  perform-load b a (there, free) =
      let near : (c.world.boxes b).domain ≡ d = sound.near b there in
      let p : Ptr = (c.world.boxes b).ptr in
      let run : AtomBox.load b (suc rounds) a [] c.world
          ≡ returns (load_guard d (some a) p, [], with_hazard d c.world a (active p)) =
        subst
          (λ (e : ℕ).
            AtomBox.load b (suc rounds) a [] c.world
            ≡ returns (load_guard e (some a) p, [], with_hazard e c.world a (active p)))
          near
          (load_lem b rounds c.world a sound.hazards (rw near free) (rw near sound.domain.hazards)
            (rw near sound.idle) (omega (arith, sound.few_hazards))) in
      (
        guarding c d a p,
        rw run refl,
        guarding-IsSound d n c sound a p free (sound.boxed b there).0.0,
        λ e q i. refl,
      )

  pub perform-swap :
      (b : ℕ) (fresh : Ptr) (v : V)
      → Ready d (swap b fresh v) c
      → Succeeds d (suc n) c (perform d (suc rounds) (some time) (swap b fresh v) c)
  unfolding perform
  perform-swap b fresh v (there, free) = (
    swapped c b fresh v,
    rw (swap_lem b c.world fresh v free) refl,
    IsSound-suc d n _ (swapped-IsSound d n c sound b fresh v there free),
    with_value-Spared d n c sound fresh v free,
  )

  pub perform-store :
      (b : ℕ) (fresh a : Ptr) (v : V)
      → Ready d (store b fresh a v) c
      → Succeeds d (suc n) c (perform d (suc rounds) (some time) (store b fresh a v) c)
  unfolding perform
  perform-store b fresh a v (there, free, free') =
      let p : Ptr = (c.world.boxes b).ptr in
      let s₁ : World V = holding b (allocated b c.world fresh v) fresh in
      let (s', run, sound', spared) =
        retire-returns d n rounds time enough small (swapped c b fresh v)
          (swapped-IsSound d n c sound b fresh v there free) a p (ground arith) free' in
      (
        record c { world = s' },
        rw
            (store-retire d rounds time c.world b fresh a v free
              ∙ subst
                  (λ (e : ℕ). retire e (suc rounds) (some time) a p [] s₁ ≡ returns (tt, [], s'))
                  (sym (sound.near b there)) run)
            refl,
        IsSound-stores d (suc n) _ sound' c.stores (λ q. ground arith),
        λ e q i. spared e q i ∙ with_value-Spared d n c sound fresh v free e q i,
      )

  pub perform-swap_from_guard :
      (b : ℕ) (p : Ptr)
      → Ready d (swap_from_guard b p) c
      → Succeeds d (suc n) c (perform d (suc rounds) (some time) (swap_from_guard b p) c)
  unfolding perform
  perform-swap_from_guard b p (there, own) = (
    exchanged c b p,
    rw (swap_from_guard_lem b c.world (store_guard d p))
        (rw (sound.near b there) (rw (eq→== d d refl) refl)),
    IsSound-suc d n _ (exchanged-IsSound d n c sound p own b there),
    λ e q i. refl,
  )

  pub perform-store_from_guard :
      (b : ℕ) (a p : Ptr)
      → Ready d (store_from_guard b a p) c
      → Succeeds d (suc n) c (perform d (suc rounds) (some time) (store_from_guard b a p) c)
  unfolding perform
  perform-store_from_guard b a p (there, own, free) =
      let c₁ : Client V = exchanged c b p in
      let sound₁ = exchanged-IsSound d n c sound p own b there in
      let (s', run, sound', spared) =
        retire-returns d n rounds time enough small c₁ sound₁ a (c.world.boxes b).ptr (ground arith)
          free in
      (
        record c { world = s'; stores = less p c.stores },
        rw (store_from_guard-retire d rounds time c.world b a p (sound.near b there) ∙ run) refl,
        IsSound-stores d (suc n) _ sound' (less p c.stores) (λ q. ground arith),
        spared,
      )

  pub perform-drop_store_guard :
      (a p : Ptr)
      → Ready d (drop_store_guard a p) c
      → Succeeds d (suc n) c (perform d (suc rounds) (some time) (drop_store_guard a p) c)
  unfolding perform AtomBox.drop_store_guard
  perform-drop_store_guard a p (own, free) =
      let (s', run, sound', spared) =
        retire-returns d n rounds time enough small c sound a p own free in
      (record c { world = s'; stores = less p c.stores }, rw run refl, sound', spared)

  pub perform-drop_box :
      (b : ℕ) (a : Ptr)
      → Ready d (drop_box b a) c
      → Succeeds d (suc n) c (perform d (suc rounds) (some time) (drop_box b a) c)
  unfolding perform AtomBox.drop
  perform-drop_box b a (there, free, unread) =
      let (s', run, sound', spared) =
        retire-returns d n rounds time enough small (unboxed c b)
          (unboxed-IsSound d n c sound b there unread) a (c.world.boxes b).ptr (ground arith)
          free in
      (
        record c { world = s'; boxes = update c.boxes b false },
        rw (sound.near b there) (rw run refl),
        IsSound-stores d (suc n) _ sound' c.stores (λ q. ground arith),
        spared,
      )

  pub perform-reclaim : Succeeds d (suc n) c (perform d (suc rounds) (some time) reclaim c)
  unfolding perform
  perform-reclaim =
      let (m, s', run, settles) =
        bulk_reclaim-Settles d (suc rounds) c.world sound.items sound.hazards sound.domain
          (omega (arith, sound.few_items)) (omega (arith, sound.few_hazards)) in
      let (sound', spared) = reclaimed-IsSound d n c sound s' settles in
      (record c { world = s' }, rw run refl, sound', spared)
