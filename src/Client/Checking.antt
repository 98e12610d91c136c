-- ===== src/Client/Checking.antt =====
-- The steps of the loop of a `load`, its check above all: each one returns, with a sound client.
use atom_box.Prelude.{
  ℕ, suc, ◌<◌, ◌≡◌, refl, true, Option, none, some, ◌==◌, arith, Bool-cases, ==→eq, inl, inr, subst,
  ap, ◌⊎◌,
}
use atom_box.Machine.{Ptr, null}
use atom_box.LockFreeList.Entry.{entry}
use atom_box.HazardPointerList
use atom_box.HazardPointerList.{HazardPointerList}
use atom_box.World.{update}
use atom_box.Client.{
  Client, Reader, to_protect, to_check, to_reset, hazard_held, go_on_load, perform, Ready,
}
use atom_box.Client.Sound.{IsSound, active}
use atom_box.Client.Ownership.{IsSound-suc}
use atom_box.Client.Swapping.{Succeeds}
use atom_box.Client.Underway.{reset-protect, accounted_other, protect-Succeeds}

module _ {V : Type 0} (d n : ℕ) (c : Client V) (sound : IsSound d n c) where
  -- The check of a load: the box is read again, and the memory stays the same.
  module _ (a : Ptr) (b : ℕ) (p : Ptr) (i : c.reading a ≡ some (to_check b p)) where
    abbrev noted : Ptr → Client V
    noted q = record c { reading = update c.reading a (some (to_reset b p q)) }

    noted-IsSound : (q : Ptr) → IsSound d n (noted q)
    noted-IsSound q = record {
      items = sound.items;
      hazards = sound.hazards;
      domain = sound.domain;
      idle = sound.idle;
      near = sound.near;
      boxed = sound.boxed;
      apart = sound.apart;
      stored = sound.stored;
      loaded = sound.loaded;
      accounted = λ e m j full. elim (Bool-cases (a == e)) [
        | inl here ↦
            let known : entry sound.hazards a ≡ some (active p) = (sound.under_way a _ i).0 in
            let same : active p ≡ m = ground (arith, ==→eq a e here) in
            inr (to_reset b p q, ground arith, ap (λ (x : HazardPointerList.Node). x.ptr) same)
        | inr other ↦ accounted_other c a e m.ptr _ other (sound.accounted e m j full)
      ];
      under_way = λ e r j. elim (Bool-cases (a == e)) [
        | inl here ↦
            let now : to_reset b p q ≡ r = ground arith in
            rw (← now) (
              subst
                (λ (x : Ptr).
                  (entry sound.hazards x ≡ some (active p))
                  × (c.boxes b ≡ true)
                  × (c.loads x ≡ none))
                (==→eq a e here) (sound.under_way a _ i))
        | inr other ↦ ground (arith, sound.under_way e r)
      ];
      few_items = sound.few_items;
      few_hazards = sound.few_hazards;
    }

    abbrev confirmed : Ptr → Client V
    confirmed q = record c { loads = update c.loads a (some q); reading = update c.reading a none }

    confirmed-IsSound : (c.world.boxes b).ptr ≡ p → IsSound d n (confirmed p)
    confirmed-IsSound same = record {
      items = sound.items;
      hazards = sound.hazards;
      domain = sound.domain;
      idle = sound.idle;
      near = sound.near;
      boxed = sound.boxed;
      apart = sound.apart;
      stored = sound.stored;
      loaded = λ e q j. elim (Bool-cases (a == e)) [
        | inl here ↦
            let (known, there, _) = sound.under_way a _ i in
            let now : p ≡ q = ground arith in
            rw (← now) (
              subst (λ (x : Ptr). entry sound.hazards x ≡ some (active p)) (==→eq a e here) known,
              rw (← same) (sound.boxed b there).0.0,
            )
        | inr other ↦ sound.loaded e q (ground arith)
      ];
      accounted = λ e m j full. elim (Bool-cases (a == e)) [
        | inl here ↦
            let known : entry sound.hazards a ≡ some (active p) = (sound.under_way a _ i).0 in
            let same : active p ≡ m = ground (arith, ==→eq a e here) in
            inl (ground (arith, ap (λ (x : HazardPointerList.Node). x.ptr) same))
        | inr other ↦
            let kept : c.loads e ≡ update c.loads a (some p) e = ground arith in
            subst
              (λ (o : Option Ptr).
                (o ≡ some m.ptr)
                ⊎ ((r : Reader) × (update c.reading a none e ≡ some r) × (hazard_held r ≡ m.ptr)))
              kept (accounted_other c a e m.ptr none other (sound.accounted e m j full))
      ];
      under_way = λ e r j. ground (arith, sound.under_way e r);
      few_items = sound.few_items;
      few_hazards = sound.few_hazards;
    }

module _ {V : Type 0} (d n rounds time : ℕ) (enough : n < rounds) (c : Client V)
    (sound : IsSound d n c) where
  pub perform-go_on_load :
      (a : Ptr) (r : Reader)
      → Ready d (go_on_load a r) c
      → Succeeds d (suc n) c (perform d (suc rounds) (some time) (go_on_load a r) c)
  unfolding perform
  perform-go_on_load a (to_protect b p) i =
      let (s', run, sound', same) =
        protect-Succeeds d n rounds time enough c sound a p (to_protect b p) (to_check b p) i refl
          refl in
      (
        record c { world = s'; reading = update c.reading a (some (to_check b p)) },
        rw run refl,
        sound',
        λ e q j. rw same refl,
      )
  perform-go_on_load a (to_check b p) i =
      let q : Ptr = (c.world.boxes b).ptr in
      elim (Bool-cases (q == p)) [
        | inl same ↦ (
          confirmed d n c sound a b p i p,
          rw same (rw (==→eq q p same) refl),
          IsSound-suc d n _ (confirmed-IsSound d n c sound a b p i (==→eq q p same)),
          λ e q j. refl,
        )
        | inr other ↦ (
          noted d n c sound a b p i q,
          rw other refl,
          IsSound-suc d n _ (noted-IsSound d n c sound a b p i q),
          λ e q j. refl,
        )
      ]
  perform-go_on_load a (to_reset b p q) i =
      let (s', run, sound', same) =
        protect-Succeeds d n rounds time enough c sound a null (to_reset b p q) (to_protect b q) i
          refl refl in
      (
        record c { world = s'; reading = update c.reading a (some (to_protect b q)) },
        rw (reset-protect d a c.world) (rw run refl),
        sound',
        λ e r j. rw same refl,
      )
