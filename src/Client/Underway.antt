-- ===== src/Client/Underway.antt =====
-- The steps of a `load` that others interrupt: each one returns, with a sound client.
use atom_box.Prelude.{
  ℕ, suc, ◌<◌, ◌≡◌, refl, true, false, Option, none, some, [], ◌∷◌, ◌==◌, arith, Bool-cases, ==→eq,
  inl, inr, subst, ap, ◌∙◌, ◌⊎◌,
}
use atom_box.Machine.{Ptr, null, returns, write}
use atom_box.LockFreeList.Push.{pushed, Seg-pushed}
use atom_box.LockFreeList.Chain.{node}
use atom_box.LockFreeList.Entry.{
  entry, entry-cell, replaced, Seg-replaced, entry-replaced, entry-replaced_here, length-replaced,
}
use atom_box.HazardPointerList
use atom_box.HazardPointerList.{HazardPointerList}
use atom_box.HazardPointerList.Idle.{IsIdle-write}
use atom_box.World.{World, update}
use atom_box.Domain.{protect, reset}
use atom_box.AtomBox.Loading.{with_hazard, protect-writes, acquire_haz_ptr-pushes}
use atom_box.Client.{Client, Reader, to_protect, box_read, hazard_held, begin_load, perform, Ready}
use atom_box.Client.Sound.{IsSound, active}
use atom_box.Client.Hazards.{hazards_put, hazards_put-IsSound, free-loads}
use atom_box.Client.Swapping.{Succeeds}

pub reset-protect :
    {V : Type 0} (d : ℕ) (a : Ptr) (s : World V) → reset d a [] s ≡ protect d a null [] s
unfolding reset protect
reset-protect d a s = refl

module _ {V : Type 0} (c : Client V) (a e p : Ptr) (x : Option Reader)
    (other : (a == e) ≡ false) where
  -- A hazard pointer of another guard or load.
  pub accounted_other :
      (c.loads e ≡ some p) ⊎ ((r : Reader) × (c.reading e ≡ some r) × (hazard_held r ≡ p))
      → (c.loads e ≡ some p)
        ⊎ ((r : Reader) × (update c.reading a x e ≡ some r) × (hazard_held r ≡ p))
  accounted_other (inl i) = inl i
  accounted_other (inr (r, i, h)) = inr (r, ground arith, h)

module _ {V : Type 0} (d n rounds time : ℕ) (enough : n < rounds) (c : Client V)
    (sound : IsSound d n c) where
  pub perform-begin_load :
      (b : ℕ) (a : Ptr)
      → Ready d (begin_load b a) c
      → Succeeds d (suc n) c (perform d (suc rounds) (some time) (begin_load b a) c)
  unfolding perform
  perform-begin_load b a (there, free) =
      let near : (c.world.boxes b).domain ≡ d = sound.near b there in
      let l : HazardPointerList = (c.world.domains d).hazard_ptrs in
      let p : Ptr = (c.world.boxes b).ptr in
      let run =
        acquire_haz_ptr-pushes d c.world rounds a sound.hazards sound.domain.hazards sound.idle free
          (omega (arith, sound.few_hazards)) in
      (
        record c {
          world = with_hazard d c.world a (active null);
          reading = update c.reading a (some (to_protect b p));
        },
        rw near (rw run refl),
        hazards_put-IsSound d n c sound (pushed l a (active null))
            ((a, active null) ∷ sound.hazards) c.loads (update c.reading a (some (to_protect b p)))
            (Seg-pushed l a (active null) sound.hazards free sound.domain.hazards)
            (IsIdle-write l.nodes a (node (active null) l.head) sound.idle (λ off. cc))
            (λ e q i. ground (arith, sound.loaded e q, free-loads d n c sound a free))
            (λ e m i full. elim (Bool-cases (a == e)) [
              | inl here ↦ absurd (ground arith)
              | inr other ↦
                  accounted_other c a e m.ptr _ other (sound.accounted e m (ground arith) full)
            ])
            (λ e r i. elim (Bool-cases (a == e)) [
              | inl here ↦
                  let same : to_protect b p ≡ r = ground arith in
                  rw (← same) (ground arith, there, ground (arith, free-loads d n c sound a free))
              | inr other ↦ ground (arith, sound.under_way e r)
            ])
            (omega (arith, sound.few_hazards)),
        λ e q i. refl,
      )

  -- The hazard pointer of a load holds another address.
  module _ (a q : Ptr) (r r' : Reader) (i : c.reading a ≡ some r) (same : box_read r' ≡ box_read r)
      (holds : hazard_held r' ≡ q) where
    abbrev moved : World V → Client V
    moved s = record c { world = s; reading = update c.reading a (some r') }

    now_held :
        (b : Ptr) (m : HazardPointerList.Node)
        → entry (replaced sound.hazards a (active q)) b ≡ some m
        → (a == b) ≡ true
        → q ≡ m.ptr
    now_held b m j here =
        let there = entry-replaced_here sound.hazards a _ (active q) (sound.under_way a r i).0 in
        let same : active q ≡ m = ground (arith, there, ==→eq a b here) in
        ap (λ (x : HazardPointerList.Node). x.ptr) same

    pub protect-Succeeds :
        (s' : World V) × (protect d a q [] c.world ≡ returns (tt, [], s'))
        × IsSound d (suc n) (moved s')
        × (s'.values ≡ c.world.values)
    protect-Succeeds =
        let l : HazardPointerList = (c.world.domains d).hazard_ptrs in
        let e = (sound.under_way a r i).0 in
        let (next, own) =
          entry-cell l.nodes null _ a (active (hazard_held r)) sound.hazards sound.domain.hazards
            e in
        (
          hazards_put d c.world
              (record l { nodes = write l.nodes a (some (node (active q) next)) }),
          protect-writes d c.world a q (node (active (hazard_held r)) next) own,
          hazards_put-IsSound d n c sound
              (record l { nodes = write l.nodes a (some (node (active q) next)) })
              (replaced sound.hazards a (active q)) c.loads (update c.reading a (some r'))
              (Seg-replaced l.nodes null l.head a next (active (hazard_held r)) (active q)
                sound.hazards own sound.domain.hazards)
              (IsIdle-write l.nodes a (node (active q) next) sound.idle (λ off. cc))
              (λ b p j. ground (
                arith,
                sound.loaded b p,
                entry-replaced sound.hazards a b (active q),
                sound.under_way a r i,
              ))
              (λ b m j full. elim (Bool-cases (a == b)) [
                | inl here ↦ inr (r', ground arith, holds ∙ now_held b m j here)
                | inr other ↦ accounted_other c a b m.ptr _ other (
                    sound.accounted b m
                      (ground (arith, entry-replaced sound.hazards a b (active q))) full)
              ])
              (λ b r'' j. elim (Bool-cases (a == b)) [
                | inl here ↦
                    let now : r' ≡ r'' = ground arith in
                    let spot = ==→eq a b here in
                    let there = entry-replaced_here sound.hazards a _ (active q) e in
                    let (_, known, unheld) = sound.under_way a r i in
                    rw (← now) (
                      rw holds (
                          subst
                            (λ (x : Ptr).
                              entry (replaced sound.hazards a (active q)) x ≡ some (active q))
                            spot there),
                      rw same known,
                      subst (λ (x : Ptr). c.loads x ≡ none) spot unheld,
                    )
                | inr other ↦
                    ground
                      (arith, sound.under_way b r'', entry-replaced sound.hazards a b (active q))
              ])
              (omega (arith, sound.few_hazards, length-replaced sound.hazards a (active q))),
          refl,
        )
