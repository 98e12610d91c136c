-- ===== src/Domain/Retiring.antt =====
-- `retire` of a thread that runs alone, by the strategy of the domain.
use atom_box.Prelude.{
  ℕ, suc, ◌<◌, ◌≡◌, refl, sym, subst, true, false, some, [], ◌∷◌, Option, arith, length,
}
use atom_box.Machine.{Ptr, null, cell, is_free, returns}
use atom_box.LockFreeList.Chain.{Cells, Seg}
use atom_box.LockFreeList.Push.{pushed, push-pushed, Seg-pushed}
use atom_box.HazardPointerList
use atom_box.ReclaimStrategy
use atom_box.ReclaimStrategy.{eager, timed_capped, manual}
use atom_box.World.{Domain, World, Retire, live, update_self}
use atom_box.Domain.{retired, should_reclaim, retire}
use atom_box.Domain.Safety.{mentions, IsDomain, Reclaims, bulk_reclaim-Reclaims}

-- `Retire::new`
abbrev pub item : Ptr → Retire
item value = record { ptr = value; retirable = value }

module _ {V : Type 0} (d : ℕ) (now : Option ℕ) (s : World V) where
  should_reclaim-eager :
      (s.domains d).reclaim_strategy ≡ eager → should_reclaim d now [] s ≡ returns (true, [], s)
  unfolding should_reclaim ReclaimStrategy.should_reclaim
  should_reclaim-eager e = rw e

  should_reclaim-manual :
      (s.domains d).reclaim_strategy ≡ manual → should_reclaim d now [] s ≡ returns (false, [], s)
  unfolding should_reclaim ReclaimStrategy.should_reclaim
  should_reclaim-manual e = rw e

module _ {V : Type 0} (d : ℕ) (s : World V) (fresh value : Ptr) where
  -- The memory once the value has been put on the retired list.
  abbrev pub listed : World V
  listed = (retired d).put (pushed (s.domains d).retired fresh (item value)) s

  pub listed-domain :
      listed.domains d
      ≡ record (s.domains d) { retired = pushed (s.domains d).retired fresh (item value) }
  listed-domain = update_self s.domains d _

  pub listed-IsDomain :
      (xs : Cells Retire) (hs : Cells HazardPointerList.Node) (v : V)
      → IsDomain d xs hs s
      → is_free (s.domains d).retired.nodes fresh ≡ true
      → cell s.values value ≡ some (live v)
      → mentions xs value ≡ false
      → IsDomain d ((fresh, item value) ∷ xs) hs listed
  listed-IsDomain xs hs v inv free alive once = record {
    items =
        subst (λ (x : Domain). Seg x.retired.nodes null x.retired.head ((fresh, item value) ∷ xs))
          (sym listed-domain)
          (Seg-pushed (s.domains d).retired fresh (item value) xs free inv.items);
    hazards = rw listed-domain inv.hazards;
    promised = (v, refl, alive, once, inv.promised);
  }

  module _ (rounds : ℕ) (now : Option ℕ)
      (free : is_free (s.domains d).retired.nodes fresh ≡ true) where
    -- With the strategy `Manual` a thread that runs alone puts a retired value on the list, with a
    -- free address for its node, and nothing else happens.
    pub retire-manual :
        (s.domains d).reclaim_strategy ≡ manual
        → retire d (suc rounds) now fresh value [] s ≡ returns (tt, [], listed)
    unfolding retire
    retire-manual e =
        rw (push-pushed (retired d) rounds fresh (item value) s free)
          (rw (should_reclaim-manual d now listed (rw listed-domain e)))

    -- With the strategy `Eager` a thread that runs alone, and retires a live value that is not yet
    -- retired, puts the value on the list and then reclaims the whole list, with rounds for all
    -- items and hazard pointers: the value is dropped at once, unless a hazard pointer holds its
    -- address.
    pub retire-eager :
        (xs : Cells Retire) (hs : Cells HazardPointerList.Node) (v : V)
        → (s.domains d).reclaim_strategy ≡ eager
        → IsDomain d xs hs s
        → cell s.values value ≡ some (live v)
        → mentions xs value ≡ false
        → length xs < rounds
        → length hs < rounds
        → (n : ℕ) × (s' : World V) × (retire d (suc rounds) now fresh value [] s
            ≡ returns (tt, [], s'))
          × Reclaims d ((fresh, item value) ∷ xs) hs n listed s'
    unfolding retire
    retire-eager xs hs v e inv alive once enough enough' =
        let (n, s', run, swept) =
          bulk_reclaim-Reclaims d (suc rounds) listed ((fresh, item value) ∷ xs) hs
            (listed-IsDomain xs hs v inv free alive once) (omega arith) (omega arith) in
        (
          n,
          s',
          rw (push-pushed (retired d) rounds fresh (item value) s free)
              (rw (should_reclaim-eager d now listed (rw listed-domain e)) (rw run)),
          swept,
        )
