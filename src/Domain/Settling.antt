-- ===== src/Domain/Settling.antt =====
-- `retire` and `bulk_reclaim` of a thread that runs alone, with any strategy and at any time.
use atom_box.Prelude.{
  ℕ, suc, ◌<◌, ◌≤◌, ◌≡◌, refl, ◌∙◌, subst, sym, Bool, true, false, not, ◌&&◌, [], ◌∷◌, some, arith,
  length, if◌then◌else◌, Bool-cases,
}
use atom_box.Prelude.Int.{word, of_bits}
use atom_box.Machine.{Ptr, cell, is_free, returns, pure, ◌>>◌}
use atom_box.LockFreeList.Chain.{Cells}
use atom_box.LockFreeList.Push.{pushed, push-pushed}
use atom_box.HazardPointerList
use atom_box.ReclaimStrategy.{ReclaimStrategy}
use atom_box.World.{World, Domain, Retire, live, dropped}
use atom_box.Domain.{contains, retired, should_reclaim, retire, bulk_reclaim}
use atom_box.Domain.Guarded.{held}
use atom_box.Domain.Safety.{mentions, IsDomain, Reclaims, bulk_reclaim-Reclaims}
use atom_box.Domain.Retiring.{item, listed, listed-domain, listed-IsDomain}
use atom_box.Domain.Deciding.{decide, decided, decided-domain, should_reclaim-decide}

-- From `s` to `s'` some of the retired items `xs` have been dropped, none that a hazard pointer holds.
pub record Settles {V : Type 0} (d : ℕ) (xs : Cells Retire) (hs : Cells HazardPointerList.Node)
    (s s' : World V) : Type 0 where
  pub left : Cells Retire
  pub domain : IsDomain d left hs s'
  pub subset : (p : Ptr) → mentions left p ≡ true → mentions xs p ≡ true
  pub guarded :
      (p : Ptr) → mentions xs p ≡ true → contains (held hs) p ≡ true → mentions left p ≡ true
  pub values :
      (p : Ptr)
      → s'.values p ≡ (if mentions xs p && not (mentions left p) then some dropped else s.values p)
  pub hazards : (s'.domains d).hazard_ptrs ≡ (s.domains d).hazard_ptrs
  pub boxes : s'.boxes ≡ s.boxes
  pub shorter : length left ≤ length xs

Reclaims-Settles :
    {V : Type 0} {d : ℕ} {xs : Cells Retire} {hs : Cells HazardPointerList.Node} {n : ℕ}
    {s s' : World V}
    → Reclaims d xs hs n s s'
    → Settles d xs hs s s'
Reclaims-Settles r = record {
  left = r.left;
  domain = r.domain;
  subset = λ p i. ground (arith, r.waiting p);
  guarded = λ p i h. ground (arith, r.waiting p);
  values = λ p. ground (arith, r.waiting p, r.values p);
  hazards = r.hazards;
  boxes = r.boxes;
  shorter = omega (arith, r.total);
}

pub bulk_reclaim-Settles :
    {V : Type 0} (d rounds : ℕ) (s : World V) (xs : Cells Retire)
    (hs : Cells HazardPointerList.Node)
    → IsDomain d xs hs s
    → length xs < rounds
    → length hs < rounds
    → (n : ℕ) × (s' : World V) × (bulk_reclaim d rounds [] s ≡ returns (n, [], s'))
      × Settles d xs hs s s'
bulk_reclaim-Settles d rounds s xs hs inv enough enough' =
    let (n, s', run, r) = bulk_reclaim-Reclaims d rounds s xs hs inv enough enough' in
    (n, s', run, Reclaims-Settles r)

module _ {V : Type 0} (d : ℕ) (s : World V) (fresh value : Ptr) (t : ℕ) where
  -- What the strategy decides once the value is on the retired list.
  abbrev pub decision : Bool × ReclaimStrategy
  decision =
      decide (s.domains d).reclaim_strategy t
        (of_bits (pushed (s.domains d).retired fresh (item value)).count)

  -- The memory once the value is on the retired list and the strategy has decided.
  abbrev pub waiting : World V
  waiting = decided d (listed d s fresh value) decision.1

  -- A reclamation of the list, with the new item, or nothing more.
  abbrev pub Retires : Bool → Cells Retire → Cells HazardPointerList.Node → World V → Type 0
  Retires true xs hs s' = (n : ℕ) × Reclaims d ((fresh, item value) ∷ xs) hs n waiting s'
  Retires false xs hs s' = s' ≡ waiting

  waiting-domain : waiting.domains d ≡ record (s.domains d) {
    retired = pushed (s.domains d).retired fresh (item value);
    reclaim_strategy = decision.1;
  }
  waiting-domain =
      decided-domain d (listed d s fresh value) decision.1 ∙ rw (listed-domain d s fresh value) refl

  waiting-IsDomain :
      (xs : Cells Retire) (hs : Cells HazardPointerList.Node)
      → IsDomain d xs hs (listed d s fresh value)
      → IsDomain d xs hs waiting
  waiting-IsDomain xs hs inv = record {
    items = rw (decided-domain d (listed d s fresh value) decision.1) inv.items;
    hazards = rw (decided-domain d (listed d s fresh value) decision.1) inv.hazards;
    promised = inv.promised;
  }

  module _ (rounds : ℕ) (xs : Cells Retire) (hs : Cells HazardPointerList.Node) (v : V)
      (small : t < word) (free : is_free (s.domains d).retired.nodes fresh ≡ true)
      (inv : IsDomain d xs hs s) (alive : cell s.values value ≡ some (live v))
      (once : mentions xs value ≡ false) (enough : length xs < rounds)
      (enough' : length hs < rounds) where
    decides :
        should_reclaim d (some t) [] (listed d s fresh value) ≡ returns (decision.0, [], waiting)
    decides =
        subst
          (λ (x : Domain). should_reclaim d (some t) [] (listed d s fresh value) ≡ (
            let r : Bool × ReclaimStrategy =
              decide x.reclaim_strategy t (of_bits x.retired.count) in
            returns (r.0, [], decided d (listed d s fresh value) r.1)))
          (listed-domain d s fresh value) (should_reclaim-decide d (listed d s fresh value) t small)

    settled :
        (wanted : Bool)
        → (s' : World V) × ((if wanted then bulk_reclaim d (suc rounds) >> pure tt else pure tt) []
              waiting
            ≡ returns (tt, [], s'))
          × Retires wanted xs hs s'
    settled false = (waiting, refl, refl)
    settled true =
        let (n, s', run, swept) =
          bulk_reclaim-Reclaims d (suc rounds) waiting ((fresh, item value) ∷ xs) hs
            (waiting-IsDomain _ hs (listed-IsDomain d s fresh value xs hs v inv free alive once))
            (omega arith) (omega arith) in
        (s', rw run, (n, swept))

    -- A thread that runs alone, at a time `t` within 64 bits, retires a live value that is not yet
    -- retired, with a free address for the list node and rounds for all items and hazard pointers.
    -- The value is put on the list, and the strategy decides once, for the count that includes it:
    -- if it calls for a reclamation, the whole list with the new item is reclaimed, and otherwise
    -- nothing more happens.
    pub retire_lem :
        (s' : World V) × (retire d (suc rounds) (some t) fresh value [] s ≡ returns (tt, [], s'))
        × Retires decision.0 xs hs s'
    unfolding retire
    retire_lem =
        let (s', run, outcome) = settled decision.0 in
        (
          s',
          rw (push-pushed (retired d) rounds fresh (item value) s free) (rw decides run),
          outcome,
        )

    -- With nothing reclaimed, and then from the memory before the call.
    waiting-Settles : Settles d ((fresh, item value) ∷ xs) hs waiting waiting
    waiting-Settles = record {
      left = (fresh, item value) ∷ xs;
      domain = waiting-IsDomain _ hs (listed-IsDomain d s fresh value xs hs v inv free alive once);
      subset = λ p i. i;
      guarded = λ p i h. i;
      values = λ p. ground (arith, Bool-cases (mentions ((fresh, item value) ∷ xs) p));
      hazards = refl;
      boxes = refl;
      shorter = omega arith;
    }

    Settles-waiting :
        (s' : World V)
        → Settles d ((fresh, item value) ∷ xs) hs waiting s'
        → Settles d ((fresh, item value) ∷ xs) hs s s'
    Settles-waiting s' r = record {
      left = r.left;
      domain = r.domain;
      subset = r.subset;
      guarded = r.guarded;
      values = r.values;
      hazards = r.hazards ∙ rw waiting-domain;
      boxes = r.boxes;
      shorter = r.shorter;
    }

    Retires-Settles :
        (wanted : Bool) (s' : World V)
        → Retires wanted xs hs s'
        → Settles d ((fresh, item value) ∷ xs) hs s s'
    Retires-Settles false s' e =
        subst (Settles d ((fresh, item value) ∷ xs) hs s) (sym e)
          (Settles-waiting waiting waiting-Settles)
    Retires-Settles true s' (n, r) = Settles-waiting s' (Reclaims-Settles r)

    pub retire-Settles :
        (s' : World V) × (retire d (suc rounds) (some t) fresh value [] s ≡ returns (tt, [], s'))
        × Settles d ((fresh, item value) ∷ xs) hs s s'
    retire-Settles =
        let (s', run, outcome) = retire_lem in (s', run, Retires-Settles decision.0 s' outcome)
