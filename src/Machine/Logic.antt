-- ===== src/Machine/Logic.antt =====
-- What a run among other threads leaves true: assertions on the memory that the other threads keep.
use atom_box.Prelude.{◌≡◌, sym, subst, [], ◌∷◌, Bool}
use atom_box.Machine.{
  Out, returns, fault, panics, aborts, starved, Tick, Env, M, atomic, and_then, settle, meets,
  later, atomic_weak, atomic_weak-meets, fails_next,
}

module _ {S : Type 0} (K : Tick S → Type 0) where
  -- Every tick satisfies the condition `K`.
  abbrev pub Keeps : Env S → Type 0
  Keeps [] = Unit {0}
  Keeps (t ∷ e) = K t × Keeps e

  -- Threads that satisfy the condition keep the assertion true.
  abbrev pub IsStable : (S → Type 0) → Type 0
  IsStable P = (t : Tick S) (s : S) → K t → P s → P (t.others s)

  pub Keeps-later : (e : Env S) → Keeps e → Keeps (later e)
  Keeps-later [] k = tt
  Keeps-later (t ∷ e) k = k.1

  pub stable_meets :
      (P : S → Type 0) → IsStable P → (e : Env S) (s : S) → Keeps e → P s → P (meets e s)
  stable_meets P stable [] s k j = j
  stable_meets P stable (t ∷ e) s k j = stable t s k.0 j

  module _ {A : Type 0} where
    -- If the run returns, its result and its memory satisfy `Q`.
    abbrev pub Ensures : (A → S → Type 0) → Out (A × Env S × S) → Type 0
    Ensures Q (returns (a, e, s)) = Q a s × Keeps e
    Ensures Q _ = Unit {0}

    -- The same of one atomic step.
    abbrev pub Leaves : (A → S → Type 0) → Out (A × S) → Type 0
    Leaves Q (returns (a, s)) = Q a s
    Leaves Q _ = Unit {0}

    settle-Ensures :
        (Q : A → S → Type 0) (o : Out (A × S)) (e : Env S)
        → Keeps e
        → Leaves Q o
        → Ensures Q (settle e o)
    settle-Ensures Q (returns (a, s)) e k q = (q, k)
    settle-Ensures Q fault e k q = tt
    settle-Ensures Q panics e k q = tt
    settle-Ensures Q aborts e k q = tt
    settle-Ensures Q starved e k q = tt

    pub atomic_weak-Ensures :
        (P : S → Type 0) (Q : A → S → Type 0) (f : Bool → S → Out (A × S)) (e : Env S) (s : S)
        → IsStable P
        → ((fails : Bool) (s : S) → P s → Leaves Q (f fails s))
        → Keeps e
        → P s
        → Ensures Q (atomic_weak f e s)
    atomic_weak-Ensures P Q f e s stable step k j =
        subst (Ensures Q) (sym (atomic_weak-meets f e s)) (
          settle-Ensures Q (f (fails_next e) (meets e s)) (later e) (Keeps-later e k)
            (step (fails_next e) (meets e s) (stable_meets P stable e s k j)))

    pub atomic-Ensures :
        (P : S → Type 0) (Q : A → S → Type 0) (f : S → Out (A × S)) (e : Env S) (s : S)
        → IsStable P
        → ((s : S) → P s → Leaves Q (f s))
        → Keeps e
        → P s
        → Ensures Q (atomic f e s)
    atomic-Ensures P Q f e s stable step k j =
        atomic_weak-Ensures P Q (λ _. f) e s stable (λ _. step) k j

    pub weaken :
        (Q R : A → S → Type 0) (o : Out (A × Env S × S))
        → ((a : A) (s : S) → Q a s → R a s)
        → Ensures Q o
        → Ensures R o
    weaken Q R (returns (a, e, s)) f h = (f a s h.0, h.1)
    weaken Q R fault f h = tt
    weaken Q R panics f h = tt
    weaken Q R aborts f h = tt
    weaken Q R starved f h = tt

    pub returns-Ensures :
        (Q : A → S → Type 0) {o : Out (A × Env S × S)} {a : A} {e : Env S} {s : S}
        → Ensures Q o
        → o ≡ returns (a, e, s)
        → Q a s
    returns-Ensures Q h same = (subst (Ensures Q) same h).0

  pub bind-Ensures :
      {A B : Type 0} (Q : A → S → Type 0) (R : B → S → Type 0) (o : Out (A × Env S × S))
      (k : A → M S B)
      → Ensures Q o
      → ((a : A) (e : Env S) (s : S) → Q a s → Keeps e → Ensures R (k a e s))
      → Ensures R (and_then o k)
  bind-Ensures Q R (returns (a, e, s)) k h next = next a e s h.0 h.1
  bind-Ensures Q R fault k h next = tt
  bind-Ensures Q R panics k h next = tt
  bind-Ensures Q R aborts k h next = tt
  bind-Ensures Q R starved k h next = tt
