-- ===== src/Machine.antt =====
-- The machine that the crate's code runs on: addresses, what a run can end in, and the monad of
-- its operations. Each shared access is one atomic step, before which the other threads may change
-- the memory in any way; the environment says how, and whether a weak compare-exchange fails
-- spuriously there. An empty environment is a thread that runs alone.
-- The order of shared accesses is sequential consistency; weaker `Ordering`s are not modelled.
pub mod Logic
use atom_box.Prelude.{
  ℕ, ◌≡◌, refl, ap, ◌∙◌, Bool, true, false, not, ◌&&◌, List, [], ◌∷◌, Option, none, some, ◌==◌,
  if◌then◌else◌, arith,
}

abbrev pub Ptr : Type 0
Ptr = ℕ

-- `core::ptr::null_mut()`
abbrev pub null : Ptr
null = 0

-- `fault` is undefined behaviour: an access through a null or dangling pointer, or a double free.
-- `aborts` is a failed allocation, and `starved` a loop that has used up the rounds given to it.
pub data Out (R : Type 0) : Type 0 where
  returns : R → Out R
  fault panics aborts starved : Out R

-- What happens to a thread before one of its atomic steps.
pub record Tick (S : Type 0) : Type 0 where
  pub others : S → S
  pub weak_fails : Bool

abbrev pub Env : Type 0 → Type 0
Env S = List (Tick S)

-- No other thread interferes; a weak compare-exchange does its work, or fails.
abbrev pub alone : {S : Type 0} → Tick S
alone = record { others = λ s. s; weak_fails = false }

abbrev pub spurious : {S : Type 0} → Tick S
spurious = record { others = λ s. s; weak_fails = true }

abbrev pub M : Type 0 → Type 0 → Type 0
M S A = Env S → S → Out (A × Env S × S)

-- `Result` of a compare-exchange and of the methods that pass it on.
pub data Result (A B : Type 0) : Type 0 where
  ok : A → Result A B
  err : B → Result A B

module _ {S A : Type 0} where
  abbrev pub pure : A → M S A
  pure a e s = returns (a, e, s)

  abbrev pub stop : Out (A × Env S × S) → M S A
  stop o e s = o

  abbrev pub settle : Env S → Out (A × S) → Out (A × Env S × S)
  settle e (returns (a, s)) = returns (a, e, s)
  settle e fault = fault
  settle e panics = panics
  settle e aborts = aborts
  settle e starved = starved

  -- One atomic step, which is told whether a weak compare-exchange fails spuriously.
  abbrev pub atomic_weak : (Bool → S → Out (A × S)) → M S A
  atomic_weak f [] s = settle [] (f false s)
  atomic_weak f (t ∷ e) s = settle e (f t.weak_fails (t.others s))

  abbrev pub atomic : (S → Out (A × S)) → M S A
  atomic f = atomic_weak (λ _. f)

-- The state that the next atomic step finds, and the environment after it.
abbrev pub meets : {S : Type 0} → Env S → S → S
meets [] s = s
meets (t ∷ e) s = t.others s

abbrev pub later : {S : Type 0} → Env S → Env S
later [] = []
later (t ∷ e) = e

-- Whether a weak compare-exchange in the next step fails spuriously.
abbrev pub fails_next : {S : Type 0} → Env S → Bool
fails_next [] = false
fails_next (t ∷ e) = t.weak_fails

pub atomic_weak-meets :
    {S A : Type 0} (f : Bool → S → Out (A × S)) (e : Env S) (s : S)
    → atomic_weak f e s ≡ settle (later e) (f (fails_next e) (meets e s))
atomic_weak-meets f [] s = refl
atomic_weak-meets f (t ∷ e) s = refl

pub atomic-meets :
    {S A : Type 0} (f : S → Out (A × S)) (e : Env S) (s : S)
    → atomic f e s ≡ settle (later e) (f (meets e s))
atomic-meets f [] s = refl
atomic-meets f (t ∷ e) s = refl

module _ {S A B : Type 0} where
  abbrev pub and_then : Out (A × Env S × S) → (A → M S B) → Out (B × Env S × S)
  and_then (returns (a, e, s)) k = k a e s
  and_then fault k = fault
  and_then panics k = panics
  and_then aborts k = aborts
  and_then starved k = starved

  infixl 5 ◌>>=◌ ◌>>◌
  abbrev pub ◌>>=◌ : M S A → (A → M S B) → M S B
  (m >>= k) e s = and_then (m e s) k

  abbrev pub ◌>>◌ : M S A → M S B → M S B
  m >> k = m >>= λ _. k

-- A part of the memory that an operation works on: `&self` as a view of the whole.
pub record Lens (S A : Type 0) : Type 0 where
  pub get : S → A
  pub put : A → S → S
  pub get-put : (a : A) (s : S) → get (put a s) ≡ a
  pub put-put : (a b : A) (s : S) → put a (put b s) ≡ put a s

-- A sequence that returns has returned from both parts.
pub bind-returns :
    {S A B : Type 0} (o : Out (A × Env S × S)) (k : A → M S B) {r : B × Env S × S}
    → and_then o k ≡ returns r
    → (a : A) × (e : Env S) × (s : S) × (o ≡ returns (a, e, s)) × (k a e s ≡ returns r)
bind-returns (returns (a, e, s)) k h = (a, e, s, refl, h)
bind-returns fault k h = cc
bind-returns panics k h = cc
bind-returns aborts k h = cc
bind-returns starved k h = cc

settle-later :
    {S A : Type 0} (o : Out (A × S)) (e e' : Env S) {a : A} {s : S}
    → settle e o ≡ returns (a, e', s)
    → e' ≡ e
settle-later (returns (a, s)) e e' h = cc
settle-later fault e e' h = cc
settle-later panics e e' h = cc
settle-later aborts e e' h = cc
settle-later starved e e' h = cc

-- One atomic step uses up one entry of the environment.
pub atomic-later :
    {S A : Type 0} (f : S → Out (A × S)) (e e' : Env S) (s : S) {a : A} {s' : S}
    → atomic f e s ≡ returns (a, e', s')
    → e' ≡ later e
atomic-later f e e' s h = settle-later (f (meets e s)) (later e) e' (rw atomic-meets at h)

-- The whole memory as a part of itself.
abbrev pub whole : {A : Type 0} → Lens A A
whole = record { get = λ a. a; put = λ a _. a; get-put = λ a _. refl; put-put = λ a b _. refl }

-- A part of a part.
infixr 30 ◌within◌
abbrev pub ◌within◌ : {S A B : Type 0} → Lens A B → Lens S A → Lens S B
part within whole = record {
  get = λ s. part.get (whole.get s);
  put = λ b s. whole.put (part.put b (whole.get s)) s;
  get-put = λ b s. ap part.get (whole.get-put _ s) ∙ part.get-put b (whole.get s);
  put-put = λ a b s.
      ap (λ w. whole.put (part.put a w) (whole.put (part.put b (whole.get s)) s))
        (whole.get-put _ s)
      ∙ whole.put-put _ _ s
      ∙ ap (λ w. whole.put w s) (part.put-put a b (whole.get s));
}

-- An `AtomicPtr`, `AtomicIsize`, `AtomicU64` or `AtomicBool` that stands at a fixed place.
module _ {S A : Type 0} (at : Lens S A) where
  abbrev pub load : M S A
  load = atomic λ s. returns (at.get s, s)

  abbrev pub store : A → M S (Unit {0})
  store a = atomic λ s. returns (tt, at.put a s)

  abbrev pub swap : A → M S A
  swap a = atomic λ s. returns (at.get s, at.put a s)

module _ {S : Type 0} (at : Lens S ℕ) where
  exchange : Bool → ℕ → ℕ → S → Out (Result ℕ ℕ × S)
  exchange fails old new s =
      if (at.get s == old) && not fails
      then returns (ok old, at.put new s)
      else returns (err (at.get s), s)

  unfoldable pub compare_exchange : ℕ → ℕ → M S (Result ℕ ℕ)
  unfolding exchange
  compare_exchange old new = atomic (exchange false old new)

  unfoldable pub compare_exchange_weak : ℕ → ℕ → M S (Result ℕ ℕ)
  unfolding exchange
  compare_exchange_weak old new = atomic_weak λ fails. exchange fails old new

  -- A weak compare-exchange succeeds when it meets the expected value and does not fail spuriously.
  pub compare_exchange_weak-meets :
      (old new : ℕ) (e : Env S) (s : S)
      → compare_exchange_weak old new e s ≡ (
          if (at.get (meets e s) == old) && not (fails_next e)
          then returns (ok old, later e, at.put new (meets e s))
          else returns (err (at.get (meets e s)), later e, meets e s))
  unfolding compare_exchange_weak
  compare_exchange_weak-meets old new e s = rw atomic_weak-meets (ground arith)

-- Cells at addresses, one such map for each type of cell.
abbrev pub Heap : Type 0 → Type 0
Heap A = Ptr → Option A

abbrev pub write : {A : Type 0} → Heap A → Ptr → Option A → Heap A
write h p c q = if q == p then c else h q

-- What the allocator may hand out, and what may be dereferenced.
abbrev pub is_free : {A : Type 0} → Heap A → Ptr → Bool
is_free h p = if p == null then false else elim (h p) [ none ↦ true | some _ ↦ false ]

abbrev pub cell : {A : Type 0} → Heap A → Ptr → Option A
cell h p = if p == null then none else h p

module _ {S A : Type 0} (heap : Lens S (Heap A)) where
  -- `Box::into_raw(Box::new(a))`, where the allocator answers with the address `p`. An address that
  -- is null or in use stands for an allocation that fails.
  unfoldable pub box_new : Ptr → A → M S Ptr
  box_new p a = atomic λ s.
      if is_free (heap.get s) p
      then returns (p, heap.put (write (heap.get s) p (some a)) s)
      else aborts

  -- An atomic access to the cell at `p`: its result, and the cell's new contents.
  unfoldable pub access : {R : Type 0} → Ptr → (A → R × A) → M S R
  access p f = atomic λ s. elim (cell (heap.get s) p) [
    | none ↦ fault
    | some a ↦ returns ((f a).0, heap.put (write (heap.get s) p (some (f a).1)) s)
  ]

  -- A read of the cell at `p`.
  unfoldable pub read : {R : Type 0} → Ptr → (A → R) → M S R
  read p f = atomic λ s. elim (cell (heap.get s) p) [ none ↦ fault | some a ↦ returns (f a, s) ]

  -- The end of the box at `p`: what it held is dropped and its memory is given back.
  unfoldable pub box_drop : Ptr → M S A
  box_drop p = atomic λ s. elim (cell (heap.get s) p) [
    | none ↦ fault
    | some a ↦ returns (a, heap.put (write (heap.get s) p none) s)
  ]
