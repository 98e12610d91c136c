-- ===== src/Client/Schedules.antt =====
-- `load` among other threads comes to an end.
use atom_box.Prelude.{
  ℕ, zero, suc, ◌+◌, ◌<◌, ◌≤◌, ◌≡◌, refl, ◌∙◌, ap, sym, subst, true, false, some, [], ◌∷◌, ◌==◌,
  arith, length, Bool-cases, inl, inr, eq→==,
}
use atom_box.Machine.{Ptr, Env, load as load_ptr, returns, bind-returns, later}
use atom_box.Machine.Logic.{Keeps, Keeps-later}
use atom_box.World.{World, AtomBox, at_box}
use atom_box.Domain.{acquire_haz_ptr, protect, reset}
use atom_box.AtomBox
use atom_box.AtomBox.{load_loop, deref}
use atom_box.Client.{Client, to_protect, Reach, load_start, load_guard}
use atom_box.Client.Safety.{deref-returns}
use atom_box.Client.Interrupted.{load-loop}
use atom_box.Client.Ticks.{Interrupts, step-protect, step-reset, step-check}

length-later : {S : Type 0} (e : Env S) → length (later e) ≤ length e
length-later [] = omega arith
length-later (t ∷ e) = omega arith

module _ {V : Type 0} (d a b : ℕ) where
  module _ (k : ℕ) (p q : Ptr) (e e₁ e₂ : Env (World V)) (s s₁ s₂ : World V)
      (set : protect d a p e s ≡ returns (tt, e₁, s₁))
      (read : load_ptr (at_box b) e₁ s₁ ≡ returns (q, e₂, s₂)) where
    load_loop-last : (q == p) ≡ true → load_loop b d (suc k) a p e s ≡ returns (q, e₂, s₂)
    unfolding load_loop
    load_loop-last same = rw set (rw read (rw same refl))

    load_loop-again :
        (e₃ : Env (World V)) (s₃ : World V)
        → (q == p) ≡ false
        → reset d a e₂ s₂ ≡ returns (tt, e₃, s₃)
        → load_loop b d (suc k) a p e s ≡ load_loop b d k a q e₃ s₃
    unfolding load_loop
    load_loop-again e₃ s₃ other cleared = rw set (rw read (rw other (rw cleared refl)))

  -- The loop has returned, with a guard of the program.
  abbrev pub Ended : Env (World V) → Client V → ℕ → Ptr → Type 0
  Ended e c k p =
      (q : Ptr) × (e' : Env (World V)) × (m : ℕ) × (c' : Client V) × (load_loop b d k a p e c.world
        ≡ returns (q, e', c'.world))
      × (c'.loads a ≡ some q)
      × Reach d m c'

  module _ (e : Env (World V)) (n : ℕ) (c : Client V) (p : Ptr) (k : ℕ)
      (keeps : Keeps (Interrupts d a b) e) (h : Reach d n c)
      (ready : c.reading a ≡ some (to_protect b p)) where
    -- A round of the loop is the last, or leads to the next.
    round :
        ((m : ℕ) (c' : Client V) (q : Ptr)
          → Reach d m c'
          → c'.reading a ≡ some (to_protect b q)
          → (e ≡ [] → (c'.world.boxes b).ptr ≡ q)
          → (e ≡ [] → ((c.world.boxes b).ptr == p) ≡ false)
          → Ended (later (later (later e))) c' k q)
        → Ended e c (suc k) p
    round continue =
        let (n₁, c₁, h₁, ready₁, set, kept₁) = step-protect d a b e n c p keeps h ready in
        let keeps₁ = Keeps-later (Interrupts d a b) e keeps in
        let (q, n₂, c₂, h₂, read, holds, found, held, ready₂) =
          step-check d a b (later e) n₁ c₁ p keeps₁ h₁ ready₁ in
        elim (Bool-cases (q == p)) [
          | inl same ↦ (
            q,
            later (later e),
            n₂,
            c₂,
            load_loop-last k p q e (later e) (later (later e)) c.world c₁.world c₂.world set read
                same,
            held same,
            h₂,
          )
          | inr other ↦
              let (n₃, c₃, h₃, ready₃, cleared, kept₃) =
                step-reset d a b (later (later e)) n₂ c₂ p
                  (Keeps-later (Interrupts d a b) (later e) keeps₁) h₂ q (ready₂ other) in
              let (r, e', m, c', run, kept, ends) =
                continue n₃ c₃ q h₃ ready₃
                  (λ none_left.
                    ap (λ (f : ℕ → AtomBox). (f b).ptr)
                      (kept₃ (ap (λ (x : Env (World V)). later (later x)) none_left))
                    ∙ holds)
                  (λ none_left.
                    subst (λ (x : Ptr). (x == p) ≡ false)
                      (sym (found (ap (λ (x : Env (World V)). later x) none_left))
                        ∙ ap (λ (f : ℕ → AtomBox). (f b).ptr) (kept₁ none_left))
                      other) in
              (
                r,
                e',
                m,
                c',
                load_loop-again k p q e (later e) (later (later e)) c.world c₁.world c₂.world set
                      read (later (later (later e))) c₃.world other cleared
                    ∙ run,
                kept,
                ends,
              )
        ]

  settled :
      (n : ℕ) (c : Client V) (p : Ptr) (k : ℕ)
      → Reach d n c
      → c.reading a ≡ some (to_protect b p)
      → (c.world.boxes b).ptr ≡ p
      → Ended [] c (suc k) p
  settled n c p k h ready same = round [] n c p k tt h ready λ m c' q h' ready' still other.
      absurd (ground (arith, other refl, eq→== (c.world.boxes b).ptr p same))

  load_loop-Ended :
      (k : ℕ) (e : Env (World V)) (n : ℕ) (c : Client V) (p : Ptr)
      → Keeps (Interrupts d a b) e
      → Reach d n c
      → c.reading a ≡ some (to_protect b p)
      → length e + 1 < k
      → Ended e c k p
  load_loop-Ended zero e n c p keeps h ready enough = absurd (omega arith)
  load_loop-Ended (suc zero) e n c p keeps h ready enough = absurd (omega arith)
  load_loop-Ended (suc (suc k)) [] n c p keeps h ready enough =
      round [] n c p (suc k) keeps h ready
        λ m c' q h' ready' still other. settled m c' q k h' ready' (still refl)
  load_loop-Ended (suc (suc k)) (t ∷ e) n c p keeps h ready enough =
      round (t ∷ e) n c p (suc k) keeps h ready λ m c' q h' ready' still other.
        let l₁ = length-later e in
        let l₂ = length-later (later e) in
        load_loop-Ended (suc k) (later (later e)) m c' q
          (Keeps-later (Interrupts d a b) (later e) (Keeps-later (Interrupts d a b) e keeps.1)) h'
          ready' (omega arith)

  -- `load` of a box of the domain by a thread that has come to the loop with the hazard pointer `a`,
  -- in an environment that has not more than `k - 2` ticks left, each of which does what any calls
  -- of the other threads do, stores in the same box and reclamations included, in a program that
  -- has come by calls and steps of loads to where it is. If the loop may go round `k` times, `load`
  -- returns, its guard is one of the program, which has come to the end by calls and steps of the
  -- same kind, and a read through the guard gives a value.
  pub load-returns :
      (k n : ℕ) (e₀ e : Env (World V)) (s : World V) (c : Client V) (p fresh : Ptr)
      → Reach d n c
      → c.reading a ≡ some (to_protect b p)
      → (s.boxes b).domain ≡ d
      → load_start b k fresh e₀ s ≡ returns ((a, p), e, c.world)
      → Keeps (Interrupts d a b) e
      → length e + 1 < k
      → (q : Ptr) × (e' : Env (World V)) × (m : ℕ) × (c' : Client V) × (AtomBox.load b k fresh e₀ s
          ≡ returns (load_guard d (some a) q, e', c'.world))
        × (c'.loads a ≡ some q)
        × Reach d m c'
        × (v : V) × (deref q [] c'.world ≡ returns (v, [], c'.world))
  load-returns k n e₀ e s c p fresh h ready near started keeps enough =
      let (q, e', m, c', run, held, ends) = load_loop-Ended k e n c p keeps h ready enough in
      let (v, read) = deref-returns d m c' q ends (inl (a, held)) in
      let (haz, e₁, s₁, acquired, more) =
        bind-returns (acquire_haz_ptr (s.boxes b).domain k fresh e₀ s) _ started in
      let (p', e₂, s₂, looked, last) = bind-returns (load_ptr (at_box b) e₁ s₁) _ more in
      (
        q,
        e',
        m,
        c',
        load-loop d a b haz p p' q fresh k e₀ e₁ e₂ e e' s s₁ s₂ c.world c'.world near acquired
            looked last run,
        held,
        ends,
        v,
        read,
      )
