-- ===== src/Bicephaly/Aba.antt =====
-- `get_available` among other threads: a node that comes back in time hides that another is gone.
use atom_box.Prelude.{
  ℕ, suc, ◌+◌, ◌-◌, ◌%◌, ◌^◌, ◌≡◌, ◌≢◌, refl, false, [], ◌∷◌, some, arith, eq→==, ◌==◌,
}
use atom_box.Machine.{null, returns, cell, whole, Tick, compare_exchange_weak, read, alone}
use atom_box.LockFreeList.{isize_mod}
use atom_box.Bicephaly.{
  Node, Bicephaly, pop_loop, pop_available_node, get_available, set_node_available,
}
use atom_box.Bicephaly.Reuse.{popped, returned, get_available-popped, set_node_available-returned}

-- Another thread turns the memory into `l`.
abbrev pub becomes : {S : Type 0} → S → Tick S
becomes l = record { others = λ _. l; weak_fails = false }

module _ {T : Type 0} (l : Bicephaly T) (n m : Node T)
    (own : cell l.nodes l.available_head ≡ some n) (own' : cell l.nodes n.next_available ≡ some m)
    (apart : l.available_head ≢ n.next_available) (rounds : ℕ) where
  abbrev l₁ : Bicephaly T
  l₁ = popped l n

  abbrev l₂ : Bicephaly T
  l₂ = popped l₁ m

  abbrev l₃ : Bicephaly T
  l₃ = returned l₂ l.available_head n

  abbrev l₄ : Bicephaly T
  l₄ = record l₃ {
    available_head = n.next_available;
    available_count = (l₃.available_count + (2 ^ 64 - 1)) % isize_mod;
  }

  overtaken :
      get_available whole (suc rounds) (alone ∷ alone ∷ becomes l₃ ∷ []) l
      ≡ returns (some l.available_head, [], l₄)
  unfolding get_available pop_available_node pop_loop compare_exchange_weak read
  overtaken =
      let there : (l.available_head == null) ≡ false = ground (arith, own) in
      let found : l.nodes l.available_head ≡ some n = ground (arith, own, there) in
      rw there (rw found (rw (eq→== l.available_head l.available_head refl) refl))

  -- Let `a` and `b` be the first two available nodes, and different, and let one thread in
  -- `get_available` have read the head `a` and its link to `b`. Before its exchange another thread
  -- is handed `a` and then `b`, and gives `a` back. The exchange still succeeds, for the head is
  -- `a` again, and makes `b` the head: the first thread has `a`, and the next `get_available` hands
  -- out `b`, which the other thread has.
  pub get_available-twice :
      (u v w x y : Bicephaly T) × (get_available whole (suc rounds) [] l
        ≡ returns (some l.available_head, [], u))
      × (get_available whole (suc rounds) [] u ≡ returns (some n.next_available, [], v))
      × (set_node_available whole (suc rounds) l.available_head [] v ≡ returns (tt, [], w))
      × (get_available whole (suc rounds) (alone ∷ alone ∷ becomes w ∷ []) l
          ≡ returns (some l.available_head, [], x))
      × (get_available whole (suc rounds) [] x ≡ returns (some n.next_available, [], y))
  get_available-twice = (
    l₁,
    l₂,
    l₃,
    l₄,
    popped l₄ m,
    get_available-popped whole rounds l n own,
    get_available-popped whole rounds l₁ m own',
    set_node_available-returned whole rounds l.available_head l₂ n own,
    overtaken,
    get_available-popped whole rounds l₄ m (ground (arith, own', apart)),
  )
