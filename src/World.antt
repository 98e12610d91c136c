-- ===== src/World.antt =====
-- The state of the program: what src/domain/mod.rs and src/lib.rs keep in memory, and the parts of it
-- that their operations work on.
use atom_box.Prelude.{ℕ, ◌≡◌, refl, ap, ◌∙◌, fun_ext, arith, ◌==◌, if◌then◌else◌}
use atom_box.Machine.{Ptr, Lens, Heap}
use atom_box.LockFreeList.{LockFreeList}
use atom_box.HazardPointerList.{HazardPointerList}
use atom_box.ReclaimStrategy.{ReclaimStrategy}

-- A value of the program in its box: `drop_in_place` ends it and leaves the memory allocated.
pub data Boxed (V : Type 0) : Type 0 where
  live : V → Boxed V
  dropped : Boxed V

-- The same address twice: as the hazard pointers hold it, and as a value to drop.
pub record Retire : Type 0 where
  pub ptr : Ptr
  pub retirable : Ptr

pub record Domain : Type 0 where
  pub retired : LockFreeList Retire
  pub hazard_ptrs : HazardPointerList
  pub reclaim_strategy : ReclaimStrategy

-- `AtomBox` of lib.rs: the address of its value, and which domain it refers to.
pub record AtomBox : Type 0 where
  pub ptr : Ptr
  pub domain : ℕ

-- The memory: the domains, the boxed values, and the atom boxes.
pub record World (V : Type 0) : Type 0 where
  pub domains : ℕ → Domain
  pub values : Heap (Boxed V)
  pub boxes : ℕ → AtomBox

abbrev pub update : {A : Type 0} → (ℕ → A) → ℕ → A → ℕ → A
update f i a j = if j == i then a else f j

pub update_self : {A : Type 0} (f : ℕ → A) (i : ℕ) (a : A) → update f i a i ≡ a
update_self f i a = ground arith

pub update-update :
    {A : Type 0} (f : ℕ → A) (i : ℕ) (a b : A) → update (update f i b) i a ≡ update f i a
update-update f i a b = fun_ext λ j. ground arith

module _ {V : Type 0} where
  abbrev pub at_values : Lens (World V) (Heap (Boxed V))
  at_values = record {
    get = λ s. s.values;
    put = λ h s. record s { values = h };
    get-put = λ h s. refl;
    put-put = λ h g s. refl;
  }

  abbrev pub at_domain : ℕ → Lens (World V) Domain
  at_domain d = record {
    get = λ s. s.domains d;
    put = λ x s. record s { domains = update s.domains d x };
    get-put = λ x s. update_self s.domains d x;
    put-put = λ x y s. λ i. record {
      domains = update-update s.domains d x y i;
      values = s.values;
      boxes = s.boxes;
    };
  }

abbrev pub at_retired : Lens Domain (LockFreeList Retire)
at_retired = record {
  get = λ x. x.retired;
  put = λ l x. record x { retired = l };
  get-put = λ l x. refl;
  put-put = λ l m x. refl;
}

abbrev pub at_hazard_ptrs : Lens Domain HazardPointerList
at_hazard_ptrs = record {
  get = λ x. x.hazard_ptrs;
  put = λ l x. record x { hazard_ptrs = l };
  get-put = λ l x. refl;
  put-put = λ l m x. refl;
}

abbrev pub at_strategy : Lens Domain ReclaimStrategy
at_strategy = record {
  get = λ x. x.reclaim_strategy;
  put = λ r x. record x { reclaim_strategy = r };
  get-put = λ r x. refl;
  put-put = λ r q x. refl;
}

module _ {V : Type 0} where
  -- The `AtomicPtr` of the atom box `b`.
  abbrev pub at_box : ℕ → Lens (World V) Ptr
  at_box b = record {
    get = λ s. (s.boxes b).ptr;
    put = λ p s. record s { boxes = update s.boxes b (record (s.boxes b) { ptr = p }) };
    get-put = λ p s. ap (λ x. x.ptr) (update_self s.boxes b (record (s.boxes b) { ptr = p }));
    put-put = λ p q s i. record {
      domains = s.domains;
      values = s.values;
      boxes = boxes_put s.boxes p q i;
    };
  }
    where
      boxes_put :
          (f : ℕ → AtomBox) (p q : Ptr)
          → let g : ℕ → AtomBox = update f b (record (f b) { ptr = q }) in
            update g b (record (g b) { ptr = p }) ≡ update f b (record (f b) { ptr = p })
      boxes_put f p q =
          update-update f b _ _
          ∙ ap (λ x. update f b (record x { ptr = p })) (update_self f b (record (f b) { ptr = q }))
