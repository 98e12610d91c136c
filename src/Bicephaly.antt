-- ===== src/Bicephaly.antt =====
-- src/domain/bicephaly.rs: the list of hazard pointers with the feature `bicephany`. Its nodes stand in
-- one list for good, and in a second one while they are available. A loop takes the number of rounds
-- that it may make.
pub mod Reuse
pub mod Aba
pub mod Pool
pub mod Refinement
pub mod Visiting
use atom_box.Prelude.{
  ℕ, zero, suc, ◌+◌, ◌%◌, ◌^◌, ◌-◌, ◌≡◌, refl, List, [], ◌∷◌, Option, none, some, ◌==◌,
  if◌then◌else◌,
}
use atom_box.Machine.{
  Ptr, null, returns, starved, M, ok, err, pure, stop, atomic, ◌>>=◌, ◌>>◌, Lens, ◌within◌, load,
  compare_exchange_weak, Heap, box_new, access, read, box_drop,
}
use atom_box.LockFreeList.{isize_mod}

pub record Node (T : Type 0) : Type 0 where
  pub value : T
  pub next_available : Ptr
  pub next_in_use : Ptr

-- `nodes` are the nodes on the heap. The counts are the bit patterns of `isize`s.
pub record Bicephaly (T : Type 0) : Type 0 where
  pub available_head : Ptr
  pub in_use_head : Ptr
  pub available_count : ℕ
  pub in_use_count : ℕ
  pub nodes : Heap (Node T)

abbrev pub new_node : {T : Type 0} → T → Node T
new_node value = record { value = value; next_available = null; next_in_use = null }

abbrev pub new : {T : Type 0} → Bicephaly T
new = record {
  available_head = null;
  in_use_head = null;
  available_count = 0;
  in_use_count = 0;
  nodes = λ _. none;
}

module _ {T : Type 0} where
  abbrev pub at_available_head : Lens (Bicephaly T) Ptr
  at_available_head = record {
    get = λ l. l.available_head;
    put = λ p l. record l { available_head = p };
    get-put = λ p l. refl;
    put-put = λ p q l. refl;
  }

  abbrev pub at_in_use_head : Lens (Bicephaly T) Ptr
  at_in_use_head = record {
    get = λ l. l.in_use_head;
    put = λ p l. record l { in_use_head = p };
    get-put = λ p l. refl;
    put-put = λ p q l. refl;
  }

  abbrev pub at_available_count : Lens (Bicephaly T) ℕ
  at_available_count = record {
    get = λ l. l.available_count;
    put = λ n l. record l { available_count = n };
    get-put = λ n l. refl;
    put-put = λ m n l. refl;
  }

  abbrev pub at_in_use_count : Lens (Bicephaly T) ℕ
  at_in_use_count = record {
    get = λ l. l.in_use_count;
    put = λ n l. record l { in_use_count = n };
    get-put = λ n l. refl;
    put-put = λ m n l. refl;
  }

  abbrev pub at_nodes : Lens (Bicephaly T) (Heap (Node T))
  at_nodes = record {
    get = λ l. l.nodes;
    put = λ h l. record l { nodes = h };
    get-put = λ h l. refl;
    put-put = λ h g l. refl;
  }

-- The arguments of the macro `push_node_method`.
pub record Spine (T : Type 0) : Type 0 where
  pub head : Lens (Bicephaly T) Ptr
  pub set_next : Ptr → Node T → Node T
  pub count : Lens (Bicephaly T) ℕ

module _ {T : Type 0} where
  abbrev pub available : Spine T
  available = record {
    head = at_available_head;
    set_next = λ p n. record n { next_available = p };
    count = at_available_count;
  }

  abbrev pub in_use : Spine T
  in_use = record {
    head = at_in_use_head;
    set_next = λ p n. record n { next_in_use = p };
    count = at_in_use_count;
  }

module _ {S T : Type 0} (self : Lens S (Bicephaly T)) where
  -- `fetch_add(n, _)` of a count, where -1 is `isize_mod - 1`
  abbrev pub fetch_add : Lens (Bicephaly T) ℕ → ℕ → M S (Unit {0})
  fetch_add count n = atomic λ s.
      let at : Lens S ℕ = count within self in returns (tt, at.put ((at.get s + n) % isize_mod) s)

  -- The `loop` of `push_node_method`.
  unfoldable pub push_node_loop : Spine T → ℕ → Ptr → Ptr → M S Ptr
  push_node_loop spine zero head_ptr node = stop starved
  push_node_loop spine (suc rounds) head_ptr node = do
    access (at_nodes within self) node λ n. (tt, spine.set_next head_ptr n)
    r ← compare_exchange_weak (spine.head within self) head_ptr node
    elim r [
      | ok _ ↦ fetch_add spine.count 1 >> pure node
      | err seen ↦ push_node_loop spine rounds seen node
    ]

  unfoldable pub push_node : Spine T → ℕ → Ptr → M S Ptr
  unfolding push_node_loop
  push_node spine rounds node = do
    head_ptr ← load (spine.head within self)
    push_node_loop spine rounds head_ptr node

  unfoldable pub push_available_node : ℕ → Ptr → M S Ptr
  unfolding push_node
  push_available_node = push_node available

  unfoldable pub push_in_use_node : ℕ → Ptr → M S Ptr
  unfolding push_node
  push_in_use_node = push_node in_use

  -- The `while` loop of `pop_available_node`.
  unfoldable pub pop_loop : ℕ → Ptr → M S (Option Ptr)
  pop_loop zero head_ptr = stop starved
  pop_loop (suc rounds) head_ptr = if head_ptr == null then pure none else (do
    new_head_ptr ← read (at_nodes within self) head_ptr λ n. n.next_available
    r ← compare_exchange_weak (at_available_head within self) head_ptr new_head_ptr
    elim r [
      | ok _ ↦ fetch_add at_available_count (2 ^ 64 - 1) >> pure (some head_ptr)
      | err updated_head_ptr ↦ pop_loop rounds updated_head_ptr
    ])

  unfoldable pub pop_available_node : ℕ → M S (Option Ptr)
  unfolding pop_loop
  pop_available_node rounds = do
    head_ptr ← load (at_available_head within self)
    pop_loop rounds head_ptr

  unfoldable pub get_available : ℕ → M S (Option Ptr)
  unfolding pop_available_node
  get_available = pop_available_node

  unfoldable pub set_node_available : ℕ → Ptr → M S (Unit {0})
  unfolding push_available_node
  set_node_available rounds node = push_available_node rounds node >> pure tt

  unfoldable pub push_in_use : ℕ → Ptr → T → M S Ptr
  unfolding push_in_use_node
  push_in_use rounds fresh value = do
    node ← box_new (at_nodes within self) fresh (new_node value)
    push_in_use_node rounds node

  -- A `BicephalyIterator` is the node that it stands at.
  unfoldable pub iter : M S Ptr
  iter = load (at_in_use_head within self)

  unfoldable pub next : Ptr → M S (Option (Ptr × Ptr))
  next node =
      if node == null
      then pure none
      else (do rest ← read (at_nodes within self) node λ n. n.next_in_use; pure (some (node, rest)))

  unfoldable pub drop_loop : ℕ → Ptr → M S (Unit {0})
  drop_loop zero node_ptr = stop starved
  drop_loop (suc rounds) node_ptr =
      if node_ptr == null
      then pure tt
      else do node ← box_drop (at_nodes within self) node_ptr; drop_loop rounds node.next_in_use

  unfoldable pub drop : ℕ → M S (Unit {0})
  unfolding drop_loop
  drop rounds = do node_ptr ← load (at_in_use_head within self); drop_loop rounds node_ptr
