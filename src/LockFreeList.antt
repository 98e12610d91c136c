-- ===== src/LockFreeList.antt =====
-- src/domain/list.rs: the singly linked list under the retired items and the hazard pointers, pushed
-- by compare-exchange. The nodes of one type live at addresses of a map of their own. A loop takes
-- the number of rounds that it may make.
pub mod Chain
pub mod Push
pub mod Contended
pub mod Release
pub mod Order
pub mod Entry
use atom_box.Prelude.{
  ℕ, zero, suc, ◌+◌, ◌%◌, ◌^◌, ◌≡◌, refl, Bool, true, false, List, [], ◌∷◌, Option, none, some,
  ◌==◌, if◌then◌else◌,
}
use atom_box.Machine.{
  Ptr, null, Out, returns, starved, M, Result, ok, err, pure, stop, atomic, ◌>>=◌, ◌>>◌, Lens,
  ◌within◌, load, store, compare_exchange_weak, Heap, box_new, access, read, box_drop,
}

pub record Node (T : Type 0) : Type 0 where
  pub value : T
  pub next : Ptr

-- `nodes` are the nodes on the heap. `count` is the bit pattern of an `isize`.
pub record LockFreeList (T : Type 0) : Type 0 where
  pub head : Ptr
  pub count : ℕ
  pub nodes : Heap (Node T)

abbrev pub isize_mod : ℕ
isize_mod = 2 ^ 64

abbrev pub new : {T : Type 0} → LockFreeList T
new = record { head = null; count = 0; nodes = λ _. none }

module _ {T : Type 0} where
  abbrev pub at_head : Lens (LockFreeList T) Ptr
  at_head = record {
    get = λ l. l.head;
    put = λ p l. record l { head = p };
    get-put = λ p l. refl;
    put-put = λ p q l. refl;
  }

  abbrev pub at_count : Lens (LockFreeList T) ℕ
  at_count = record {
    get = λ l. l.count;
    put = λ n l. record l { count = n };
    get-put = λ n l. refl;
    put-put = λ m n l. refl;
  }

  abbrev pub at_nodes : Lens (LockFreeList T) (Heap (Node T))
  at_nodes = record {
    get = λ l. l.nodes;
    put = λ h l. record l { nodes = h };
    get-put = λ h l. refl;
    put-put = λ h g l. refl;
  }

module _ {S T : Type 0} (self : Lens S (LockFreeList T)) where
  abbrev pub load_next : Ptr → M S Ptr
  load_next p = read (at_nodes within self) p λ n. n.next

  -- `&*node_ptr`
  abbrev pub read_node : Ptr → M S (Node T)
  read_node p = read (at_nodes within self) p λ n. n

  abbrev pub store_next : Ptr → Ptr → M S (Unit {0})
  store_next p q = access (at_nodes within self) p λ n. (tt, record n { next = q })

  -- `self.count.fetch_add(n, _)`, which wraps
  abbrev pub fetch_add : ℕ → M S (Unit {0})
  fetch_add n = atomic λ s.
      let l = self.get s in
      returns (tt, self.put (record l { count = (l.count + n) % isize_mod }) s)

  -- The `loop` of `push_all`, with what `self.head` was last seen to hold.
  unfoldable pub push_all_loop : ℕ → Ptr → Ptr → Ptr → ℕ → M S Ptr
  push_all_loop zero head_ptr new_head_ptr tail_ptr number_of_added_items = stop starved
  push_all_loop (suc rounds) head_ptr new_head_ptr tail_ptr number_of_added_items = do
    store_next tail_ptr head_ptr
    r ← compare_exchange_weak (at_head within self) head_ptr new_head_ptr
    elim r [
      | ok _ ↦ fetch_add number_of_added_items >> pure new_head_ptr
      | err seen ↦ push_all_loop rounds seen new_head_ptr tail_ptr number_of_added_items
    ]

  -- `tail_ptr` is the node whose `next` the source passes.
  unfoldable pub push_all : ℕ → Ptr → Ptr → ℕ → M S Ptr
  unfolding push_all_loop
  push_all rounds new_head_ptr tail_ptr number_of_added_items = do
    head_ptr ← load (at_head within self)
    push_all_loop rounds head_ptr new_head_ptr tail_ptr number_of_added_items

  -- `fresh` is the address that `Box::new` answers with.
  unfoldable pub push : ℕ → Ptr → T → M S Ptr
  unfolding push_all
  push rounds fresh value = do
    node ← box_new (at_nodes within self) fresh (record { value = value; next = null })
    push_all rounds node node 1

  -- A `ListIterator` is the node that it stands at.
  unfoldable pub iter : M S Ptr
  iter = load (at_head within self)

  -- `next`: the node whose value is yielded, and the iterator behind it.
  unfoldable pub next : Ptr → M S (Option (Ptr × Ptr))
  next node =
      if node == null then pure none else (do rest ← load_next node; pure (some (node, rest)))

  -- The loop of `Drop for LockFreeList`.
  unfoldable pub drop_loop : ℕ → Ptr → M S (Unit {0})
  drop_loop zero node_ptr = stop starved
  drop_loop (suc rounds) node_ptr =
      if node_ptr == null
      then pure tt
      else do node ← box_drop (at_nodes within self) node_ptr; drop_loop rounds node.next

  unfoldable pub drop : ℕ → M S (Unit {0})
  unfolding drop_loop
  drop rounds = do node_ptr ← load (at_head within self); drop_loop rounds node_ptr
