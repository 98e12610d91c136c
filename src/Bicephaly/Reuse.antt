-- ===== src/Bicephaly/Reuse.antt =====
-- A node that is given back is the next one handed out, in a thread that runs alone.
use atom_box.Prelude.{
  ℕ, suc, ◌+◌, ◌-◌, ◌%◌, ◌^◌, ◌<◌, ◌≡◌, refl, ◌∙◌, false, [], some, arith, eq→==, ◌==◌,
}
use atom_box.Machine.{Ptr, null, returns, write, cell, Lens, compare_exchange_weak, access, read}
use atom_box.LockFreeList.{isize_mod}
use atom_box.Bicephaly.{
  Node, Bicephaly, push_node_loop, push_node, push_available_node, pop_loop, pop_available_node,
  get_available, set_node_available,
}

module _ {T : Type 0} where
  -- The list once the available node `p` has been taken off.
  abbrev pub popped : Bicephaly T → Node T → Bicephaly T
  popped l n = record l {
    available_head = n.next_available;
    available_count = (l.available_count + (2 ^ 64 - 1)) % isize_mod;
  }

  -- The list once the node has been put in front of the available ones.
  abbrev pub returned : Bicephaly T → Ptr → Node T → Bicephaly T
  returned l p n = record l {
    available_head = p;
    available_count = (l.available_count + 1) % isize_mod;
    nodes = write l.nodes p (some (record n { next_available = l.available_head }));
  }

count-restored : (c : ℕ) → c < 2 ^ 64 → ((c + 1) % isize_mod + (2 ^ 64 - 1)) % isize_mod ≡ c
count-restored c small = omega arith

module _ {S T : Type 0} (self : Lens S (Bicephaly T)) where
  -- `get_available` takes the first available node off, and finds none exactly when there is none.
  pub get_available-popped :
      (rounds : ℕ) (s : S) (n : Node T)
      → cell (self.get s).nodes (self.get s).available_head ≡ some n
      → get_available self (suc rounds) [] s
        ≡ returns (some (self.get s).available_head, [], self.put (popped (self.get s) n) s)
  unfolding get_available pop_available_node pop_loop compare_exchange_weak read
  get_available-popped rounds s n own =
      let l = self.get s in
      let there : (l.available_head == null) ≡ false = ground (arith, own) in
      let found : l.nodes l.available_head ≡ some n = ground (arith, own, there) in
      rw there (
        rw found
          (rw (eq→== l.available_head l.available_head refl) (simp (self.get-put, self.put-put))))

  pub set_node_available-returned :
      (rounds : ℕ) (p : Ptr) (s : S) (n : Node T)
      → cell (self.get s).nodes p ≡ some n
      → set_node_available self (suc rounds) p [] s
        ≡ returns (tt, [], self.put (returned (self.get s) p n) s)
  unfolding set_node_available push_available_node push_node push_node_loop compare_exchange_weak
      access
  set_node_available-returned rounds p s n own =
      let l = self.get s in
      rw own (
        rw self.get-put
          (rw (eq→== l.available_head l.available_head refl) (simp (self.get-put, self.put-put))))

  -- A thread that runs alone and gives a node of the heap back, with a count that is a 64-bit
  -- pattern, is handed the same node by the next `get_available`. Afterwards both heads and both
  -- counts are what they were: only the node's own link to the available nodes has changed.
  pub get_available-set_node_available :
      (rounds rounds' : ℕ) (p : Ptr) (s : S) (n : Node T)
      → cell (self.get s).nodes p ≡ some n
      → (self.get s).available_count < 2 ^ 64
      → (s' : S) × (set_node_available self (suc rounds) p [] s ≡ returns (tt, [], s'))
        × (get_available self (suc rounds') [] s'
            ≡ returns (
              some p,
              [],
              self.put
                  (record (self.get s) {
                    nodes =
                        write
                          (self.get s).nodes
                          p
                          (some (record n { next_available = (self.get s).available_head }));
                  })
                  s,
            ))
  get_available-set_node_available rounds rounds' p s n own small =
      let l = self.get s in
      let s' = self.put (returned l p n) s in
      let m = record n { next_available = l.available_head } in
      let first : cell (self.get s').nodes (self.get s').available_head ≡ some m =
        rw (self.get-put (returned l p n) s) (ground (arith, own)) in
      let same : ((l.available_count + 1) % isize_mod + (2 ^ 64 - 1)) % isize_mod
          ≡ l.available_count =
        count-restored l.available_count small in
      (
        s',
        set_node_available-returned rounds p s n own,
        get_available-popped rounds' s' m first
            ∙ rw (self.get-put (returned l p n) s) (rw self.put-put (rw same refl)),
      )
