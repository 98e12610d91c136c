-- ===== src/LockFreeList/Contended.antt =====
-- `push_all` among other threads: it ends, and takes effect at one moment.
use atom_box.Prelude.{
  ℕ, zero, suc, ◌+◌, ◌%◌, ◌≤◌, ◌≡◌, refl, ◌∙◌, sym, ap, false, not, ◌&&◌, [], ◌∷◌, some, Option,
  arith, eq→==, ==→eq, ◌==◌, if◌then◌else◌, length, Bool-cases, inl, inr, ◌⊎◌,
}
use atom_box.Machine.{
  Ptr, returns, Env, write, cell, Lens, ◌within◌, meets, later, fails_next, atomic-meets,
  compare_exchange_weak-meets, access,
}
use atom_box.LockFreeList.{
  Node, LockFreeList, isize_mod, at_head, at_nodes, store_next, push_all_loop, push_all,
}
use atom_box.LockFreeList.Chain.{node}

module _ {S T : Type 0} (self : Lens S (LockFreeList T)) (last : Ptr) where
  abbrev node_at : S → Option (Node T)
  node_at s = cell (self.get s).nodes last

  -- The other threads leave the caller's last node alone.
  abbrev pub Keeps : Env S → Type 0
  Keeps [] = Unit {0}
  Keeps (t ∷ e) = ((s : S) → node_at (t.others s) ≡ node_at s) × Keeps e

  Keeps-later : (e : Env S) → Keeps e → Keeps (later e)
  Keeps-later [] k = tt
  Keeps-later (t ∷ e) k = k.1

  node_at-meets : (e : Env S) (s : S) → Keeps e → node_at (meets e s) ≡ node_at s
  node_at-meets [] s k = refl
  node_at-meets (t ∷ e) s k = k.0 s

  -- The list after the exchange, and after the count.
  abbrev pub headed : Ptr → S → S
  headed first s = self.put (record (self.get s) { head = first }) s

  abbrev pub counted : ℕ → S → S
  counted k s = self.put (record (self.get s) { count = ((self.get s).count + k) % isize_mod }) s

  -- The caller's last node once it points at `head_ptr`.
  abbrev pub pointed : Ptr → Node T → S → S
  pointed head_ptr n s =
      (at_nodes within self).put
        (write (self.get s).nodes last (some (record n { next = head_ptr }))) s

  -- What the memory `s` can become before the exchange: by the steps of the others in `env`, in their
  -- order, and by writes to the link of the caller's last node. What is left of `env` comes with it.
  pub data Offered (env : Env S) (s : S) : Env S → S → Type 0 where
    at_start : Offered env s env s
    others_step : {e : Env S} {t : S} → Offered env s e t → Offered env s (later e) (meets e t)
    linking :
        {e : Env S} {t : S} (q : Ptr) (n : Node T)
        → Offered env s e t
        → node_at t ≡ some n
        → Offered env s e (pointed q n t)

  -- One step makes the nodes from `first` to `last` the list, in front of all that was there at that
  -- moment; later, after what the others do next, another adds to the count.
  pub record Links (first : Ptr) (k : ℕ) (v : T) (env : Env S) (s : S) (e : Env S) (s' : S)
      : Type 0 where
    pub before : S
    pub between : Env S
    pub offered : Offered env s between before
    pub joined : node_at before ≡ some (node v (self.get before).head)
    pub result : s' ≡ counted k (meets between (headed first before))
    pub rest : e ≡ later between

  store_next-pointed :
      (head_ptr : Ptr) (env : Env S) (s : S) (n : Node T)
      → Keeps env
      → node_at s ≡ some n
      → store_next self last head_ptr env s
        ≡ returns (tt, later env, pointed head_ptr n (meets env s))
  unfolding access
  store_next-pointed head_ptr env s n keeps own =
      rw (atomic-meets _ env s) (rw (node_at-meets env s keeps ∙ own) refl)

  node_at-pointed :
      (head_ptr : Ptr) (s : S) (n : Node T)
      → node_at s ≡ some n
      → node_at (pointed head_ptr n s) ≡ some (record n { next = head_ptr })
  node_at-pointed head_ptr s n own = rw (self.get-put _ s) (ground arith)

  module _ (first : Ptr) (k : ℕ) where
    -- One round of the loop.
    round :
        (rounds : ℕ) (head_ptr : Ptr) (env : Env S) (s : S) (n : Node T)
        → Keeps env
        → node_at s ≡ some n
        → let e : Env S = later env in
          let t : S = meets e (pointed head_ptr n (meets env s)) in
          push_all_loop self (suc rounds) head_ptr first last k env s ≡ (
            if ((self.get t).head == head_ptr) && not (fails_next e)
            then returns (first, later (later e), counted k (meets (later e) (headed first t)))
            else push_all_loop self rounds (self.get t).head first last k (later e) t)
    unfolding push_all_loop
    round rounds head_ptr env s n keeps own =
        let e : Env S = later env in
        let u : S = pointed head_ptr n (meets env s) in
        rw (store_next-pointed head_ptr env s n keeps own) (
          rw (compare_exchange_weak-meets (at_head within self) head_ptr first e u)
            (elim (Bool-cases (((self.get (meets e u)).head == head_ptr) && not (fails_next e))) [
              | inl done ↦ rw done (rw (atomic-meets _ (later e) (headed first (meets e u))) refl)
              | inr again ↦ rw again refl
            ]))

    -- Rounds for every interruption, or no interruption to come and the head as it was seen.
    abbrev Suffices : ℕ → Ptr → Env S → S → Type 0
    Suffices rounds head_ptr env s =
        (length env + 2 ≤ rounds) ⊎ ((env ≡ []) × ((self.get s).head ≡ head_ptr) × (1 ≤ rounds))

    length-later : (e : Env S) → length (later e) ≤ length e
    length-later [] = omega arith
    length-later (t ∷ e) = omega arith

    Suffices-round :
        (rounds : ℕ) (head_ptr : Ptr) (env : Env S) (s : S) (n : Node T)
        → Suffices (suc rounds) head_ptr env s
        → let e : Env S = later env in
          let t : S = meets e (pointed head_ptr n (meets env s)) in
          (((self.get t).head == head_ptr) && not (fails_next e)) ≡ false
          → Suffices rounds (self.get t).head (later e) t
    Suffices-round rounds head_ptr [] s n (inl h) again = inr (refl, refl, omega arith)
    Suffices-round rounds head_ptr (x ∷ env) s n (inl h) again =
        inl (omega (arith, length-later env))
    Suffices-round rounds head_ptr [] s n (inr (_, seen, h)) again =
        let again' = rw (self.get-put _ s) at again in
        absurd (ground (arith, eq→== (self.get s).head head_ptr seen))
    Suffices-round rounds head_ptr (x ∷ env) s n (inr (gone, _, _)) again = absurd (ground arith)

    push_all_loop-Links :
        (rounds : ℕ) (head_ptr : Ptr) (env₀ env : Env S) (s₀ s : S) (n : Node T)
        → Offered env₀ s₀ env s
        → Keeps env
        → node_at s ≡ some n
        → Suffices rounds head_ptr env s
        → (e : Env S) × (s' : S) × (push_all_loop self rounds head_ptr first last k env s
            ≡ returns (first, e, s'))
          × Links first k n.value env₀ s₀ e s'
    push_all_loop-Links zero head_ptr env₀ env s₀ s n so_far keeps own (inl h) =
        absurd (omega arith)
    push_all_loop-Links zero head_ptr env₀ env s₀ s n so_far keeps own (inr (_, _, h)) =
        absurd (omega arith)
    push_all_loop-Links (suc rounds) head_ptr env₀ env s₀ s n so_far keeps own enough =
        let e : Env S = later env in
        let u : S = pointed head_ptr n (meets env s) in
        let t : S = meets e u in
        let keeps' : Keeps e = Keeps-later env keeps in
        let offered' : Offered env₀ s₀ (later e) t =
          others_step (linking head_ptr n (others_step so_far) (node_at-meets env s keeps ∙ own)) in
        let own' : node_at t ≡ some (record n { next = head_ptr }) =
          node_at-meets e u keeps'
          ∙ node_at-pointed head_ptr (meets env s) n (node_at-meets env s keeps ∙ own) in
        elim (Bool-cases (((self.get t).head == head_ptr) && not (fails_next e))) [
          | inl done ↦
              let seen : (self.get t).head ≡ head_ptr =
                ground (arith, ==→eq (self.get t).head head_ptr) in
              (
                later (later e),
                counted k (meets (later e) (headed first t)),
                round rounds head_ptr env s n keeps own ∙ rw done refl,
                record {
                  before = t;
                  between = later e;
                  offered = offered';
                  joined = own' ∙ ap (λ q. some (node n.value q)) (sym seen);
                  result = refl;
                  rest = refl;
                },
              )
          | inr again ↦
              let (e', s', run, links) =
                push_all_loop-Links rounds (self.get t).head env₀ (later e) s₀ t
                  (record n { next = head_ptr }) offered' (Keeps-later e keeps') own'
                  (Suffices-round rounds head_ptr env s n enough again) in
              (e', s', round rounds head_ptr env s n keeps own ∙ rw again run, links)
        ]

    -- Whatever other threads do to the list meanwhile, as long as they leave the caller's last node alone:
    -- with two rounds more than there are interruptions, `push_all` returns. In one step it has made
    -- the caller's nodes the front of the list, before exactly what the list was at that moment: the
    -- memory of that moment comes from the one at the call by the steps of the others, in their order,
    -- and by writes to the link of the caller's last node, and by nothing else. After the next step
    -- of the others it has added their number to the count, and the steps of the others that it has
    -- not used up are left.
    pub push_all-Links :
        (rounds : ℕ) (env : Env S) (s : S) (n : Node T)
        → Keeps env
        → node_at s ≡ some n
        → length env + 2 ≤ rounds
        → (e : Env S) × (s' : S) × (push_all self rounds first last k env s
            ≡ returns (first, e, s'))
          × Links first k n.value env s e s'
    unfolding push_all
    push_all-Links rounds env s n keeps own enough =
        let (e, s', run, links) =
          push_all_loop-Links rounds (self.get (meets env s)).head env (later env) s (meets env s) n
            (others_step at_start) (Keeps-later env keeps) (node_at-meets env s keeps ∙ own)
            (inl (omega (arith, length-later env))) in
        (e, s', rw (atomic-meets _ env s) run, links)
