-- ===== src/HazardPointerList/Reuse.antt =====
-- Which hazard pointers `get_available` can find: it wants a node that is inactive and still holds a
-- pointer, and `set_node_available` clears the pointer first.
use atom_box.Prelude.{
  ℕ, suc, ◌<◌, ◌≡◌, refl, inl, inr, true, [], ◌∷◌, Option, none, some, arith, length, Bool-cases,
  Option-cases, subst,
}
use atom_box.Machine.{Ptr, returns, write, cell, is_free, access, whole}
use atom_box.LockFreeList
use atom_box.LockFreeList.{LockFreeList, next, iter, push}
use atom_box.LockFreeList.Chain.{node}
use atom_box.LockFreeList.Push.{pushed, push-pushed, push-aborts}
use atom_box.HazardPointerList.{
  Node, HazardPointerList, get_available, store, set_node_available, push_in_use,
}
use atom_box.HazardPointerList.Idle.{
  IsWellFormed, Shape-write, Shape-write_free, IsIdle-write, find_available-none,
  find_available-idle, given_back, set_node_available-given_back,
}

-- What a program does with the hazard pointers of a domain, one call after another: a node is
-- searched for or pushed, holds pointers while it is active, and is given back.
pub data History : HazardPointerList → Type 0 where
  start : History LockFreeList.new
  searched :
      {l l' : HazardPointerList} {found : Option Ptr} (rounds : ℕ)
      → History l
      → get_available whole rounds [] l ≡ returns (found, [], l')
      → History l'
  pushed_in_use :
      {l l' : HazardPointerList} {got : Ptr} (rounds : ℕ) (fresh ptr : Ptr)
      → History l
      → push_in_use whole (suc rounds) fresh ptr [] l ≡ returns (got, [], l')
      → History l'
  protected :
      {l l' : HazardPointerList} (node ptr : Ptr) (n : LockFreeList.Node Node)
      → History l
      → cell l.nodes node ≡ some n
      → n.value.active ≡ true
      → store whole node ptr [] l ≡ returns (tt, [], l')
      → History l'
  returned :
      {l l' : HazardPointerList} (node : Ptr)
      → History l
      → set_node_available whole node [] l ≡ returns (tt, [], l')
      → History l'

searched-IsWellFormed :
    {l l' : HazardPointerList} {found : Option Ptr} (rounds : ℕ)
    → IsWellFormed l
    → get_available whole rounds [] l ≡ returns (found, [], l')
    → IsWellFormed l'
unfolding get_available iter
searched-IsWellFormed {l} {l'} rounds v e =
    let (xs, shape) = v.linked in
    elim (find_available-idle whole rounds l l.head xs v.idle shape) [
      | inl none_found ↦ let same : l ≡ l' = cc (none_found, e) in subst IsWellFormed same v
      | inr cut ↦ cc
    ]

pushed_in_use-IsWellFormed :
    {l l' : HazardPointerList} {got : Ptr} (rounds : ℕ) (fresh ptr : Ptr)
    → IsWellFormed l
    → push_in_use whole (suc rounds) fresh ptr [] l ≡ returns (got, [], l')
    → IsWellFormed l'
unfolding push_in_use
pushed_in_use-IsWellFormed {l} {l'} rounds fresh ptr v e =
    elim (Bool-cases (is_free l.nodes fresh)) [
      | inl free ↦
          let in_use : Node = record { ptr = ptr; active = true } in
          let moved : l' ≡ pushed l fresh in_use =
            ground (arith, push-pushed whole rounds fresh in_use l free) in
          let (xs, shape) = v.linked in
          rw moved (record {
            linked = (
              fresh ∷ xs,
              (
                node in_use l.head,
                refl,
                ground (arith, free),
                Shape-write_free l.nodes fresh _ l.head xs free shape,
              ),
            );
            idle = IsIdle-write l.nodes fresh _ v.idle (λ off. cc);
          })
      | inr taken ↦
          cc (e, push-aborts whole (suc rounds) fresh (record { ptr = ptr; active = true }) l taken)
    ]

protected-IsWellFormed :
    {l l' : HazardPointerList} (node ptr : Ptr) (n : LockFreeList.Node Node)
    → IsWellFormed l
    → cell l.nodes node ≡ some n
    → n.value.active ≡ true
    → store whole node ptr [] l ≡ returns (tt, [], l')
    → IsWellFormed l'
unfolding store access
protected-IsWellFormed {l} {l'} node ptr n v own active e =
    let moved : l' ≡ record l {
      nodes = write l.nodes node (some (record n { value = record n.value { ptr = ptr } }));
    } =
      ground arith in
    let (xs, shape) = v.linked in
    rw moved (record {
      linked = (xs, Shape-write l.nodes node _ n l.head xs own refl shape);
      idle = IsIdle-write l.nodes node _ v.idle (λ off. cc);
    })

given_back-IsWellFormed :
    {l l' : HazardPointerList} (node : Ptr)
    → IsWellFormed l
    → set_node_available whole node [] l ≡ returns (tt, [], l')
    → IsWellFormed l'
unfolding set_node_available access
given_back-IsWellFormed {l} {l'} node v e = elim (Option-cases (cell l.nodes node)) [
  | inl dangling ↦ absurd (ground arith)
  | inr (n, own) ↦
      let moved : l' ≡ record l { nodes = write l.nodes node (some (given_back n)) } =
        ground (arith, set_node_available-given_back whole node l n own) in
      let (xs, shape) = v.linked in
      rw moved (record {
        linked = (xs, Shape-write l.nodes node _ n l.head xs own refl shape);
        idle = IsIdle-write l.nodes node _ v.idle (λ off. refl);
      })
]

-- Every history leaves the list linked, and its inactive nodes without pointers.
pub History-IsWellFormed : {l : HazardPointerList} → History l → IsWellFormed l
History-IsWellFormed start = record { linked = ([], refl); idle = λ a n c. ground arith }
History-IsWellFormed (searched rounds h e) = searched-IsWellFormed rounds (History-IsWellFormed h) e
History-IsWellFormed (pushed_in_use rounds fresh ptr h e) =
    pushed_in_use-IsWellFormed rounds fresh ptr (History-IsWellFormed h) e
History-IsWellFormed (protected node ptr n h own active e) =
    protected-IsWellFormed node ptr n (History-IsWellFormed h) own active e
History-IsWellFormed (returned node h e) = given_back-IsWellFormed node (History-IsWellFormed h) e

-- After any history of calls by one thread, which searches for hazard pointers, pushes new ones,
-- stores addresses in those that are active, and gives them back, `get_available` finds no node,
-- however many have been given back: with rounds for every node of the list it answers `none` and
-- changes nothing.
pub get_available-none :
    (l : HazardPointerList)
    → History l
    → (n : ℕ) × ((rounds : ℕ)
        → n < rounds
        → get_available whole rounds [] l ≡ returns (none, [], l))
unfolding get_available iter
get_available-none l h =
    let v = History-IsWellFormed h in
    let (xs, shape) = v.linked in
    (length xs, λ rounds enough. find_available-none whole rounds l l.head xs v.idle shape enough)
