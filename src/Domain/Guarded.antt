-- ===== src/Domain/Guarded.antt =====
-- `get_guarded_ptrs` of a domain whose hazard pointers are the nodes `hs`.
use atom_box.Prelude.{ℕ, zero, suc, ◌<◌, ◌≡◌, List, [], ◌∷◌, ◌==◌, if◌then◌else◌, arith, length}
use atom_box.Machine.{Ptr, null, returns, read}
use atom_box.LockFreeList.{next, iter}
use atom_box.LockFreeList.Chain.{Cells, Seg}
use atom_box.HazardPointerList
use atom_box.HazardPointerList.{Node}
use atom_box.World.{World}
use atom_box.Domain.{collect_guarded, get_guarded_ptrs}

-- What the nodes hold, nulls left out.
abbrev pub held : Cells Node → List Ptr
held [] = []
held ((_, n) ∷ hs) = if n.ptr == null then held hs else n.ptr ∷ held hs

collect_guarded-held :
    {V : Type 0} (d rounds : ℕ) (s : World V) (p : Ptr) (hs : Cells Node)
    → Seg (s.domains d).hazard_ptrs.nodes null p hs
    → length hs < rounds
    → collect_guarded d rounds p [] s ≡ returns (held hs, [], s)
unfolding collect_guarded next read HazardPointerList.load
collect_guarded-held d zero s p hs seg enough = absurd (omega arith)
collect_guarded-held d (suc rounds) s p [] seg enough = ground arith
collect_guarded-held d (suc rounds) s p ((a, n) ∷ hs) (q, e, c, o, seg) enough =
    ground (arith, collect_guarded-held d rounds s q hs seg)

pub get_guarded_ptrs-held :
    {V : Type 0} (d rounds : ℕ) (s : World V) (hs : Cells Node)
    → Seg (s.domains d).hazard_ptrs.nodes null (s.domains d).hazard_ptrs.head hs
    → length hs < rounds
    → get_guarded_ptrs d rounds [] s ≡ returns (held hs, [], s)
unfolding get_guarded_ptrs iter
get_guarded_ptrs-held d rounds s hs seg enough = collect_guarded-held d rounds s _ hs seg enough
