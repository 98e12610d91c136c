-- ===== src/Domain/Unguarded.antt =====
-- `reclaim_unguarded` of a thread that runs alone: the pass over the items and the push of those kept.
use atom_box.Prelude.{
  ℕ, ◌+◌, ◌-◌, subst, ◌%◌, ◌<◌, ◌≡◌, ◌≢◌, refl, ap, ◌∙◌, fun_ext, List, [], ◌∷◌, ◌++◌, none, some,
  arith, length, Option-cases, inl, inr,
}
use atom_box.Machine.{Ptr, null, Heap, cell, returns}
use atom_box.LockFreeList.{LockFreeList, Node, isize_mod, push_all}
use atom_box.LockFreeList.Chain.{Cells, node, Seg}
use atom_box.LockFreeList.Push.{linked, push_all-linked, Seg-linked}
use atom_box.World.{World, Retire, update, update_self}
use atom_box.Domain.{Scan, retired, reclaim_loop, reclaim_unguarded}
use atom_box.Domain.Kept.{
  last, kept, nodes_after, scan, values_after, Droppable, kept-Seg, scan-last, scan-counts,
  last-append, last-none, cell-last, last-snoc,
}
use atom_box.Domain.Reclaim.{
  having-domain, having-elsewhere, having-values, having, reclaim_loop-scan,
}

-- From `s` to `s'`, with `xs` the retired items of domain `d`: the guarded ones are retired again, the
-- values of the others are dropped, and nothing else changes.
pub record Swept {V : Type 0} (d : ℕ) (guarded : List Ptr) (xs : Cells Retire) (s s' : World V)
    : Type 0 where
  pub chain : Seg (s'.domains d).retired.nodes null (s'.domains d).retired.head (kept guarded xs [])
  pub count : (s'.domains d).retired.count ≡ length (kept guarded xs []) % isize_mod
  pub values : s'.values ≡ values_after guarded xs s.values
  pub hazards : (s'.domains d).hazard_ptrs ≡ (s.domains d).hazard_ptrs
  pub strategy : (s'.domains d).reclaim_strategy ≡ (s.domains d).reclaim_strategy
  pub elsewhere : (e : ℕ) → e ≢ d → s'.domains e ≡ s.domains e
  pub boxes : s'.boxes ≡ s.boxes

abbrev start : Scan
start = record { still_retired = null; tail_ptr = none; reclaimed = 0; number_remaining = 0 }

module _ {V : Type 0} (d : ℕ) (guarded : List Ptr) (s : World V) where
  having_self : having d guarded s (s.domains d).retired.nodes s.values ≡ s
  unfolding having
  having_self = λ i. record {
    domains = fun_ext {f = update s.domains d (s.domains d)} {g = s.domains} (λ e. ground arith) i;
    values = s.values;
    boxes = s.boxes;
  }

  module _ (rounds : ℕ) (p : Ptr) (xs : Cells Retire)
      (fresh_head : (s.domains d).retired.head ≡ null)
      (fresh_count : (s.domains d).retired.count ≡ 0)
      (seg : Seg (s.domains d).retired.nodes null p xs) (drops : Droppable guarded xs s.values)
      (enough : length xs < rounds) where
    abbrev final : Scan
    final = scan guarded xs start

    abbrev left : World V
    left =
        having d guarded s (nodes_after guarded xs null (s.domains d).retired.nodes)
          (values_after guarded xs s.values)

    looped : reclaim_loop d rounds guarded p start [] s ≡ returns (final, [], left)
    looped = rw having_self at (
        reclaim_loop-scan d guarded s rounds p xs start (s.domains d).retired.nodes s.values seg
          drops enough)

    left-domain : left.domains d ≡ record (s.domains d) {
      retired = record (s.domains d).retired {
        nodes = nodes_after guarded xs null (s.domains d).retired.nodes;
      };
    }
    left-domain = having-domain d guarded s _ _

    none_kept : kept guarded xs [] ≡ [] → Swept d guarded xs s left
    none_kept e = record {
      chain = rw (e, left-domain) fresh_head;
      count = rw (e, left-domain) fresh_count;
      values = (having-values d guarded s _ _).0;
      hazards = rw left-domain;
      strategy = rw left-domain;
      elsewhere = having-elsewhere d guarded s _ _;
      boxes = (having-values d guarded s _ _).1;
    }

    nothing_left :
        kept guarded xs [] ≡ []
        → reclaim_unguarded d rounds guarded p [] s ≡ returns (final.reclaimed, [], left)
    unfolding reclaim_unguarded
    nothing_left e =
        let no_tail : final.tail_ptr ≡ none = scan-last guarded xs [] start refl ∙ ap last e in
        ground (arith, looped, no_tail)

    module _ (front : Cells Retire) (t : Ptr) (r : Retire)
        (split : kept guarded xs [] ≡ front ++ (t, r) ∷ []) where
      abbrev nodes_left : Heap (Node Retire)
      nodes_left = nodes_after guarded xs null (s.domains d).retired.nodes

      kept_chain : Seg nodes_left null final.still_retired (front ++ (t, r) ∷ [])
      kept_chain =
          subst (Seg nodes_left null final.still_retired) split
            (kept-Seg guarded xs [] p start (s.domains d).retired.nodes seg refl (λ a i. refl))

      abbrev relinked : LockFreeList Retire
      relinked =
          linked (left.domains d).retired final.still_retired t (node r null) final.number_remaining

      abbrev pushed_back : World V
      pushed_back = (retired d).put relinked left

      pushed_back-domain : pushed_back.domains d ≡ record (left.domains d) { retired = relinked }
      pushed_back-domain = update_self left.domains d _

      some_kept : Swept d guarded xs s pushed_back
      some_kept = record {
        chain = rw (pushed_back-domain) (
            rw (left-domain, fresh_head, split)
              (Seg-linked _ null null final.still_retired t r front [] kept_chain refl
                (λ a i. refl)));
        count = rw (pushed_back-domain) (
            rw (left-domain, fresh_count)
              (omega (arith, (scan-counts guarded xs [] start refl).0)));
        values = (having-values d guarded s _ _).0;
        hazards = rw (pushed_back-domain) (rw left-domain);
        strategy = rw (pushed_back-domain) (rw left-domain);
        elsewhere = λ e ne. ground (
          arith,
          having-elsewhere d guarded s (nodes_after guarded xs null (s.domains d).retired.nodes)
              (values_after guarded xs s.values) e,
        );
        boxes = (having-values d guarded s _ _).1;
      }

      push_kept :
          push_all (retired d) rounds final.still_retired t final.number_remaining [] left
          ≡ returns (final.still_retired, [], pushed_back)
      push_kept =
          let own : cell (left.domains d).retired.nodes t ≡ some (node r null) =
            rw left-domain (cell-last nodes_left null final.still_retired t r front kept_chain) in
          subst
            (λ k.
              push_all (retired d) k final.still_retired t final.number_remaining [] left
              ≡ returns (final.still_retired, [], pushed_back))
            (omega arith)
            (push_all-linked (retired d) (rounds - 1) final.still_retired t final.number_remaining
              left _ own)

      something_left :
          reclaim_unguarded d rounds guarded p [] s ≡ returns (final.reclaimed, [], pushed_back)
      unfolding reclaim_unguarded
      something_left =
          let tail : final.tail_ptr ≡ some t =
            scan-last guarded xs [] start refl ∙ ap last split ∙ last-snoc front t r in
          ground (arith, looped, tail, push_kept)

    -- The pass over the retired items ends, and sweeps them.
    pub reclaim_unguarded-Swept :
        (n : ℕ) × (s' : World V) × (reclaim_unguarded d rounds guarded p [] s ≡ returns (n, [], s'))
        × (n + length (kept guarded xs []) ≡ length xs)
        × Swept d guarded xs s s'
    reclaim_unguarded-Swept =
        let counted = (scan-counts guarded xs [] start refl).1 in
        elim (Option-cases (last (kept guarded xs []))) [
          | inl empty ↦
              let e = last-none _ empty in
              (final.reclaimed, left, nothing_left e, omega arith, none_kept e)
          | inr (t, e) ↦
              let (front, r, split) = last-append _ t e in
              (
                final.reclaimed,
                pushed_back front t r split,
                something_left front t r split,
                omega arith,
                some_kept front t r split,
              )
        ]
