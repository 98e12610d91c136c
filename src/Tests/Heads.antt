-- ===== src/Tests/Heads.antt =====
-- The two-headed list at small memories.
use atom_box.Prelude.{ℕ, ◌≡◌, refl, ◌∷◌, [], some, none, arith, true, false, if◌then◌else◌}
use atom_box.Machine.{Ptr, is_free, returns, write, whole, alone}
use atom_box.Bicephaly.{Bicephaly, Node, get_available, set_node_available, push_in_use, drop}
use atom_box.Bicephaly.Pool.{member, IsPool}
use atom_box.Bicephaly.Refinement.{calls-IsPool}
use atom_box.Bicephaly.Visiting.{visit_all, drop-visit_all}
use atom_box.Bicephaly.Reuse.{get_available-set_node_available}
use atom_box.Bicephaly.Aba.{becomes, get_available-twice}

abbrev linked : ℕ → ℕ → ℕ → Node ℕ
linked v p q = record { value = v; next_available = p; next_in_use = q }

-- The nodes 20, 21 and 22; the first two are available.
abbrev two_available : Bicephaly ℕ
two_available = record {
  available_head = 20;
  in_use_head = 22;
  available_count = 2;
  in_use_count = 3;
  nodes =
      write (write (write (λ _. none) 20 (some (linked 0 21 0))) 21 (some (linked 1 0 20))) 22
        (some (linked 2 0 21));
}

get_available-set_node_available_example :
    (s' : Bicephaly ℕ) × (set_node_available whole 1 22 [] two_available ≡ returns (tt, [], s'))
    × (get_available whole 1 [] s'
        ≡ returns (
          some 22,
          [],
          record two_available { nodes = write two_available.nodes 22 (some (linked 2 20 21)) },
        ))
get_available-set_node_available_example =
    get_available-set_node_available whole 0 0 22 two_available (linked 2 0 21) refl (omega arith)

get_available-twice_example :
    (u v w x y : Bicephaly ℕ) × (get_available whole 1 [] two_available ≡ returns (some 20, [], u))
    × (get_available whole 1 [] u ≡ returns (some 21, [], v))
    × (set_node_available whole 1 20 [] v ≡ returns (tt, [], w))
    × (get_available whole 1 (alone ∷ alone ∷ becomes w ∷ []) two_available
        ≡ returns (some 20, [], x))
    × (get_available whole 1 [] x ≡ returns (some 21, [], y))
get_available-twice_example =
    get_available-twice two_available (linked 0 21 0) (linked 1 0 20) refl refl (ground arith) 0

two_available-IsPool : IsPool two_available (22 ∷ 21 ∷ 20 ∷ []) (20 ∷ 21 ∷ [])
two_available-IsPool = record {
  chain =
      (linked 2 0 21, refl, refl, (linked 1 0 20, refl, refl, (linked 0 21 0, refl, refl, refl)));
  ready = (linked 0 21 0, refl, refl, (linked 1 0 20, refl, refl, refl));
  distinct = (refl, (refl, (refl, tt)));
  once = (refl, (refl, tt));
  subset = λ a i. ground arith;
  all_counted = refl;
  free_counted = refl;
}

calls-IsPool_example :
    ((s' : Bicephaly ℕ) × (get_available whole 1 [] two_available ≡ returns (some 20, [], s'))
      × IsPool s' (22 ∷ 21 ∷ 20 ∷ []) (21 ∷ []))
    × ((p : Ptr)
        → member (22 ∷ 21 ∷ 20 ∷ []) p ≡ true
        → member (20 ∷ 21 ∷ []) p ≡ false
        → (s' : Bicephaly ℕ) × (set_node_available whole 1 p [] two_available
            ≡ returns (tt, [], s'))
          × IsPool s' (22 ∷ 21 ∷ 20 ∷ []) (p ∷ 20 ∷ 21 ∷ []))
    × ((fresh : Ptr) (v : ℕ)
        → is_free two_available.nodes fresh ≡ true
        → (s' : Bicephaly ℕ) × (push_in_use whole 1 fresh v [] two_available
            ≡ returns (fresh, [], s'))
          × IsPool s' (fresh ∷ 22 ∷ 21 ∷ 20 ∷ []) (20 ∷ 21 ∷ []))
calls-IsPool_example =
    calls-IsPool whole 0 two_available (22 ∷ 21 ∷ 20 ∷ []) (20 ∷ 21 ∷ []) two_available-IsPool

drop-visit_all_example :
    (visit_all whole 4 [] two_available ≡ returns (22 ∷ 21 ∷ 20 ∷ [], [], two_available))
    × (s' : Bicephaly ℕ) × (drop whole 4 [] two_available ≡ returns (tt, [], s'))
    × ((a : Ptr)
        → s'.nodes a ≡ (if member (22 ∷ 21 ∷ 20 ∷ []) a then none else two_available.nodes a))
drop-visit_all_example =
    drop-visit_all whole 4 two_available (22 ∷ 21 ∷ 20 ∷ []) (20 ∷ 21 ∷ []) two_available-IsPool
      (omega arith)
