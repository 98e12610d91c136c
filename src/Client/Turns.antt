-- ===== src/Client/Turns.antt =====
-- What happens between the steps of a load and at each of them.
use atom_box.Prelude.{ℕ, suc, ◌<◌, ◌≡◌, true, false, some, [], ◌∷◌, ◌==◌}
use atom_box.Prelude.Int.{word}
use atom_box.Machine.{Ptr, returns, Tick, Env}
use atom_box.World.{World}
use atom_box.Client.{
  Client, Request, Reader, to_protect, to_check, to_reset, go_on_load, Ready, perform, Reach, call,
}

module _ {V : Type 0} (d : ℕ) where
  -- Calls, and steps of loads, one after another.
  pub data Calls (n : ℕ) (c : Client V) : ℕ → Client V → Type 0 where
    idle : Calls n c n c
    next :
        {m : ℕ} {c' c'' : Client V} (request : Request V) (rounds time : ℕ)
        → Calls n c m c'
        → Ready d request c'
        → m < rounds
        → time < word
        → perform d (suc rounds) (some time) request c' ≡ returns c''
        → Calls n c (suc m) c''

  pub Calls-Reach :
      (n : ℕ) (c : Client V) → Reach d n c → (m : ℕ) (c' : Client V) → Calls n c m c' → Reach d m c'
  Calls-Reach n c h m c' idle = h
  Calls-Reach n c h m c' (next {m = k} {c' = c₁} request rounds time w ready enough small run) =
      call request rounds time (Calls-Reach n c h k c₁ w) ready enough small run

  module _ (a : Ptr) where
    -- Calls of the other threads, and then the next step of the load whose hazard pointer is `a`.
    pub record Turn (n : ℕ) (c : Client V) (r : Reader) : Type 0 where
      pub count : ℕ
      pub before : Client V
      pub others : Calls n c count before
      pub ready : before.reading a ≡ some r
      pub rounds : ℕ
      pub time : ℕ
      pub enough : count < rounds
      pub small : time < word
      pub after : Client V
      pub run : perform d (suc rounds) (some time) (go_on_load a r) before ≡ returns after

    -- The loop of a load of the box `b`, with the address `p` that it has read. Each tick of the
    -- environment does to the memory what the calls of the other threads do.
    pub data Loop (b : ℕ) : ℕ → Client V → Ptr → ℕ → Env (World V) → ℕ → Client V → Type 0 where
      check_succeeds :
          {n : ℕ} {c : Client V} {p : Ptr} {k : ℕ} (x y : Tick (World V))
          (t : Turn n c (to_protect b p)) (u : Turn (suc t.count) t.after (to_check b p))
          → x.others c.world ≡ t.before.world
          → y.others t.after.world ≡ u.before.world
          → ((u.before.world.boxes b).ptr == p) ≡ true
          → Loop b n c p (suc k) (x ∷ y ∷ []) (suc u.count) u.after
      check_fails :
          {n m : ℕ} {c c' : Client V} {p q : Ptr} {k : ℕ} {e : Env (World V)}
          (x y z : Tick (World V)) (t : Turn n c (to_protect b p))
          (u : Turn (suc t.count) t.after (to_check b p))
          (v : Turn (suc u.count) u.after (to_reset b p q))
          → x.others c.world ≡ t.before.world
          → y.others t.after.world ≡ u.before.world
          → z.others u.after.world ≡ v.before.world
          → (u.before.world.boxes b).ptr ≡ q
          → (q == p) ≡ false
          → Loop b (suc v.count) v.after q k e m c'
          → Loop b n c p (suc k) (x ∷ y ∷ z ∷ e) m c'

    pub Turn-Reach :
        (n : ℕ) (c : Client V) (r : Reader) (t : Turn n c r)
        → Reach d n c
        → Reach d (suc t.count) t.after
    Turn-Reach n c r t h =
        call (go_on_load a r) t.rounds t.time (Calls-Reach n c h t.count t.before t.others) t.ready
          t.enough t.small t.run
