-- ===== src/Forward/Nodes/Laws.antt =====
-- Which outgoing nodes of forwarder/forwarder.go are open, and how often each is closed.
pub mod Start
use uavlink_edge.Common.{
  Bool-cases, List, Option, [], arith, false, if◌then◌else◌, inl, inr, none, refl, some, true, ℕ,
  ◌+◌, ◌==◌, ◌↔◌, ◌∙◌, ◌∷◌, ◌≡◌, ◌≤◌,
}
use native.Mathlib.Decide.{ℕ_discrete}
use uavlink_edge.Forward.Nodes.{
  NodeOutcomes, Nodes, close_node, close_old, init_camera_sender, init_companion_sender,
  rebuild_nodes, use_camera, use_companion, use_sender,
}

abbrev pub is : ℕ → ℕ → ℕ
is n m = if n == m then 1 else 0

abbrev pub times : ℕ → List ℕ → ℕ
times n [] = 0
times n (m ∷ ms) = is n m + times n ms

abbrev pub held_as : ℕ → Option ℕ → ℕ
held_as n none = 0
held_as n (some m) = is n m

-- How often the forwarder has a node.
abbrev pub held : ℕ → Nodes → ℕ
held n s = is n s.sender_node + held_as n s.camera_sender_node + held_as n s.companion_sender_node

-- Ticks are new.
pub record IsNumbered (s : Nodes) : Type 0 where
  pub once : (n : ℕ) → times n s.opened ≤ 1
  pub below : (n : ℕ) → s.tick ≤ n → times n s.opened ≡ 0

pub is_refl : (n : ℕ) → is n n ≡ 1
is_refl n = ground arith

-- What the forwarder has and what it closed, counted as often as it has and closed it, is what was
-- created and an excess.
pub record HasExcess (k : ℕ → ℕ) (s : Nodes) : Type 0 where
  pub numbered : IsNumbered s
  pub sum : (n : ℕ) → held n s + times n s.closed ≡ times n s.opened + k n

-- Every node that was created is the forwarder's in one place, or was closed once, and not both.
abbrev pub IsBalanced : Nodes → Type 0
IsBalanced = HasExcess (λ _. 0)

-- Every node that was created is the forwarder's or was closed.
abbrev pub HasNoLeak : Nodes → Type 0
HasNoLeak s = (n : ℕ) → times n s.opened ≤ held n s + times n s.closed

pub HasExcess-HasNoLeak : (k : ℕ → ℕ) (s : Nodes) → HasExcess k s → HasNoLeak s
HasExcess-HasNoLeak k s h n = omega (arith, h.sum n)

abbrev pub tick_on : Nodes → Nodes
tick_on s = record s { tick = s.tick + 1 }

abbrev pub open_next : Nodes → Nodes
open_next s = record s { tick = s.tick + 1; opened = s.tick ∷ s.opened }

pub tick_on-HasExcess : (k : ℕ → ℕ) (s : Nodes) → HasExcess k s → HasExcess k (tick_on s)
tick_on-HasExcess k s h = record {
  numbered = record {
    once = h.numbered.once;
    below = λ n le. h.numbered.below n (omega (arith, le));
  };
  sum = h.sum;
}

open_next-IsNumbered : (s : Nodes) → IsNumbered s → IsNumbered (open_next s)
open_next-IsNumbered s h = record {
  once = λ n. elim (ℕ_discrete n s.tick) [
    | yes e ↦ ground (arith, h.below n)
    | no apart ↦ ground (arith, h.once n)
  ];
  below = λ n le. ground (arith, h.below n);
}

pub times-close_old :
    (n : ℕ) (o : Option ℕ) (ns : List ℕ) → times n (close_old o ns) ≡ held_as n o + times n ns
times-close_old n none ns = omega arith
times-close_old n (some m) ns = refl

pub use_camera-HasExcess :
    (k : ℕ → ℕ) (s : Nodes) → HasExcess k s → HasExcess k (use_camera s.tick (open_next s))
use_camera-HasExcess k s h = record {
  numbered = let r = open_next-IsNumbered s h.numbered in record { once = r.once; below = r.below };
  sum = λ n. omega (arith, h.sum n, times-close_old n s.camera_sender_node s.closed);
}

pub use_companion-HasExcess :
    (k : ℕ → ℕ) (s : Nodes) → HasExcess k s → HasExcess k (use_companion s.tick (open_next s))
use_companion-HasExcess k s h = record {
  numbered = let r = open_next-IsNumbered s h.numbered in record { once = r.once; below = r.below };
  sum = λ n. omega (arith, h.sum n, times-close_old n s.companion_sender_node s.closed);
}

-- The sender is closed once more than it is given up.
abbrev pub sender_more : (ℕ → ℕ) → Nodes → ℕ → ℕ
sender_more k s n = k n + is n s.sender_node

pub excess_twice : (s u : Nodes) → HasExcess (sender_more (λ _. 0) s) u → IsBalanced u → ⊥
excess_twice s u more even =
    let n = s.sender_node in omega (arith, even.sum n, more.sum n, is_refl n)

pub close_sender-HasExcess :
    (k : ℕ → ℕ) (s : Nodes)
    → HasExcess k s
    → HasExcess (sender_more k s) (close_node s.sender_node s)
close_sender-HasExcess k s h = record {
  numbered = record { once = h.numbered.once; below = h.numbered.below };
  sum = λ n. omega (arith, h.sum n);
}

pub use_sender-HasExcess :
    (k : ℕ → ℕ) (s : Nodes)
    → HasExcess (sender_more k s) s
    → HasExcess k (use_sender s.tick (open_next s))
use_sender-HasExcess k s h = record {
  numbered = let r = open_next-IsNumbered s h.numbered in record { once = r.once; below = r.below };
  sum = λ n. omega (arith, h.sum n);
}

module _ (env : NodeOutcomes) where
  pub init_camera_sender-HasExcess :
      (k : ℕ → ℕ) (s : Nodes) → HasExcess k s → HasExcess k (init_camera_sender env s).0
  unfolding init_camera_sender
  init_camera_sender-HasExcess k s h = elim (Bool-cases (env.node_at s.tick)) [
    | inl made ↦ rw made (use_camera-HasExcess k s h)
    | inr failed ↦ rw failed (tick_on-HasExcess k s h)
  ]

  pub init_companion_sender-HasExcess :
      (k : ℕ → ℕ) (s : Nodes) → HasExcess k s → HasExcess k (init_companion_sender env s).0
  unfolding init_companion_sender
  init_companion_sender-HasExcess k s h = elim (Bool-cases (env.node_at s.tick)) [
    | inl made ↦ rw made (use_companion-HasExcess k s h)
    | inr failed ↦ rw failed (tick_on-HasExcess k s h)
  ]

  -- The old sender is in excess exactly if there is no new one.
  pub rebuild_nodes-HasExcess :
      (k : ℕ → ℕ) (s : Nodes)
      → HasExcess k s
      → HasExcess (if env.node_at s.tick then k else sender_more k s) (rebuild_nodes env s).0
  unfolding rebuild_nodes
  rebuild_nodes-HasExcess k s h =
      let shut = close_sender-HasExcess k s h in
      elim (Bool-cases (env.node_at s.tick)) [
        | inl made ↦ rw made (
            init_companion_sender-HasExcess k _
              (init_camera_sender-HasExcess k _ (use_sender-HasExcess k _ shut)))
        | inr failed ↦ rw failed (tick_on-HasExcess (sender_more k s) _ shut)
      ]

  init_camera_sender-closed :
      (n : ℕ) (s : Nodes) → times n s.closed ≤ times n (init_camera_sender env s).0.closed
  unfolding init_camera_sender
  init_camera_sender-closed n s = elim (Bool-cases (env.node_at s.tick)) [
    | inl made ↦ rw made (omega (arith, times-close_old n s.camera_sender_node s.closed))
    | inr failed ↦ rw failed (omega arith)
  ]

  init_companion_sender-closed :
      (n : ℕ) (s : Nodes) → times n s.closed ≤ times n (init_companion_sender env s).0.closed
  unfolding init_companion_sender
  init_companion_sender-closed n s = elim (Bool-cases (env.node_at s.tick)) [
    | inl made ↦ rw made (omega (arith, times-close_old n s.companion_sender_node s.closed))
    | inr failed ↦ rw failed (omega arith)
  ]

  rebuild_nodes-closes :
      (s : Nodes)
      → times s.sender_node s.closed + 1 ≤ times s.sender_node (rebuild_nodes env s).0.closed
  unfolding rebuild_nodes
  rebuild_nodes-closes s =
      let n = s.sender_node in
      let one = is_refl n in
      let u = use_sender s.tick (open_next (close_node n s)) in
      elim (Bool-cases (env.node_at s.tick)) [
        | inl made ↦ rw made (
            omega (
              arith,
              one,
              init_camera_sender-closed n u,
              init_companion_sender-closed n (init_camera_sender env u).0,
            ))
        | inr failed ↦ rw failed (omega (arith, one))
      ]

  pub rebuild_nodes_failed :
      (s : Nodes)
      → env.node_at s.tick ≡ false
      → let u = (rebuild_nodes env s).0 in
        (u.sender_node ≡ s.sender_node) × (1 ≤ times u.sender_node u.closed)
  unfolding rebuild_nodes
  rebuild_nodes_failed s failed = rw failed (refl, omega (arith, is_refl s.sender_node))

  pub rebuild_nodes_answer : (s : Nodes) → (rebuild_nodes env s).1 ≡ env.node_at s.tick
  unfolding rebuild_nodes
  rebuild_nodes_answer s = elim (Bool-cases (env.node_at s.tick)) [
    | inl made ↦ rw made refl
    | inr failed ↦ rw failed refl
  ]

  -- From nodes in balance, a rebuild leaves them in balance exactly if it creates a new sender.
  -- Otherwise the sender is a node that was closed, and the next rebuild closes it again.
  pub rebuild_nodes-IsBalanced :
      (s : Nodes)
      → IsBalanced s
      → let (u, made) = rebuild_nodes env s in
        (IsBalanced u ↔ (made ≡ true))
        × HasNoLeak u
        × (made ≡ false
            → (u.sender_node ≡ s.sender_node)
              × (2 ≤ times u.sender_node (rebuild_nodes env u).0.closed))
  rebuild_nodes-IsBalanced s h =
      let u = (rebuild_nodes env s).0 in
      let answer = rebuild_nodes_answer s in
      let after = rebuild_nodes-HasExcess (λ _. 0) s h in
      elim (Bool-cases (env.node_at s.tick)) [
        | inl made ↦
            let even : IsBalanced u = rw made at after in
            (
              ((λ _. answer ∙ made), λ _. even),
              HasExcess-HasNoLeak (λ _. 0) u even,
              λ failed. absurd (ground arith),
            )
        | inr failed ↦
            let more : HasExcess (sender_more (λ _. 0) s) u = rw failed at after in
            let (same, shut) = rebuild_nodes_failed s failed in
            (
              (
                (λ even. absurd (
                    omega (
                      arith,
                      even.sum s.sender_node,
                      more.sum s.sender_node,
                      is_refl s.sender_node,
                    ))),
                λ made. absurd (ground arith),
              ),
              HasExcess-HasNoLeak (sender_more (λ _. 0) s) u more,
              λ _. (same, omega (arith, shut, rebuild_nodes-closes u)),
            )
      ]
