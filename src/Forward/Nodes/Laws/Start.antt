-- ===== src/Forward/Nodes/Laws/Start.antt =====
-- The outgoing nodes that New and NewWithVPN of forwarder/forwarder.go set up.
use uavlink_edge.Common.{Bool, [], arith, false, if◌then◌else◌, refl, true, ℕ, ◌&&◌, ◌+◌, ◌↔◌, ◌≡◌}
use uavlink_edge.Forward.Nodes.{
  New, NodeOutcomes, Nodes, bind_others, bind_to_vpn, close_node, created, given_node, given_up,
  init_camera_sender, init_companion_sender, new_camera, new_companion, new_forwarder, new_sender,
  no_sender, through_dial, use_camera, use_companion, use_sender, with_sender,
}
use uavlink_edge.Forward.Nodes.Laws.{
  HasExcess, IsBalanced, close_sender-HasExcess, excess_twice, held_as,
  init_camera_sender-HasExcess, init_companion_sender-HasExcess, open_next, sender_more, tick_on,
  tick_on-HasExcess, times, use_camera-HasExcess, use_companion-HasExcess, use_sender-HasExcess,
}

with_sender-IsBalanced : (t : ℕ) → IsBalanced (with_sender t)
with_sender-IsBalanced t = record {
  numbered = record { once = λ n. ground arith; below = λ n le. ground arith };
  sum = λ n. omega arith;
}

-- What New leaves behind: a forwarder has its three nodes. After an error the sender is closed, and
-- the camera node, if there is one, is all that stays open; no one has it any more.
abbrev pub Starts : New → Type 0
Starts no_sender = Unit
Starts (created s) = IsBalanced s × (s.closed ≡ [])
Starts (given_up s) = (n : ℕ) → times n s.opened ≡ times n s.closed + held_as n s.camera_sender_node

abbrev with_camera : ℕ → Nodes
with_camera t = use_camera (t + 1) (open_next (with_sender t))

module _ (env : NodeOutcomes) where
  new_companion-Starts :
      (t : ℕ) (b : Bool) → Starts (new_companion env (given_node b use_companion (with_camera t)))
  new_companion-Starts t false = λ n. omega arith
  new_companion-Starts t true =
      let camera = use_camera-HasExcess (λ _. 0) (with_sender t) (with_sender-IsBalanced t) in
      (use_companion-HasExcess (λ _. 0) (with_camera t) camera, refl)

  new_camera-Starts :
      (t : ℕ) (b : Bool) → Starts (new_camera env (given_node b use_camera (with_sender t)))
  unfolding init_companion_sender
  new_camera-Starts t false = λ n. omega arith
  new_camera-Starts t true = new_companion-Starts t (env.node_at (t + 1 + 1))

  new_sender-Starts : (t : ℕ) (b : Bool) → Starts (new_sender env t b)
  unfolding init_camera_sender
  new_sender-Starts t false = tt
  new_sender-Starts t true = new_camera-Starts t (env.node_at (t + 1))

  through_dial-HasExcess :
      (b : Bool) (next : Nodes → Nodes × Bool) (k : ℕ → ℕ) (s : Nodes)
      → ((u : Nodes) → HasExcess k u → HasExcess k (next u).0)
      → HasExcess k s
      → HasExcess k (through_dial env b next s).0
  through_dial-HasExcess false next k s keeps h = tick_on-HasExcess k s h
  through_dial-HasExcess true next k s keeps h = keeps (tick_on s) (tick_on-HasExcess k s h)

  bind_others-HasExcess :
      (k : ℕ → ℕ) (s : Nodes) (b : Bool) → HasExcess k s → HasExcess k (bind_others env (s, b)).0
  bind_others-HasExcess k s false h = h
  bind_others-HasExcess k s true h =
      through_dial-HasExcess _ (init_companion_sender env) k _
        (init_companion_sender-HasExcess env k)
        (through_dial-HasExcess _ (init_camera_sender env) k s (init_camera_sender-HasExcess env k)
          h)

  -- The sender is in excess exactly if the dial or the creation fails.
  bound-HasExcess :
      (d b : Bool) (s : Nodes)
      → IsBalanced s
      → HasExcess
          (if d && b then (λ _. 0) else sender_more (λ _. 0) s)
          (bind_others env
            (through_dial env d (given_node b use_sender) (close_node s.sender_node s))).0
  bound-HasExcess false b s h =
      tick_on-HasExcess (sender_more (λ _. 0) s) (close_node s.sender_node s)
        (close_sender-HasExcess (λ _. 0) s h)
  bound-HasExcess true false s h = tick_on-HasExcess (sender_more (λ _. 0) s) _ (
      tick_on-HasExcess (sender_more (λ _. 0) s) (close_node s.sender_node s)
        (close_sender-HasExcess (λ _. 0) s h))
  bound-HasExcess true true s h =
      bind_others-HasExcess (λ _. 0) _ true
        (use_sender-HasExcess (λ _. 0) (tick_on (close_node s.sender_node s))
          (tick_on-HasExcess (sender_more (λ _. 0) s) (close_node s.sender_node s)
            (close_sender-HasExcess (λ _. 0) s h)))

  excess-unbalanced :
      (d b : Bool) (s u : Nodes)
      → HasExcess (if d && b then (λ _. 0) else sender_more (λ _. 0) s) u
      → IsBalanced u ↔ ((d ≡ true) × (b ≡ true))
  excess-unbalanced true true s u h = ((λ _. (refl, refl)), λ _. h)
  excess-unbalanced true false s u h =
      ((λ even. absurd (excess_twice s u h even)), λ made. absurd (ground arith))
  excess-unbalanced false b s u h =
      ((λ even. absurd (excess_twice s u h even)), λ made. absurd (ground arith))

  -- Whatever creations and dials succeed, New returns a forwarder all of whose nodes are open, or it
  -- fails with every node closed but the camera node where it was created. To bind a forwarder with
  -- open nodes to a tunnel closes its sender, and it has a new one exactly if the dial and the
  -- creation behind it succeed; else it goes on with the sender that is closed.
  pub startup-Starts :
      (t : ℕ) (s : Nodes)
      → IsBalanced s
      → Starts (new_forwarder env t)
        × (IsBalanced (bind_to_vpn env s).0
            ↔ ((env.dial_at s.tick ≡ true) × (env.node_at (s.tick + 1) ≡ true)))
  unfolding new_forwarder bind_to_vpn
  startup-Starts t s h = (
    new_sender-Starts t (env.node_at t),
    excess-unbalanced (env.dial_at s.tick) (env.node_at (s.tick + 1)) s _
        (bound-HasExcess (env.dial_at s.tick) (env.node_at (s.tick + 1)) s h),
  )
