-- ===== src/Forward/Nodes.antt =====
-- The outgoing gomavlib nodes of a Forwarder: New and NewWithVPN of forwarder/forwarder.go,
-- initCameraSender of forwarder/mavlink_generated.go, initCompanionSender of
-- forwarder/companion_status.go, and what rebuildSender and RebindUplink do to the nodes. gomavlib is
-- outside: each NewNode and DialUDP has a number, the `tick`, and `NodeOutcomes` says how it goes. A node
-- is known by the tick at which it was created.
pub mod Laws
use uavlink_edge.Common.{Bool, List, Option, [], false, none, some, true, ℕ, ◌+◌, ◌∷◌}

pub record NodeOutcomes : Type 0 where
  pub node_at : ℕ → Bool
  pub dial_at : ℕ → Bool

-- senderNode, cameraSenderNode and companionSenderNode, and every node that was created and closed,
-- the latest first.
pub record Nodes : Type 0 where
  pub sender_node : ℕ
  pub camera_sender_node : Option ℕ
  pub companion_sender_node : Option ℕ
  pub tick : ℕ
  pub opened : List ℕ
  pub closed : List ℕ

-- node.Close()
abbrev pub close_node : ℕ → Nodes → Nodes
close_node n s = record s { closed = n ∷ s.closed }

abbrev pub close_old : Option ℕ → List ℕ → List ℕ
close_old none ns = ns
close_old (some n) ns = n ∷ ns

-- A creation that succeeds or not, and what is done with the new node.
abbrev pub given_node : Bool → (ℕ → Nodes → Nodes) → Nodes → Nodes × Bool
given_node false use_node s = (record s { tick = s.tick + 1 }, false)
given_node true use_node s =
    (use_node s.tick (record s { tick = s.tick + 1; opened = s.tick ∷ s.opened }), true)

abbrev pub use_camera : ℕ → Nodes → Nodes
use_camera n s = record s {
  camera_sender_node = some n;
  closed = close_old s.camera_sender_node s.closed;
}

abbrev pub use_companion : ℕ → Nodes → Nodes
use_companion n s = record s {
  companion_sender_node = some n;
  closed = close_old s.companion_sender_node s.closed;
}

abbrev pub use_sender : ℕ → Nodes → Nodes
use_sender n s = record s { sender_node = n }

-- What New returns: no node, the nodes that an error leaves behind, or those of the forwarder.
pub data New : Type 0 where
  no_sender : New
  given_up : Nodes → New
  created : Nodes → New

abbrev pub with_sender : ℕ → Nodes
with_sender n = record {
  sender_node = n;
  camera_sender_node = none;
  companion_sender_node = none;
  tick = n + 1;
  opened = n ∷ [];
  closed = [];
}

module _ (env : NodeOutcomes) where
  unfoldable pub init_camera_sender : Nodes → Nodes × Bool
  init_camera_sender s = given_node (env.node_at s.tick) use_camera s

  unfoldable pub init_companion_sender : Nodes → Nodes × Bool
  init_companion_sender s = given_node (env.node_at s.tick) use_companion s

  -- From the companion node on.
  abbrev pub new_companion : Nodes × Bool → New
  new_companion (s, true) = created s
  new_companion (s, false) = given_up (close_node s.sender_node s)

  abbrev pub new_camera : Nodes × Bool → New
  new_camera (s, true) = new_companion (init_companion_sender s)
  new_camera (s, false) = given_up (close_node s.sender_node s)

  abbrev pub new_sender : ℕ → Bool → New
  new_sender t false = no_sender
  new_sender t true = new_camera (init_camera_sender (with_sender t))

  unfoldable pub new_forwarder : ℕ → New
  new_forwarder t = new_sender t (env.node_at t)

  -- The camera and the companion node, whose errors are only logged.
  abbrev pub init_others : Nodes × Bool → Nodes × Bool
  init_others (s, false) = (s, false)
  init_others (s, true) = ((init_companion_sender (init_camera_sender s).0).0, true)

  -- The old sender is closed, and a new one is created. The answer says whether it was.
  unfoldable pub rebuild_nodes : Nodes → Nodes × Bool
  rebuild_nodes s =
      init_others (given_node (env.node_at s.tick) use_sender (close_node s.sender_node s))

  -- A DialUDP through the VPN and then a node on its connection.
  abbrev pub through_dial : Bool → (Nodes → Nodes × Bool) → Nodes → Nodes × Bool
  through_dial false next s = (record s { tick = s.tick + 1 }, false)
  through_dial true next s = next (record s { tick = s.tick + 1 })

  abbrev pub dial_sender : Nodes → Nodes × Bool
  dial_sender s =
      through_dial (env.dial_at s.tick) (given_node (env.node_at (s.tick + 1)) use_sender) s

  abbrev pub bind_others : Nodes × Bool → Nodes × Bool
  bind_others (s, false) = (s, false)
  bind_others (s, true) =
      let camera = (through_dial (env.dial_at s.tick) init_camera_sender s).0 in
      ((through_dial (env.dial_at camera.tick) init_companion_sender camera).0, true)

  -- NewWithVPN on the nodes of New, with a tunnel that has an address.
  unfoldable pub bind_to_vpn : Nodes → Nodes × Bool
  bind_to_vpn s = bind_others (dial_sender (close_node s.sender_node s))
