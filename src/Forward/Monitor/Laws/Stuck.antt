-- ===== src/Forward/Monitor/Laws/Stuck.antt =====
-- A sender of forwarder/forwarder.go that could not be created after the address changed.
use uavlink_edge.Common.{Bool, ap, arith, false, if◌then◌else◌, not, refl, sym, true, ◌∙◌, ◌≡◌, ◌≤◌}
use Prim.Native.String.{String}
use mathlib.Core.Path.{subst}
use text.Mathlib.Text.{◌==◌ as str_eq}
use uavlink_edge.Forward.Monitor.{
  Monitor, Reading, RebuildReason, check_current, check_ip, egress_key, get_current_ip, ip_changed,
  is_blank, rebuild_sender, rebuilt,
}
use uavlink_edge.Forward.Monitor.Laws.{check_ip_settles, egress_idle, names_egress}
use uavlink_edge.Forward.Nodes.{NodeOutcomes, Nodes, rebuild_nodes}
use uavlink_edge.Forward.Nodes.Laws.{rebuild_nodes_answer, rebuild_nodes_failed, times}

-- A monitor on an address, which a reading then changes, with nothing else to do.
pub record IsMoved (r : Reading) (m : Monitor) : Type 0 where
  pub found : is_blank (get_current_ip r) ≡ false
  pub bound : is_blank m.previous_ip ≡ false
  pub moved : str_eq m.previous_ip (get_current_ip r) ≡ false
  pub there : m.network_was_down ≡ false
  pub healthy : m.is_healthy ≡ true
  pub egress : names_egress r ≡ true → m.previous_physical_egress ≡ egress_key r.egress

third_branch :
    (a b c : Bool) (w x y z : Monitor)
    → a ≡ false
    → b ≡ false
    → c ≡ false
    → (if a then w else if b then x else if not c then y else z) ≡ y
third_branch a b c w x y z p q r = ground arith

module _ (env : NodeOutcomes) where
  current_moved :
      (ip : String) (m : Monitor)
      → is_blank ip ≡ false
      → m.network_was_down ≡ false
      → is_blank m.previous_ip ≡ false
      → str_eq m.previous_ip ip ≡ false
      → check_current env ip m
        ≡ rebuild_sender env ip_changed (record m { shown_ip = ip; previous_ip = ip })
  unfolding check_current
  current_moved ip m found there bound moved = rw found (
      third_branch m.network_was_down (is_blank m.previous_ip) (str_eq m.previous_ip ip) _ _ _ _
        there bound moved)

  check_moved :
      (r : Reading) (m : Monitor)
      → IsMoved r m
      → check_ip env r m
        ≡ rebuild_sender env ip_changed
            (record m { shown_ip = get_current_ip r; previous_ip = get_current_ip r })
  unfolding check_ip
  check_moved r m h =
      ap (check_current env (get_current_ip r)) (egress_idle env r m h.egress)
      ∙ current_moved (get_current_ip r) m h.found h.there h.bound h.moved

  rebuilt_failed :
      (why : RebuildReason) (m : Monitor) (s : Nodes) (b : Bool)
      → b ≡ false
      → ((rebuilt why m (s, b)).nodes ≡ s) × ((rebuilt why m (s, b)).is_healthy ≡ m.is_healthy)
  rebuilt_failed why m s true h = absurd (ground arith)
  rebuilt_failed why m s false h = (refl, refl)

  -- If the address changes and no new sender can be created, then the forwarder stays healthy with a
  -- sender that is closed, and no later check of the same reading creates another.
  pub changed_address_stuck :
      (r : Reading) (m : Monitor)
      → IsMoved r m
      → env.node_at m.nodes.tick ≡ false
      → let u = check_ip env r m in
        (u.is_healthy ≡ true)
        × (1 ≤ times u.nodes.sender_node u.nodes.closed)
        × (check_ip env r u ≡ u)
  unfolding rebuild_sender
  changed_address_stuck r m h failed =
      let v = record m { shown_ip = get_current_ip r; previous_ip = get_current_ip r } in
      let s = rebuild_nodes env m.nodes in
      let (nodes, healthy) =
        rebuilt_failed ip_changed v s.0 s.1 (rebuild_nodes_answer env m.nodes ∙ failed) in
      let settled = check_ip_settles env r m h.found in
      let well = ap (λ (w : Monitor). w.is_healthy) (check_moved r m h) ∙ healthy ∙ h.healthy in
      let same = ap (λ (w : Monitor). w.nodes) (check_moved r m h) ∙ nodes in
      (
        well,
        subst (λ (n : Nodes). 1 ≤ times n.sender_node n.closed) (sym same)
            (rebuild_nodes_failed env m.nodes failed).1,
        settled.4 well,
      )
