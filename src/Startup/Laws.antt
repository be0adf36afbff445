-- ===== src/Startup/Laws.antt =====
-- How the authentication of main.go ends, and with which tunnel and sender.
use uavlink_edge.Common.{Bool, List, false, if◌then◌else◌, true, ℕ, ◌+◌, ◌<◌, ◌≡◌, ◌≤◌}
use uavlink_edge.Egress.{Egress}
use uavlink_edge.Forward.Monitor.{Monitor, Reading}
use uavlink_edge.Forward.Nodes.{NodeOutcomes}
use uavlink_edge.Startup.{
  Program, StartupEnd, StartupOutcomes, bound, mgr_running, no_tunnel, rebind, start_vpn_after_auth,
  still_trying, watch_cloud_and_rebind,
}
use uavlink_edge.Vpn.{VpnOutcomes}

abbrev pub one_if : Bool → ℕ
one_if b = if b then 1 else 0

-- The calls of RebindUplink that watchCloudAndRebind made and may still make.
abbrev pub cloud_budget : Program → ℕ
cloud_budget p = p.cloud_rebinds + one_if p.watching

module _ (node_env : NodeOutcomes) where
  -- What watchCloudAndRebind keeps.
  record IsKept (p q : Program) : Type 0 where
    mgr : q.vpn_mgr ≡ p.vpn_mgr
    calls : q.attempts ≡ p.attempts
    own : q.rebind_calls ≡ p.rebind_calls
    budget : cloud_budget q ≡ cloud_budget p

module _ (vpn_env : VpnOutcomes) (node_env : NodeOutcomes) (r : Reading)
    (env : StartupOutcomes) where
  abbrev called : ℕ → Program → Program
  called a p = record p { attempts = a + 1 }

  -- What startup did to p when it ended after call a of Start, and what watchCloudAndRebind does later.
  abbrev pub IsOutcome : Program → ℕ → StartupEnd → Program → Type 0
  IsOutcome p a still_trying q = ⊥
  IsOutcome p a bound q =
      (mgr_running q.vpn_mgr ≡ true)
      × (q.rebind_calls ≡ p.rebind_calls + 1)
      × (q
          ≡ rebind vpn_env node_env r env (
              watch_cloud_and_rebind node_env env.ticks_up
                (record p { attempts = a + 1; vpn_mgr = q.vpn_mgr })))
      × ((later : List Reading)
          → cloud_budget (watch_cloud_and_rebind node_env later q) ≡ cloud_budget p)
  IsOutcome p a (no_tunnel e) q =
      (mgr_running q.vpn_mgr ≡ false)
      × (q ≡ record p { attempts = a + 1; vpn_mgr = q.vpn_mgr })
      × ((later : List Reading) → watch_cloud_and_rebind node_env later q ≡ q)

  pub record Ended (p : Program) (a : ℕ) (out : Program × StartupEnd) : Type 0 where
    pub calls : out.0.attempts ≡ a + 1
    pub outcome : IsOutcome p a out.1 out.0

  -- Call a is the first of the program that succeeds.
  pub record IsFirst (p : Program) (a : ℕ) : Type 0 where
    pub to_come : p.attempts ≤ a
    pub succeeds : env.auth_at a ≡ true
    pub fails_before : (i : ℕ) → p.attempts ≤ i → i < a → env.auth_at i ≡ false

  abbrev authenticated : Program → ℕ → Program × StartupEnd
  authenticated p a = start_vpn_after_auth vpn_env node_env r env (env.provision_at a) (called a p)
