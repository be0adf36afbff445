-- ===== src/Vpn/Laws.antt =====
-- What the manager of vpn/manager.go runs, and which devices of WireGuard it lets go of.
use uavlink_edge.Common.{
  Bool, Bool-cases, List, Option, [], arith, false, if◌then◌else◌, inl, inr, none, not, refl, some,
  sym, true, ℕ, ◌+◌, ◌∙◌, ◌∷◌, ◌≡◌, ◌≤◌,
}
use native.Mathlib.Decide.{ℕ_discrete}
use uavlink_edge.Forward.Monitor.{before_slash}
use uavlink_edge.Forward.Nodes.Laws.{held_as, is, times, times-close_old}
use uavlink_edge.Link.Arbiter.{is_some}
use uavlink_edge.Vpn.{
  VpnCall, VpnConfig, VpnFailure, VpnManager, VpnOutcomes, apply_vpn_call, bad_address,
  bad_private_key, bad_server_key, config_of, configure_device, new_manager, no_config, no_tun,
  not_configured, not_up, run_vpn_calls, save_provisioned_config, saves_vpn, start_with, starts_vpn,
  stops_vpn, vpn_start, vpn_stop,
}

-- A manager has a tunnel and a device while it runs and only then; a device that was created is
-- the manager's, closed once, or lost, as often as k says.
pub record IsVpnSound (k : ℕ → ℕ) (m : VpnManager) : Type 0 where
  pub paired : m.vpn_tun ≡ m.vpn_dev
  pub running_is : m.vpn_running ≡ is_some m.vpn_dev
  pub once : (n : ℕ) → times n m.devices_opened ≤ 1
  pub below : (n : ℕ) → m.vpn_tick ≤ n → times n m.devices_opened ≡ 0
  pub sum :
      (n : ℕ) → held_as n m.vpn_dev + times n m.devices_closed + k n ≡ times n m.devices_opened

-- What a Start that fails with this error loses, where n is its tick.
abbrev pub lost_by : Option VpnFailure → ℕ → ℕ → ℕ
lost_by (some bad_private_key) n i = is i n
lost_by (some bad_server_key) n i = is i n
lost_by (some not_configured) n i = is i n
lost_by (some not_up) n i = is i n
lost_by _ n i = 0

abbrev pub lost_more : (ℕ → ℕ) → Option VpnFailure → ℕ → ℕ → ℕ
lost_more k e n i = k i + lost_by e n i

-- Start returned a manager and an error, from tick n on.
pub record Started (k : ℕ → ℕ) (n : ℕ) (out : VpnManager × Option VpnFailure) : Type 0 where
  pub sound : IsVpnSound (lost_more k out.1 n) out.0
  pub answer : is_some out.1 ≡ not out.0.vpn_running

idle : (o : Option ℕ) → false ≡ is_some o → o ≡ none
idle none h = refl
idle (some n) h = absurd (ground (arith, h))

held_none : (n : ℕ) (o : Option ℕ) → o ≡ none → held_as n o ≡ 0
held_none n o h = rw h refl

choice :
    (k : ℕ → ℕ) (n : ℕ) (b : Bool) (p q : VpnManager × Option VpnFailure)
    → Started k n p
    → Started k n q
    → Started k n (if b then p else q)
choice k n true p q l r = l
choice k n false p q l r = r

-- No device was created.
ended_early :
    (k : ℕ → ℕ) (n : ℕ) (m : VpnManager) (e : VpnFailure)
    → IsVpnSound k m
    → m.vpn_running ≡ false
    → ((i : ℕ) → lost_by (some e) n i ≡ 0)
    → Started k n (m, some e)
ended_early k n m e s stopped nothing = record {
  sound = record {
    paired = s.paired;
    running_is = s.running_is;
    once = s.once;
    below = s.below;
    sum = λ i. omega (arith, s.sum i, nothing i);
  };
  answer = rw stopped refl;
}

ticked :
    (k : ℕ → ℕ) (m : VpnManager)
    → IsVpnSound k m
    → IsVpnSound k (record m { vpn_tick = m.vpn_tick + 1 })
ticked k m s = record {
  paired = s.paired;
  running_is = s.running_is;
  once = s.once;
  below = λ n le. s.below n (omega (arith, le));
  sum = s.sum;
}

abbrev opened_now : VpnManager → VpnManager
opened_now m = record m {
  vpn_tick = m.vpn_tick + 1;
  devices_opened = m.vpn_tick ∷ m.devices_opened;
}

opened_once :
    (k : ℕ → ℕ) (m : VpnManager)
    → IsVpnSound k m
    → (n : ℕ) → times n (m.vpn_tick ∷ m.devices_opened) ≤ 1
opened_once k m s n = elim (ℕ_discrete n m.vpn_tick) [
  | yes e ↦ ground (arith, s.below n)
  | no apart ↦ ground (arith, s.once n)
]

opened_below :
    (k : ℕ → ℕ) (m : VpnManager)
    → IsVpnSound k m
    → (n : ℕ) → m.vpn_tick + 1 ≤ n
    → times n (m.vpn_tick ∷ m.devices_opened) ≡ 0
opened_below k m s n le = ground (arith, s.below n)

lost_device :
    (k : ℕ → ℕ) (m : VpnManager) (e : VpnFailure)
    → IsVpnSound k m
    → m.vpn_running ≡ false
    → ((n i : ℕ) → lost_by (some e) n i ≡ is i n)
    → Started k m.vpn_tick (opened_now m, some e)
lost_device k m e s stopped lost = record {
  sound = record {
    paired = s.paired;
    running_is = s.running_is;
    once = opened_once k m s;
    below = opened_below k m s;
    sum = λ n. omega (arith, s.sum n, lost m.vpn_tick n);
  };
  answer = rw stopped refl;
}

got_device :
    (k : ℕ → ℕ) (m : VpnManager) (cfg : VpnConfig)
    → IsVpnSound k m
    → m.vpn_running ≡ false
    → Started k m.vpn_tick (
      record (opened_now m) {
        vpn_tun = some m.vpn_tick;
        vpn_dev = some m.vpn_tick;
        vpn_running = true;
        vpn_config = some cfg;
      },
      none,
    )
got_device k m cfg s stopped = record {
  sound = record {
    paired = refl;
    running_is = refl;
    once = opened_once k m s;
    below = opened_below k m s;
    sum = λ n.
        omega (arith, s.sum n, held_none n m.vpn_dev (idle m.vpn_dev (sym stopped ∙ s.running_is)));
  };
  answer = refl;
}

module _ (env : VpnOutcomes) (k : ℕ → ℕ) where
  decided :
      (m : VpnManager) (p : VpnManager × Option VpnFailure) (b : Bool)
      → (b ≡ true → Started k m.vpn_tick (m, none))
      → (b ≡ false → Started k m.vpn_tick p)
      → Started k m.vpn_tick (if b then (m, none) else p)
  decided m p true runs stopped = runs refl
  decided m p false runs stopped = stopped refl

  still_runs :
      (m : VpnManager) → IsVpnSound k m → m.vpn_running ≡ true → Started k m.vpn_tick (m, none)
  still_runs m s runs = record {
    sound = record {
      paired = s.paired;
      running_is = s.running_is;
      once = s.once;
      below = s.below;
      sum = λ i. omega (arith, s.sum i);
    };
    answer = rw runs refl;
  }

  configure_device-Started :
      (cfg : VpnConfig) (m : VpnManager)
      → IsVpnSound k m
      → m.vpn_running ≡ false
      → Started k m.vpn_tick (configure_device env cfg m.vpn_tick (opened_now m))
  configure_device-Started cfg m s stopped =
      choice k m.vpn_tick (not (env.parse_key cfg.private_key)) _ _
        (lost_device k m bad_private_key s stopped (λ n i. refl))
        (choice k m.vpn_tick (not (env.parse_key cfg.server_pub_key)) _ _
          (lost_device k m bad_server_key s stopped (λ n i. refl))
          (choice k m.vpn_tick (not (env.ipc_at m.vpn_tick)) _ _
            (lost_device k m not_configured s stopped (λ n i. refl))
            (choice k m.vpn_tick (not (env.up_at m.vpn_tick)) _ _
              (lost_device k m not_up s stopped (λ n i. refl)) (got_device k m cfg s stopped))))

  start_with-Started :
      (o : Option VpnConfig) (m : VpnManager)
      → IsVpnSound k m
      → m.vpn_running ≡ false
      → Started k m.vpn_tick (start_with env o m)
  start_with-Started none m s stopped = ended_early k m.vpn_tick m no_config s stopped (λ i. refl)
  start_with-Started (some cfg) m s stopped =
      choice k m.vpn_tick (not (env.parse_addr (before_slash cfg.config_ip))) _ _
        (ended_early k m.vpn_tick m bad_address s stopped (λ i. refl))
        (choice k m.vpn_tick (not (env.tun_at m.vpn_tick)) _ _
          (ended_early k m.vpn_tick (record m { vpn_tick = m.vpn_tick + 1 }) no_tun (ticked k m s)
            stopped (λ i. refl))
          (configure_device-Started cfg m s stopped))

  -- A Start of a sound manager leaves it sound but for the device of a failure after NewDevice, which
  -- is lost for good; and it gives an error exactly if the manager does not run afterwards.
  pub vpn_start-Started : (m : VpnManager) → IsVpnSound k m → Started k m.vpn_tick (vpn_start env m)
  unfolding vpn_start
  vpn_start-Started m s =
      decided m (start_with env (config_of m) m) m.vpn_running (still_runs m s)
        (start_with-Started (config_of m) m s)

  pub vpn_stop-IsVpnSound : (m : VpnManager) → IsVpnSound k m → IsVpnSound k (vpn_stop m)
  unfolding vpn_stop
  vpn_stop-IsVpnSound m s = record {
    paired = refl;
    running_is = refl;
    once = s.once;
    below = s.below;
    sum = λ n. omega (arith, s.sum n, times-close_old n m.vpn_dev m.devices_closed);
  }

  pub save-IsVpnSound :
      (cfg : VpnConfig) (m : VpnManager)
      → IsVpnSound k m
      → IsVpnSound k (save_provisioned_config env cfg m).0
  unfolding save_provisioned_config
  save-IsVpnSound cfg m s =
      let t = ticked k m s in
      elim (Bool-cases (env.write_at m.vpn_tick)) [
        | inl saved ↦ rw saved (record {
          paired = t.paired;
          running_is = t.running_is;
          once = t.once;
          below = t.below;
          sum = t.sum;
        })
        | inr failed ↦ rw failed (record {
          paired = t.paired;
          running_is = t.running_is;
          once = t.once;
          below = t.below;
          sum = t.sum;
        })
      ]

module _ (env : VpnOutcomes) where
  -- The devices that are lost in a run of calls.
  abbrev pub lost_in : (ℕ → ℕ) → List VpnCall → VpnManager → ℕ → ℕ
  lost_in k [] m = k
  lost_in k (starts_vpn ∷ cs) m =
      let out = vpn_start env m in lost_in (lost_more k out.1 m.vpn_tick) cs out.0
  lost_in k (stops_vpn ∷ cs) m = lost_in k cs (vpn_stop m)
  lost_in k (saves_vpn cfg ∷ cs) m = lost_in k cs (save_provisioned_config env cfg m).0

  run_vpn_calls-Sound :
      (cs : List VpnCall) (k : ℕ → ℕ) (m : VpnManager)
      → IsVpnSound k m
      → IsVpnSound (lost_in k cs m) (run_vpn_calls env cs m)
  unfolding run_vpn_calls apply_vpn_call
  run_vpn_calls-Sound [] k m s = s
  run_vpn_calls-Sound (starts_vpn ∷ cs) k m s =
      run_vpn_calls-Sound cs _ _ (vpn_start-Started env k m s).sound
  run_vpn_calls-Sound (stops_vpn ∷ cs) k m s =
      run_vpn_calls-Sound cs k _ (vpn_stop-IsVpnSound env k m s)
  run_vpn_calls-Sound (saves_vpn cfg ∷ cs) k m s =
      run_vpn_calls-Sound cs k _ (save-IsVpnSound env k cfg m s)

  -- From NewManager on, whatever Start, Stop and SaveProvisionedConfig are called and however
  -- WireGuard and the system answer, the manager has a tunnel and a device exactly while it runs, and
  -- every device that was created is the manager's, was closed once, or was lost by a Start that
  -- failed after NewDevice, and only one of these.
  pub run_vpn_calls-IsVpnSound :
      (cs : List VpnCall) (on_file : Option VpnConfig)
      → let m = new_manager on_file in IsVpnSound (lost_in (λ _. 0) cs m) (run_vpn_calls env cs m)
  run_vpn_calls-IsVpnSound cs on_file =
      run_vpn_calls-Sound cs (λ _. 0) (new_manager on_file)
        (record {
          paired = refl;
          running_is = refl;
          once = λ n. omega arith;
          below = λ n le. refl;
          sum = λ n. omega arith;
        })
