-- ===== src/Forward/Monitor/Laws.antt =====
-- What monitorIPChange of forwarder/forwarder.go keeps up.
pub mod Runs
pub mod Stuck
use uavlink_edge.Common.{
  Bool, Bool-cases, ap, arith, false, if◌then◌else◌, inl, inr, not, refl, sym, true, ℕ, ◌&&◌, ◌||◌,
  ◌∙◌, ◌≡◌, ◌≤◌,
}
use Prim.Native.String.{String, count, ◌++◌ as str_append}
use text.Mathlib.Text.{◌==◌ as str_eq}
use text.Mathlib.TextEquality.{eq_iff}
use text.Mathlib.TextLemmas.{length-append as text_length}
use text.Mathlib.TextPositions.{eq_refl}
use uavlink_edge.Egress.{Egress}
use uavlink_edge.Forward.Monitor.{
  Monitor, Reading, RebuildReason, call_force_reconnect, check_current, check_ip,
  check_physical_egress_change, egress_key, get_current_ip, initial_bind, ip_changed, is_blank,
  network_restored, physical_egress_changed, rebuild_sender, rebuilt, unhealthy_recovery,
}
use uavlink_edge.Forward.Nodes.{NodeOutcomes, Nodes, rebuild_nodes}
use uavlink_edge.Forward.Nodes.Laws.{rebuild_nodes_answer}
use uavlink_edge.Wire.Cursor.{ok}

-- Nothing is left to do for what a check reads.
pub record IsUpToDate (r : Reading) (m : Monitor) : Type 0 where
  pub address : m.previous_ip ≡ get_current_ip r
  pub network : m.network_was_down ≡ false
  pub healthy : m.is_healthy ≡ true
  pub egress :
      (r.egress.ok && not (is_blank r.egress.iface)) ≡ true
      → m.previous_physical_egress ≡ egress_key r.egress

-- Whether the status file names an egress.
abbrev pub names_egress : Reading → Bool
names_egress r = r.egress.ok && not (is_blank r.egress.iface)

egress_skipped : (a b : Bool) → (a && not b) ≡ false → (not a || b) ≡ true
egress_skipped a b h = ground arith

egress_taken : (a b : Bool) → (a && not b) ≡ true → (not a || b) ≡ false
egress_taken a b h = ground arith

egress_key_long : (e : Egress) → 1 ≤ count (egress_key e)
egress_key_long e = omega (arith, text_length e.iface (str_append "|" e.ip), text_length "|" e.ip)

is_blank-egress_key : (e : Egress) → is_blank (egress_key e) ≡ false
is_blank-egress_key e = elim (Bool-cases (is_blank (egress_key e))) [
  | inl blank ↦
      let size : count (egress_key e) ≡ 0 = ap count ((eq_iff (egress_key e) "").0 blank) in
      absurd (omega (arith, egress_key_long e, size))
  | inr full ↦ full
]

maybe_reconnect :
    (m : Monitor) (b : Bool)
    → (if b then call_force_reconnect m else m).previous_physical_egress
      ≡ m.previous_physical_egress
maybe_reconnect m true = refl
maybe_reconnect m false = refl

-- What a rebuild keeps.
pub record IsKept (m u : Monitor) : Type 0 where
  pub address : u.previous_ip ≡ m.previous_ip
  pub egress : u.previous_physical_egress ≡ m.previous_physical_egress
  pub network : u.network_was_down ≡ m.network_was_down
  pub healthy : m.is_healthy ≡ true → u.is_healthy ≡ true

rebuilt-IsKept :
    (why : RebuildReason) (m : Monitor) (s : Nodes) (b : Bool) → IsKept m (rebuilt why m (s, b))
rebuilt-IsKept why m s false = record {
  address = refl;
  egress = refl;
  network = refl;
  healthy = λ h. h;
}
rebuilt-IsKept why m s true = record {
  address = refl;
  egress = refl;
  network = refl;
  healthy = λ h. refl;
}

rebuilt_healthy :
    (why : RebuildReason) (m : Monitor) (s : Nodes) (b : Bool)
    → b ≡ true
    → (rebuilt why m (s, b)).is_healthy ≡ true
rebuilt_healthy why m s false h = absurd (ground arith)
rebuilt_healthy why m s true h = refl

module _ (env : NodeOutcomes) where
  pub egress_idle :
      (r : Reading) (m : Monitor)
      → (names_egress r ≡ true → m.previous_physical_egress ≡ egress_key r.egress)
      → check_physical_egress_change env r m ≡ m
  unfolding check_physical_egress_change
  egress_idle r m h = elim (Bool-cases (names_egress r)) [
    | inr skipped ↦ rw (egress_skipped r.egress.ok (is_blank r.egress.iface) skipped) refl
    | inl named ↦
        rw (egress_taken r.egress.ok (is_blank r.egress.iface) named) (
          rw (h named)
            (rw (is_blank-egress_key r.egress) (rw (eq_refl (egress_key r.egress)) refl)))
  ]

  current_idle :
      (ip : String) (m : Monitor)
      → is_blank ip ≡ false
      → m.previous_ip ≡ ip
      → m.network_was_down ≡ false
      → m.is_healthy ≡ true
      → check_current env ip m ≡ m
  unfolding check_current
  current_idle ip m found same there healthy =
      rw found (rw there (rw same (rw found (rw (eq_refl ip) (rw healthy refl)))))

  -- A monitor that is up to date does nothing.
  check_ip-IsUpToDate :
      (r : Reading) (m : Monitor)
      → is_blank (get_current_ip r) ≡ false
      → IsUpToDate r m
      → check_ip env r m ≡ m
  unfolding check_ip
  check_ip-IsUpToDate r m found h =
      rw (egress_idle r m h.egress)
        (current_idle (get_current_ip r) m found h.address h.network h.healthy)

  pub rebuild_sender-IsKept :
      (why : RebuildReason) (m : Monitor) → IsKept m (rebuild_sender env why m)
  unfolding rebuild_sender
  rebuild_sender-IsKept why m = let s = rebuild_nodes env m.nodes in rebuilt-IsKept why m s.0 s.1

  rebuild_sender_healthy :
      (why : RebuildReason) (m : Monitor)
      → ((t : ℕ) → env.node_at t ≡ true)
      → (rebuild_sender env why m).is_healthy ≡ true
  unfolding rebuild_sender
  rebuild_sender_healthy why m made =
      let s = rebuild_nodes env m.nodes in
      rebuilt_healthy why m s.0 s.1 (rebuild_nodes_answer env m.nodes ∙ made m.nodes.tick)

  -- What a check of the egress does.
  egress_noted :
      (r : Reading) (m : Monitor)
      → names_egress r ≡ true
      → (check_physical_egress_change env r m).previous_physical_egress ≡ egress_key r.egress
  unfolding check_physical_egress_change
  egress_noted r m named =
      let key = egress_key r.egress in
      let noted = record m { previous_physical_egress = key } in
      rw (egress_taken r.egress.ok (is_blank r.egress.iface) named)
        (elim (Bool-cases (is_blank m.previous_physical_egress)) [
          | inl first ↦ rw first (maybe_reconnect noted _)
          | inr later ↦ rw later (elim (Bool-cases (str_eq key m.previous_physical_egress)) [
            | inl same ↦ rw same (sym ((eq_iff key m.previous_physical_egress).0 same))
            | inr apart ↦ rw apart (rebuild_sender-IsKept physical_egress_changed noted).egress
          ])
        ])

  -- The address is noted, the network is up, the egress is as before, and if creations succeed the
  -- forwarder is healthy.
  abbrev pub Settled : String → String → Monitor → Type 0
  Settled ip key u =
      (u.previous_ip ≡ ip)
      × (u.network_was_down ≡ false)
      × (u.previous_physical_egress ≡ key)
      × (((t : ℕ) → env.node_at t ≡ true) → u.is_healthy ≡ true)

  rebuild_sender-Settled :
      (why : RebuildReason) (ip : String) (m : Monitor)
      → m.previous_ip ≡ ip
      → m.network_was_down ≡ false
      → Settled ip m.previous_physical_egress (rebuild_sender env why m)
  rebuild_sender-Settled why ip m same there =
      let k = rebuild_sender-IsKept why m in
      (k.address ∙ same, k.network ∙ there, k.egress, rebuild_sender_healthy why m)

  found-Settled :
      (ip : String) (m : Monitor) (gone a b c : Bool)
      → m.network_was_down ≡ gone
      → (b ≡ true → m.previous_ip ≡ ip)
      → m.is_healthy ≡ c
      → Settled ip m.previous_physical_egress (
          if gone
          then rebuild_sender env network_restored
              (record m { shown_ip = ip; network_was_down = false; previous_ip = ip })
          else if a
          then rebuild_sender env initial_bind (record m { previous_ip = ip; shown_ip = ip })
          else if not b
          then rebuild_sender env ip_changed (record m { shown_ip = ip; previous_ip = ip })
          else if c
          then m
          else rebuild_sender env unhealthy_recovery m)
  found-Settled ip m true a b c there same healthy =
      rebuild_sender-Settled network_restored ip _ refl refl
  found-Settled ip m false true b c there same healthy =
      rebuild_sender-Settled initial_bind ip _ refl there
  found-Settled ip m false false false c there same healthy =
      rebuild_sender-Settled ip_changed ip _ refl there
  found-Settled ip m false false true true there same healthy =
      (same refl, there, refl, λ _. healthy)
  found-Settled ip m false false true false there same healthy =
      rebuild_sender-Settled unhealthy_recovery ip m (same refl) there

  current-Settled :
      (ip : String) (m : Monitor)
      → is_blank ip ≡ false
      → Settled ip m.previous_physical_egress (check_current env ip m)
  unfolding check_current
  current-Settled ip m found = rw found (
      found-Settled ip m m.network_was_down (is_blank m.previous_ip) (str_eq m.previous_ip ip)
        m.is_healthy refl (eq_iff m.previous_ip ip).0 refl)

  pub check_ip-Settled :
      (r : Reading) (m : Monitor)
      → is_blank (get_current_ip r) ≡ false
      → Settled
          (get_current_ip r)
          (check_physical_egress_change env r m).previous_physical_egress
          (check_ip env r m)
  unfolding check_ip
  check_ip-Settled r m found =
      current-Settled (get_current_ip r) (check_physical_egress_change env r m) found

  -- A check that finds an address notes it, with the egress that the status file names. If creations
  -- succeed, the forwarder is healthy after it. And once it is, the same reading changes nothing
  -- more, also where a creation failed.
  pub check_ip_settles :
      (r : Reading) (m : Monitor)
      → is_blank (get_current_ip r) ≡ false
      → let u = check_ip env r m in
        (u.previous_ip ≡ get_current_ip r)
        × (u.network_was_down ≡ false)
        × (names_egress r ≡ true → u.previous_physical_egress ≡ egress_key r.egress)
        × (((t : ℕ) → env.node_at t ≡ true) → u.is_healthy ≡ true)
        × (u.is_healthy ≡ true → check_ip env r u ≡ u)
  check_ip_settles r m found =
      let (address, network, egress, healthy) = check_ip-Settled r m found in
      let named = λ (n : names_egress r ≡ true). egress ∙ egress_noted r m n in
      (
        address,
        network,
        named,
        healthy,
        λ well.
            check_ip-IsUpToDate r _ found
              (record { address = address; network = network; healthy = well; egress = named }),
      )
