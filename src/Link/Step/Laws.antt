-- ===== src/Link/Step/Laws.antt =====
-- What one health check of stepLink in forwarder/px4_link.go may do.
use uavlink_edge.Common.{Bool, arith, false, true, ℕ, ◌+◌, ◌-◌, ◌<◌, ◌≡◌, ◌≢◌, ◌≤◌, ◌⊎◌}
use uavlink_edge.Link.Step.{
  LinkId, LinkSnap, Reason, eth_lost, eth_lost_telem2_absent, eth_recovered, link_eth, link_telem2,
  link_telem3, loss_or_default, or_eth, recover_or_default, step_link, telem2_lost, telem2_restored,
  unchanged,
}

-- The switches that the arbiter makes, with the reasons it gives.
pub data Edge : LinkId → Reason → LinkId → Type 0 where
  telem2_back : Edge link_telem2 eth_recovered link_eth
  telem3_back : Edge link_telem3 eth_recovered link_eth
  down : Edge link_eth eth_lost link_telem2
  down_twice : Edge link_eth eth_lost_telem2_absent link_telem3
  further : Edge link_telem2 telem2_lost link_telem3
  up : Edge link_telem3 telem2_restored link_telem2

pub ruleset edges = (telem2_back, telem3_back, down, down_twice, further, up)

module _ (s : LinkSnap) (now : ℕ) (fresh is_open : LinkId → Bool) (loss recover_n : ℕ) where
  abbrev next : LinkSnap × Reason
  next = step_link s now fresh is_open loss recover_n

  -- A health check makes at most one switch. Without a reason the active link stays, but for
  -- the first choice of Ethernet; with one the switch is an edge from the link that was active,
  -- onto a link that is open, and is stamped with the time.
  pub step_link-Edge :
      ((next.1 ≡ unchanged) × (next.0.active ≡ or_eth s.active))
      ⊎ (Edge (or_eth s.active) next.1 next.0.active
          × (is_open next.0.active ≡ true)
          × (next.0.entered ≡ now))
  unfolding step_link
  step_link-Edge = grind (arith, edges)

  -- When Ethernet was lost and has the heartbeats to recover, is fresh and open, the next health
  -- check goes back to it from either serial link, before any hold or loss is looked at, and the
  -- record of the loss is cleared.
  pub step_link_recovery :
      or_eth s.active ≢ link_eth
      → s.eth_lost_flag ≡ true
      → recover_or_default recover_n ≤ s.eth_hb_since_loss
      → fresh link_eth ≡ true
      → is_open link_eth ≡ true
      → (next.1 ≡ eth_recovered)
        × (next.0.active ≡ link_eth)
        × (next.0.eth_lost_flag ≡ false)
        × (next.0.eth_hb_since_loss ≡ 0)
        × (next.0.hold_until ≡ 0)
  unfolding step_link
  step_link_recovery not_eth lost enough is_fresh opened = ground arith

  -- The arbiter leaves Ethernet only if it is not fresh and was entered at least the loss time ago,
  -- and takes TELEM3 only where TELEM2 is not open.
  pub step_link_leaves_eth :
      s.active ≡ link_eth
      → next.0.active ≢ link_eth
      → (fresh link_eth ≡ false)
        × (loss_or_default loss ≤ now - s.entered)
        × ((next.0.active ≡ link_telem2)
            ⊎ ((next.0.active ≡ link_telem3) × (is_open link_telem2 ≡ false)))
        × (next.0.hold_until ≡ now + loss_or_default loss)
        × (next.0.eth_hb_since_loss ≡ 0)
  unfolding step_link
  step_link_leaves_eth at_eth left = ground arith

  -- On a serial link, nothing but a recovery of Ethernet moves the arbiter while the link is held
  -- and open: the state stays as it is.
  pub step_link_held :
      or_eth s.active ≢ link_eth
      → (fresh link_eth ≡ false) ⊎ (s.eth_hb_since_loss < recover_or_default recover_n)
      → now < s.hold_until
      → is_open s.active ≡ true
      → next ≡ (s, unchanged)
  unfolding step_link
  step_link_held serial quiet held opened = ground arith
