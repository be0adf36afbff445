-- ===== src/Link/Step.antt =====
-- stepLink of forwarder/px4_link.go: which link is active after a health check. A time is the
-- number of nanoseconds since the zero time.Time, so 0 is the time for which IsZero holds, and a
-- duration is one too. [4]bool is a function of the link.
pub mod Laws
use uavlink_edge.Common.{
  Bool, false, if◌then◌else◌, leb, ltb, not, true, ℕ, ◌&&◌, ◌*◌, ◌+◌, ◌-◌, ◌==◌, ◌||◌,
}

pub data LinkId : Type 0 where
  link_none link_eth link_telem2 link_telem3 : LinkId

-- The reason that stepLink returns; `unchanged` is the empty string.
pub data Reason : Type 0 where
  unchanged eth_recovered eth_lost eth_lost_telem2_absent telem2_lost telem2_restored : Reason

pub record LinkSnap : Type 0 where
  pub active : LinkId
  pub entered : ℕ
  pub hold_until : ℕ
  pub eth_lost_flag : Bool
  pub eth_hb_since_loss : ℕ

abbrev pub is_eth : LinkId → Bool
is_eth link_eth = true
is_eth _ = false

abbrev pub millisecond : ℕ
millisecond = 1_000_000

abbrev pub second : ℕ
second = 1_000_000_000

-- if s.active == linkNone { s.active = linkEth }
abbrev pub or_eth : LinkId → LinkId
or_eth link_none = link_eth
or_eth link = link

-- if recoverN < 1 { recoverN = 2 } and if loss <= 0 { loss = 2 * time.Second }: both are natural
-- numbers, and a negative value, which is treated like 0, is 0.
abbrev pub recover_or_default : ℕ → ℕ
recover_or_default n = if ltb n 1 then 2 else n

abbrev pub loss_or_default : ℕ → ℕ
loss_or_default loss = if leb loss 0 then 2 * second else loss

-- The four assignments of a switch to another link, with its hold.
abbrev enter : LinkSnap → LinkId → ℕ → ℕ → LinkSnap
enter s link now hold = record s { active = link; entered = now; hold_until = hold }

-- case linkEth. now.Sub(s.entered) < loss holds for a negative difference too, since loss > 0.
abbrev judge_eth : LinkSnap → ℕ → (LinkId → Bool) → (LinkId → Bool) → ℕ → LinkSnap × Reason
judge_eth s now fresh is_open loss =
    let lost = record s { eth_lost_flag = true; eth_hb_since_loss = 0 } in
    if fresh link_eth || ltb (now - s.entered) loss
    then (s, unchanged)
    else if is_open link_telem2
    then (enter lost link_telem2 now (now + loss), eth_lost)
    else if is_open link_telem3
    then (enter lost link_telem3 now (now + loss), eth_lost_telem2_absent)
    else (lost, unchanged)

-- case linkTelem2
abbrev judge_telem2 : LinkSnap → ℕ → (LinkId → Bool) → (LinkId → Bool) → ℕ → LinkSnap × Reason
judge_telem2 s now fresh is_open loss =
    if fresh link_telem2 && is_open link_telem2
    then (s, unchanged)
    else if is_open link_telem3
    then (enter s link_telem3 now (now + loss), telem2_lost)
    else (s, unchanged)

-- case linkTelem3
abbrev judge_telem3 : LinkSnap → ℕ → (LinkId → Bool) → (LinkId → Bool) → ℕ → LinkSnap × Reason
judge_telem3 s now fresh is_open loss =
    if fresh link_telem2 && is_open link_telem2
    then (enter s link_telem2 now (now + loss), telem2_restored)
    else (s, unchanged)

-- The switch on s.active; the first clause is its default.
abbrev judge : LinkId → LinkSnap → ℕ → (LinkId → Bool) → (LinkId → Bool) → ℕ → LinkSnap × Reason
judge link_none s now fresh is_open loss =
    (record s { active = link_eth; entered = now }, unchanged)
judge link_eth s now fresh is_open loss = judge_eth s now fresh is_open loss
judge link_telem2 s now fresh is_open loss = judge_telem2 s now fresh is_open loss
judge link_telem3 s now fresh is_open loss = judge_telem3 s now fresh is_open loss

abbrev recovers : LinkSnap → (LinkId → Bool) → (LinkId → Bool) → ℕ → Bool
recovers s fresh is_open n =
    not (is_eth s.active)
    && (s.eth_lost_flag && (leb n s.eth_hb_since_loss && (fresh link_eth && is_open link_eth)))

abbrev holds : LinkSnap → ℕ → (LinkId → Bool) → Bool
holds s now is_open = not (s.hold_until == 0) && (ltb now s.hold_until && is_open s.active)

unfoldable pub step_link :
    LinkSnap → ℕ → (LinkId → Bool) → (LinkId → Bool) → ℕ → ℕ → LinkSnap × Reason
step_link snap now fresh is_open loss recover_n =
    let s = record snap { active = or_eth snap.active } in
    if recovers s fresh is_open (recover_or_default recover_n)
    then (
      record s {
        active = link_eth;
        entered = now;
        hold_until = 0;
        eth_lost_flag = false;
        eth_hb_since_loss = 0;
      },
      eth_recovered,
    )
    else if holds s now is_open
    then (s, unchanged)
    else judge s.active s now fresh is_open (loss_or_default loss)
