-- ===== src/Egress/Laws.antt =====
-- What PhysicalEgress of network/egress.go promises of an egress that it calls usable.
use uavlink_edge.Common.{
  Bool, ap, false, if◌then◌else◌, inl, inr, not, refl, some, sym, true, ◌&&◌, ◌∙◌, ◌≡◌, ◌⊎◌,
}
use Prim.Native.String.{String}
use mathlib.Core.Path.{subst}
use text.Mathlib.Text.{◌==◌ as str_eq}
use text.Mathlib.TextEquality.{eq_iff}
use uavlink_edge.Egress.{
  Egress, Fields, active_egress, address_of, as_bool, as_object, as_text, block_egress,
  cloud_uplink_block, get, has_text, physical_egress, raw_egress,
}

-- A text that the loop over the keys of a block takes for an address.
abbrev pub is_address : String → Bool
is_address v = has_text v && not (str_eq v "null")

-- The block is online, and has the address under "ip", or under "ip_address" if there is none there.
abbrev pub IsOnlineAt : Fields → String → Type 0
IsOnlineAt block ip =
    (as_bool (get block "online") ≡ true)
    × (is_address ip ≡ true)
    × ((as_text (get block "ip") ≡ ip)
        ⊎ ((is_address (as_text (get block "ip")) ≡ false)
            × (as_text (get block "ip_address") ≡ ip)))

-- The plane of the cloud uplink is ready, with an interface and an address.
abbrev pub is_cloud_uplink : Fields → Bool
is_cloud_uplink cu =
    as_bool (get cu "ready")
    && (has_text (as_text (get cu "interface")) && has_text (as_text (get cu "ip")))

-- Where the status file has the interface and the address: in the plane of the cloud uplink if that
-- is ready, else, for the active interface, in the block of the modem or of the wireless network,
-- whichever is the block of this interface.
abbrev pub IsAnnounced : Fields → String → String → Type 0
IsAnnounced raw iface ip =
    let cu = cloud_uplink_block raw in
    ((is_cloud_uplink cu ≡ true)
      × (as_text (get cu "interface") ≡ iface)
      × (as_text (get cu "ip") ≡ ip))
    ⊎ ((is_cloud_uplink cu ≡ false)
        × (as_text (get raw "active_interface") ≡ iface)
        × (((iface ≡ "wwan0") × IsOnlineAt (as_object (get raw "4g")) ip)
            ⊎ ((iface ≡ "wlan0") × IsOnlineAt (as_object (get raw "wifi")) ip)))

-- An egress that is called usable has an interface and an address, and both are announced.
abbrev pub IsUsable : Fields → Egress → Type 0
IsUsable raw e = (has_text e.iface ≡ true) × (has_text e.ip ≡ true) × IsAnnounced raw e.iface e.ip

if_else-all :
    (P : Egress → Type 0) (t : Bool) (a b : Egress)
    → (t ≡ true → P a)
    → (t ≡ false → P b)
    → P (if t then a else b)
if_else-all P true a b ha hb = ha refl
if_else-all P false a b ha hb = hb refl

and-both : (a b : Bool) → (a && b) ≡ true → (a ≡ true) × (b ≡ true)
and-both true b h = (refl, h)
and-both false b h = cc

not-false : (a : Bool) → not a ≡ false → a ≡ true
not-false true h = refl
not-false false h = cc

-- What is called usable comes from this block.
abbrev FromBlock : Fields → String → Egress → Type 0
FromBlock block iface e = e.ok ≡ true → (e.iface ≡ iface) × IsOnlineAt block e.ip

block_egress-FromBlock :
    (block : Fields) (iface : String) → FromBlock block iface (block_egress block iface)
unfolding block_egress address_of
block_egress-FromBlock block iface =
    if_else-all (FromBlock block iface) (is_address (as_text (get block "ip"))) _ _
      (λ first online. (refl, (online, first, inl refl)))
      λ no_first.
        if_else-all (FromBlock block iface) (is_address (as_text (get block "ip_address"))) _ _
          (λ second online. (refl, (online, second, inr (no_first, refl)))) λ no_second never. cc

-- Usable where it is called so.
abbrev Honest : Fields → Egress → Type 0
Honest raw e = e.ok ≡ true → IsUsable raw e

module _ (raw : Fields) where
  block-Honest :
      (block : Fields) (iface : String)
      → has_text iface ≡ true
      → ((ip : String) → IsOnlineAt block ip → IsAnnounced raw iface ip)
      → Honest raw (block_egress block iface)
  block-Honest block iface named announced usable =
      let e = block_egress block iface in
      let (same, online) = block_egress-FromBlock block iface usable in
      (
        ap has_text same ∙ named,
        (and-both (has_text e.ip) _ online.1).0,
        subst (λ i. IsAnnounced raw i e.ip) (sym same) (announced e.ip online),
      )

  active_egress-Honest :
      is_cloud_uplink (cloud_uplink_block raw) ≡ false
      → Honest raw (active_egress raw (as_text (get raw "active_interface")))
  unfolding active_egress
  active_egress-Honest unready =
      let iface = as_text (get raw "active_interface") in
      if_else-all (Honest raw) (not (has_text iface)) _ _ (λ nameless never. cc)
        λ named.
          let has_name = not-false _ named in
          if_else-all (Honest raw) (str_eq iface "wwan0") _ _
            (λ modem.
              block-Honest _ iface has_name
                λ ip online. inr (unready, refl, inl ((eq_iff iface "wwan0").0 modem, online)))
            λ no_modem.
              if_else-all (Honest raw) (str_eq iface "wlan0") _ _
                (λ wireless.
                  block-Honest _ iface has_name λ ip online.
                    inr (unready, refl, inr ((eq_iff iface "wlan0").0 wireless, online)))
                λ unknown never. cc

  -- An egress that PhysicalEgress calls usable has the name of an interface and an address. If the
  -- status file has a cloud uplink that is ready, with both, they are those of the uplink; if not, the
  -- interface is the active one, it is wwan0 or wlan0, and the block of the modem or of the wireless
  -- network, in this order, is online and has the address, which is not "null", under "ip", or under
  -- "ip_address" where there is none under "ip".
  pub physical_egress-IsUsable :
      (physical_egress (some raw)).ok ≡ true → IsUsable raw (physical_egress (some raw))
  unfolding physical_egress raw_egress
  physical_egress-IsUsable =
      let cu = cloud_uplink_block raw in
      if_else-all (Honest raw) (is_cloud_uplink cu) _ _
        (λ ready usable.
          let (is_ready, named) = and-both (as_bool (get cu "ready")) _ ready in
          let (has_iface, has_ip) =
            and-both (has_text (as_text (get cu "interface"))) (has_text (as_text (get cu "ip")))
              named in
          (has_iface, has_ip, inl (ready, refl, refl)))
        active_egress-Honest
