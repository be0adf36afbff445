-- ===== src/Wire/VpnAcks.antt =====
-- ParseVPNProvisionAck of auth/protocol.go against the documented format.
use uavlink_edge.Common.{
  [], arith, inl, inr, length, refl, suc, sym, zero, ℕ, ◌++◌, ◌↔◌, ◌∙◌, ◌∷◌, ◌≡◌, ◌≢◌, ◌⊎◌,
}
use mathlib.Core.Path.{subst}
use uavlink_edge.Wire.Bytes.{AreBytes, Bytes, IsU16}
use uavlink_edge.Wire.Codes.{msg_vpn_provision_ack, result_success}
use uavlink_edge.Wire.Cursor.{ok, put_string, try_u8}
use uavlink_edge.Wire.Cursor.Inversion.{after_string, ok-injective}
use uavlink_edge.Wire.Cursor.Laws.{get_string-put_string}
use uavlink_edge.Wire.Formats.{error_code_of, vpn_format}
use uavlink_edge.Wire.KeyReplies.{
  VpnProvisionAck, parse_vpn_provision_ack, vpn_ack_accepted, vpn_ack_rejected,
}

abbrev pub vpn_granted : Bytes → Bytes → Bytes → VpnProvisionAck
vpn_granted ip key endpoint = record {
  result = result_success;
  error_code = 0;
  assigned_ip = ip;
  server_public_key = key;
  server_endpoint = endpoint;
}

abbrev pub vpn_refused : ℕ → Bytes → VpnProvisionAck
vpn_refused result tail = record {
  result = result;
  error_code = error_code_of tail;
  assigned_ip = [];
  server_public_key = [];
  server_endpoint = [];
}

abbrev pub VpnGrants : Bytes → VpnProvisionAck → Type 0
VpnGrants packet ack =
    (ip : Bytes) × (key : Bytes) × (endpoint : Bytes) × (rest : Bytes) × (ack
      ≡ vpn_granted ip key endpoint)
    × (packet ≡ vpn_format ip key endpoint rest)
    × IsU16 (length ip)
    × IsU16 (length key)
    × IsU16 (length endpoint)

abbrev pub VpnRefuses : Bytes → VpnProvisionAck → Type 0
VpnRefuses packet ack =
    (result : ℕ) × (tail : Bytes) × (result ≢ result_success)
    × (packet ≡ msg_vpn_provision_ack ∷ result ∷ tail)
    × (ack ≡ vpn_refused result tail)

vpn_accepted_sound :
    (c : Bytes) (ack : VpnProvisionAck)
    → AreBytes c
    → vpn_ack_accepted result_success c ≡ ok ack
    → VpnGrants (msg_vpn_provision_ack ∷ result_success ∷ c) ack
unfolding vpn_ack_accepted vpn_format
vpn_accepted_sound c ack w h = after_string _ c _ _ _ w h λ i c1 fi e1 w1 h1.
    after_string _ c1 _ _ _ w1 h1 λ k c2 fk e2 w2 h2.
      after_string _ c2 _ _ _ w2 h2
        λ s c3 fs e3 w3 h3. (i, k, s, c3, sym (ok-injective h3), cc, fi, fk, fs)

vpn_accepted_complete :
    (ip key endpoint rest : Bytes)
    → IsU16 (length ip)
    → IsU16 (length key)
    → IsU16 (length endpoint)
    → vpn_ack_accepted result_success
        (put_string ip ++ (put_string key ++ (put_string endpoint ++ rest)))
      ≡ ok (vpn_granted ip key endpoint)
unfolding vpn_ack_accepted
vpn_accepted_complete ip key endpoint rest hi hk he = rw (
  get_string-put_string _ _ ip _ hi,
  get_string-put_string _ _ key _ hk,
  get_string-put_string _ _ endpoint _ he,
)

vpn_rejected_refused :
    (result : ℕ) (c : Bytes) → vpn_ack_rejected result c ≡ ok (vpn_refused result c)
unfolding vpn_ack_rejected try_u8
vpn_rejected_refused result [] = refl
vpn_rejected_refused result (x ∷ c) = ground arith

-- With two bytes at hand the parser looks at the type and branches on the result.
vpn_success :
    (c : Bytes)
    → parse_vpn_provision_ack (msg_vpn_provision_ack ∷ result_success ∷ c)
      ≡ vpn_ack_accepted result_success c
unfolding parse_vpn_provision_ack
vpn_success c = ground arith

vpn_failure :
    (r : ℕ) (c : Bytes)
    → r ≢ result_success
    → parse_vpn_provision_ack (msg_vpn_provision_ack ∷ r ∷ c) ≡ vpn_ack_rejected r c
unfolding parse_vpn_provision_ack
vpn_failure r c n = ground arith

vpn_type :
    (packet : Bytes) (ack : VpnProvisionAck)
    → parse_vpn_provision_ack packet ≡ ok ack
    → (r : ℕ) × (c : Bytes) × (packet ≡ msg_vpn_provision_ack ∷ r ∷ c)
unfolding parse_vpn_provision_ack
vpn_type [] ack h = ground arith
vpn_type (b ∷ []) ack h = ground arith
vpn_type (b ∷ r ∷ c) ack h = (r, c, ground arith)

vpn_sound :
    (packet : Bytes) (ack : VpnProvisionAck)
    → AreBytes packet
    → parse_vpn_provision_ack packet ≡ ok ack
    → VpnGrants packet ack ⊎ VpnRefuses packet ack
vpn_sound packet ack w h =
    let (r, c, e) = vpn_type packet ack h in
    go r c e (subst AreBytes e w) (subst (λ p. parse_vpn_provision_ack p ≡ ok ack) e h)
  where
    go :
        (r : ℕ) (c : Bytes)
        → packet ≡ msg_vpn_provision_ack ∷ r ∷ c
        → AreBytes (msg_vpn_provision_ack ∷ r ∷ c)
        → parse_vpn_provision_ack (msg_vpn_provision_ack ∷ r ∷ c) ≡ ok ack
        → VpnGrants packet ack ⊎ VpnRefuses packet ack
    go zero c e wc k = inl (rw e (vpn_accepted_sound c ack wc.1.1 (sym (vpn_success c) ∙ k)))
    go (suc r) c e wc k =
        let n : suc r ≢ result_success = λ p. omega arith in
        inr (
          suc r,
          c,
          n,
          e,
          sym (ok-injective (sym (vpn_failure (suc r) c n ∙ vpn_rejected_refused _ c) ∙ k)),
        )

vpn_complete :
    (packet : Bytes) (ack : VpnProvisionAck)
    → VpnGrants packet ack ⊎ VpnRefuses packet ack
    → parse_vpn_provision_ack packet ≡ ok ack
unfolding vpn_format
vpn_complete packet ack (inl (i, k, s, rest, ea, ep, fi, fk, fs)) =
    rw (ea, ep) (vpn_success _ ∙ vpn_accepted_complete i k s rest fi fk fs)
vpn_complete packet ack (inr (r, tail, n, ep, ea)) =
    rw (ea, ep) (vpn_failure r tail n ∙ vpn_rejected_refused r tail)

-- ParseVPNProvisionAck returns an ack exactly for a grant in the documented format, whose address,
-- key and endpoint the ack carries, and for a packet with any other result byte, whose error code
-- the ack carries if it is there. Bytes behind either are ignored.
pub parse_vpn_provision_ack_iff :
    (packet : Bytes) (ack : VpnProvisionAck)
    → AreBytes packet
    → (parse_vpn_provision_ack packet ≡ ok ack) ↔ (VpnGrants packet ack ⊎ VpnRefuses packet ack)
parse_vpn_provision_ack_iff packet ack w = (vpn_sound packet ack w, vpn_complete packet ack)
