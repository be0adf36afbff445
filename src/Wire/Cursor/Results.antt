-- ===== src/Wire/Cursor/Results.antt =====
-- The shape that the Parse functions of auth/protocol.go share: the type byte, the result byte,
-- and a branch on it.
use uavlink_edge.Common.{
  Bool, arith, false, if◌then◌else◌, inl, inr, suc, true, zero, ℕ, ◌==◌, ◌∷◌, ◌≡◌, ◌≢◌, ◌⊎◌,
}
use uavlink_edge.Wire.Bytes.{AreBytes, Bytes}
use uavlink_edge.Wire.Codes.{result_success}
use uavlink_edge.Wire.Cursor.{Field, Outcome, get_u8, header, ok, too_short_for, ◌>>=◌}
use uavlink_edge.Wire.Cursor.Inversion.{after_header, after_u8}
use uavlink_edge.Wire.Cursor.Laws.{get_u8-cons, header-cons}
use uavlink_edge.Wire.Cursor.Safety.{>>=-NoPanic, NoPanic, get_u8-NoPanic, header-NoPanic}

-- `body` is the text of those functions up to the names of the two branches.
module _ {ℓ} {A : Type ℓ} (t : ℕ) (accepted rejected : ℕ → Bytes → Outcome A) where
  abbrev body : Bytes → Outcome A
  body packet = do
    c ← header t packet
    (result, c) ← get_u8 (too_short_for Field.result) c
    if result == result_success then accepted result c else rejected result c

  pub body-success : (c : Bytes) → body (t ∷ result_success ∷ c) ≡ accepted result_success c
  body-success c = rw (header-cons t _, get_u8-cons (too_short_for Field.result) result_success c)

  pub body-failure : (r : ℕ) (c : Bytes) → r ≢ result_success → body (t ∷ r ∷ c) ≡ rejected r c
  body-failure r c h =
      rw (header-cons t _, get_u8-cons (too_short_for Field.result) r c) (ground arith)

  abbrev Branches : Bytes → A → Type ℓ
  Branches packet a =
      ((c : Bytes) × (packet ≡ t ∷ result_success ∷ c)
        × AreBytes c
        × (accepted result_success c ≡ ok a))
      ⊎ ((r : ℕ) × (c : Bytes) × (r ≢ result_success)
          × (packet ≡ t ∷ r ∷ c)
          × AreBytes c
          × (rejected r c ≡ ok a))

  by_result :
      (r : ℕ) (c : Bytes) (a : A) (packet : Bytes)
      → packet ≡ t ∷ r ∷ c
      → AreBytes c
      → (if r == result_success then accepted r c else rejected r c) ≡ ok a
      → Branches packet a
  by_result zero c a packet e w h = inl (c, e, w, h)
  by_result (suc r) c a packet e w h =
      let differs : (suc r == result_success) ≡ false = ground arith in
      inr (suc r, c, (λ p. omega arith), e, w, rw differs at h)

  pub body-ok : (packet : Bytes) (a : A) → AreBytes packet → body packet ≡ ok a → Branches packet a
  body-ok packet a w h =
      after_header _ packet t _ w h
        λ c e w' h'. after_u8 _ c _ _ w' h' λ r d _ e' wd k. by_result r d a packet (cc) wd k

  pub body-NoPanic :
      (packet : Bytes)
      → ((r : ℕ) (c : Bytes) → NoPanic (accepted r c))
      → ((r : ℕ) (c : Bytes) → NoPanic (rejected r c))
      → NoPanic (body packet)
  body-NoPanic packet ha hr =
      >>=-NoPanic (header t packet) _ (header-NoPanic t packet)
        λ c. >>=-NoPanic (get_u8 _ c) _ (get_u8-NoPanic _ c) λ x. go (x.0 == result_success) x
    where
      go : (b : Bool) (x : ℕ × Bytes) → NoPanic (if b then accepted x.0 x.1 else rejected x.0 x.1)
      go true x = ha x.0 x.1
      go false x = hr x.0 x.1
