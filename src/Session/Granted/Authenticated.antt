-- ===== src/Session/Granted/Authenticated.antt =====
-- What authenticate of auth/client.go has done when it succeeds.
use uavlink_edge.Common.{
  Bool, Bool-cases, List, Option, ap, arith, false, if◌then◌else◌, inl, inr, ltb, none, refl, some,
  sym, true, ℕ, ◌*◌, ◌++◌, ◌-◌, ◌==◌, ◌∙◌, ◌≡◌, ◌≤◌,
}
use uavlink_edge.Link.Step.{second}
use uavlink_edge.Session.Calls.{
  Call, and_then, dial, dialled, end, get_client, given, if_connected, ip_text, nothing_of, pure,
  raise, returns, update, ◌>>=◌,
}
use uavlink_edge.Session.Consistent.Parts.{close_conn-same}
use uavlink_edge.Session.Granted.{bind-inversion, end-returns, on_failure-inversion}
use uavlink_edge.Session.Granted.Exchange.{
  Exchanged, Handshake, IsAnswered, begin-stored, exchange-Exchanged, handshake_packets, stored,
}
use uavlink_edge.Session.Handshake.{
  adopt_conn, auth_connection, auth_key, auth_response, authenticate, conn_or_new, connect,
  ensure_secret, load_secret, reset_conn, set_secret,
}
use uavlink_edge.Session.Status.{is_authenticated}
use uavlink_edge.Session.World.{Client, Failure, Outside, World, secret_missing}
use uavlink_edge.Wire.Bytes.{Bytes}
use uavlink_edge.Wire.Replies.{AuthAck}

-- The connection `n` is the client's, and nothing was written.
record IsReady (n : ℕ) (w u : World) : Type 0 where
  has_conn : u.client.conn ≡ some n
  unwritten : u.written ≡ w.written

module _ (env : Outside) where
  connect-IsReady : (n : ℕ) (w u : World) → connect env w ≡ returns n u → IsReady n w u
  unfolding connect dial update pure ◌>>=◌ adopt_conn
  connect-IsReady n w u = go (env.dial_at w.tick)
    where
      go :
          (t : Bool)
          → and_then (λ k. update (adopt_conn k (ip_text env k)) >>= λ x. pure k) (dialled t w)
            ≡ returns n u
          → IsReady n w u
      go true h =
          let (same, world) = end-returns _ n _ u h in
          record {
            has_conn = sym (ap (λ v. v.client.conn) world) ∙ ap some same;
            unwritten = sym (ap (λ v. v.written) world);
          }
      go false h = cc

  conn_or_new-IsReady : (n : ℕ) (w u : World) → conn_or_new env w ≡ returns n u → IsReady n w u
  unfolding conn_or_new get_client pure ◌>>=◌
  conn_or_new-IsReady n w u = go w.client.conn refl
    where
      go :
          (o : Option ℕ)
          → w.client.conn ≡ o
          → if_connected o (connect env) pure w ≡ returns n u
          → IsReady n w u
      go none q h = connect-IsReady n w u h
      go (some k) q h =
          let (same, world) = end-returns k n w u h in
          record {
            has_conn = sym (ap (λ v. v.client.conn) world) ∙ q ∙ ap some same;
            unwritten = sym (ap (λ v. v.written) world);
          }

  auth_connection-IsReady :
      (n : ℕ) (w u : World) → auth_connection env w ≡ returns n u → IsReady n w u
  unfolding auth_connection update pure ◌>>=◌ reset_conn
  auth_connection-IsReady n w u = go env.auth_force_fresh_conn
    where
      go :
          (t : Bool)
          → ((if t then update reset_conn else pure tt) >>= λ x. conn_or_new env) w ≡ returns n u
          → IsReady n w u
      go true h =
          let ready = conn_or_new-IsReady n (reset_conn w) u h in
          record {
            has_conn = ready.has_conn;
            unwritten = ready.unwritten ∙ ap (λ v. v.written) (close_conn-same w);
          }
      go false h = conn_or_new-IsReady n w u h

  loaded-unwritten :
      (o : Option (Bytes × Bytes)) (w u : World)
      → and_then (λ x. update (set_secret x.1)) (given o secret_missing w) ≡ returns tt u
      → u.written ≡ w.written
  unfolding update set_secret
  loaded-unwritten none w u h = cc
  loaded-unwritten (some x) w u h = sym (ap (λ x. (end x).written) h)

  ensure_secret-unwritten :
      (w u : World) → ensure_secret env w ≡ returns tt u → u.written ≡ w.written
  unfolding ensure_secret load_secret get_client pure ◌>>=◌
  ensure_secret-unwritten w u = go (nothing_of w.client.secret)
    where
      go :
          (t : Bool)
          → (if t then (load_secret env >>= λ x. update (set_secret x.1)) else pure tt) w
            ≡ returns tt u
          → u.written ≡ w.written
      go true h = loaded-unwritten (env.load_secret_at w.tick) w u h
      go false h = sym (ap (λ x. (end x).written) h)

-- The server challenged the client on its connection, got the response that is keyed with the secret
-- of the client, and granted the session that the client has.
pub record IsGranted (env : Outside) (w v : World) : Type 0 where
  pub handshake : Handshake
  pub answered : IsAnswered env handshake
  pub conn : ℕ
  pub has_conn : v.client.conn ≡ some conn
  pub writes : v.written ≡ handshake_packets env handshake v.client conn ++ w.written
  pub has_token : nothing_of handshake.ack.session_token ≡ false
  pub stored_at : ℕ
  pub session : v.client ≡ stored handshake.ack (env.now_at stored_at) v.client

refusal-inversion :
    {A : Type 0} (t : Bool) (e : Failure) (m : Call A) (w v : World) (a : A)
    → (if t then raise e else m) w ≡ returns a v
    → (t ≡ false) × (m w ≡ returns a v)
unfolding raise
refusal-inversion true e m w v a h = cc
refusal-inversion false e m w v a h = (refl, h)

granted :
    (env : Outside) (n : ℕ) (w u x v : World) (ack : AuthAck)
    → IsReady n w u
    → Exchanged env n u x ack
    → nothing_of ack.session_token ≡ false
    → (t : ℕ) → v.client ≡ stored ack (env.now_at t) x.client
    → v.written ≡ x.written
    → IsGranted env w v
unfolding auth_response auth_key
granted env n w u x v ack ready exchanged token t client written =
    let same : v.client ≡ stored ack (env.now_at t) u.client =
      client ∙ ap (stored ack (env.now_at t)) exchanged.same_client in
    let packets : Client → List (ℕ × Bytes) = λ c. handshake_packets env exchanged.handshake c n in
    record {
      handshake = exchanged.handshake;
      answered = exchanged.answered;
      conn = n;
      has_conn = ap (λ c. c.conn) same ∙ ready.has_conn;
      writes =
          written
          ∙ exchanged.writes
          ∙ ap (λ c. packets c ++ u.written) (sym same)
          ∙ ap (λ l. packets v.client ++ l) ready.unwritten;
      has_token = rw exchanged.has_ack token;
      stored_at = t;
      session = rw exchanged.has_ack (same ∙ sym (ap (stored ack (env.now_at t)) same));
    }

pub authenticate-IsGranted :
    (env : Outside) (w v : World) → authenticate env w ≡ returns tt v → IsGranted env w v
unfolding authenticate
authenticate-IsGranted env w v h =
    let secret = bind-inversion _ _ _ _ _ h in
    let ready = bind-inversion _ _ _ _ _ secret.rest in
    let exchange = bind-inversion _ _ _ _ _ ready.rest in
    let ack = exchange.value in
    let packets =
      exchange-Exchanged env ready.value _ _ _ (on_failure-inversion _ _ _ _ _ exchange.first) in
    let (token, begun) = refusal-inversion _ _ _ _ _ _ exchange.rest in
    let (client, written) = begin-stored env ack _ _ begun in
    let has = auth_connection-IsReady env _ _ _ ready.first in
    let from_start : IsReady ready.value w ready.world = record {
      has_conn = has.has_conn;
      unwritten = has.unwritten ∙ ensure_secret-unwritten env _ _ secret.first;
    } in
    granted env ready.value w ready.world exchange.world v ack from_start packets token _ client
      written

-- The time after which IsAuthenticated holds a session for stale.
abbrev pub stale_after : ℕ → ℕ
stale_after interval = if interval * 2 == 0 then 60 * second else interval * 2

-- After authenticate succeeds, IsAuthenticated says yes at any time that is before the expiry of the
-- session and not more than two refresh intervals after the last refresh (60 seconds where the
-- interval is 0).
pub authenticate-is_authenticated :
    (env : Outside) (w v : World) (now : ℕ)
    → authenticate env w ≡ returns tt v
    → ltb now v.client.expires_at ≡ true
    → now - v.client.last_refresh_ok ≤ stale_after v.client.refresh_interval
    → is_authenticated v.client now ≡ true
unfolding is_authenticated
authenticate-is_authenticated env w v now h early fresh =
    let granted_by = authenticate-IsGranted env w v h in
    let reachable : v.client.server_reachable ≡ true =
      ap (λ c. c.server_reachable) granted_by.session in
    let token : nothing_of v.client.session_token ≡ false =
      ap (λ c. nothing_of c.session_token) granted_by.session ∙ granted_by.has_token in
    let lasts : ltb (stale_after v.client.refresh_interval) (now - v.client.last_refresh_ok)
        ≡ false =
      ground arith in
    rw (reachable, token, early, lasts)
      (elim (Bool-cases (v.client.last_refresh_ok == 0)) [
        | inl unset ↦ rw unset refl
        | inr set ↦ rw set refl
      ])
