-- ===== src/Socks5/Gate/Pump.antt =====
-- What the pump and the end of a handler leave of who may come past the login (src/shared/socks5.c).
use tpe_protos_g.Base.{
  ℕ, zero, suc, ◌≤◌, ◌<◌, ◌≡◌, ◌⊎◌, inl, inr, refl, sym, subst, ◌∙◌, arith, Bool, true, false, not,
  ◌&&◌, ◌||◌, Option, none, some, ◌>>=◌, ◌==◌, ==_iff, if◌then◌else◌, Every, imp-Every, bind-Every,
  Bytes, ℤ, pos, negsuc,
}
use tpe_protos_g.Buffer.{buffer_can_read}
use tpe_protos_g.Metrics.{metrics_conn_closed}
use tpe_protos_g.Socks5.Auth.{count_metric}
use tpe_protos_g.Socks5.Engine.{
  Machine, new_machine, is_reading, is_writing, with_key, socksv5_pump, fewer, give_back,
  socksv5_done, settle,
}
use tpe_protos_g.Socks5.Frame.{Keeps, KeepsIt, Keeps-refl, Keeps-trans, unregister-KeepsFlag}
use tpe_protos_g.Socks5.Gate.{Gate, over-Gate}
use tpe_protos_g.Socks5.Gate.Handlers.{
  standing, Placed, Callback, Fires, handler-Every, first-Every,
}
use tpe_protos_g.Socks5.Log.{has_log, written, last_line, socks5_log_event, socks5_set_failure}
use tpe_protos_g.Socks5.Release.{unregister}
use tpe_protos_g.Socks5.States
use tpe_protos_g.Socks5.System.{on_session, on_world}
use tpe_protos_g.Socks5.Types.{Context}
use tpe_protos_g.Stm.{stm_handler}
use tpe_protos_g.Users.{Users, users_count}

-- a session that has not begun, or that stands in a state
abbrev pub Inside : Users → Machine × Context → Type 0
Inside u r =
    ((r.0 ≡ new_machine) × (r.1.world.users ≡ some u))
    ⊎ ((i : ℕ) × (r.0 ≡ standing i) × Gate u i r.1)

give_back-KeepsIt : (fd : ℤ) (c : Context) → KeepsIt c (give_back fd c)
unfolding give_back
give_back-KeepsIt (negsuc n) c = Keeps-refl c
give_back-KeepsIt (pos n) c =
    bind-Every (λ (r : Bool × Context). Keeps c r.1) (Keeps c) (unregister (pos n) c)
      (λ r. if r.0 then some r.1 else none) (unregister-KeepsFlag (pos n) c)
      (λ r kept. by r.0 r.1 kept)
  where
    by : (b : Bool) (d : Context) → Keeps c d → KeepsIt c (if b then some d else none)
    by true d kept = kept
    by false d kept = tt

log_event-Keeps : (c : Context) → Keeps c (socks5_log_event c)
unfolding socks5_log_event
log_event-Keeps c =
    by (not (has_log c.world) || c.session.log_emitted || not c.session.destination_set)
      (on_session (λ s. record s { log_emitted = true })
        (on_world (written (last_line c.session)) c))
      (record { users = refl; user = refl })
  where
    by : (quiet : Bool) (d : Context) → Keeps c d → Keeps c (if quiet then c else d)
    by true d kept = Keeps-refl c
    by false d kept = kept

done-KeepsIt : (c : Context) → KeepsIt c (socksv5_done c)
unfolding socksv5_done
done-KeepsIt c =
    let c' = count_metric metrics_conn_closed (
      on_world (λ w. record w { active_sessions = fewer w.active_sessions })
        (socks5_log_event c)) in
    let kept = log_event-Keeps c in
    bind-Every (Keeps c') (Keeps c) (give_back (pos c'.session.client_fd) c')
      (λ c''. give_back c'.session.origin_fd c'') (give_back-KeepsIt (pos c'.session.client_fd) c')
      (λ c'' k.
        imp-Every (Keeps c'') (Keeps c) (give_back c'.session.origin_fd c'')
          (give_back-KeepsIt c'.session.origin_fd c'')
          (λ d l. Keeps-trans (record { users = kept.users; user = kept.user }) (Keeps-trans k l)))

module _ (u : Users) (some_users : 0 < users_count u) where
  over-Inside :
      (st : ℕ) (m : Machine) (c : Context) (ended : Option Context)
      → States.done ≤ st
      → m ≡ standing st
      → c.world.users ≡ some u
      → KeepsIt c ended
      → Every (Inside u) (ended >>= λ c'. some (m, c'))
  over-Inside st m c ended late e h kept =
      bind-Every (Keeps c) (Inside u) ended (λ c'. some (m, c')) kept
        (λ c' k. inr (st, e, over-Gate u st c' late (k.users ∙ h)))

  pub settle-Inside :
      (reason : Bytes) (r : ℕ × Machine × Context) → Placed u r → Every (Inside u) (settle reason r)
  unfolding settle
  settle-Inside reason (st, m, c) (e, g) = by (st == States.error) refl
    where
      done :
          (b : Bool)
          → (st == States.done) ≡ b
          → Every (Inside u) (if b then (socksv5_done c >>= λ c'. some (m, c')) else some (m, c))
      done true d =
          let at = (==_iff st States.done).0 d in
          over-Inside st m c (socksv5_done c) (omega arith) e g.users (done-KeepsIt c)
      done false d = inr (st, e, g)

      by :
          (b : Bool)
          → (st == States.error) ≡ b
          → Every (Inside u) (
              if b
              then (socksv5_done (socks5_set_failure reason c) >>= λ c'. some (m, c'))
              else if st == States.done
              then (socksv5_done c >>= λ c'. some (m, c'))
              else some (m, c))
      by true d =
          let at = (==_iff st States.error).0 d in
          over-Inside st m (socks5_set_failure reason c)
            (socksv5_done (socks5_set_failure reason c)) (omega arith) e g.users
            (done-KeepsIt (socks5_set_failure reason c))
      by false d = done (st == States.done) refl

  pub read-Fires : Fires u some_users (λ d. d.on_read_ready)
  read-Fires i d sound c g = sound.reads c g

  pub write-Fires : Fires u some_users (λ d. d.on_write_ready)
  write-Fires i d sound c g = sound.writes c g

  pub block-Fires : Fires u some_users (λ d. d.on_block_ready)
  block-Fires i d sound c g = sound.blocks c g

  pub pump-Every :
      (rounds st : ℕ) (c : Context)
      → Gate u st c
      → Every (Placed u) (socksv5_pump rounds st (standing st) c)
  unfolding socksv5_pump
  pump-Every zero st c g = tt
  pump-Every (suc rounds) st c g =
      by (is_reading st && buffer_can_read c.session.read_buffer) (is_writing st)
        (λ st' c'. pump-Every rounds st' c')
    where
      Pumps : Type 0
      Pumps =
          (st' : ℕ) (c' : Context)
          → Gate u st' c'
          → Every (Placed u) (socksv5_pump rounds st' (standing st') c')

      goes :
          Pumps
          → (r : ℕ × Machine × Context) → Placed u r
          → Every (Placed u) (socksv5_pump rounds r.0 r.1 r.2)
      goes next r p =
          subst (λ m. Every (Placed u) (socksv5_pump rounds r.0 m r.2)) (sym p.0) (next r.0 r.2 p.1)

      wrote :
          Pumps
          → (same : Bool) (r : ℕ × Machine × Context) → Placed u r
          → Every (Placed u) (if same then some r else socksv5_pump rounds r.0 r.1 r.2)
      wrote next true r p = p
      wrote next false r p = goes next r p

      with_key-Every :
          Every
            (Placed u)
            (with_key c.session.client_fd (stm_handler (λ d. d.on_write_ready) (standing st)) c)
      with_key-Every =
          let c' : Context = record c { fd = c.session.client_fd } in
          bind-Every (Placed u) (Placed u) (stm_handler (λ d. d.on_write_ready) (standing st) c')
            (λ r. some (r.0, r.1, record r.2 { fd = c.fd }))
            (handler-Every u some_users (λ d. d.on_write_ready) write-Fires st c'
              (record { users = g.users; stage = g.stage }))
            (λ r p. (p.0, record { users = p.1.users; stage = p.1.stage }))

      by :
          (reads writes : Bool)
          → Pumps
          → Every (Placed u) (
              if reads
              then (stm_handler (λ d. d.on_read_ready) (standing st) c >>= λ r.
                  socksv5_pump rounds r.0 r.1 r.2)
              else if writes
              then (with_key c.session.client_fd
                    (stm_handler (λ d. d.on_write_ready) (standing st))
                    c
                  >>= λ r. if r.0 == st then some r else socksv5_pump rounds r.0 r.1 r.2)
              else some (st, standing st, c))
      by true writes next =
          bind-Every (Placed u) (Placed u) (stm_handler (λ d. d.on_read_ready) (standing st) c)
            (λ r. socksv5_pump rounds r.0 r.1 r.2)
            (handler-Every u some_users (λ d. d.on_read_ready) read-Fires st c g) (goes next)
      by false true next =
          bind-Every (Placed u) (Placed u)
            (with_key c.session.client_fd (stm_handler (λ d. d.on_write_ready) (standing st)) c)
            (λ r. if r.0 == st then some r else socksv5_pump rounds r.0 r.1 r.2) with_key-Every
            (λ r. wrote next (r.0 == st) r)
      by false false next = (refl, g)

  -- a handler, of the first event or another
  pub handled-Every :
      (event : Callback) (fired : Fires u some_users event) (m : Machine) (c : Context)
      → Inside u (m, c)
      → Every (Placed u) (stm_handler event m c)
  handled-Every event fired m c (inl (e, h)) =
      subst (λ m. Every (Placed u) (stm_handler event m c)) (sym e)
        (first-Every u some_users event fired c h)
  handled-Every event fired m c (inr (i, e, g)) =
      subst (λ m. Every (Placed u) (stm_handler event m c)) (sym e)
        (handler-Every u some_users event fired i c g)
