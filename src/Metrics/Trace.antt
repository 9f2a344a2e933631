-- ===== src/Metrics/Trace.antt =====
-- The counters of src/shared/metrics.c after any sequence of events.
use tpe_protos_g.Base.{ℕ, ◌+◌, ◌-◌, ◌%◌, ◌^◌, ◌≤◌, ◌≡◌, arith, ◌<◌, length, List, [], ◌∷◌}
use tpe_protos_g.Metrics.{
  Metrics, metrics_create, metrics_snapshot, metrics_conn_accepted, metrics_conn_closed,
  metrics_conn_rejected, metrics_auth_fail, metrics_origin_ok, metrics_origin_fail,
  metrics_add_bytes_c2o, metrics_add_bytes_o2c, metrics_admin_session_open,
  metrics_admin_session_close,
}

-- one constructor for each update
pub data Event : Type 0 where
  accepted closed rejected auth_failed origin_up origin_down admin_opened admin_closed : Event
  sent_c2o sent_o2c : ℕ → Event

unfoldable pub update : Event → Metrics → Metrics
update accepted m = metrics_conn_accepted m
update closed m = metrics_conn_closed m
update rejected m = metrics_conn_rejected m
update auth_failed m = metrics_auth_fail m
update origin_up m = metrics_origin_ok m
update origin_down m = metrics_origin_fail m
update admin_opened m = metrics_admin_session_open m
update admin_closed m = metrics_admin_session_close m
update (sent_c2o n) m = metrics_add_bytes_c2o m n
update (sent_o2c n) m = metrics_add_bytes_o2c m n

-- the latest event first
unfoldable pub after : List Event → Metrics
after [] = metrics_create
after (e ∷ es) = update e (after es)

-- What the events add up to, with no bound.
pub record Totals : Type 0 where
  pub opened : ℕ
  pub ended : ℕ
  pub refused : ℕ
  pub c2o : ℕ
  pub o2c : ℕ
  pub admins : ℕ

unfoldable pub tally : Event → Totals → Totals
tally accepted t = record t { opened = t.opened + 1 }
tally closed t = record t { ended = t.ended + 1 }
tally rejected t = record t { refused = t.refused + 1 }
tally admin_opened t = record t { admins = t.admins + 1 }
tally admin_closed t = record t { admins = t.admins - 1 }
tally (sent_c2o n) t = record t { c2o = t.c2o + n }
tally (sent_o2c n) t = record t { o2c = t.o2c + n }
tally _ t = t

unfoldable pub totals : List Event → Totals
unfolding tally
totals [] = record { opened = 0; ended = 0; refused = 0; c2o = 0; o2c = 0; admins = 0 }
totals (e ∷ es) = tally e (totals es)

-- Each counter is its total, as far as 64 bits go. Admin sessions never pass below zero.
record Counts (m : Metrics) (t : Totals) : Type 0 where
  opened : m.conn_accepted ≡ t.opened % 2 ^ 64
  ended : m.conn_closed ≡ t.ended % 2 ^ 64
  refused : m.conn_rejected ≡ t.refused % 2 ^ 64
  c2o : m.bytes_c2o ≡ t.c2o % 2 ^ 64
  o2c : m.bytes_o2c ≡ t.o2c % 2 ^ 64

update-Counts :
    (e : Event) (m : Metrics) (t : Totals) → Counts m t → Counts (update e m) (tally e t)
unfolding update tally
update-Counts accepted m t c = ground arith
update-Counts _ m t c = ground arith

after-Counts : (es : List Event) → Counts (after es) (totals es)
unfolding after totals
after-Counts [] = omega arith
after-Counts (e ∷ es) = update-Counts e (after es) (totals es) (after-Counts es)

-- After any events, however often the counters have wrapped: the snapshot shows as active the
-- sessions that were accepted and not closed, and the counters of accepted, rejected and copied are
-- their totals modulo 2^64. It is assumed that no more sessions were closed than accepted.
pub snapshot_after :
    (es : List Event)
    → (totals es).ended ≤ (totals es).opened
    → let s = metrics_snapshot (after es) in
      let t = totals es in
      (s.conn_active ≡ (t.opened - t.ended) % 2 ^ 64)
      × (s.conn_accepted ≡ t.opened % 2 ^ 64)
      × (s.conn_rejected ≡ t.refused % 2 ^ 64)
      × (s.bytes_c2o ≡ t.c2o % 2 ^ 64)
      × (s.bytes_o2c ≡ t.o2c % 2 ^ 64)
unfolding metrics_snapshot
snapshot_after es h = omega (arith, after-Counts es)

update-admins :
    (e : Event) (m : Metrics) (t : Totals) (n : ℕ)
    → m.admin_sessions ≡ t.admins
    → t.admins ≤ n
    → n + 1 < 2 ^ 64
    → ((update e m).admin_sessions ≡ (tally e t).admins) × ((tally e t).admins ≤ n + 1)
unfolding update tally
update-admins accepted m t n e l h = ground arith
update-admins _ m t n e l h = ground arith

admins_level :
    (es : List Event)
    → length es < 2 ^ 64
    → ((after es).admin_sessions ≡ (totals es).admins) × ((totals es).admins ≤ length es)
unfolding after totals
admins_level [] h = omega arith
admins_level (e ∷ es) h =
    let (same, below) = admins_level es (omega arith) in
    omega (arith, update-admins e (after es) (totals es) (length es) same below (omega arith))

-- Over fewer than 2^64 events the gauge of admin sessions is the number that stands open, where a
-- close that has no open before it counts for nothing. It never wraps below zero.
pub admin_sessions_after :
    (es : List Event)
    → length es < 2 ^ 64
    → (metrics_snapshot (after es)).admin_sessions ≡ (totals es).admins
unfolding metrics_snapshot
admin_sessions_after es h = (admins_level es h).0
