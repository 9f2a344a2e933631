-- ===== src/Metrics.antt =====
-- src/shared/metrics.c and metrics.h: the counters, each a `uint64_t` that wraps.
pub mod Trace
use tpe_protos_g.Base.{ℕ, ◌+◌, ◌-◌, ◌%◌, ◌^◌, ltb, if◌then◌else◌}

pub record Metrics : Type 0 where
  pub conn_accepted : ℕ
  pub conn_closed : ℕ
  pub conn_rejected : ℕ
  pub auth_fail : ℕ
  pub origin_ok : ℕ
  pub origin_fail : ℕ
  pub bytes_c2o : ℕ
  pub bytes_o2c : ℕ
  pub admin_sessions : ℕ

pub record MetricsSnapshot : Type 0 where
  pub conn_accepted : ℕ
  pub conn_active : ℕ
  pub conn_rejected : ℕ
  pub auth_fail : ℕ
  pub origin_ok : ℕ
  pub origin_fail : ℕ
  pub bytes_c2o : ℕ
  pub bytes_o2c : ℕ
  pub admin_sessions : ℕ

abbrev pub add64 : ℕ → ℕ → ℕ
add64 a b = (a + b) % 2 ^ 64

abbrev pub sub64 : ℕ → ℕ → ℕ
sub64 a b = (a + 2 ^ 64 - b) % 2 ^ 64

-- `calloc`: every counter is zero.
abbrev pub metrics_create : Metrics
metrics_create = record {
  conn_accepted = 0;
  conn_closed = 0;
  conn_rejected = 0;
  auth_fail = 0;
  origin_ok = 0;
  origin_fail = 0;
  bytes_c2o = 0;
  bytes_o2c = 0;
  admin_sessions = 0;
}

abbrev pub metrics_conn_accepted : Metrics → Metrics
metrics_conn_accepted m = record m { conn_accepted = add64 m.conn_accepted 1 }

abbrev pub metrics_conn_closed : Metrics → Metrics
metrics_conn_closed m = record m { conn_closed = add64 m.conn_closed 1 }

abbrev pub metrics_conn_rejected : Metrics → Metrics
metrics_conn_rejected m = record m { conn_rejected = add64 m.conn_rejected 1 }

abbrev pub metrics_auth_fail : Metrics → Metrics
metrics_auth_fail m = record m { auth_fail = add64 m.auth_fail 1 }

abbrev pub metrics_origin_ok : Metrics → Metrics
metrics_origin_ok m = record m { origin_ok = add64 m.origin_ok 1 }

abbrev pub metrics_origin_fail : Metrics → Metrics
metrics_origin_fail m = record m { origin_fail = add64 m.origin_fail 1 }

abbrev pub metrics_add_bytes_c2o : Metrics → ℕ → Metrics
metrics_add_bytes_c2o m n = record m { bytes_c2o = add64 m.bytes_c2o n }

abbrev pub metrics_add_bytes_o2c : Metrics → ℕ → Metrics
metrics_add_bytes_o2c m n = record m { bytes_o2c = add64 m.bytes_o2c n }

abbrev pub metrics_admin_session_open : Metrics → Metrics
metrics_admin_session_open m = record m { admin_sessions = add64 m.admin_sessions 1 }

abbrev pub metrics_admin_session_close : Metrics → Metrics
metrics_admin_session_close m =
    if ltb 0 m.admin_sessions then record m { admin_sessions = sub64 m.admin_sessions 1 } else m

unfoldable pub metrics_snapshot : Metrics → MetricsSnapshot
metrics_snapshot m = record {
  conn_accepted = m.conn_accepted;
  conn_active = sub64 m.conn_accepted m.conn_closed;
  conn_rejected = m.conn_rejected;
  auth_fail = m.auth_fail;
  origin_ok = m.origin_ok;
  origin_fail = m.origin_fail;
  bytes_c2o = m.bytes_c2o;
  bytes_o2c = m.bytes_o2c;
  admin_sessions = m.admin_sessions;
}
