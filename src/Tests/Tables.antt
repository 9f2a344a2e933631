-- ===== src/Tests/Tables.antt =====
-- The tables and counters (src/shared/users.c, config.c and metrics.c) on small inputs.
use tpe_protos_g.Base.{
  ℕ, zero, suc, ◌≡◌, ◌+◌, ◌-◌, ◌%◌, ◌^◌, ◌≤◌, ◌⊎◌, ◌&&◌, refl, arith, some, true, false, [], ◌∷◌,
  Bytes, replicate, codes, if◌then◌else◌, pos, str_eq, strncmp_eq,
}
use tpe_protos_g.Users.{
  Users, users_create, users_add, users_del, users_check, copied, find_user, find_loop,
}
use tpe_protos_g.Users.Lookup.{IsValid}
use tpe_protos_g.Users.Invariant.{users_ops-IsValid, add-IsValid, create-IsValid}
use tpe_protos_g.Users.Laws.{check-add, check-del}
use tpe_protos_g.Config.{Config, config_set_key, config_get_key}
use tpe_protos_g.Config.Laws.{get-set_key}
use tpe_protos_g.Metrics.{metrics_snapshot}
use tpe_protos_g.Metrics.Trace.{tally, accepted, closed, sent_c2o, after, totals, snapshot_after}

abbrev ana : Bytes
ana = 97 ∷ 110 ∷ 97 ∷ []

abbrev key : Bytes
key = 107 ∷ []

-- the table with the user `ana`
abbrev one_user : Users
one_user = (users_add users_create ana key).1

one_user-IsValid : IsValid one_user
one_user-IsValid = add-IsValid users_create ana create-IsValid key (omega arith)

users_ops-IsValid_example :
    IsValid users_create
    × IsValid (users_add one_user key ana).1
    × IsValid (users_del one_user key).1
users_ops-IsValid_example = users_ops-IsValid one_user key ana one_user-IsValid (omega arith)

added : (users_add users_create ana key).0 ≡ true
unfolding users_add find_user find_loop
added = refl

check-add_example :
    users_check (users_add users_create ana key).1 ana key
    ≡ (if str_eq ana ana then strncmp_eq 256 key key else users_check users_create ana key)
check-add_example =
    check-add users_create ana key ana key create-IsValid (omega arith) (omega arith) added

check-del_example :
    (users_check (users_del one_user ana).1 ana key
      ≡ (if str_eq ana ana then false else users_check one_user ana key))
    × ((users_del one_user ana).1.count + (if (users_del one_user ana).0 then 1 else 0)
        ≡ one_user.count)
check-del_example = check-del one_user ana ana key one_user-IsValid

-- the users of the one-byte names below `n`
abbrev users_below : ℕ → Users
users_below zero = users_create
users_below (suc n) = (users_add (users_below n) (n ∷ []) key).1

users_below-IsValid : (n : ℕ) → IsValid (users_below n)
users_below-IsValid zero = create-IsValid
users_below-IsValid (suc n) =
    add-IsValid (users_below n) (n ∷ []) (users_below-IsValid n) key (omega arith)

abbrev full_table : Users
full_table = users_below 10

full_refuses : (users_add full_table ana key).0 ≡ false
unfolding users_add find_user find_loop str_eq copied
full_refuses = refl

-- a name of 256 bytes, and the table that has its first 255
abbrev long_name : Bytes
long_name = replicate 256 120

abbrev with_long : Users
with_long = (users_add users_create (replicate 255 120) key).1

abbrev four : Config
four = record {
  negotiation_timeout = pos 1;
  connect_timeout = pos 2;
  idle_timeout = pos 3;
  max_connections = pos 4;
}

get-set_key_example :
    let r = config_set_key four (some (codes "idle-timeout")) (pos 9) in
    (config_get_key (some r.1) (some (codes "connect-timeout")) (some (pos 0)) ≡ (
      if r.0 && str_eq (codes "idle-timeout") (codes "connect-timeout")
      then (true, some (pos 9))
      else config_get_key (some four) (some (codes "connect-timeout")) (some (pos 0))))
    × ((r.0 ≡ true) ⊎ (r.1 ≡ four))
get-set_key_example =
    get-set_key four (codes "idle-timeout") (codes "connect-timeout") (pos 9) (pos 0)

closed_below :
    (totals (sent_c2o 5 ∷ closed ∷ accepted ∷ accepted ∷ [])).ended
    ≤ (totals (sent_c2o 5 ∷ closed ∷ accepted ∷ accepted ∷ [])).opened
unfolding totals tally
closed_below = omega arith

snapshot_after_example :
    let s = metrics_snapshot (after (sent_c2o 5 ∷ closed ∷ accepted ∷ accepted ∷ [])) in
    let t = totals (sent_c2o 5 ∷ closed ∷ accepted ∷ accepted ∷ []) in
    (s.conn_active ≡ (t.opened - t.ended) % 2 ^ 64)
    × (s.conn_accepted ≡ t.opened % 2 ^ 64)
    × (s.conn_rejected ≡ t.refused % 2 ^ 64)
    × (s.bytes_c2o ≡ t.c2o % 2 ^ 64)
    × (s.bytes_o2c ≡ t.o2c % 2 ^ 64)
snapshot_after_example =
    snapshot_after (sent_c2o 5 ∷ closed ∷ accepted ∷ accepted ∷ []) closed_below
