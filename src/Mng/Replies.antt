-- ===== src/Mng/Replies.antt =====
-- Every line of the management protocol (src/server/mng.c) is answered.
use tpe_protos_g.Base.{
  ℕ, zero, suc, ◌+◌, ◌≡◌, refl, arith, inl, inr, Bool, true, false, Option, none, some, [], ◌∷◌,
  ◌++◌, leb, ◌==◌, if◌then◌else◌, Bytes, codes, length, Bool-cases, Option-cases, str_eq, c_string,
  subst, pos, ◌%◌, ◌^◌,
}
use tpe_protos_g.Config.{Config, config_set_key}
use tpe_protos_g.Mng.Commands.{
  World, Rights, handle_line, handle_auth, handle_stats, handle_users, handle_user, handle_config,
  handle_config_get, command, require_auth, wrong_secret, run_command, auth_with, quit_with,
  list_names, users_line, user_set, user_delete, config_set, config_get, mng_write_size, name_at,
}
use tpe_protos_g.Mng.Text.{next_token, trim_right, parse_nonnegative}
use tpe_protos_g.Users.{Users, users_add, users_del}

abbrev pub Nonempty : Bytes → Type 0
Nonempty [] = ⊥
Nonempty (c ∷ s) = Unit {0}

append-Nonempty : (xs ys : Bytes) → Nonempty xs → Nonempty (xs ++ ys)
append-Nonempty [] ys h = absurd h
append-Nonempty (x ∷ xs) ys h = tt

either : (b : Bool) (xs ys : Bytes) → Nonempty xs → Nonempty ys → Nonempty (if b then xs else ys)
either true xs ys h h' = h
either false xs ys h h' = h'

by_option :
    {X : Type 0} (o : Option X) (r : World × Bytes) (f : X → World × Bytes)
    → Nonempty r.1
    → ((x : X) → Nonempty (f x).1)
    → Nonempty (elim o as (λ y. World × Bytes) [ none ↦ r | some x ↦ f x ]).1
by_option none r f h all = h
by_option (some x) r f h all = all x

wrong-Nonempty : (a : Rights) → Nonempty (wrong_secret a).1
unfolding wrong_secret
wrong-Nonempty a = elim (Bool-cases (leb 3 ((a.auth_failures + 1) % 2 ^ 32))) [
  | inl third ↦ rw third tt
  | inr fewer ↦ rw fewer tt
]

auth_with-Nonempty :
    (admin : Option Bytes) (a : Rights) (secret extra : Option Bytes)
    → Nonempty (auth_with admin a secret extra).1
auth_with-Nonempty admin a none extra = tt
auth_with-Nonempty admin a (some secret) (some extra) = tt
auth_with-Nonempty none a (some secret) none = tt
auth_with-Nonempty (some []) a (some secret) none = tt
auth_with-Nonempty (some (c ∷ s)) a (some secret) none = elim (Bool-cases (str_eq secret (c ∷ s))) [
  | inl right ↦ rw right tt
  | inr wrong ↦ rw wrong (wrong-Nonempty a)
]

quit_with-Nonempty : (a : Rights) (extra : Option Bytes) → Nonempty (quit_with a extra).1
quit_with-Nonempty a none = tt
quit_with-Nonempty a (some extra) = tt

stats-Nonempty : (w : World) → Nonempty (handle_stats w)
unfolding handle_stats
stats-Nonempty w = elim (Option-cases w.metrics) [
  | inl no_metrics ↦ rw no_metrics tt
  | inr (m, e) ↦ rw e tt
]

line-Nonempty :
    (r : Option Bytes) → ((out : Bytes) → r ≡ some out → Nonempty out) → Nonempty (users_line r)
line-Nonempty none h = tt
line-Nonempty (some out) h =
    either (leb mng_write_size (length out + 1)) _ _ tt (append-Nonempty out (10 ∷ []) (h out refl))

list_names-Nonempty :
    (u : Users) (rounds i : ℕ) (out r : Bytes)
    → Nonempty out
    → list_names u rounds i out ≡ some r
    → Nonempty r
unfolding list_names
list_names-Nonempty u zero i out r h e = subst (λ t. Nonempty t) (ground (arith, e)) h
list_names-Nonempty u (suc rounds) i out r h e =
    let out' = out ++ (if i == 0 then [] else codes ",") ++ name_at u i in
    elim (Bool-cases (leb mng_write_size (length out'))) [
      | inl large ↦ absurd (ground (arith, large, e))
      | inr fits ↦
          list_names-Nonempty u rounds (i + 1) out' r
            (append-Nonempty (out ++ (if i == 0 then [] else codes ",")) (name_at u i)
              (append-Nonempty out (if i == 0 then [] else codes ",") h))
            (rw fits at e)
    ]

users-Nonempty : (w : World) → Nonempty (handle_users w)
unfolding handle_users
users-Nonempty w = elim (Option-cases w.users) [
  | inl no_users ↦ rw no_users tt
  | inr (u, e) ↦ rw e (
      either (u.count == 0) _ _ tt (
        line-Nonempty (list_names u u.count 0 (codes "+OK users="))
          (λ out t. list_names-Nonempty u u.count 0 (codes "+OK users=") out tt t)))
]

user_set-Nonempty :
    (w : World) (u : Users) (name pass extra : Option Bytes)
    → Nonempty (user_set w u name pass extra).1
user_set-Nonempty w u none pass extra = tt
user_set-Nonempty w u (some name) none extra = tt
user_set-Nonempty w u (some name) (some pass) none = either (users_add u name pass).0 _ _ tt tt
user_set-Nonempty w u (some name) (some pass) (some extra) = tt

user_delete-Nonempty :
    (w : World) (u : Users) (name extra : Option Bytes) → Nonempty (user_delete w u name extra).1
user_delete-Nonempty w u none extra = tt
user_delete-Nonempty w u (some name) none = either (users_del u name).0 _ _ tt tt
user_delete-Nonempty w u (some name) (some extra) = tt

config_set-Nonempty :
    (w : World) (c : Config) (name raw extra : Option Bytes)
    → Nonempty (config_set w c name raw extra).1
config_set-Nonempty w c none raw extra = tt
config_set-Nonempty w c (some name) none extra = tt
config_set-Nonempty w c (some name) (some raw) (some extra) = tt
config_set-Nonempty w c (some name) (some raw) none =
    by_option (parse_nonnegative (some raw)) _ _ tt
      (λ n. either (config_set_key c (some name) (pos n)).0 _ _ tt tt)

config_get-Nonempty : (w : World) (extra : Option Bytes) → Nonempty (config_get w extra).1
unfolding handle_config_get
config_get-Nonempty w (some extra) = tt
config_get-Nonempty w none = elim (Option-cases w.config) [
  | inl no_config ↦ rw no_config tt
  | inr (c, e) ↦ rw e tt
]

-- a branch of a command, and what it answers
either_way :
    (b : Bool) (r r' : World × Bytes)
    → Nonempty r.1
    → Nonempty r'.1
    → Nonempty (if b then r else r').1
either_way true r r' h h' = h
either_way false r r' h h' = h'

user-Nonempty : (w : World) (cursor : Bytes) → Nonempty (handle_user w cursor).1
unfolding handle_user
user-Nonempty w cursor = by_option w.users _ _ tt (λ u.
    by_option (next_token cursor).0 _ _ tt (λ action.
      either_way (str_eq action (codes "SET")) _ _ (user_set-Nonempty w u _ _ _)
        (either_way (str_eq action (codes "DELETE")) _ _ (user_delete-Nonempty w u _ _) tt)))

config-Nonempty : (w : World) (cursor : Bytes) → Nonempty (handle_config w cursor).1
unfolding handle_config
config-Nonempty w cursor = by_option w.config _ _ tt (λ c.
    by_option (next_token cursor).0 _ _ tt (λ action.
      either_way (str_eq action (codes "GET")) _ _ (config_get-Nonempty w _)
        (either_way (str_eq action (codes "SET")) _ _ (config_set-Nonempty w c _ _ _) tt)))

run-Nonempty : (w : World) (cmd cursor : Bytes) → Nonempty (run_command w cmd cursor).1
unfolding run_command
run-Nonempty w cmd cursor = either_way (str_eq cmd (codes "STATS")) _ _ (stats-Nonempty w) (
    either_way (str_eq cmd (codes "USERS")) _ _ (users-Nonempty w) (
      either_way (str_eq cmd (codes "USER")) _ _ (user-Nonempty w cursor)
        (either_way (str_eq cmd (codes "CONFIG")) _ _ (config-Nonempty w cursor) tt)))

refusal-Nonempty : (a : Rights) (s : Bytes) → require_auth a ≡ some s → Nonempty s
unfolding require_auth
refusal-Nonempty a [] e = absurd (ground (arith, e))
refusal-Nonempty a (c ∷ s) e = tt

command-Nonempty :
    (w : World) (a : Rights) (cmd cursor : Bytes) → Nonempty (command w a cmd cursor).1.1
unfolding command handle_auth
command-Nonempty w a cmd cursor = elim (Bool-cases (str_eq cmd (codes "AUTH"))) [
  | inl auth ↦ rw auth (auth_with-Nonempty w.admin_secret a _ _)
  | inr other ↦ elim (Bool-cases (str_eq cmd (codes "QUIT"))) [
    | inl quit ↦ rw other (rw quit (quit_with-Nonempty a _))
    | inr command ↦ elim (Option-cases (require_auth a)) [
      | inl pass ↦ rw other (rw command (rw pass (run-Nonempty w cmd cursor)))
      | inr (refusal, refused) ↦
          rw other (rw command (rw refused (refusal-Nonempty a refusal refused)))
    ]
  ]
]

pub handle_line-Nonempty :
    (w : World) (a : Rights) (line : Bytes) → Nonempty (handle_line w a line).1.1
unfolding handle_line
handle_line-Nonempty w a line =
    let t = next_token (trim_right (c_string line)) in
    elim (Option-cases t.0) [
      | inl empty ↦ rw (empty, handle_line, Nonempty) tt
      | inr (cmd, e) ↦ rw (e, handle_line, Nonempty) (command-Nonempty w a cmd t.1)
    ]
