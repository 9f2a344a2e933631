-- ===== src/Mng/Access.antt =====
-- Who may do what over the management protocol (src/server/mng.c).
use tpe_protos_g.Base.{
  ◌≤◌, ◌≡◌, ◌⊎◌, inl, inr, refl, arith, true, false, Option, none, some, [], ◌∷◌, leb, Bytes, codes,
  str_eq, str_eq→eq, c_string, Bool-cases, Option-cases, ◌∙◌, ap,
}
use tpe_protos_g.Mng.Commands.{
  World, Rights, handle_line, handle_auth, command, require_auth, wrong_secret, check_secret,
  auth_with, quit_with,
}
use tpe_protos_g.Mng.Text.{next_token, trim_right}

-- The failures are counted up to three; the third locks the session, and closes it.
pub record IsSound (a : Rights) : Type 0 where
  pub counted : a.auth_failures ≤ 3
  pub lock : a.locked ≡ leb 3 a.auth_failures
  pub leaves : (a.locked ≡ false) ⊎ (a.closing ≡ true)

wrong_secret-IsSound : (a : Rights) → IsSound a → a.locked ≡ false → IsSound (wrong_secret a).0
unfolding wrong_secret
wrong_secret-IsSound a s unlocked = ground (arith, s)

check_secret-IsSound :
    (admin : Option Bytes) (a : Rights) (secret : Bytes)
    → IsSound a
    → a.locked ≡ false
    → IsSound (check_secret admin a secret).0
check_secret-IsSound none a secret s unlocked = s
check_secret-IsSound (some []) a secret s unlocked = s
check_secret-IsSound (some (c ∷ t)) a secret s unlocked =
    elim (Bool-cases (str_eq secret (c ∷ t))) [
      | inl right ↦
          rw right (record { counted = omega arith; lock = unlocked; leaves = inl unlocked })
      | inr wrong ↦ rw wrong (wrong_secret-IsSound a s unlocked)
    ]

auth_with-IsSound :
    (admin : Option Bytes) (a : Rights) (secret extra : Option Bytes)
    → IsSound a
    → a.locked ≡ false
    → IsSound (auth_with admin a secret extra).0
auth_with-IsSound admin a none extra s unlocked = s
auth_with-IsSound admin a (some secret) (some extra) s unlocked = s
auth_with-IsSound admin a (some secret) none s unlocked =
    check_secret-IsSound admin a secret s unlocked

quit_with-IsSound : (a : Rights) (extra : Option Bytes) → IsSound a → IsSound (quit_with a extra).0
quit_with-IsSound a none s = record { counted = s.counted; lock = s.lock; leaves = inr refl }
quit_with-IsSound a (some extra) s = s

command-IsSound :
    (w : World) (a : Rights) (cmd cursor : Bytes)
    → IsSound a
    → a.locked ≡ false
    → IsSound (command w a cmd cursor).1.0
unfolding command handle_auth
command-IsSound w a cmd cursor s unlocked = elim (Bool-cases (str_eq cmd (codes "AUTH"))) [
  | inl auth ↦ rw auth (
      auth_with-IsSound w.admin_secret a (next_token cursor).0 (next_token (next_token cursor).1).0
        s unlocked)
  | inr other ↦ elim (Bool-cases (str_eq cmd (codes "QUIT"))) [
    | inl quit ↦ rw other (rw quit (quit_with-IsSound a (next_token cursor).0 s))
    | inr command ↦ elim (Option-cases (require_auth a)) [
      | inl pass ↦ rw other (rw command (rw pass s))
      | inr (refusal, refused) ↦ rw other (rw command (rw refused s))
    ]
  ]
]

-- From a session that is not closing, whatever line comes: the count of failed AUTHs stays at most
-- three, the session is locked exactly at three, and a locked session is closing.
pub line-IsSound :
    (w : World) (a : Rights) (line : Bytes)
    → IsSound a
    → a.closing ≡ false
    → IsSound (handle_line w a line).1.0
unfolding handle_line
line-IsSound w a line s stays =
    let unlocked : a.locked ≡ false = ground (arith, s.leaves, stays) in
    let t = next_token (trim_right (c_string line)) in
    elim (Option-cases t.0) [
      | inl empty ↦ rw (empty, handle_line) s
      | inr (cmd, e) ↦ rw (e, handle_line) (command-IsSound w a cmd t.1 s unlocked)
    ]

-- The tokens `AUTH <secret>` with the secret that was set up, and nothing else.
abbrev pub Authenticates : World → Bytes → Type 0
Authenticates w line =
    let t = next_token (trim_right (c_string line)) in
    let t' = next_token t.1 in
    (secret : Bytes) × (w.admin_secret ≡ some secret)
    × (t.0 ≡ some (codes "AUTH"))
    × (t'.0 ≡ some secret)
    × ((next_token t'.1).0 ≡ none)

auth_only :
    (admin : Option Bytes) (a : Rights) (secret extra : Option Bytes)
    → a.authenticated ≡ false
    → ((auth_with admin a secret extra).0.authenticated ≡ false)
      ⊎ ((s : Bytes) × (admin ≡ some s) × (secret ≡ some s) × (extra ≡ none))
unfolding wrong_secret
auth_only admin a none extra h = inl h
auth_only admin a (some secret) (some extra) h = inl h
auth_only none a (some secret) none h = inl h
auth_only (some []) a (some secret) none h = inl h
auth_only (some (c ∷ s)) a (some secret) none h = elim (Bool-cases (str_eq secret (c ∷ s))) [
  | inl right ↦ inr (c ∷ s, refl, ap some (str_eq→eq secret (c ∷ s) right), refl)
  | inr wrong ↦ inl (rw wrong (ground (arith, h)))
]

quit_keeps :
    (a : Rights) (extra : Option Bytes) → (quit_with a extra).0.authenticated ≡ a.authenticated
quit_keeps a none = refl
quit_keeps a (some extra) = refl

command_only :
    (w : World) (a : Rights) (cmd cursor : Bytes)
    → a.authenticated ≡ false
    → ((command w a cmd cursor).0 ≡ w)
      × (((command w a cmd cursor).1.0.authenticated ≡ false)
          ⊎ ((s : Bytes) × (w.admin_secret ≡ some s)
              × (cmd ≡ codes "AUTH")
              × ((next_token cursor).0 ≡ some s)
              × ((next_token (next_token cursor).1).0 ≡ none)))
unfolding command handle_auth require_auth
command_only w a cmd cursor h = elim (Bool-cases (str_eq cmd (codes "AUTH"))) [
  | inl auth ↦
      let named = str_eq→eq cmd (codes "AUTH") auth in
      rw auth (
        refl,
        elim (auth_only w.admin_secret a (next_token cursor).0 (next_token (next_token cursor).1).0
            h) [
              | inl still ↦ inl still
              | inr (s, set, given, alone) ↦ inr (s, set, named, given, alone)
            ],
      )
  | inr other ↦ elim (Bool-cases (str_eq cmd (codes "QUIT"))) [
    | inl quit ↦ rw other (rw quit (refl, inl (quit_keeps a (next_token cursor).0 ∙ h)))
    | inr command ↦ elim (Bool-cases a.locked) [
      | inl locked ↦ rw other (rw command (rw locked (refl, inl h)))
      | inr unlocked ↦ rw other (rw command (rw unlocked (rw h (refl, inl h))))
    ]
  ]
]

-- A session that is not authenticated changes no user and no configuration, whatever line it sends;
-- and it is authenticated by the line `AUTH <secret>` with the secret of the server alone.
pub unauthenticated_line :
    (w : World) (a : Rights) (line : Bytes)
    → a.authenticated ≡ false
    → ((handle_line w a line).0 ≡ w)
      × (((handle_line w a line).1.0.authenticated ≡ false) ⊎ Authenticates w line)
unfolding handle_line
unauthenticated_line w a line h =
    let t = next_token (trim_right (c_string line)) in
    elim (Option-cases t.0) [
      | inl empty ↦ rw (empty, handle_line) (refl, inl h)
      | inr (cmd, e) ↦
          let (same, who) = command_only w a cmd t.1 h in
          (
            rw (e, handle_line) same,
            elim who [
              | inl still ↦ inl (rw (e, handle_line) still)
              | inr (s, set, named, given, alone) ↦ inr (s, set, e ∙ ap some named, given, alone)
            ],
          )
    ]
