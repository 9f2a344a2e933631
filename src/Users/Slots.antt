-- ===== src/Users/Slots.antt =====
-- The entries of the table of users (src/shared/users.c) after each way to change it.
use tpe_protos_g.Base.{
  ℕ, ◌-◌, ◌<◌, ◌≡◌, ◌⊎◌, inl, inr, sym, ap, ◌∙◌, arith, List, ◌==◌, if◌then◌else◌, Bytes, length,
  get_or, set, length-set, get_or-set_self, get_or-set_ne,
}
use native.Mathlib.Decide.{ℕ_discrete}
use tpe_protos_g.Users.{
  Users, UserEntry, entry_at, blank, copied, set_pass, append_user, remove_at, users_max,
}
use tpe_protos_g.Users.Lookup.{IsValid}

slot-set :
    (es : List UserEntry) (i j : ℕ) (e : UserEntry)
    → i < length es
    → get_or (set es i e) j blank ≡ (if i == j then e else get_or es j blank)
slot-set es i j e h = elim (ℕ_discrete i j) [
  | yes same ↦ ground (
    arith,
    same,
    ap (λ k. get_or (set es i e) k blank) (sym same),
    get_or-set_self es i e blank h,
  )
  | no other ↦ ground (arith, get_or-set_ne es i j e blank other)
]

module _ (u : Users) (v : IsValid u) where
  -- A new password: the names stay.
  pub set_pass-entry :
      (idx j : ℕ) (pass : Bytes)
      → idx < u.count
      → entry_at (set_pass u idx pass) j
        ≡ (if idx == j then record (entry_at u idx) { pass = copied 256 pass } else entry_at u j)
  set_pass-entry idx j pass h = slot-set u.entries idx j _ (omega (arith, v.fits, v.slots))

  -- A new entry behind the others.
  pub append-entry :
      (name pass : Bytes) (j : ℕ)
      → u.count < users_max
      → entry_at (append_user u name pass) j ≡ (
          if u.count == j
          then record { name = copied 256 name; pass = copied 256 pass }
          else entry_at u j)
  append-entry name pass j h = slot-set u.entries u.count j _ (omega (arith, v.slots))

  -- Entry `k` of the table without entry `idx` is entry `origin idx k` of the table before.
  abbrev pub origin : ℕ → ℕ → ℕ
  origin idx k = if k == idx then u.count - 1 else k

  remove-slot :
      (idx k : ℕ)
      → idx < u.count
      → entry_at (remove_at u idx) k ≡ (
          if (u.count - 1) == k
          then blank
          else if idx == k
          then entry_at u (u.count - 1)
          else entry_at u k)
  remove-slot idx k h =
      slot-set (set u.entries idx (entry_at u (u.count - 1))) (u.count - 1) k blank
        (omega (arith, v.slots, v.fits, length-set u.entries idx (entry_at u (u.count - 1))))
      ∙ ap (λ e. if (u.count - 1) == k then blank else e)
          (slot-set u.entries idx k (entry_at u (u.count - 1)) (omega (arith, v.slots, v.fits)))

  pub remove-entry :
      (idx k : ℕ)
      → idx < u.count
      → k < u.count - 1
      → entry_at (remove_at u idx) k ≡ entry_at u (origin idx k)
  remove-entry idx k h hk = elim (ℕ_discrete k idx) [
    | yes same ↦ ground (arith, remove-slot idx k h)
    | no other ↦ ground (arith, remove-slot idx k h)
  ]

  pub removed_or_blank :
      (idx k : ℕ)
      → idx < u.count
      → (entry_at (remove_at u idx) k ≡ blank)
        ⊎ ((j : ℕ) × (entry_at (remove_at u idx) k ≡ entry_at u j))
  removed_or_blank idx k h = elim (ℕ_discrete (u.count - 1) k) [
    | yes gone ↦ inl (ground (arith, remove-slot idx k h))
    | no n ↦ elim (ℕ_discrete idx k) [
      | yes same ↦ inr (u.count - 1, ground (arith, remove-slot idx k h))
      | no other ↦ inr (k, ground (arith, remove-slot idx k h))
    ]
  ]
