-- ===== src/Users/Laws.antt =====
-- What users_add and users_del (src/shared/users.c) do to the answers of users_check.
use tpe_protos_g.Base.{
  ◌+◌, ◌≤◌, ◌≡◌, inl, inr, ap, arith, Bool, true, false, leb, if◌then◌else◌, Bool-cases, Bytes,
  length, str_eq, strncmp_eq,
}
use tpe_protos_g.Users.{Users, users_add, users_del, users_check, users_max}
use tpe_protos_g.Users.Lookup.{
  IsValid, find_user-Found, add_known, add_full, add_new, del_known, del_unknown, check_unknown,
}
use tpe_protos_g.Users.Invariant.{add-IsValid, del-IsValid}
use tpe_protos_g.Users.Checks.{set_pass-check, append-check, remove-check, unknown_alike}

-- Once users_add has accepted a user, of a name and a password of at most 255 bytes each, that name
-- is accepted with that password alone, and every other user with just the passwords as before.
pub check-add :
    (u : Users) (n p m q : Bytes)
    → IsValid u
    → length n ≤ 255
    → length p ≤ 255
    → (users_add u n p).0 ≡ true
    → users_check (users_add u n p).1 m q
      ≡ (if str_eq n m then strncmp_eq 256 p q else users_check u m q)
check-add u n p m q v hn hp done = elim (find_user-Found u v n) [
  | inl (k, e, nk) ↦
      let added = add_known u n p e in
      rw added (set_pass-check u v n p m q hp k nk (rw added at (add-IsValid u n v p hn)))
  | inr (e, missing) ↦ elim (Bool-cases (leb users_max u.count)) [
    | inl full ↦ cc (add_full u n p e full)
    | inr room ↦
        let added = add_new u n p e room in
        rw added (
          append-check u v n p m q hp missing (ground arith) hn
            (rw added at (add-IsValid u n v p hn)))
  ]
]

-- users_add refuses exactly a new name for a full table, and then changes nothing: with the table
-- full, no password was accepted for that name.
pub add_refused :
    (u : Users) (n p q : Bytes)
    → IsValid u
    → (users_add u n p).0 ≡ false
    → ((users_add u n p).1 ≡ u) × (u.count ≡ 10) × (users_check u n q ≡ false)
add_refused u n p q v refused = elim (find_user-Found u v n) [
  | inl (k, e, nk) ↦ cc (add_known u n p e)
  | inr (e, missing) ↦ elim (Bool-cases (leb users_max u.count)) [
    | inl full ↦ (
      ap (λ (r : Bool × Users). r.1) (add_full u n p e full),
      ground (arith, v.fits),
      check_unknown u n q e,
    )
    | inr room ↦ cc (add_new u n p e room)
  ]
]

-- users_del makes a name unknown, whatever the password, and leaves every other user as it was. The
-- count falls by one exactly if it returns true.
pub check-del :
    (u : Users) (n m q : Bytes)
    → IsValid u
    → (users_check (users_del u n).1 m q ≡ (if str_eq n m then false else users_check u m q))
      × ((users_del u n).1.count + (if (users_del u n).0 then 1 else 0) ≡ u.count)
check-del u n m q v = elim (find_user-Found u v n) [
  | inl (k, e, nk) ↦
      let deleted = del_known u n e in
      rw deleted
        (remove-check u v n m q k nk (rw deleted at (del-IsValid u n v)), omega (arith, nk.live))
  | inr (e, missing) ↦ rw (del_unknown u n e) (unknown_alike u n m q e, omega arith)
]
