-- ===== src/Users/Checks.antt =====
-- The answers of users_check (src/shared/users.c) from a table and from the one with an entry changed.
use tpe_protos_g.Base.{
  ℕ, ◌-◌, ◌≤◌, ◌<◌, ◌≡◌, ◌≢◌, inl, inr, refl, sym, ap, ◌∙◌, arith, false, none, ◌==◌, if◌then◌else◌,
  Bool-cases, Bytes, length, str_eq, str_eq→eq, str_ne, strncmp_eq,
}
use native.Mathlib.Decide.{ℕ_discrete}
use tpe_protos_g.Users.{
  Users, UserEntry, entry_at, find_user, set_pass, append_user, remove_at, copied, users_check,
  users_max,
}
use tpe_protos_g.Users.Lookup.{
  IsValid, NamedAt, find_user-Found, find_user_at, find_user-none, copied_short, check_known,
  check_unknown,
}
use tpe_protos_g.Users.Slots.{set_pass-entry, append-entry, origin, remove-entry}
use tpe_protos_g.Users.Invariant.{same_names}

abbrev Missing : Users → Bytes → Type 0
Missing u m = (j : ℕ) → j < u.count → (entry_at u j).name ≢ m

check_at :
    (u : Users) (m q : Bytes) (k : ℕ)
    → IsValid u
    → NamedAt u k m
    → users_check u m q ≡ strncmp_eq 256 (entry_at u k).pass q
check_at u m q k v n = check_known u m q (find_user_at u v m k n)

-- Two tables that have the user at some place with the same password, or both lack it.
agree :
    (u w : Users) (m q : Bytes)
    → IsValid u
    → IsValid w
    → ((j : ℕ)
        → NamedAt u j m
        → (k : ℕ) × NamedAt w k m × ((entry_at w k).pass ≡ (entry_at u j).pass))
    → (Missing u m → Missing w m)
    → users_check w m q ≡ users_check u m q
agree u w m q v x there none_there = elim (find_user-Found u v m) [
  | inl (j, e, n) ↦
      let (k, n', same) = there j n in
      check_at w m q k x n' ∙ ap (λ p. strncmp_eq 256 p q) same ∙ sym (check_at u m q j v n)
  | inr (e, missing) ↦
      check_unknown w m q (find_user-none w x m (none_there missing)) ∙ sym (check_unknown u m q e)
]

-- Entries of different names stand at different places.
apart : (u : Users) {j k : ℕ} {m n : Bytes} → n ≢ m → NamedAt u k n → NamedAt u j m → k ≢ j
apart u ne nk nj e = ne (sym nk.name_is ∙ ap (λ i. (entry_at u i).name) e ∙ nj.name_is)

abbrev Kept : Users → Users → Bytes → Type 0
Kept u w m =
    (j : ℕ) → NamedAt u j m → (k : ℕ) × NamedAt w k m × ((entry_at w k).pass ≡ (entry_at u j).pass)

module _ (u : Users) (v : IsValid u) (n p m q : Bytes) (short : length p ≤ 255) where
  set_pass-Kept : (k : ℕ) → NamedAt u k n → n ≢ m → Kept u (set_pass u k p) m
  set_pass-Kept k nk ne j nj = (
    j,
    record { live = nj.live; name_is = same_names u v k j p nk.live ∙ nj.name_is },
    ground (arith, set_pass-entry u v k j p nk.live, apart u ne nk nj),
  )

  -- a new password
  pub set_pass-check :
      (k : ℕ)
      → NamedAt u k n
      → IsValid (set_pass u k p)
      → users_check (set_pass u k p) m q
        ≡ (if str_eq n m then strncmp_eq 256 p q else users_check u m q)
  set_pass-check k nk x = elim (Bool-cases (str_eq n m)) [
    | inl same ↦ rw same (
        check_at (set_pass u k p) m q k x (record {
          live = nk.live;
          name_is = same_names u v k k p nk.live ∙ nk.name_is ∙ str_eq→eq n m same;
        })
        ∙ ap (λ t. strncmp_eq 256 t q) stored)
    | inr other ↦ rw other (
        agree u (set_pass u k p) m q v x (set_pass-Kept k nk (str_ne n m other))
          (λ missing j hj e. missing j hj (sym (same_names u v k j p nk.live) ∙ e)))
  ]
    where
      stored : (entry_at (set_pass u k p) k).pass ≡ p
      stored =
          ap (λ (e : UserEntry). e.pass) (set_pass-entry u v k k p nk.live)
          ∙ ground (arith, copied_short 256 p short)

  -- a new user
  pub append-check :
      Missing u n
      → u.count < users_max
      → length n ≤ 255
      → IsValid (append_user u n p)
      → users_check (append_user u n p) m q
        ≡ (if str_eq n m then strncmp_eq 256 p q else users_check u m q)
  append-check missing room fits x = elim (Bool-cases (str_eq n m)) [
    | inl same ↦ rw same (
        check_at (append_user u n p) m q u.count x (record {
          live = omega arith;
          name_is = (new_entry refl).0 ∙ copied_short 256 n fits ∙ str_eq→eq n m same;
        })
        ∙ ap (λ t. strncmp_eq 256 t q) ((new_entry refl).1 ∙ copied_short 256 p short))
    | inr other ↦ rw other (
        agree u (append_user u n p) m q v x
          (λ j nj. (
            j,
            record {
              live = omega (arith, nj.live);
              name_is = ground (arith, nj.live, nj.name_is, append-entry u v n p j room);
            },
            ground (arith, nj.live, append-entry u v n p j room),
          ))
          (λ absent j hj e. elim (ℕ_discrete u.count j) [
            | yes last ↦
                str_ne n m other (sym (copied_short 256 n fits) ∙ sym (new_entry last).0 ∙ e)
            | no old ↦ absent j (omega arith) (ground (arith, e, append-entry u v n p j room))
          ]))
  ]
    where
      new_entry :
          {j : ℕ}
          → u.count ≡ j
          → ((entry_at (append_user u n p) j).name ≡ copied 256 n)
            × ((entry_at (append_user u n p) j).pass ≡ copied 256 p)
      new_entry {j} e = ground (arith, e, append-entry u v n p j room)

module _ (u : Users) (v : IsValid u) (n m q : Bytes) (idx : ℕ) (ni : NamedAt u idx n) where
  origin_back : (k : ℕ) → k < u.count - 1 → (origin u v idx k ≢ idx) × (origin u v idx k < u.count)
  origin_back k h = ground (arith, ni.live)

  entry_from :
      (k : ℕ)
      → k < u.count - 1
      → (entry_at (remove_at u idx) k).name ≡ (entry_at u (origin u v idx k)).name
  entry_from k h = ap (λ (e : UserEntry). e.name) (remove-entry u v idx k ni.live h)

  removed-Missing : n ≡ m → Missing (remove_at u idx) m
  removed-Missing same k h e = (origin_back k h).0 (
      v.distinct (origin u v idx k) idx (origin_back k h).1 ni.live
        (sym (entry_from k h) ∙ e ∙ sym same ∙ sym ni.name_is))

  -- the place of entry `j` once entry `idx` is gone
  abbrev place : ℕ → ℕ
  place j = if j == (u.count - 1) then idx else j

  place-origin :
      (j : ℕ) → j < u.count → idx ≢ j → (place j < u.count - 1) × (origin u v idx (place j) ≡ j)
  place-origin j h ne = ground (arith, ni.live)

  remove-Kept : n ≢ m → Kept u (remove_at u idx) m
  remove-Kept ne j nj =
      let (lo, back) = place-origin j nj.live (apart u ne ni nj) in
      let from : entry_at (remove_at u idx) (place j) ≡ entry_at u j =
        remove-entry u v idx (place j) ni.live lo ∙ ap (λ k. entry_at u k) back in
      (
        place j,
        record { live = lo; name_is = ap (λ (e : UserEntry). e.name) from ∙ nj.name_is },
        ap (λ (e : UserEntry). e.pass) from,
      )

  pub remove-check :
      IsValid (remove_at u idx)
      → users_check (remove_at u idx) m q ≡ (if str_eq n m then false else users_check u m q)
  remove-check x = elim (Bool-cases (str_eq n m)) [
    | inl same ↦ rw same (
        check_unknown (remove_at u idx) m q
          (find_user-none (remove_at u idx) x m (removed-Missing (str_eq→eq n m same))))
    | inr other ↦ rw other (
        agree u (remove_at u idx) m q v x (remove-Kept (str_ne n m other)) (λ missing k h e.
          missing (origin u v idx k) (origin_back k h).1 (sym (entry_from k h) ∙ e)))
  ]

pub unknown_alike :
    (u : Users) (n m q : Bytes)
    → find_user u n ≡ none
    → users_check u m q ≡ (if str_eq n m then false else users_check u m q)
unknown_alike u n m q e = elim (Bool-cases (str_eq n m)) [
  | inl same ↦
      rw same (check_unknown u m q (ap (λ t. find_user u t) (sym (str_eq→eq n m same)) ∙ e))
  | inr other ↦ rw other
]
