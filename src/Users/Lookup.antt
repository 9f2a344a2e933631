-- ===== src/Users/Lookup.antt =====
-- The table of users as a finite map: what find_user and users_check (src/shared/users.c) answer.
use tpe_protos_g.Base.{
  ℕ, zero, suc, ◌+◌, ◌-◌, ◌≤◌, ◌<◌, ◌≡◌, ◌≢◌, ◌⊎◌, inl, inr, refl, sym, ap, ◌∙◌, arith, true, false,
  Option, none, some, leb, Bool-cases, Bytes, length, strncmp_eq, strncmp_eq→eq, strncmp_ne,
  length-take, take_all,
}
use native.Mathlib.Decide.{ℕ_discrete}
use tpe_protos_g.Users.{
  Users, entry_at, find_loop, find_user, users_check, users_add, users_del, set_pass, append_user,
  remove_at, users_max, copied,
}

-- Entry `i` is in use, with this name.
pub record NamedAt (u : Users) (i : ℕ) (name : Bytes) : Type 0 where
  pub live : i < u.count
  pub name_is : (entry_at u i).name ≡ name

-- At most ten entries, no two with one name, and every text short enough for its array.
pub record IsValid (u : Users) : Type 0 where
  pub slots : length u.entries ≡ users_max
  pub fits : u.count ≤ users_max
  pub short_name : (i : ℕ) → length (entry_at u i).name ≤ 255
  pub short_pass : (i : ℕ) → length (entry_at u i).pass ≤ 255
  pub distinct :
      (i j : ℕ) → i < u.count → j < u.count → (entry_at u i).name ≡ (entry_at u j).name → i ≡ j

abbrev Absent : Users → Bytes → ℕ → ℕ → Type 0
Absent u name i rounds = (j : ℕ) → i ≤ j → j < i + rounds → (entry_at u j).name ≢ name

-- What the search from index `i` returns: the first entry of that name, or that there is none.
Found : Users → Bytes → ℕ → ℕ → Option ℕ → Type 0
Found u name i rounds r =
    ((k : ℕ) × (r ≡ some k) × (i ≤ k) × (k < i + rounds) × ((entry_at u k).name ≡ name))
    ⊎ ((r ≡ none) × Absent u name i rounds)

pub length-copied : (len : ℕ) (s : Bytes) → length (copied len s) ≤ len - 1
unfolding copied
length-copied len s = omega (arith, length-take (len - 1) s)

pub copied_short : (len : ℕ) (s : Bytes) → length s ≤ len - 1 → copied len s ≡ s
unfolding copied
copied_short len s h = take_all (len - 1) s h

module _ (u : Users) (v : IsValid u) (name : Bytes) where
  Absent-cons :
      (i rounds : ℕ)
      → (entry_at u i).name ≢ name
      → Absent u name (i + 1) rounds
      → Absent u name i (suc rounds)
  Absent-cons i rounds here there j lo hi e = elim (ℕ_discrete i j) [
    | yes same ↦ here (ap (λ k. (entry_at u k).name) same ∙ e)
    | no other ↦ there j (omega arith) (omega arith) e
  ]

  find_loop-Found : (rounds i : ℕ) → Found u name i rounds (find_loop rounds i u name)
  unfolding find_loop Found
  find_loop-Found zero i = inr (refl, λ j lo hi e. omega arith)
  find_loop-Found (suc rounds) i = elim (Bool-cases (strncmp_eq 256 (entry_at u i).name name)) [
    | inl same ↦ inl (
      i,
      rw same,
      omega arith,
      omega arith,
      strncmp_eq→eq 256 (entry_at u i).name name (omega (arith, v.short_name i)) same,
    )
    | inr other ↦ elim (find_loop-Found rounds (i + 1)) [
      | inl (k, e, lo, hi, n) ↦ inl (k, rw other e, omega arith, omega arith, n)
      | inr (e, missing) ↦
          inr (
            rw other e,
            Absent-cons i rounds (strncmp_ne 256 (entry_at u i).name name other) missing,
          )
    ]
  ]

  -- find_user returns an entry of that name, or there is none.
  pub find_user-Found :
      ((k : ℕ) × (find_user u name ≡ some k) × NamedAt u k name)
      ⊎ ((find_user u name ≡ none) × ((j : ℕ) → j < u.count → (entry_at u j).name ≢ name))
  unfolding find_user Found
  find_user-Found = elim (find_loop-Found u.count 0) [
    | inl (k, e, lo, hi, n) ↦ inl (k, e, record { live = omega arith; name_is = n })
    | inr (e, missing) ↦ inr (e, λ j h. missing j (omega arith) (omega arith))
  ]

  -- With distinct names it returns the index of whatever entry has that name.
  pub find_user_at : (k : ℕ) → NamedAt u k name → find_user u name ≡ some k
  find_user_at k n = elim find_user-Found [
    | inl (j, e, m) ↦ e ∙ ap some (v.distinct j k m.live n.live (m.name_is ∙ sym n.name_is))
    | inr (e, missing) ↦ absurd (missing k n.live n.name_is)
  ]

  pub find_user-none :
      ((j : ℕ) → j < u.count → (entry_at u j).name ≢ name) → find_user u name ≡ none
  find_user-none missing = elim find_user-Found [
    | inl (j, e, m) ↦ absurd (missing j m.live m.name_is)
    | inr (e, _) ↦ e
  ]

-- Each operation, by what the search returns.
module _ (u : Users) (name pass : Bytes) where
  pub add_known :
      {k : ℕ} → find_user u name ≡ some k → users_add u name pass ≡ (true, set_pass u k pass)
  unfolding users_add
  add_known e = rw (e, users_add)

  pub add_full :
      find_user u name ≡ none → leb users_max u.count ≡ true → users_add u name pass ≡ (false, u)
  unfolding users_add
  add_full e full = rw (e, users_add) (rw full)

  pub add_new :
      find_user u name ≡ none
      → leb users_max u.count ≡ false
      → users_add u name pass ≡ (true, append_user u name pass)
  unfolding users_add
  add_new e room = rw (e, users_add) (rw room)

  pub check_known :
      {k : ℕ}
      → find_user u name ≡ some k
      → users_check u name pass ≡ strncmp_eq 256 (entry_at u k).pass pass
  unfolding users_check
  check_known e = rw (e, users_check)

  pub check_unknown : find_user u name ≡ none → users_check u name pass ≡ false
  unfolding users_check
  check_unknown e = rw (e, users_check)

module _ (u : Users) (name : Bytes) where
  pub del_known : {k : ℕ} → find_user u name ≡ some k → users_del u name ≡ (true, remove_at u k)
  unfolding users_del
  del_known e = rw (e, users_del)

  pub del_unknown : find_user u name ≡ none → users_del u name ≡ (false, u)
  unfolding users_del
  del_unknown e = rw (e, users_del)
