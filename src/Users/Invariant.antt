-- ===== src/Users/Invariant.antt =====
-- users_add and users_del (src/shared/users.c) keep the table well-formed.
use tpe_protos_g.Base.{
  ℕ, zero, suc, ◌+◌, ◌-◌, ◌≤◌, ◌<◌, ◌≡◌, ◌≢◌, inl, inr, refl, sym, ap, ◌∙◌, arith, leb, Bool-cases,
  Bytes, length, get_or, set, replicate, length-set,
}
use native.Mathlib.Decide.{ℕ_discrete}
use tpe_protos_g.Users.{
  Users, UserEntry, entry_at, blank, copied, set_pass, append_user, remove_at, users_add, users_del,
  users_max, users_create,
}
use tpe_protos_g.Users.Slots.{set_pass-entry, append-entry, origin, remove-entry, removed_or_blank}
use tpe_protos_g.Users.Lookup.{
  IsValid, find_user-Found, length-copied, copied_short, add_known, add_full, add_new, del_known,
  del_unknown,
}

module _ (u : Users) (v : IsValid u) where
  pub same_names :
      (idx j : ℕ) (pass : Bytes)
      → idx < u.count
      → (entry_at (set_pass u idx pass) j).name ≡ (entry_at u j).name
  same_names idx j pass h = elim (ℕ_discrete idx j) [
    | yes same ↦
        ap (λ (e : UserEntry). e.name) (set_pass-entry u v idx j pass h)
        ∙ ground (arith, same, ap (λ k. (entry_at u k).name) same)
    | no other ↦
        ap (λ (e : UserEntry). e.name) (set_pass-entry u v idx j pass h) ∙ ground (arith, other)
  ]

  set_pass-IsValid : (idx : ℕ) (pass : Bytes) → idx < u.count → IsValid (set_pass u idx pass)
  set_pass-IsValid idx pass h = record {
    slots = length-set u.entries idx _ ∙ v.slots;
    fits = v.fits;
    short_name = λ i. rw (same_names idx i pass h) (v.short_name i);
    short_pass = λ i.
        ground (arith, set_pass-entry u v idx i pass h, v.short_pass i, length-copied 256 pass);
    distinct = λ i j hi hj e.
        v.distinct i j hi hj (sym (same_names idx i pass h) ∙ e ∙ same_names idx j pass h);
  }

  appended_distinct :
      (name pass : Bytes) (i j : ℕ)
      → u.count < users_max
      → ((j : ℕ) → j < u.count → (entry_at u j).name ≢ copied 256 name)
      → i < u.count + 1
      → j < u.count + 1
      → (entry_at (append_user u name pass) i).name ≡ (entry_at (append_user u name pass) j).name
      → i ≡ j
  appended_distinct name pass i j h missing hi hj e = elim (ℕ_discrete u.count i) [
    | yes a ↦ elim (ℕ_discrete u.count j) [
      | yes b ↦ omega arith
      | no b ↦ absurd (missing j (omega arith) (sym (name_of j b) ∙ sym e ∙ new_name i a))
    ]
    | no a ↦ elim (ℕ_discrete u.count j) [
      | yes b ↦ absurd (missing i (omega arith) (sym (name_of i a) ∙ e ∙ new_name j b))
      | no b ↦ v.distinct i j (omega arith) (omega arith) (sym (name_of i a) ∙ e ∙ name_of j b)
    ]
  ]
    where
      name_of :
          (k : ℕ) → u.count ≢ k → (entry_at (append_user u name pass) k).name ≡ (entry_at u k).name
      name_of k n = ground (arith, append-entry u v name pass k h)

      new_name :
          (k : ℕ) → u.count ≡ k → (entry_at (append_user u name pass) k).name ≡ copied 256 name
      new_name k n = ground (arith, append-entry u v name pass k h)

  append-IsValid :
      (name pass : Bytes)
      → u.count < users_max
      → ((j : ℕ) → j < u.count → (entry_at u j).name ≢ copied 256 name)
      → IsValid (append_user u name pass)
  append-IsValid name pass h missing = record {
    slots = length-set u.entries u.count _ ∙ v.slots;
    fits = omega arith;
    short_name =
        λ i. ground (arith, append-entry u v name pass i h, v.short_name i, length-copied 256 name);
    short_pass =
        λ i. ground (arith, append-entry u v name pass i h, v.short_pass i, length-copied 256 pass);
    distinct = λ i j hi hj e. appended_distinct name pass i j h missing hi hj e;
  }

  remove_short :
      (idx k : ℕ)
      → idx < u.count
      → (length (entry_at (remove_at u idx) k).name ≤ 255)
        × (length (entry_at (remove_at u idx) k).pass ≤ 255)
  remove_short idx k h = elim (removed_or_blank u v idx k h) [
    | inl e ↦ rw e (omega arith, omega arith)
    | inr (j, e) ↦ rw e (v.short_name j, v.short_pass j)
  ]

  remove-IsValid : (idx : ℕ) → idx < u.count → IsValid (remove_at u idx)
  remove-IsValid idx h = record {
    slots =
        length-set (set u.entries idx (entry_at u (u.count - 1))) (u.count - 1) blank
        ∙ length-set u.entries idx (entry_at u (u.count - 1))
        ∙ v.slots;
    fits = omega (arith, v.fits);
    short_name = λ k. (remove_short idx k h).0;
    short_pass = λ k. (remove_short idx k h).1;
    distinct = λ i j hi hj e. ground (
      arith,
      v.distinct (origin u v idx i) (origin u v idx j) (ground arith) (ground arith) (
          sym (ap (λ (e : UserEntry). e.name) (remove-entry u v idx i h hi))
          ∙ e
          ∙ ap (λ (e : UserEntry). e.name) (remove-entry u v idx j h hj)),
    );
  }

blank-replicate : (n i : ℕ) → get_or (replicate n blank) i blank ≡ blank
blank-replicate zero i = refl
blank-replicate (suc n) zero = refl
blank-replicate (suc n) (suc i) = blank-replicate n i

pub create-IsValid : IsValid users_create
create-IsValid = record {
  slots = refl;
  fits = omega arith;
  short_name = λ i. rw (blank-replicate 10 i) (omega arith);
  short_pass = λ i. rw (blank-replicate 10 i) (omega arith);
  distinct = λ i j hi hj e. absurd (omega arith);
}

module _ (u : Users) (name : Bytes) (v : IsValid u) where
  pub add-IsValid : (pass : Bytes) → length name ≤ 255 → IsValid (users_add u name pass).1
  add-IsValid pass h = elim (find_user-Found u v name) [
    | inl (k, e, n) ↦ rw (add_known u name pass e) (set_pass-IsValid u v k pass n.live)
    | inr (e, missing) ↦ elim (Bool-cases (leb users_max u.count)) [
      | inl full ↦ rw (add_full u name pass e full) v
      | inr room ↦ rw (add_new u name pass e room) (
          append-IsValid u v name pass (ground arith)
            (λ j hj same. missing j hj (same ∙ copied_short 256 name h)))
    ]
  ]

  pub del-IsValid : IsValid (users_del u name).1
  del-IsValid = elim (find_user-Found u v name) [
    | inl (k, e, n) ↦ rw (del_known u name e) (remove-IsValid u v k n.live)
    | inr (e, missing) ↦ rw (del_unknown u name e) v
  ]

-- The empty table is well-formed, users_del keeps a table well-formed, and so does users_add for a
-- name of at most 255 bytes, whatever the result: at most ten users, no two of one name, and every
-- text short enough for its array.
pub users_ops-IsValid :
    (u : Users) (name pass : Bytes)
    → IsValid u
    → length name ≤ 255
    → IsValid users_create × IsValid (users_add u name pass).1 × IsValid (users_del u name).1
users_ops-IsValid u name pass v h =
    (create-IsValid, add-IsValid u name v pass h, del-IsValid u name v)
