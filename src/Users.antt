-- ===== src/Users.antt =====
-- src/shared/users.c and users.h: the table of SOCKS users.
--
-- A `char[256]` that strncpy filled is the text before its NUL: strncpy pads with NULs, and the last
-- byte is set to NUL. An index of -1 is `none`.
pub mod Lookup
mod Slots
pub mod Invariant
pub mod Checks
pub mod Laws
use tpe_protos_g.Base.{
  ℕ, zero, suc, ◌+◌, ◌-◌, Bool, true, false, Option, none, some, List, [], ltb, leb, if◌then◌else◌,
  Bytes, strncmp_eq, get_or, set, take, replicate,
}

abbrev pub users_max : ℕ
users_max = 10

abbrev pub name_len : ℕ
name_len = 256

abbrev pub pass_len : ℕ
pass_len = 256

pub record UserEntry : Type 0 where
  pub name : Bytes
  pub pass : Bytes

pub record Users : Type 0 where
  pub entries : List UserEntry
  pub count : ℕ

abbrev pub blank : UserEntry
blank = record { name = []; pass = [] }

abbrev pub users_create : Users
users_create = record { entries = replicate users_max blank; count = 0 }

abbrev pub entry_at : Users → ℕ → UserEntry
entry_at u i = get_or u.entries i blank

-- the `for` loop, from index `i`, with the rounds that are left
unfoldable pub find_loop : ℕ → ℕ → Users → Bytes → Option ℕ
find_loop zero i u name = none
find_loop (suc rounds) i u name =
    if strncmp_eq name_len (entry_at u i).name name then some i else find_loop rounds (i + 1) u name

unfoldable pub find_user : Users → Bytes → Option ℕ
find_user u name = find_loop u.count 0 u name

-- `strncpy(dst, src, LEN - 1); dst[LEN - 1] = '\0'`
unfoldable pub copied : ℕ → Bytes → Bytes
copied len src = take (len - 1) src

-- the two branches of `users_add`
abbrev pub set_pass : Users → ℕ → Bytes → Users
set_pass u idx pass = record u {
  entries = set u.entries idx (record (entry_at u idx) { pass = copied pass_len pass });
}

abbrev pub append_user : Users → Bytes → Bytes → Users
append_user u name pass = record u {
  entries =
      set u.entries u.count (record { name = copied name_len name; pass = copied pass_len pass });
  count = u.count + 1;
}

unfoldable pub users_add : Users → Bytes → Bytes → Bool × Users
users_add u name pass = elim (find_user u name) [
  | some idx ↦ (true, set_pass u idx pass)
  | none ↦ if leb users_max u.count then (false, u) else (true, append_user u name pass)
]

-- The last entry takes the place of the one that goes.
abbrev pub remove_at : Users → ℕ → Users
remove_at u idx = record u {
  entries = set (set u.entries idx (entry_at u (u.count - 1))) (u.count - 1) blank;
  count = u.count - 1;
}

unfoldable pub users_del : Users → Bytes → Bool × Users
users_del u name = elim (find_user u name) [
  | none ↦ (false, u)
  | some idx ↦ (true, remove_at u idx)
]

unfoldable pub users_check : Users → Bytes → Bytes → Bool
users_check u name pass = elim (find_user u name) [
  | none ↦ false
  | some idx ↦ strncmp_eq pass_len (entry_at u idx).pass pass
]

-- The argument is an `int` that is not negative.
unfoldable pub users_get_name : Users → ℕ → Option Bytes
users_get_name u i = if leb u.count i then none else some (entry_at u i).name

abbrev pub users_count : Users → ℕ
users_count u = u.count
