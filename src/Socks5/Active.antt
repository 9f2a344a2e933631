-- ===== src/Socks5/Active.antt =====
-- The doubly-linked list of the live sessions of src/shared/socks5.c, through the links
-- `active_prev` and `active_next` and the head `g_active_head`. A pointer to a session is a number.
pub mod Refines
pub mod Removal
pub mod Changes
use tpe_protos_g.Base.{ℕ, Option, none, some, ◌==◌, if◌then◌else◌}

pub record Links : Type 0 where
  pub active_prev : Option ℕ
  pub active_next : Option ℕ

pub record Heap : Type 0 where
  pub links : ℕ → Links
  pub head : Option ℕ

abbrev pub update : ℕ → (Links → Links) → Heap → Heap
update s f h = record h { links = λ t. if s == t then f (h.links t) else h.links t }

-- an assignment through a pointer that may be NULL, which is then not made
abbrev pub update_if : Option ℕ → (Links → Links) → Heap → Heap
update_if none f h = h
update_if (some s) f h = update s f h

unfoldable pub active_list_add : ℕ → Heap → Heap
active_list_add s h =
    let h' = update s (λ l. record { active_prev = none; active_next = h.head }) h in
    record (update_if h.head (λ l. record l { active_prev = some s }) h') { head = some s }

-- `s->active_prev->active_next = s->active_next`, or the head
abbrev pub bypass : Option ℕ → Option ℕ → Heap → Heap
bypass none next h = record h { head = next }
bypass (some p) next h = update p (λ l. record l { active_next = next }) h

-- what socksv5_done does to the list
unfoldable pub active_list_remove : ℕ → Heap → Heap
active_list_remove s h =
    let h' = bypass (h.links s).active_prev (h.links s).active_next h in
    let prev = (h'.links s).active_prev in
    let h'' = update_if (h'.links s).active_next (λ l. record l { active_prev = prev }) h' in
    update s (λ l. record { active_prev = none; active_next = none }) h''
