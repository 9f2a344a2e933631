-- ===== src/Socks5/Frame.antt =====
-- What the callbacks of src/shared/socks5.c leave alone: the table of users, and the user who logged in.
pub mod Request
pub mod Connecting
pub mod Origin
pub mod Copy
use tpe_protos_g.Base.{
  ℕ, ◌+◌, ◌≤◌, ◌≡◌, refl, sym, ap, ◌∙◌, arith, Bool, true, false, Option, none, some, List, [], ◌∷◌,
  ◌>>=◌, ◌==◌, leb, if◌then◌else◌, Every, bind-Every, any-Every, imp-Every, Bool-cases, inl, inr,
  get_elem?, ℤ, pos, negsuc, Bytes,
}
use tpe_protos_g.Buffer.{Buffer, buffer_can_read}
use tpe_protos_g.Selector.{
  Status, Item, Selector, iargs, success, is_success, selector_set_interest,
}
use tpe_protos_g.Selector.Dispatch.{Key, FdHandler, close_item, clear_item, selector_unregister_fd}
use tpe_protos_g.Socks5.Release.{
  closers, socksv5_close, socks5_destroy, release, unregister, max_pool,
}
use tpe_protos_g.Socks5.Rules.{
  or_error-Every, marshalled-Every, with_input-Every, with_output-Every,
}
use tpe_protos_g.Socks5.States
use tpe_protos_g.Socks5.System.{
  set_interest, or_error, marshalled, with_write_buffer, with_read_buffer, with_system, is_negative,
  with_input, with_output, recv_into, send_from, Moved, later, broken, moved,
}
use tpe_protos_g.Socks5.Types.{Context, Handler, System}

pub record Keeps (c c' : Context) : Type 0 where
  pub users : c'.world.users ≡ c.world.users
  pub user : c'.session.authenticated_user ≡ c.session.authenticated_user

pub Keeps-refl : (c : Context) → Keeps c c
Keeps-refl c = record { users = refl; user = refl }

pub Keeps-trans : {a b c : Context} → Keeps a b → Keeps b c → Keeps a c
Keeps-trans h k = record { users = k.users ∙ h.users; user = k.user ∙ h.user }

-- A step that keeps them; one with a flag; and a callback, which also goes on to a late state.
abbrev pub KeepsIt : Context → Option Context → Type 0
KeepsIt c m = Every (λ c'. Keeps c c') m

abbrev pub KeepsFlag : Context → Option (Bool × Context) → Type 0
KeepsFlag c m = Every (λ (r : Bool × Context). Keeps c r.1) m

abbrev pub Late : Context → ℕ × Context → Type 0
Late c r = (States.request_read ≤ r.0) × Keeps c r.1

abbrev pub KeepsOn : Context → Option (ℕ × Context) → Type 0
KeepsOn c m = Every (Late c) m

pub set_interest-KeepsFlag : (fd : ℤ) (op : ℕ) (c : Context) → KeepsFlag c (set_interest fd op c)
unfolding set_interest
set_interest-KeepsFlag fd op c =
    any-Every (λ (r : Bool × Context). Keeps c r.1) (selector_set_interest c.selector fd op)
      (λ r. some (is_success r.0, record c { selector = r.1 }))
      (λ r. record { users = refl; user = refl })

pub then-KeepsOn :
    (a b : Context) (m : Option (ℕ × Context)) → Keeps a b → KeepsOn b m → KeepsOn a m
then-KeepsOn a b m h k = imp-Every (Late b) (Late a) m k (λ r l. (l.0, Keeps-trans h l.1))

-- The rule for `or_error`.
pub or_error-KeepsOn :
    (a : Context) (m : Option (Bool × Context)) (k : Context → Option (ℕ × Context))
    → KeepsFlag a m
    → ((c : Context) → KeepsOn c (k c))
    → KeepsOn a (or_error m k)
or_error-KeepsOn a m k h g =
    or_error-Every (Late a) (Keeps a) m k h (λ c kept. (omega arith, kept))
      (λ c kept. then-KeepsOn a c (k c) kept (g c))

pub marshalled-KeepsOn :
    (m : Option (ℤ × Buffer)) (c : Context) (k : Context → Option (ℕ × Context))
    → ((c' : Context) → KeepsOn c' (k c'))
    → KeepsOn c (marshalled m c k)
marshalled-KeepsOn m c k g =
    marshalled-Every (Late c) m c k (λ w. (omega arith, record { users = refl; user = refl }))
      (λ w.
        then-KeepsOn c (with_write_buffer w c) (k (with_write_buffer w c))
          (record { users = refl; user = refl }) (g (with_write_buffer w c)))

destroy-KeepsIt : (c : Context) → KeepsIt c (socks5_destroy c)
unfolding socks5_destroy
destroy-KeepsIt c = ground arith

-- a step of the selector with the context beside
abbrev Beside : Context → Selector Handler ℕ × Context → Type 0
Beside c st = Keeps c st.1

close_item-Beside :
    (handler : Option Handler) (k : Key ℕ) (s : Selector Handler ℕ) (c : Context)
    → Every (Beside c) (close_item closers handler k (s, c))
unfolding socksv5_close
close_item-Beside none k s c = tt
close_item-Beside (some Handler.other_handler) k s c = Keeps-refl c
close_item-Beside (some Handler.socks5_handler) k s c =
    bind-Every (Keeps c) (Beside c) (socks5_destroy c) (λ c'. some (s, c')) (destroy-KeepsIt c)
      (λ c' kept. kept)

unregister_fd-Beside :
    (s : Selector Handler ℕ) (c : Context) (fd : ℤ)
    → Every
        (λ (r : Status × (Selector Handler ℕ × Context)). Beside c r.1)
        (selector_unregister_fd closers (s, c) fd)
unfolding selector_unregister_fd
unregister_fd-Beside s c (negsuc n) = Keeps-refl c
unregister_fd-Beside s c (pos n) = elim (Bool-cases (leb 1024 n)) [
  | inl large ↦ rw large (Keeps-refl c)
  | inr fits ↦ rw fits (
      any-Every Q s.fds (λ items. get_elem? items n >>= λ item. at item)
        (λ items. any-Every Q (get_elem? items n) at found))
]
  where
    Q : Status × (Selector Handler ℕ × Context) → Type 0
    Q r = Beside c r.1

    at : Item Handler ℕ → Option (Status × (Selector Handler ℕ × Context))
    at item = elim item.fd [
      | none ↦ some (iargs, (s, c))
      | some m ↦
          close_item closers item.handler (record { fd = m; user_data = item.user_data }) (s, c)
          >>= λ st'. clear_item n st'.0 >>= λ s'. some (success, (s', st'.1))
    ]

    found : (item : Item Handler ℕ) → Every Q (at item)
    found item = taken item.fd
      where
        taken :
            (fd : Option ℕ)
            → Every Q (elim fd [
              | none ↦ some (iargs, (s, c))
              | some m ↦
                  close_item closers item.handler
                    (record { fd = m; user_data = item.user_data })
                    (s, c)
                  >>= λ st'. clear_item n st'.0 >>= λ s'. some (success, (s', st'.1))
            ])
        taken none = Keeps-refl c
        taken (some m) =
            bind-Every (Beside c) Q
              (close_item closers item.handler (record { fd = m; user_data = item.user_data })
                (s, c))
              (λ st'. clear_item n st'.0 >>= λ s'. some (success, (s', st'.1)))
              (close_item-Beside item.handler (record { fd = m; user_data = item.user_data }) s c)
              (λ st' kept.
                any-Every Q (clear_item n st'.0) (λ s'. some (success, (s', st'.1))) (λ s'. kept))

pub unregister-KeepsFlag : (fd : ℤ) (c : Context) → KeepsFlag c (unregister fd c)
unfolding unregister
unregister-KeepsFlag fd c =
    bind-Every (λ (r : Status × (Selector Handler ℕ × Context)). Keeps c r.1.1)
      (λ (r : Bool × Context). Keeps c r.1) (selector_unregister_fd closers (c.selector, c) fd)
      (λ r. some (is_success r.0, record r.1.1 { selector = r.1.0 }))
      (unregister_fd-Beside c.selector c fd)
      (λ r kept. record { users = kept.users; user = kept.user })

pub with_input-KeepsOn :
    (state : ℕ) (parse : Context → Option (ℕ × Context)) (c : Context)
    → States.request_read ≤ state
    → ((c' : Context) → KeepsOn c' (parse c'))
    → KeepsOn c (with_input state parse c)
with_input-KeepsOn state parse c late g =
    with_input-Every (Late c) state parse c (λ y. (late, record { users = refl; user = refl }))
      (λ y. (omega arith, record { users = refl; user = refl })) (g c)
      (λ b y.
        let c' = with_read_buffer b (with_system y c) in
        then-KeepsOn c c' (parse c') (record { users = refl; user = refl }) (g c'))

pub with_output-KeepsOn :
    (state : ℕ) (next : Context → Option (ℕ × Context)) (c : Context)
    → States.request_read ≤ state
    → ((c' : Context) → KeepsOn c' (next c'))
    → KeepsOn c (with_output state next c)
with_output-KeepsOn state next c late g =
    with_output-Every (Late c) state next c (λ y. (late, record { users = refl; user = refl }))
      (λ y. (omega arith, record { users = refl; user = refl }))
      (λ b y. (late, record { users = refl; user = refl }))
      (λ b y.
        let c' = with_write_buffer b (with_system y c) in
        then-KeepsOn c c' (next c') (record { users = refl; user = refl }) (g c'))
