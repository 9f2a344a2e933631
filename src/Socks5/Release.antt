-- ===== src/Socks5/Release.antt =====
-- How a session of src/shared/socks5.c goes: its references, the pool, and the descriptors that it
-- takes out of the selector.
--
-- `none` is also a session that is released when it is released already.
use tpe_protos_g.Base.{
  ℕ, ◌+◌, ◌-◌, Bool, true, Option, none, some, [], ltb, ◌==◌, if◌then◌else◌, ◌>>=◌, ℤ,
}
use tpe_protos_g.Selector.{Selector, is_success}
use tpe_protos_g.Selector.Dispatch.{Key, FdHandler, selector_unregister_fd}
use tpe_protos_g.Socks5.System.{on_session, on_world}
use tpe_protos_g.Socks5.Types.{Handler, Context}

abbrev pub max_pool : ℕ
max_pool = 50

-- The last reference gives the session to the pool, or frees it if that is full.
abbrev pub release : Context → Context
release c =
    let c' = on_session (λ s. record s { released = true; origin_resolution = [] }) c in
    if ltb c.world.pool_size max_pool
    then on_world (λ w. record w { pool_size = w.pool_size + 1 }) c'
    else c'

-- of a session that is not NULL
unfoldable pub socks5_destroy : Context → Option Context
socks5_destroy c =
    if c.session.released
    then none
    else if c.session.references == 1
    then some (release c)
    else some (on_session (λ s. record s { references = s.references - 1 }) c)

unfoldable pub socksv5_close :
    Key ℕ → Selector Handler ℕ × Context → Option (Selector Handler ℕ × Context)
unfolding socks5_destroy
socksv5_close key st = socks5_destroy st.1 >>= λ c. some (st.0, c)

-- Of a handler selector_unregister_fd calls handle_close alone.
abbrev pub closers : Handler → FdHandler Handler ℕ Context
closers handler = record {
  handle_read = none;
  handle_write = none;
  handle_block = none;
  handle_close = elim handler [
    | Handler.socks5_handler ↦ some socksv5_close
    | Handler.other_handler ↦ none
  ];
}

-- whether it succeeds, and what it leaves
unfoldable pub unregister : ℤ → Context → Option (Bool × Context)
unregister fd c = selector_unregister_fd closers (c.selector, c) fd >>= λ r.
    some (is_success r.0, record r.1.1 { selector = r.1.0 })
