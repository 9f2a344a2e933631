-- ===== src/Socks5/Gate/Table.antt =====
-- What the callbacks of the state table (src/shared/socks5.c) leave of who may come past the login.
use tpe_protos_g.Base.{
  ℕ, zero, suc, ◌≤◌, ◌<◌, ◌≡◌, ◌⊎◌, inl, inr, refl, ◌∙◌, arith, Option, none, some, get_elem?,
  Every, imp-Every,
}
use tpe_protos_g.Socks5.Auth.{auth_read_init}
use tpe_protos_g.Socks5.Engine.{client_statbl, bare}
use tpe_protos_g.Socks5.Frame.{Keeps, Keeps-refl, KeepsIt, KeepsOn, Late}
use tpe_protos_g.Socks5.Frame.Connecting.{connecting_init-KeepsIt}
use tpe_protos_g.Socks5.Frame.Origin.{connecting_write-KeepsOn}
use tpe_protos_g.Socks5.Frame.Copy.{copy_init-KeepsIt, copy_read-KeepsOn, copy_write-KeepsOn}
use tpe_protos_g.Socks5.Frame.Request.{
  request_read_init-KeepsIt, request_resolv_done-KeepsOn, request_read-KeepsOn,
  request_write-KeepsOn,
}
use tpe_protos_g.Socks5.Gate.{Verified, Gate, GatedOn}
use tpe_protos_g.Socks5.Gate.Greeting.{hello_read-GatedOn, hello_write-GatedOn}
use tpe_protos_g.Socks5.Gate.Login.{auth_read-GatedOn, auth_write-GatedOn}
use tpe_protos_g.Socks5.Hello.{hello_read_init}
use tpe_protos_g.Socks5.Types.{Context, Session}
use tpe_protos_g.Stm.{StateDefinition, notify, fire}
use tpe_protos_g.Users.{Users, users_count}

-- An entry of the table for state `i`: what its callbacks may do.
pub record Sound (u : Users) (i : ℕ) (d : StateDefinition Context) : Type 0 where
  pub state : d.state ≡ i
  pub leaves : d.on_departure ≡ none
  pub arrives : (c : Context) → Gate u i c → Every (Gate u i) (notify d.on_arrival i c)
  pub reads : (c : Context) → Gate u i c → GatedOn u (fire d.on_read_ready c)
  pub writes : (c : Context) → Gate u i c → GatedOn u (fire d.on_write_ready c)
  pub blocks : (c : Context) → Gate u i c → GatedOn u (fire d.on_block_ready c)

module _ (u : Users) where
  kept-Verified : (c c' : Context) → Keeps c c' → Verified u c.session → Verified u c'.session
  kept-Verified c c' k v = record {
    name = v.name;
    pass = v.pass;
    known = v.known;
    user = k.user ∙ v.user;
  }

  -- the states behind the login
  late-Gate :
      (i : ℕ) (c : Context) → 4 ≤ i → c.world.users ≡ some u → Verified u c.session → Gate u i c
  late-Gate zero c h e v = absurd (omega arith)
  late-Gate (suc zero) c h e v = absurd (omega arith)
  late-Gate (suc (suc zero)) c h e v = absurd (omega arith)
  late-Gate (suc (suc (suc zero))) c h e v = absurd (omega arith)
  late-Gate (suc (suc (suc (suc n)))) c h e v = record { users = e; stage = inr v }

  late-GatedOn :
      (c : Context) (m : Option (ℕ × Context))
      → c.world.users ≡ some u
      → Verified u c.session
      → KeepsOn c m
      → GatedOn u m
  late-GatedOn c m e v kept =
      imp-Every (Late c) (λ (r : ℕ × Context). Gate u r.0 r.1) m kept
        (λ r k. late-Gate r.0 r.1 k.0 (k.1.users ∙ e) (kept-Verified c r.1 k.1 v))

  late_arrival :
      (i : ℕ) (c : Context) (m : Option Context)
      → 4 ≤ i
      → c.world.users ≡ some u
      → Verified u c.session
      → KeepsIt c m
      → Every (Gate u i) m
  late_arrival i c m late e v kept =
      imp-Every (Keeps c) (Gate u i) m kept
        (λ c' k. late-Gate i c' late (k.users ∙ e) (kept-Verified c c' k v))

  -- in a state from REQUEST_READ to COPY
  abbrev verified : {n : ℕ} {s : Session} → n < 5 → (5 ≤ n) ⊎ Verified u s → Verified u s
  verified h (inl k) = absurd (omega arith)
  verified h (inr v) = v

  -- an entry of which the callbacks keep the users and the user who logged in
  late-Sound :
      (i : ℕ) (d : StateDefinition Context)
      → 4 ≤ i
      → d.state ≡ i
      → d.on_departure ≡ none
      → ((c : Context) → Gate u i c → Verified u c.session)
      → ((c : Context) → KeepsIt c (notify d.on_arrival i c))
      → ((c : Context) → KeepsOn c (fire d.on_read_ready c))
      → ((c : Context) → KeepsOn c (fire d.on_write_ready c))
      → ((c : Context) → KeepsOn c (fire d.on_block_ready c))
      → Sound u i d
  late-Sound i d late state leaves passed arrives reads writes blocks = record {
    state = state;
    leaves = leaves;
    arrives =
        λ c g. late_arrival i c (notify d.on_arrival i c) late g.users (passed c g) (arrives c);
    reads = λ c g. late-GatedOn c (fire d.on_read_ready c) g.users (passed c g) (reads c);
    writes = λ c g. late-GatedOn c (fire d.on_write_ready c) g.users (passed c g) (writes c);
    blocks = λ c g. late-GatedOn c (fire d.on_block_ready c) g.users (passed c g) (blocks c);
  }

  -- DONE and ERROR have no callbacks.
  over-Sound : (i : ℕ) → Sound u i (bare i)
  over-Sound i = record {
    state = refl;
    leaves = refl;
    arrives = λ c g. g;
    reads = λ c g. tt;
    writes = λ c g. tt;
    blocks = λ c g. tt;
  }

  -- The greeting is all that asks for users in the table.
  pub table-Sound : 0 < users_count u → (i : ℕ) → Every (Sound u i) (get_elem? client_statbl i)
  unfolding hello_read_init auth_read_init
  table-Sound some_users zero = record {
    state = refl;
    leaves = refl;
    arrives = λ c g. record { users = g.users; stage = tt };
    reads = λ c g. hello_read-GatedOn u some_users c g.users;
    writes = λ c g. tt;
    blocks = λ c g. tt;
  }
  table-Sound some_users (suc zero) = record {
    state = refl;
    leaves = refl;
    arrives = λ c g. g;
    reads = λ c g. tt;
    writes = λ c g. hello_write-GatedOn u c g;
    blocks = λ c g. tt;
  }
  table-Sound some_users (suc (suc zero)) = record {
    state = refl;
    leaves = refl;
    arrives = λ c g. record { users = g.users; stage = tt };
    reads = λ c g. auth_read-GatedOn u c g.users;
    writes = λ c g. tt;
    blocks = λ c g. tt;
  }
  table-Sound some_users (suc (suc (suc zero))) = record {
    state = refl;
    leaves = refl;
    arrives = λ c g. g;
    reads = λ c g. tt;
    writes = λ c g. auth_write-GatedOn u c g;
    blocks = λ c g. tt;
  }
  table-Sound some_users (suc (suc (suc (suc n)))) = by n
    where
      by :
          (n : ℕ)
          → Every
              (Sound u (suc (suc (suc (suc n)))))
              (get_elem? client_statbl (suc (suc (suc (suc n)))))
      by zero =
          late-Sound 4 _ (omega arith) refl refl (λ c g. verified (omega arith) g.stage)
            (request_read_init-KeepsIt 4) request_read-KeepsOn (λ c. tt) (λ c. tt)
      by (suc zero) =
          late-Sound 5 _ (omega arith) refl refl (λ c g. verified (omega arith) g.stage) Keeps-refl
            (λ c. tt) (λ c. tt) request_resolv_done-KeepsOn
      by (suc (suc zero)) =
          late-Sound 6 _ (omega arith) refl refl (λ c g. verified (omega arith) g.stage)
            (connecting_init-KeepsIt 6) (λ c. tt) connecting_write-KeepsOn (λ c. tt)
      by (suc (suc (suc zero))) =
          late-Sound 7 _ (omega arith) refl refl (λ c g. verified (omega arith) g.stage) Keeps-refl
            (λ c. tt) request_write-KeepsOn (λ c. tt)
      by (suc (suc (suc (suc zero)))) =
          late-Sound 8 _ (omega arith) refl refl (λ c g. verified (omega arith) g.stage)
            (copy_init-KeepsIt 8) copy_read-KeepsOn copy_write-KeepsOn (λ c. tt)
      by (suc (suc (suc (suc (suc zero))))) = over-Sound 9
      by (suc (suc (suc (suc (suc (suc zero)))))) = over-Sound 10
      by (suc (suc (suc (suc (suc (suc (suc m))))))) = tt
