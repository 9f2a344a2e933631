-- ===== src/Socks5/Pumping/Ends.antt =====
-- The loop of socksv5_pump (src/shared/socks5.c) without its rounds, and that the rounds are enough.
use tpe_protos_g.Base.{
  ℕ, zero, suc, ◌+◌, ◌≤◌, ◌<◌, ◌≡◌, refl, sym, ap, subst, subst₂, ◌∙◌, arith, Bool, true, false,
  ◌&&◌, Option, none, some, ◌>>=◌, ◌==◌, ==_iff, if◌then◌else◌, Every, bind-Every, Option-cases,
  inl, inr,
}
use tpe_protos_g.Buffer.{buffer_can_read}
use tpe_protos_g.Socks5.Engine.{
  Machine, is_reading, is_writing, with_key, socksv5_pump, pump_rounds,
}
use tpe_protos_g.Socks5.Gate.Handlers.{standing}
use tpe_protos_g.Socks5.Pumping.{NotBefore, Advances}
use tpe_protos_g.Socks5.Pumping.Rounds.{Left, read_handler-Left, write_handler-Left}
use tpe_protos_g.Socks5.States
use tpe_protos_g.Socks5.Types.{Context}
use tpe_protos_g.Stm.{stm_handler}

abbrev pub Result : Type 0
Result = Option (ℕ × Machine × Context)

-- whether the loop reads in a state
abbrev pub has_input : ℕ → Context → Bool
has_input st c = is_reading st && buffer_can_read c.session.read_buffer

abbrev pub read_once : ℕ → Context → Result
read_once st c = stm_handler (λ d. d.on_read_ready) (standing st) c

abbrev pub write_once : ℕ → Context → Result
write_once st c = with_key c.session.client_fd (stm_handler (λ d. d.on_write_ready) (standing st)) c

-- What the `while` loop makes of a session in a state: it reads as long as it can, else it writes until
-- nothing changes, and else it rests; it aborts only if a handler does.
pub data Pumps : ℕ → Context → Result → Type 0 where
  rests :
      {st : ℕ} {c : Context}
      → has_input st c ≡ false
      → is_writing st ≡ false
      → Pumps st c (some (st, standing st, c))
  reads :
      {st st' : ℕ} {c c' : Context} {o : Result}
      → has_input st c ≡ true
      → read_once st c ≡ some (st', standing st', c')
      → Pumps st' c' o
      → Pumps st c o
  read_aborts :
      {st : ℕ} {c : Context} → has_input st c ≡ true → read_once st c ≡ none → Pumps st c none
  writes :
      {st st' : ℕ} {c c' : Context} {o : Result}
      → has_input st c ≡ false
      → is_writing st ≡ true
      → write_once st c ≡ some (st', standing st', c')
      → st < st'
      → Pumps st' c' o
      → Pumps st c o
  waits :
      {st : ℕ} {c c' : Context}
      → has_input st c ≡ false
      → is_writing st ≡ true
      → write_once st c ≡ some (st, standing st, c')
      → Pumps st c (some (st, standing st, c'))
  write_aborts :
      {st : ℕ} {c : Context}
      → has_input st c ≡ false
      → is_writing st ≡ true
      → write_once st c ≡ none
      → Pumps st c none

-- what holds of every result holds of the one there is
of_result : {A : Type 0} (P : A → Type 0) (m : Option A) (a : A) → m ≡ some a → Every P m → P a
of_result P m a e h = subst (λ m. Every P m) e h

reads-alone : (st : ℕ) → is_reading st ≡ true → (is_writing st ≡ false) × (st ≤ 4)
reads-alone st e = ground (arith, e)

both : (a b : Bool) → (a && b) ≡ true → (a ≡ true) × (b ≡ true)
both a b e = ground (arith, e)

-- a round of the loop, by what its two conditions say
abbrev round : ℕ → ℕ → Context → Bool → Bool → Result
round n st c input writing =
    if input
    then (read_once st c >>= λ r. socksv5_pump n r.0 r.1 r.2)
    else if writing
    then (write_once st c >>= λ r. if r.0 == st then some r else socksv5_pump n r.0 r.1 r.2)
    else some (st, standing st, c)

-- A session that has read all that came in and waits for more.
drained-Pumps :
    (n st : ℕ) (c : Context)
    → 1 ≤ n
    → is_reading st ≡ true
    → buffer_can_read c.session.read_buffer ≡ false
    → Pumps st c (socksv5_pump n st (standing st) c)
unfolding socksv5_pump
drained-Pumps zero st c h r e = absurd (omega arith)
drained-Pumps (suc n) st c h r e =
    let quiet : has_input st c ≡ false = ground (arith, r, e) in
    let silent = (reads-alone st r).0 in
    subst₂ (λ a b. Pumps st c (round n st c a b)) (sym quiet) (sym silent) (rests quiet silent)

module _ (n st : ℕ) (c : Context)
    (next : (st' : ℕ) (c' : Context)
      → st' ≤ States.error
      → 11 ≤ n + st'
      → Pumps st' c' (socksv5_pump n st' (standing st') c')) where
  read_round :
      11 ≤ suc n + st
      → has_input st c ≡ true
      → Pumps st c (read_once st c >>= λ r. socksv5_pump n r.0 r.1 r.2)
  read_round enough h = elim (Option-cases (read_once st c)) [
    | inl e ↦
        subst (λ m. Pumps st c (m >>= λ r. socksv5_pump n r.0 r.1 r.2)) (sym e) (read_aborts h e)
    | inr (r, e) ↦
        let (reading, some_input) =
          both (is_reading st) (buffer_can_read c.session.read_buffer) h in
        let (at, low, far) =
          of_result (Left (Advances st)) (read_once st c) r e
            (read_handler-Left st c reading some_input) in
        let e' : read_once st c ≡ some (r.0, standing r.0, r.2) =
          e ∙ ap (λ m. some (r.0, m, r.2)) at in
        subst (λ m. Pumps st c (m >>= λ r. socksv5_pump n r.0 r.1 r.2)) (sym e')
          (reads h e' (elim far [
            | inl later ↦ next r.0 r.2 low (omega arith)
            | inr (same, empty) ↦
                let small = (reads-alone st reading).1 in
                drained-Pumps n r.0 r.2 (omega (arith, small, enough))
                  (ap is_reading same ∙ reading) empty
          ]))
  ]

  written :
      (st' : ℕ) (c' : Context) (same : Bool)
      → (st' == st) ≡ same
      → 11 ≤ suc n + st
      → st ≤ st'
      → st' ≤ States.error
      → has_input st c ≡ false
      → is_writing st ≡ true
      → write_once st c ≡ some (st', standing st', c')
      → Pumps st c
          (if same then some (st', standing st', c') else socksv5_pump n st' (standing st') c')
  written st' c' true e enough later low h w run =
      let same : st' ≡ st = (==_iff st' st).0 e in
      subst (λ x. Pumps st c (some (x, standing x, c'))) (sym same)
        (waits h w (run ∙ ap (λ x. some (x, standing x, c')) same))
  written st' c' false e enough later low h w run =
      let apart : st < st' = ground (arith, e, later) in
      writes h w run apart (next st' c' low (omega (arith, apart, enough)))

  write_round :
      11 ≤ suc n + st
      → has_input st c ≡ false
      → is_writing st ≡ true
      → Pumps st c
          (write_once st c >>= λ r. if r.0 == st then some r else socksv5_pump n r.0 r.1 r.2)
  write_round enough h w = elim (Option-cases (write_once st c)) [
    | inl e ↦
        subst
          (λ m. Pumps st c (m >>= λ r. if r.0 == st then some r else socksv5_pump n r.0 r.1 r.2))
          (sym e) (write_aborts h w e)
    | inr (r, e) ↦
        let (at, low, later) =
          of_result (Left (NotBefore st)) (write_once st c) r e (write_once-Left w) in
        let e' : write_once st c ≡ some (r.0, standing r.0, r.2) =
          e ∙ ap (λ m. some (r.0, m, r.2)) at in
        subst
          (λ m. Pumps st c (m >>= λ r. if r.0 == st then some r else socksv5_pump n r.0 r.1 r.2))
          (sym e') (written r.0 r.2 (r.0 == st) refl enough later low h w e')
  ]
    where
      write_once-Left : is_writing st ≡ true → Every (Left (NotBefore st)) (write_once st c)
      write_once-Left w =
          let c' : Context = record c { fd = c.session.client_fd } in
          bind-Every (Left (NotBefore st)) (Left (NotBefore st))
            (stm_handler (λ d. d.on_write_ready) (standing st) c')
            (λ r. some (r.0, r.1, record r.2 { fd = c.fd })) (write_handler-Left st c' w) (λ r l. l)

  round-Pumps :
      (a b : Bool)
      → has_input st c ≡ a
      → is_writing st ≡ b
      → 11 ≤ suc n + st
      → Pumps st c (round n st c a b)
  round-Pumps true b h w enough = read_round enough h
  round-Pumps false true h w enough = write_round enough h w
  round-Pumps false false h w enough = rests h w

-- From any state, with as many rounds as there are states behind it and one.
rounds-Pumps :
    (n st : ℕ) (c : Context)
    → st ≤ States.error
    → 11 ≤ n + st
    → Pumps st c (socksv5_pump n st (standing st) c)
unfolding socksv5_pump
rounds-Pumps zero st c low enough = absurd (omega arith)
rounds-Pumps (suc n) st c low enough =
    round-Pumps n st c (rounds-Pumps n) (has_input st c) (is_writing st) refl refl enough

-- For a session whose machine stands in a state, whatever its buffers hold and the system answers:
-- socksv5_pump in its twelve rounds gives what the loop gives without a bound. It comes to rest, or
-- waits for a reply to go out, or it aborts where a handler that the loop runs aborts.
pub pump-Pumps :
    (st : ℕ) (c : Context)
    → st ≤ States.error
    → Pumps st c (socksv5_pump pump_rounds st (standing st) c)
pump-Pumps st c low = rounds-Pumps pump_rounds st c low (omega arith)
