-- ===== src/Selector/Dispatch/Serving.antt =====
-- selector_select (src/shared/selector.c) calls a handler only where its descriptor is registered.
use tpe_protos_g.Base.{
  ℕ, zero, suc, ◌+◌, ◌≤◌, ◌<◌, ◌≡◌, ◌⊎◌, inl, inr, refl, arith, some, none, Option, true, List, [],
  ◌∷◌, if◌then◌else◌, subst, ◌&&◌, Option-cases, Bool-cases, get_or, ap, ◌∙◌, ◌>>=◌,
}
use tpe_protos_g.Selector.{Item, Selector, blank, wants, op_read, op_write, FdSet}
use tpe_protos_g.Selector.Dispatch.{
  Callback, FdHandler, dispatch, serve_read, serve_write, serve, serve_from, handle_iteration,
  notify_jobs,
}
use tpe_protos_g.Selector.Table.{
  IsValid, Registration, registered, items_of, access_inside, unused_fd, registration_fields,
}

module _ {H D W : Type 0} (handlers : H → FdHandler H D W) (I : Selector H D × W → Type 0)
    (J : List ℕ → Selector H D × W → Type 0) where
  -- What a call of a handler leaves: the invariant, and a table that is no smaller.
  pub record Kept (st : Selector H D × W) (r : Option (Selector H D × W)) : Type 0 where
    pub state : Selector H D × W
    pub returns : r ≡ some state
    pub inv : I state
    pub grows : st.0.fd_size ≤ state.0.fd_size

  abbrev pub called :
      (FdHandler H D W → Option (Callback H D W))
      → Registration H D
      → Selector H D × W
      → Option (Selector H D × W)
  called op r st = dispatch handlers op r.handler (record { fd = r.fd; user_data = r.user_data }) st

  -- The item is still registered with this data, or its place was cleared.
  abbrev pub Ours : Selector H D × W → ℕ → Option D → Type 0
  Ours st i d =
      ((q : Registration H D) × (registered st.0 i ≡ some q) × (q.user_data ≡ d))
      ⊎ ((get_or (items_of st.0) i blank).interest ≡ 0)

  -- What a call of a block handler leaves, with these jobs still to notify.
  pub record Notified (jobs : List ℕ) (r : Option (Selector H D × W)) : Type 0 where
    pub state : Selector H D × W
    pub returns : r ≡ some state
    pub inv : J jobs state

  -- Handlers that keep the invariant `I` where the selector may call them: for a descriptor that is
  -- registered, with that interest, and reported ready. A read handler may remove its descriptor, but
  -- registers no other data for it. The reported sets do not matter to `I`. While the jobs of the queue
  -- are notified `J` stands in its place, which may say what it asks of the descriptors of those that
  -- are left: a block handler is called for the first of them, if that is registered.
  pub record Serves : Type 0 where
    pub valid : (st : Selector H D × W) → I st → IsValid st.0
    pub reported :
        (st : Selector H D × W) (r w : FdSet)
        → I st
        → I (record st.0 { slave_r = r; slave_w = w }, st.1)
    pub reading :
        (st : Selector H D × W) (i : ℕ) (r : Registration H D)
        → I st
        → registered st.0 i ≡ some r
        → st.0.slave_r i ≡ true
        → wants r.interest op_read ≡ true
        → (k : Kept st (called (λ h. h.handle_read) r st)) × Ours k.state i r.user_data
    pub writing :
        (st : Selector H D × W) (i : ℕ) (r : Registration H D)
        → I st
        → registered st.0 i ≡ some r
        → st.0.slave_w i ≡ true
        → wants r.interest op_write ≡ true
        → Kept st (called (λ h. h.handle_write) r st)
    pub jobs_begin : (st : Selector H D × W) → I st → J st.0.resolution_jobs st
    pub job_valid :
        (st : Selector H D × W) (n : ℕ) (jobs : List ℕ)
        → J (n ∷ jobs) st
        → IsValid st.0 × (n < st.0.fd_size)
    pub job_gone :
        (st : Selector H D × W) (n : ℕ) (jobs : List ℕ)
        → J (n ∷ jobs) st
        → registered st.0 n ≡ none
        → J jobs st
    pub blocking :
        (st : Selector H D × W) (n : ℕ) (jobs : List ℕ) (r : Registration H D)
        → J (n ∷ jobs) st
        → registered st.0 n ≡ some r
        → Notified jobs (called (λ h. h.handle_block) r st)
    pub jobs_end :
        (st : Selector H D × W) → J [] st → I (record st.0 { resolution_jobs = [] }, st.1)

  module _ (serves : Serves) where
    nothing : (st : Selector H D × W) → I st → Kept st (some st)
    nothing st inv = record { state = st; returns = refl; inv = inv; grows = omega arith }

    then_do :
        (st : Selector H D × W) (r : Option (Selector H D × W))
        (f : Selector H D × W → Option (Selector H D × W)) (k : Kept st r)
        → Kept k.state (f k.state)
        → Kept st (r >>= f)
    then_do st r f k m = record {
      state = m.state;
      returns = ap (λ x. x >>= f) k.returns ∙ m.returns;
      inv = m.inv;
      grows = omega (arith, k.grows, m.grows);
    }

    same_result :
        {st : Selector H D × W} {r r' : Option (Selector H D × W)} → r ≡ r' → Kept st r' → Kept st r
    same_result e k = record {
      state = k.state;
      returns = e ∙ k.returns;
      inv = k.inv;
      grows = k.grows;
    }

    abbrev at : Selector H D × W → ℕ → Item H D
    at st i = get_or (items_of st.0) i blank

    -- The write half of a round: the handler of the registration that stands there is called.
    write_call :
        (st : Selector H D × W) (i : ℕ) (q : Registration H D)
        → I st
        → i < st.0.fd_size
        → st.0.slave_w i ≡ true
        → registered st.0 i ≡ some q
        → serve_write handlers i (record { fd = i; user_data = q.user_data }) st
          ≡ (if wants q.interest op_write then called (λ h. h.handle_write) q st else some st)
    unfolding serve_write
    write_call st i q inv h ready e =
        let v = serves.valid st inv in
        let (_, interest, handler, _) = registration_fields (at st i) q e in
        let here : q.fd ≡ i = (v.placed i q e).0 in
        rw ready (access_inside st.0 v i _ h ∙ rw (interest, handler, here))

    serve_write-Kept :
        (st : Selector H D × W) (i : ℕ) (d : Option D)
        → I st
        → i < st.0.fd_size
        → Ours st i d
        → Kept st (serve_write handlers i (record { fd = i; user_data = d }) st)
    unfolding serve_write
    serve_write-Kept st i d inv h ours = elim (Bool-cases (st.0.slave_w i)) [
      | inl ready ↦ elim ours [
        | inl (q, e, same) ↦
            subst (λ t. Kept st (serve_write handlers i (record { fd = i; user_data = t }) st)) same
              (same_result (write_call st i q inv h ready e)
                (elim (Bool-cases (wants q.interest op_write)) [
                  | inl asked ↦ same_result (rw asked) (serves.writing st i q inv e ready asked)
                  | inr not_asked ↦ same_result (rw not_asked) (nothing st inv)
                ]))
        | inr cleared ↦
            same_result (rw ready (access_inside st.0 (serves.valid st inv) i _ h ∙ rw cleared))
              (nothing st inv)
      ]
      | inr idle ↦ same_result (rw idle) (nothing st inv)
    ]

    serve_read-Kept :
        (st : Selector H D × W) (i : ℕ) (q : Registration H D)
        → I st
        → registered st.0 i ≡ some q
        → (k : Kept st
            (serve_read handlers (at st i) (record { fd = i; user_data = q.user_data }) st))
          × Ours k.state i q.user_data
    unfolding serve_read same_result nothing
    serve_read-Kept st i q inv e =
        let (_, interest, handler, _) = registration_fields (at st i) q e in
        let here : q.fd ≡ i = ((serves.valid st inv).placed i q e).0 in
        elim (Bool-cases (st.0.slave_r i && wants q.interest op_read)) [
          | inl asked ↦
              let (k, ours) =
                serves.reading st i q inv e (ground (arith, asked)) (ground (arith, asked)) in
              (same_result (rw (interest, handler, here, asked)) k, ours)
          | inr idle ↦ (same_result (rw (interest, idle)) (nothing st inv), inl (q, e, refl))
        ]

    serve-Kept :
        (st : Selector H D × W) (i : ℕ) → I st → i < st.0.fd_size → Kept st (serve handlers i st)
    unfolding serve
    serve-Kept st i inv h =
        let v = serves.valid st inv in
        same_result (access_inside st.0 v i _ h) (elim (Option-cases (registered st.0 i)) [
          | inl free ↦ same_result (rw (unused_fd (at st i) free)) (nothing st inv)
          | inr (q, e) ↦
              let (used, _, _, own) = registration_fields (at st i) q e in
              let here : q.fd ≡ i = (v.placed i q e).0 in
              let (k, ours) = serve_read-Kept st i q inv e in
              same_result (rw (used, here, own)) (
                then_do st _
                  (λ t. serve_write handlers i (record { fd = i; user_data = q.user_data }) t) k
                  (serve_write-Kept k.state i q.user_data k.inv (omega (arith, k.grows)) ours))
        ])

    serve_from-Kept :
        (rounds i : ℕ) (st : Selector H D × W)
        → I st
        → i + rounds ≤ st.0.fd_size
        → Kept st (serve_from handlers rounds i st)
    unfolding serve_from
    serve_from-Kept zero i st inv h = nothing st inv
    serve_from-Kept (suc rounds) i st inv h =
        let k = serve-Kept st i inv (omega arith) in
        then_do st _ (λ t. serve_from handlers rounds (i + 1) t) k
          (serve_from-Kept rounds (i + 1) k.state k.inv (omega (arith, k.grows)))

    pub iteration-Kept : (st : Selector H D × W) → I st → Kept st (handle_iteration handlers st)
    unfolding handle_iteration
    iteration-Kept st inv =
        serve_from-Kept (st.0.max_fd + 1) 0 st inv (omega (arith, (serves.valid st inv).max_inside))

    pub notify_jobs-Notified :
        (jobs : List ℕ) (st : Selector H D × W)
        → J jobs st
        → Notified [] (notify_jobs handlers jobs st)
    unfolding notify_jobs
    notify_jobs-Notified [] st inv = record { state = st; returns = refl; inv = inv }
    notify_jobs-Notified (n ∷ jobs) st inv =
        let (v, h) = serves.job_valid st n jobs inv in
        notified (access_inside st.0 v n _ h) (elim (Option-cases (registered st.0 n)) [
          | inl free ↦
              notified (rw (unused_fd (at st n) free))
                (notify_jobs-Notified jobs st (serves.job_gone st n jobs inv free))
          | inr (q, e) ↦
              let (used, _, handler, own) = registration_fields (at st n) q e in
              let k = serves.blocking st n jobs q inv e in
              let m = notify_jobs-Notified jobs k.state k.inv in
              notified (rw (used, handler, own)) (record {
                state = m.state;
                returns = ap (λ x. x >>= λ t. notify_jobs handlers jobs t) k.returns ∙ m.returns;
                inv = m.inv;
              })
        ])
      where
        notified : {r r' : Option (Selector H D × W)} → r ≡ r' → Notified [] r' → Notified [] r
        notified e k = record { state = k.state; returns = e ∙ k.returns; inv = k.inv }
