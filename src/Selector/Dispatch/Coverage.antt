-- ===== src/Selector/Dispatch/Coverage.antt =====
-- Which handlers handle_iteration and handle_block_notifications (src/shared/selector.c) call, in order.
use tpe_protos_g.Base.{
  ℕ, zero, suc, ◌+◌, ◌≤◌, ◌<◌, ◌≡◌, inl, inr, arith, some, none, ◌&&◌, List, [], ◌∷◌, ◌++◌,
  append-nil, append_assoc, if◌then◌else◌, Bool-cases, Option-cases, ap, sym, ◌∙◌, get_or,
}
use tpe_protos_g.Selector.{Item, Selector, blank, wants, op_read, op_write}
use tpe_protos_g.Selector.Dispatch.{
  FdHandler, serve_read, serve_write, serve, serve_from, handle_iteration, notify_jobs,
  handle_block_notifications,
}
use tpe_protos_g.Selector.Table.{
  IsValid, Registration, registered, items_of, asks, access_inside, unused_fd, registration_fields,
}

pub data Call : Type 0 where
  read_call write_call block_call : ℕ → Call

-- handlers that only note that they were called
abbrev pub logger : {H D : Type 0} → FdHandler H D (List Call)
logger = record {
  handle_read = some (λ k st. some (st.0, st.1 ++ read_call k.fd ∷ []));
  handle_write = some (λ k st. some (st.0, st.1 ++ write_call k.fd ∷ []));
  handle_block = some (λ k st. some (st.0, st.1 ++ block_call k.fd ∷ []));
  handle_close = none;
}

-- Every descriptor of a list is inside a table of that size.
abbrev pub AllBelow : ℕ → List ℕ → Type 0
AllBelow size [] = Unit {0}
AllBelow size (n ∷ ns) = (n < size) × AllBelow size ns

module _ {H D : Type 0} where
  abbrev pub loggers : H → FdHandler H D (List Call)
  loggers h = logger

  -- the calls that are due for a descriptor
  abbrev pub due_read : Selector H D → ℕ → List Call
  due_read s i = if s.slave_r i && asks op_read (registered s i) then read_call i ∷ [] else []

  abbrev pub due_write : Selector H D → ℕ → List Call
  due_write s i = if s.slave_w i && asks op_write (registered s i) then write_call i ∷ [] else []

  abbrev pub due : Selector H D → ℕ → List Call
  due s i = due_read s i ++ due_write s i

  abbrev pub due_from : Selector H D → ℕ → ℕ → List Call
  due_from s zero i = []
  due_from s (suc rounds) i = due s i ++ due_from s rounds (i + 1)

  -- the finished jobs whose descriptor is still registered, the latest first
  abbrev pub due_jobs : Selector H D → List ℕ → List Call
  due_jobs s [] = []
  due_jobs s (n ∷ jobs) = elim (registered s n) [
    | none ↦ due_jobs s jobs
    | some r ↦ block_call n ∷ due_jobs s jobs
  ]

  module _ (s : Selector H D) (v : IsValid s)
      (equipped : (i : ℕ) (r : Registration H D)
        → registered s i ≡ some r
        → (h : H) × (r.handler ≡ some h)) where
    abbrev at : ℕ → Item H D
    at i = get_or (items_of s) i blank

    free_due : (i : ℕ) → registered s i ≡ none → due_read s i ++ due_write s i ≡ []
    free_due i free = ground (arith, free)

    module _ (i : ℕ) (log : List Call) where
      serve_free : i < s.fd_size → registered s i ≡ none → serve loggers i (s, log) ≡ some (s, log)
      unfolding serve
      serve_free h free = access_inside s v i _ h ∙ rw (unused_fd (at i) free)

      -- a round for a registered descriptor
      module _ (h : i < s.fd_size) (q : Registration H D) (taken : registered s i ≡ some q) where
        read_due :
            serve_read loggers (at i) (record { fd = i; user_data = q.user_data }) (s, log)
            ≡ some (s, log ++ due_read s i)
        unfolding serve_read
        read_due =
            let (x, given) = equipped i q taken in
            let (_, interest, handler, _) = registration_fields (at i) q taken in
            elim (Bool-cases (s.slave_r i && wants q.interest op_read)) [
              | inl due ↦ rw (interest, handler, given, taken) (rw due)
              | inr idle ↦
                  rw (interest, handler, taken)
                    (rw idle (ap (λ l. some (s, l)) (sym (append-nil log))))
            ]

        write_due :
            serve_write loggers i (record { fd = i; user_data = q.user_data }) (s, log)
            ≡ some (s, log ++ due_write s i)
        unfolding serve_write
        write_due =
            let (x, given) = equipped i q taken in
            let (_, interest, handler, _) = registration_fields (at i) q taken in
            elim (Bool-cases (s.slave_w i)) [
              | inl ready ↦ elim (Bool-cases (wants q.interest op_write)) [
                | inl asked ↦
                    rw (ready, taken)
                      (rw asked
                        (access_inside s v i _ h ∙ rw (interest, handler, given) (rw asked)))
                | inr idle ↦
                    rw (ready, taken)
                      (rw idle (
                        access_inside s v i _ h
                        ∙ rw interest (rw idle (ap (λ l. some (s, l)) (sym (append-nil log))))))
              ]
              | inr idle ↦ rw idle (ap (λ l. some (s, l)) (sym (append-nil log)))
            ]

    serve-due :
        (i : ℕ) (log : List Call)
        → i < s.fd_size
        → serve loggers i (s, log) ≡ some (s, log ++ due s i)
    unfolding serve
    serve-due i log h = elim (Option-cases (registered s i)) [
      | inl free ↦
          serve_free i log h free
          ∙ ap (λ l. some (s, l))
              (sym (append-nil log) ∙ ap (λ l. log ++ l) (sym (free_due i free)))
      | inr (q, taken) ↦
          let (used, _, _, own) = registration_fields (at i) q taken in
          let here : q.fd ≡ i = (v.placed i q taken).0 in
          access_inside s v i _ h
          ∙ rw (used, here, own)
              (rw (read_due i log h q taken) (
                write_due i (log ++ due_read s i) h q taken
                ∙ ap (λ l. some (s, l)) (append_assoc log (due_read s i) (due_write s i))))
    ]

    serve_from_due :
        (rounds i : ℕ) (log : List Call)
        → i + rounds ≤ s.fd_size
        → serve_from loggers rounds i (s, log) ≡ some (s, log ++ due_from s rounds i)
    unfolding serve_from
    serve_from_due zero i log h = ap (λ l. some (s, l)) (sym (append-nil log))
    serve_from_due (suc rounds) i log h = rw (serve-due i log (omega arith)) (
        serve_from_due rounds (i + 1) (log ++ due s i) (omega arith)
        ∙ ap (λ l. some (s, l)) (append_assoc log (due s i) (due_from s rounds (i + 1))))

    notify_jobs_due :
        (jobs : List ℕ) (log : List Call)
        → AllBelow s.fd_size jobs
        → notify_jobs loggers jobs (s, log) ≡ some (s, log ++ due_jobs s jobs)
    unfolding notify_jobs
    notify_jobs_due [] log all = ap (λ l. some (s, l)) (sym (append-nil log))
    notify_jobs_due (n ∷ jobs) log (h, all) = elim (Option-cases (registered s n)) [
      | inl free ↦
          access_inside s v n _ h
          ∙ rw (unused_fd (at n) free) (rw (free, due_jobs) (notify_jobs_due jobs log all))
      | inr (q, taken) ↦
          let (used, _, handler, own) = registration_fields (at n) q taken in
          let here : q.fd ≡ n = (v.placed n q taken).0 in
          let (x, given) = equipped n q taken in
          access_inside s v n _ h
          ∙ rw (used, here, handler, given)
              (rw (taken, due_jobs)
                (notify_jobs_due jobs (log ++ block_call n ∷ []) all
                  ∙ ap (λ l. some (s, l)) (append_assoc log (block_call n ∷ []) (due_jobs s jobs))))
    ]

    -- For a valid selector whose registrations have handlers, and handlers that change nothing but
    -- note their calls: an iteration calls, from descriptor 0 to `max_fd`, the read handler and then
    -- the write handler of each descriptor that is registered with that interest and was reported
    -- ready, once, and no other. The notifications then call the block handler for each job whose
    -- descriptor is registered, the latest job first, and leave no job.
    pub iteration_due :
        (log : List Call)
        → AllBelow s.fd_size s.resolution_jobs
        → (handle_iteration loggers (s, log) ≡ some (s, log ++ due_from s (s.max_fd + 1) 0))
          × (handle_block_notifications loggers (s, log)
              ≡ some (record s { resolution_jobs = [] }, log ++ due_jobs s s.resolution_jobs))
    unfolding handle_iteration handle_block_notifications
    iteration_due log all = (
      serve_from_due (s.max_fd + 1) 0 log (omega (arith, v.max_inside)),
      rw (notify_jobs_due s.resolution_jobs log all),
    )
