-- ===== src/Tests/Serving.antt =====
-- selector_select (src/shared/selector.c) with a listener, which has no block handler, and a session.
use tpe_protos_g.Base.{
  ℕ, zero, suc, ◌≤◌, ◌<◌, ◌≡◌, ◌⊎◌, inl, inr, refl, sym, ap, subst, ◌∙◌, arith, some, none, true,
  false, List, [], ◌∷◌, ◌++◌, if◌then◌else◌, ◌==◌, ◌||◌, Option,
}
use tpe_protos_g.Selector.{Selector, FdSet, blank, op_read, op_write, wants, is_success}
use tpe_protos_g.Selector.Dispatch.{FdHandler, ready, selector_select}
use tpe_protos_g.Selector.Dispatch.Coverage.{Call, read_call, write_call, block_call, logger}
use tpe_protos_g.Selector.Dispatch.Select.{status_of, select_keeps}
use tpe_protos_g.Selector.Dispatch.Serving.{Serves, Kept, Notified, called}
use tpe_protos_g.Selector.Table.{IsValid, Registration, registered, asks}

-- The listener only reads, and has a handler for that alone; the session has all three.
data Kind : Type 0 where
  listener session : Kind

abbrev kinds : Kind → FdHandler Kind ℕ (List Call)
kinds listener = record {
  handle_read = (logger {H = Kind} {D = ℕ}).handle_read;
  handle_write = none;
  handle_block = none;
  handle_close = none;
}
kinds session = logger

abbrev listener_of_1 : Registration Kind ℕ
listener_of_1 = record { fd = 1; interest = 1; handler = some listener; user_data = none }

abbrev session_of_2 : Registration Kind ℕ
session_of_2 = record { fd = 2; interest = 5; handler = some session; user_data = some 2 }

-- descriptors 1 and 2 of four, with these reports and jobs
abbrev office : FdSet → FdSet → List ℕ → Selector Kind ℕ
office r w jobs = record {
  fds = some (
      blank
      ∷ record { fd = some 1; interest = 1; handler = some listener; user_data = none }
      ∷ record { fd = some 2; interest = 5; handler = some session; user_data = some 2 }
      ∷ blank
      ∷ []);
  fd_size = 4;
  max_fd = 2;
  master_r = λ i. 1 == i || 2 == i;
  master_w = λ i. 2 == i;
  slave_r = r;
  slave_w = w;
  resolution_jobs = jobs;
}

office_reads :
    (r w : FdSet) (jobs : List ℕ) (i : ℕ) (q : Registration Kind ℕ)
    → registered (office r w jobs) i ≡ some q
    → ((i ≡ 1) × (q ≡ listener_of_1)) ⊎ ((i ≡ 2) × (q ≡ session_of_2))
office_reads r w jobs zero q e = absurd (ground (arith, e))
office_reads r w jobs (suc zero) q e = inl (refl, ground (arith, e))
office_reads r w jobs (suc (suc zero)) q e = inr (refl, ground (arith, e))
office_reads r w jobs (suc (suc (suc zero))) q e = absurd (ground (arith, e))
office_reads r w jobs (suc (suc (suc (suc i)))) q e = absurd (ground (arith, e))

office-placed :
    (r w : FdSet) (jobs : List ℕ) (i : ℕ) (q : Registration Kind ℕ)
    → registered (office r w jobs) i ≡ some q
    → (q.fd ≡ i) × (i ≤ 2) × (i < 1024)
office-placed r w jobs i q e = elim (office_reads r w jobs i q e) [
  | inl (a, b) ↦ ground (arith, a, b)
  | inr (a, b) ↦ ground (arith, a, b)
]

office-asks_read :
    (r w : FdSet) (jobs : List ℕ) (i : ℕ)
    → (1 == i || 2 == i) ≡ asks op_read (registered (office r w jobs) i)
office-asks_read r w jobs zero = refl
office-asks_read r w jobs (suc zero) = refl
office-asks_read r w jobs (suc (suc zero)) = refl
office-asks_read r w jobs (suc (suc (suc zero))) = refl
office-asks_read r w jobs (suc (suc (suc (suc i)))) = ground arith

office-asks_write :
    (r w : FdSet) (jobs : List ℕ) (i : ℕ)
    → (2 == i) ≡ asks op_write (registered (office r w jobs) i)
office-asks_write r w jobs zero = refl
office-asks_write r w jobs (suc zero) = refl
office-asks_write r w jobs (suc (suc zero)) = refl
office-asks_write r w jobs (suc (suc (suc zero))) = refl
office-asks_write r w jobs (suc (suc (suc (suc i)))) = ground arith

office-IsValid : (r w : FdSet) (jobs : List ℕ) → IsValid (office r w jobs)
office-IsValid r w jobs = record {
  stored = refl;
  sized = refl;
  bounded = omega arith;
  max_inside = omega arith;
  placed = office-placed r w jobs;
  highest = inr (session_of_2, refl);
  reads = office-asks_read r w jobs;
  writes = office-asks_write r w jobs;
}

-- The jobs are of the session, or of a descriptor that is free.
abbrev Answered : List ℕ → Type 0
Answered [] = Unit {0}
Answered (n ∷ jobs) = ((n ≡ 2) ⊎ (n ≡ 3)) × Answered jobs

abbrev State : Type 0
State = Selector Kind ℕ × List Call

-- the office, with any reports and with answered jobs
record IsOffice (st : State) : Type 0 where
  r : FdSet
  w : FdSet
  jobs : List ℕ
  is : st.0 ≡ office r w jobs
  answered : Answered jobs

-- with these jobs still to notify
record LeftOver (left : List ℕ) (st : State) : Type 0 where
  office_is : IsOffice st
  answered : Answered left

at :
    (st : State)
    → IsOffice st
    → (i : ℕ) (q : Registration Kind ℕ) → registered st.0 i ≡ some q
    → ((i ≡ 1) × (q ≡ listener_of_1)) ⊎ ((i ≡ 2) × (q ≡ session_of_2))
at st o i q e = office_reads o.r o.w o.jobs i q (sym (ap (λ s. registered s i) o.is) ∙ e)

logged : (st : State) (c : Call) → IsOffice st → IsOffice (st.0, st.1 ++ c ∷ [])
logged st c o = record { r = o.r; w = o.w; jobs = o.jobs; is = o.is; answered = o.answered }

called_read :
    (st : State) (i : ℕ) (q : Registration Kind ℕ)
    → ((i ≡ 1) × (q ≡ listener_of_1)) ⊎ ((i ≡ 2) × (q ≡ session_of_2))
    → called kinds IsOffice LeftOver (λ h. h.handle_read) q st
      ≡ some (st.0, st.1 ++ read_call q.fd ∷ [])
called_read st i q (inl (a, b)) =
    subst
      (λ q.
        called kinds IsOffice LeftOver (λ h. h.handle_read) q st
        ≡ some (st.0, st.1 ++ read_call q.fd ∷ []))
      (sym b) refl
called_read st i q (inr (a, b)) =
    subst
      (λ q.
        called kinds IsOffice LeftOver (λ h. h.handle_read) q st
        ≡ some (st.0, st.1 ++ read_call q.fd ∷ []))
      (sym b) refl

called_write :
    (st : State) (i : ℕ) (q : Registration Kind ℕ)
    → ((i ≡ 1) × (q ≡ listener_of_1)) ⊎ ((i ≡ 2) × (q ≡ session_of_2))
    → wants q.interest op_write ≡ true
    → called kinds IsOffice LeftOver (λ h. h.handle_write) q st
      ≡ some (st.0, st.1 ++ write_call q.fd ∷ [])
called_write st i q (inl (a, b)) asked =
    absurd (cc (sym asked ∙ ap (λ (q : Registration Kind ℕ). wants q.interest op_write) b))
called_write st i q (inr (a, b)) asked =
    subst
      (λ q.
        called kinds IsOffice LeftOver (λ h. h.handle_write) q st
        ≡ some (st.0, st.1 ++ write_call q.fd ∷ []))
      (sym b) refl

called_block :
    (st : State)
    → called kinds IsOffice LeftOver (λ h. h.handle_block) session_of_2 st
      ≡ some (st.0, st.1 ++ block_call 2 ∷ [])
called_block st = refl

kept :
    (st : State) (m : Option State) (c : Call)
    → IsOffice st
    → m ≡ some (st.0, st.1 ++ c ∷ [])
    → Kept kinds IsOffice LeftOver st m
kept st m c o e = record {
  state = (st.0, st.1 ++ c ∷ []);
  returns = e;
  inv = logged st c o;
  grows = omega arith;
}

-- a job of which something is registered
block_session :
    (st : State) (n : ℕ) (jobs : List ℕ) (q : Registration Kind ℕ)
    → LeftOver (n ∷ jobs) st
    → registered st.0 n ≡ some q
    → Notified kinds IsOffice LeftOver jobs
        (called kinds IsOffice LeftOver (λ h. h.handle_block) q st)
block_session st n jobs q o e = elim (at st o.office_is n q e) [
  | inl (a, b) ↦ absurd (ground (arith, a, o.answered.0))
  | inr (a, b) ↦ record {
    state = (st.0, st.1 ++ block_call 2 ∷ []);
    returns =
        ap (λ q. called kinds IsOffice LeftOver (λ h. h.handle_block) q st) b ∙ called_block st;
    inv = record { office_is = logged st (block_call 2) o.office_is; answered = o.answered.1 };
  }
]

below : (n : ℕ) → (n ≡ 2) ⊎ (n ≡ 3) → n < 4
below n (inl e) = omega arith
below n (inr e) = omega arith

office-Serves : Serves kinds IsOffice LeftOver
unfolding kept
office-Serves = record {
  valid = λ st o. subst IsValid (sym o.is) (office-IsValid o.r o.w o.jobs);
  reported = λ st r w o. record {
    r = r;
    w = w;
    jobs = o.jobs;
    is = ap (λ (s : Selector Kind ℕ). record s { slave_r = r; slave_w = w }) o.is;
    answered = o.answered;
  };
  reading = λ st i q o e ready asked.
      (kept st _ (read_call q.fd) o (called_read st i q (at st o i q e)), inl (q, e, refl));
  writing = λ st i q o e ready asked.
      kept st _ (write_call q.fd) o (called_write st i q (at st o i q e) asked);
  jobs_begin = λ st o. record {
    office_is = o;
    answered = subst Answered (sym (ap (λ s. s.resolution_jobs) o.is)) o.answered;
  };
  job_valid = λ st n jobs o. (
    subst IsValid (sym o.office_is.is)
        (office-IsValid o.office_is.r o.office_is.w o.office_is.jobs),
    subst (λ s. n < s.fd_size) (sym o.office_is.is) (below n o.answered.0),
  );
  job_gone = λ st n jobs o e. record { office_is = o.office_is; answered = o.answered.1 };
  blocking = block_session;
  jobs_end = λ st o. record {
    r = o.office_is.r;
    w = o.office_is.w;
    jobs = [];
    is = ap (λ (s : Selector Kind ℕ). record s { resolution_jobs = [] }) o.office_is.is;
    answered = tt;
  };
}

-- All are ready for reading and writing, with a job of the session and one of a descriptor that is free.
abbrev busy : State
busy = (office (λ i. false) (λ i. false) (2 ∷ 3 ∷ []), [])

busy-IsOffice : IsOffice busy
busy-IsOffice = record {
  r = λ i. false;
  w = λ i. false;
  jobs = 2 ∷ 3 ∷ [];
  is = refl;
  answered = (inl refl, (inr refl, tt));
}

select_keeps_example :
    (st' : State) × (selector_select kinds (ready (λ i. true) (λ i. true)) busy
      ≡ some (status_of (ready (λ i. true) (λ i. true)), st'))
    × IsOffice st'
    × (if is_success (status_of (ready (λ i. true) (λ i. true)))
        then st'.0.resolution_jobs ≡ []
        else st'.1 ≡ [])
select_keeps_example =
    select_keeps kinds IsOffice LeftOver office-Serves (ready (λ i. true) (λ i. true)) busy
      busy-IsOffice
