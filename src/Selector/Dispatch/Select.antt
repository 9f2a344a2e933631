-- ===== src/Selector/Dispatch/Select.antt =====
-- selector_select (src/shared/selector.c) from a state in which its handlers keep an invariant.
use tpe_protos_g.Base.{
  ℕ, List, ◌≡◌, refl, some, Option, [], if◌then◌else◌, Bool-cases, inl, inr, ap, ◌>>=◌,
}
use tpe_protos_g.Selector.{Status, success, io, is_success, Selector}
use tpe_protos_g.Selector.Dispatch.{
  FdHandler, Pselect, ready, failed, interrupted, handle_block_notifications, selector_select,
}
use tpe_protos_g.Selector.Dispatch.Serving.{Serves, iteration-Kept, notify_jobs-Notified}

-- what selector_select returns
abbrev pub status_of : Pselect → Status
status_of (ready r w) = success
status_of (failed e) = if interrupted e then success else io

module _ {H D W : Type 0} (handlers : H → FdHandler H D W) (I : Selector H D × W → Type 0)
    (J : List ℕ → Selector H D × W → Type 0) (serves : Serves handlers I J) where
  abbrev Quiet : Option (Selector H D × W) → Type 0
  Quiet r = (st' : Selector H D × W) × (r ≡ some st') × I st' × (st'.0.resolution_jobs ≡ [])

  notifications-Quiet :
      (st : Selector H D × W) → I st → Quiet (handle_block_notifications handlers st)
  unfolding handle_block_notifications
  notifications-Quiet st inv =
      let k =
        notify_jobs-Notified handlers I J serves st.0.resolution_jobs st
          (serves.jobs_begin st inv) in
      (
        (record k.state.0 { resolution_jobs = [] }, k.state.1),
        ap (λ r. r >>= λ (t : Selector H D × W). some (record t.0 { resolution_jobs = [] }, t.1))
            k.returns,
        serves.jobs_end k.state k.inv,
        refl,
      )

  -- For handlers that keep an invariant (which implies a valid selector) and shrink no table where they
  -- are called for a registered descriptor, with that interest and reported ready, a read handler
  -- registering no other data for its descriptor, and block handlers that keep what the invariant says
  -- of the jobs of the queue, where they are called for the registered descriptor of the next job: a
  -- call of selector_select, whatever pselect reports, fails no assert, finds every handler that it
  -- calls, accesses no table out of bounds, and keeps the invariant. It returns SELECTOR_IO only for an
  -- errno other than EAGAIN and EINTR, and else leaves no job in the queue.
  pub select_keeps :
      (p : Pselect) (st : Selector H D × W)
      → I st
      → (st' : Selector H D × W) × (selector_select handlers p st ≡ some (status_of p, st'))
        × I st'
        × (if is_success (status_of p) then st'.0.resolution_jobs ≡ [] else st'.1 ≡ st.1)
  unfolding selector_select
  select_keeps (ready r w) st inv =
      let k =
        iteration-Kept handlers I J serves (record st.0 { slave_r = r; slave_w = w }, st.1)
          (serves.reported st r w inv) in
      let (st', e, inv', none_left) = notifications-Quiet k.state k.inv in
      (st', rw (k.returns) (rw e), inv', none_left)
  select_keeps (failed x) st inv = elim (Bool-cases (interrupted x)) [
    | inl again ↦
        let (st', e, inv', none_left) =
          notifications-Quiet
            (record st.0 { slave_r = st.0.master_r; slave_w = st.0.master_w }, st.1)
            (serves.reported st st.0.master_r st.0.master_w inv) in
        (st', rw again (rw e), inv', rw again none_left)
    | inr broken ↦ (
      (record st.0 { slave_r = st.0.master_r; slave_w = st.0.master_w }, st.1),
      rw broken,
      serves.reported st st.0.master_r st.0.master_w inv,
      rw broken refl,
    )
  ]
