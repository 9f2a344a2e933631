-- ===== src/Selector/Dispatch.antt =====
-- src/shared/selector.c: what calls the handlers, from selector_unregister_fd to selector_select.
--
-- `W` is what the handlers may change besides the selector, which they change through its functions.
-- A handler that is NULL where it is called, and a failed assert, is `none`. A handler that grows the
-- table moves it, and the pointer `item` that handle_iteration holds then dangles; here it is read
-- again from the table. The jobs' mutex is held while their handlers run.
pub mod Serving
pub mod Select
pub mod Unregister
pub mod Coverage
use tpe_protos_g.Base.{
  ℕ, zero, suc, ◌+◌, ◌-◌, Bool, true, false, not, ◌&&◌, Option, none, some, List, [], ◌∷◌, leb,
  if◌then◌else◌, ◌>>=◌, ℤ, pos, negsuc, get_elem?, set,
}
use tpe_protos_g.Netutils.{Errno, eagain, eintr}
use tpe_protos_g.Selector.{
  Status, success, enomem, iargs, io, Item, Selector, FdSet, blank, wants, op_noop, op_read,
  op_write, items_update_fdset_for_fd, items_max_fd,
}

-- `struct selector_key`, less the selector
pub record Key (D : Type 0) : Type 0 where
  pub fd : ℕ
  pub user_data : Option D

abbrev pub Callback : Type 0 → Type 0 → Type 0 → Type 0
Callback H D W = Key D → Selector H D × W → Option (Selector H D × W)

pub record FdHandler (H D W : Type 0) : Type 0 where
  pub handle_read : Option (Callback H D W)
  pub handle_write : Option (Callback H D W)
  pub handle_block : Option (Callback H D W)
  pub handle_close : Option (Callback H D W)

-- What pselect returns: the sets of ready descriptors, or an errno.
pub data Pselect : Type 0 where
  ready : FdSet → FdSet → Pselect
  failed : Errno → Pselect

-- the errnos that are no failure
abbrev pub interrupted : Errno → Bool
interrupted eagain = true
interrupted eintr = true
interrupted _ = false

module _ {H D : Type 0} where
  -- what selector_unregister_fd does behind the call of handle_close
  unfoldable pub clear_item : ℕ → Selector H D → Option (Selector H D)
  clear_item n s = s.fds >>= λ items. get_elem? items n >>= λ item.
      let item' = record item { interest = op_noop } in
      items_update_fdset_for_fd (record s { fds = some (set items n item') }) item' >>= λ s'.
      let s'' = record s' { fds = some (set (set items n item') n blank) } in
      items_max_fd s'' >>= λ m. some (record s'' { max_fd = m })

  unfoldable pub selector_notify_block : Bool → Selector H D → ℕ → Status × Selector H D
  selector_notify_block malloc s n =
      if not malloc
      then (enomem, s)
      else (success, record s { resolution_jobs = n ∷ s.resolution_jobs })

module _ {H D W : Type 0} (handlers : H → FdHandler H D W) where
  -- the call of a handler that must be there
  abbrev pub dispatch :
      (FdHandler H D W → Option (Callback H D W))
      → Option H
      → Key D
      → Selector H D × W
      → Option (Selector H D × W)
  dispatch op handler k st = handler >>= λ h. op (handlers h) >>= λ f. f k st

  -- handle_close may be NULL
  abbrev pub close_item : Option H → Key D → Selector H D × W → Option (Selector H D × W)
  close_item handler k st =
      handler >>= λ h. elim (handlers h).handle_close [ none ↦ some st | some f ↦ f k st ]

  unfoldable pub selector_unregister_fd :
      Selector H D × W → ℤ → Option (Status × (Selector H D × W))
  selector_unregister_fd st (negsuc n) = some (iargs, st)
  selector_unregister_fd st (pos n) =
      if leb 1024 n
      then some (iargs, st)
      else (st.0.fds >>= λ items. get_elem? items n >>= λ item. elim item.fd [
        | none ↦ some (iargs, st)
        | some m ↦
            close_item item.handler (record { fd = m; user_data = item.user_data }) st >>= λ st'.
            clear_item n st'.0 >>= λ s. some (success, (s, st'.1))
      ])

  -- the second half of a round of handle_iteration
  unfoldable pub serve_write : ℕ → Key D → Selector H D × W → Option (Selector H D × W)
  serve_write i k st =
      if not (st.0.slave_w i)
      then some st
      else (st.0.fds >>= λ items. get_elem? items i >>= λ item.
          if wants item.interest op_write
          then dispatch (λ h. h.handle_write) item.handler k st
          else some st)

  -- the first half
  unfoldable pub serve_read : Item H D → Key D → Selector H D × W → Option (Selector H D × W)
  serve_read item k st =
      if st.0.slave_r k.fd && wants item.interest op_read
      then dispatch (λ h. h.handle_read) item.handler k st
      else some st

  unfoldable pub serve : ℕ → Selector H D × W → Option (Selector H D × W)
  serve i st = st.0.fds >>= λ items. get_elem? items i >>= λ item. elim item.fd [
    | none ↦ some st
    | some n ↦
        let k : Key D = record { fd = n; user_data = item.user_data } in
        serve_read item k st >>= λ st'. serve_write i k st'
  ]

  -- the `for` loop from index `i`, with the rounds that are left
  unfoldable pub serve_from : ℕ → ℕ → Selector H D × W → Option (Selector H D × W)
  serve_from zero i st = some st
  serve_from (suc rounds) i st = serve i st >>= λ st'. serve_from rounds (i + 1) st'

  unfoldable pub handle_iteration : Selector H D × W → Option (Selector H D × W)
  handle_iteration st = serve_from (st.0.max_fd + 1) 0 st

  -- the `while` loop over the jobs
  unfoldable pub notify_jobs : List ℕ → Selector H D × W → Option (Selector H D × W)
  notify_jobs [] st = some st
  notify_jobs (n ∷ jobs) st = st.0.fds >>= λ items. get_elem? items n >>= λ item. elim item.fd [
    | none ↦ notify_jobs jobs st
    | some m ↦
        dispatch (λ h. h.handle_block) item.handler (record { fd = m; user_data = item.user_data })
          st
        >>= λ st'. notify_jobs jobs st'
  ]

  unfoldable pub handle_block_notifications : Selector H D × W → Option (Selector H D × W)
  handle_block_notifications st = notify_jobs st.0.resolution_jobs st >>= λ st'.
      some (record st'.0 { resolution_jobs = [] }, st'.1)

  -- The copies of the sets are what pselect is given, and what it leaves behind.
  unfoldable pub selector_select : Pselect → Selector H D × W → Option (Status × (Selector H D × W))
  selector_select (failed e) st =
      let st' : Selector H D × W =
        (record st.0 { slave_r = st.0.master_r; slave_w = st.0.master_w }, st.1) in
      if interrupted e
      then (handle_block_notifications st' >>= λ st''. some (success, st''))
      else some (io, st')
  selector_select (ready r w) st =
      handle_iteration (record st.0 { slave_r = r; slave_w = w }, st.1) >>= λ st'.
      handle_block_notifications st' >>= λ st''. some (success, st'')
