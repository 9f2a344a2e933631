-- ===== src/Stm.antt =====
-- src/shared/stm.c and stm.h: the engine of a state machine whose events come from the selector.
--
-- `K` is what a callback may change through its `struct selector_key`. `current` is the index of the
-- state in `states`, NULL being `none`. An abort, and an access behind the table, is `none`.
pub mod Init
pub mod Events
pub mod Visits
use tpe_protos_g.Base.{
  ℕ, zero, suc, ◌+◌, Bool, true, false, not, Option, none, some, List, [], ◌∷◌, ltb, leb, ◌==◌,
  if◌then◌else◌, ◌>>=◌, ◌>>◌, check, get_elem?,
}

pub record StateDefinition (K : Type 0) : Type 0 where
  pub state : ℕ
  pub on_arrival : Option (ℕ → K → Option K)
  pub on_departure : Option (ℕ → K → Option K)
  pub on_read_ready : Option (K → Option (ℕ × K))
  pub on_write_ready : Option (K → Option (ℕ × K))
  pub on_block_ready : Option (K → Option (ℕ × K))

pub record StateMachine (K : Type 0) : Type 0 where
  pub initial : ℕ
  pub states : List (StateDefinition K)
  pub max_state : ℕ
  pub current : Option ℕ

module _ {K : Type 0} where
  -- the loop over the identifiers, from `i`, with the rounds that are left
  pub check_states : ℕ → ℕ → List (StateDefinition K) → Option (Unit {0})
  check_states zero i defs = some tt
  check_states (suc rounds) i defs =
      let rest = check_states rounds (i + 1) defs in
      get_elem? defs i >>= λ d. if not (i == d.state) then none else rest

  unfoldable pub stm_init : StateMachine K → Option (StateMachine K)
  stm_init m =
      check_states (m.max_state + 1) 0 m.states
      >> (if ltb m.initial m.max_state then some (record m { current = none }) else none)

  -- a call of `on_arrival` or `on_departure`, if it is not NULL
  abbrev pub notify : Option (ℕ → K → Option K) → ℕ → K → Option K
  notify none s k = some k
  notify (some f) s k = f s k

  abbrev pub arrive : StateMachine K → ℕ → K → Option K
  arrive m i k = get_elem? m.states i >>= λ d. notify d.on_arrival d.state k

  abbrev pub depart : StateMachine K → ℕ → K → Option K
  depart m i k = get_elem? m.states i >>= λ d. notify d.on_departure d.state k

  unfoldable pub handle_first : Option ℕ → StateMachine K → K → Option (StateMachine K × K)
  handle_first (some i) m k = some (m, k)
  handle_first none m k =
      arrive m m.initial k >>= λ k'. some (record m { current = some m.initial }, k')

  -- from state `i`
  unfoldable pub jump_from : ℕ → StateMachine K → ℕ → K → Option (StateMachine K × K)
  jump_from i m next k =
      if i == next
      then some (m, k)
      else (depart m i k >>= λ k'.
          arrive m next k' >>= λ k''. some (record m { current = some next }, k''))

  unfoldable pub jump : Option ℕ → StateMachine K → ℕ → K → Option (StateMachine K × K)
  unfolding jump_from
  jump (some i) m next k = if ltb m.max_state next then none else jump_from i m next k
  jump none m next k =
      if ltb m.max_state next
      then none
      else (arrive m next k >>= λ k'. some (record m { current = some next }, k'))

  -- the call of the event's callback, and abort if it is NULL
  abbrev pub fire : Option (K → Option (ℕ × K)) → K → Option (ℕ × K)
  fire none k = none
  fire (some f) k = f k

  -- Behind handle_first: the callback of the current state, and the jump to what it returns.
  unfoldable pub react :
      (StateDefinition K → Option (K → Option (ℕ × K)))
      → StateMachine K
      → K
      → Option (ℕ × StateMachine K × K)
  react event m k = m.current >>= λ i. get_elem? m.states i >>= λ d.
      fire (event d) k >>= λ r. jump (some i) m r.0 r.1 >>= λ s. some (r.0, s.0, s.1)

  -- the body of the three handlers, which differ in the callback
  unfoldable pub stm_handler :
      (StateDefinition K → Option (K → Option (ℕ × K)))
      → StateMachine K
      → K
      → Option (ℕ × StateMachine K × K)
  stm_handler event m k = handle_first m.current m k >>= λ s. react event s.0 s.1

  abbrev pub stm_handler_read : StateMachine K → K → Option (ℕ × StateMachine K × K)
  stm_handler_read = stm_handler (λ d. d.on_read_ready)

  abbrev pub stm_handler_write : StateMachine K → K → Option (ℕ × StateMachine K × K)
  stm_handler_write = stm_handler (λ d. d.on_write_ready)

  abbrev pub stm_handler_block : StateMachine K → K → Option (ℕ × StateMachine K × K)
  stm_handler_block = stm_handler (λ d. d.on_block_ready)

  unfoldable pub stm_handler_close : StateMachine K → K → Option K
  stm_handler_close m k = elim m.current [ none ↦ some k | some i ↦ depart m i k ]

  unfoldable pub stm_state : StateMachine K → Option ℕ
  stm_state m = elim m.current [
    | none ↦ some m.initial
    | some i ↦ get_elem? m.states i >>= λ d. some d.state
  ]
