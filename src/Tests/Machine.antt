-- ===== src/Tests/Machine.antt =====
-- The state machine (src/shared/stm.c) on a small table.
use tpe_protos_g.Base.{
  ℕ, zero, suc, ◌≡◌, ◌≤◌, ◌↔◌, ◌∷◌, inl, [], List, refl, arith, some, none, get_elem?, ◌-◌,
}
use tpe_protos_g.Stm.{
  StateDefinition, StateMachine, stm_init, stm_handler, stm_state, fire, react, jump, jump_from,
  handle_first,
}
use tpe_protos_g.Stm.Init.{IsWellFormed, stm_init_iff}
use tpe_protos_g.Stm.Events.{stm_handler_lands}
use tpe_protos_g.Stm.Visits.{
  Event, read_ready, write_ready, block_ready, callback, events, Note, arrived, departed, KeepsLog,
  Standing, events-Standing,
}

-- Two states that pass the turn to each other; each notes its arrivals and departures.
abbrev turn : ℕ → StateDefinition (List Note)
turn i = record {
  state = i;
  on_arrival = some (λ s log. some (arrived s ∷ log));
  on_departure = some (λ s log. some (departed s ∷ log));
  on_read_ready = some (λ log. some (1 - i, log));
  on_write_ready = some (λ log. some (i, log));
  on_block_ready = none;
}

abbrev machine : StateMachine (List Note)
machine = record { initial = 0; states = turn 0 ∷ turn 1 ∷ []; max_state = 1; current = none }

machine-indexed :
    (i : ℕ)
    → i ≤ 1
    → (d : StateDefinition (List Note)) × (get_elem? machine.states i ≡ some d) × (d.state ≡ i)
machine-indexed zero h = (turn 0, refl, refl)
machine-indexed (suc zero) h = (turn 1, refl, refl)
machine-indexed (suc (suc i)) h = absurd (omega arith)

machine-IsWellFormed : IsWellFormed machine
machine-IsWellFormed = record { initial_below = omega arith; indexed = machine-indexed }

-- one event: it enters state 0, and the callback passes the turn to state 1
one_turn :
    stm_handler (callback read_ready) machine []
    ≡ some (1, record machine { current = some 1 }, arrived 1 ∷ departed 0 ∷ arrived 0 ∷ [])
unfolding callback stm_handler react jump jump_from handle_first
one_turn = refl

stm_init_iff_example :
    (stm_init machine ≡ some machine)
    ↔ (IsWellFormed machine × (machine ≡ record machine { current = none }))
stm_init_iff_example = stm_init_iff machine machine

stm_handler_lands_example :
    (record machine { current = some 1 } ≡ record machine { current = some 1 })
    × (1 ≤ machine.max_state)
    × (stm_state (record machine { current = some 1 }) ≡ some 1)
stm_handler_lands_example =
    stm_handler_lands (callback read_ready) machine (record machine { current = some 1 }) 1 []
      (arrived 1 ∷ departed 0 ∷ arrived 0 ∷ []) machine-IsWellFormed one_turn

abbrev log_of : List Note → List Note
log_of log = log

turn_of :
    (i : ℕ) (d : StateDefinition (List Note))
    → get_elem? machine.states i ≡ some d
    → (j : ℕ) × (turn j ≡ d)
turn_of zero d e = (0, ground (arith, e))
turn_of (suc zero) d e = (1, ground (arith, e))
turn_of (suc (suc i)) d e = absurd (ground (arith, e))

quiet_turn :
    (e : Event) (d : StateDefinition (List Note)) (k : List Note) (r : ℕ × List Note)
    → (j : ℕ) × (turn j ≡ d)
    → fire (callback e d) k ≡ some r
    → r.1 ≡ k
unfolding callback
quiet_turn read_ready d k r (j, same) e = ground (arith, same, e)
quiet_turn write_ready d k r (j, same) e = ground (arith, same, e)
quiet_turn block_ready d k r (j, same) e = absurd (ground (arith, same, e))

machine-KeepsLog : KeepsLog log_of machine.states
machine-KeepsLog = record {
  arrivals = λ i d k k' found e. ground (arith, found, e, turn_of i d found);
  departures = λ i d k k' found e. ground (arith, found, e, turn_of i d found);
  quiet = λ i d e k r found fired. quiet_turn e d k r (turn_of i d found) fired;
}

two_turns :
    events (read_ready ∷ write_ready ∷ read_ready ∷ []) machine []
    ≡ some (
      record machine { current = some 0 },
      arrived 0 ∷ departed 1 ∷ arrived 1 ∷ departed 0 ∷ arrived 0 ∷ [],
    )
unfolding events callback stm_handler react jump jump_from handle_first
two_turns = refl

events-Standing_example :
    Standing log_of
      (record machine { current = some 0 })
      (arrived 0 ∷ departed 1 ∷ arrived 1 ∷ departed 0 ∷ arrived 0 ∷ [])
events-Standing_example =
    events-Standing log_of (read_ready ∷ write_ready ∷ read_ready ∷ []) machine
      (record machine { current = some 0 }) []
      (arrived 0 ∷ departed 1 ∷ arrived 1 ∷ departed 0 ∷ arrived 0 ∷ []) machine-IsWellFormed
      machine-KeepsLog (inl (refl, refl)) two_turns
