-- ===== src/Stm/Visits.antt =====
-- The arrivals and departures of a state machine (src/shared/stm.c) over any sequence of events.
use tpe_protos_g.Base.{
  ℕ, ◌≤◌, ◌≡◌, ◌≢◌, ◌⊎◌, inl, inr, refl, sym, ap, subst, subst₂, ◌∙◌, arith, Option, none, some,
  List, [], ◌∷◌, get_elem?, ◌>>=◌,
}
use native.Mathlib.Decide.{ℕ_discrete}
use tpe_protos_g.Stm.{
  StateDefinition, StateMachine, handle_first, jump, jump_from, fire, react, stm_handler, notify,
  arrive, depart,
}
use tpe_protos_g.Stm.Init.{IsWellFormed}
use tpe_protos_g.Stm.Events.{bind-eq-some, jump_lands, stm_handler_lands}

pub data Event : Type 0 where
  read_ready write_ready block_ready : Event

unfoldable pub callback : {K : Type 0} → Event → StateDefinition K → Option (K → Option (ℕ × K))
callback read_ready d = d.on_read_ready
callback write_ready d = d.on_write_ready
callback block_ready d = d.on_block_ready

unfoldable pub events : {K : Type 0} → List Event → StateMachine K → K → Option (StateMachine K × K)
events [] m k = some (m, k)
events (e ∷ es) m k = stm_handler (callback e) m k >>= λ r. events es r.1 r.2

-- what a callback notes when it runs
pub data Note : Type 0 where
  arrived departed : ℕ → Note

-- A log, the latest note first, of a machine that entered a state, then left it for another, and so
-- on, and is now in the state `cur`: no arrival without the departure before it, and none twice.
pub data Visits : List Note → ℕ → Type 0 where
  entered : (i : ℕ) → Visits (arrived i ∷ []) i
  moved :
      (i j : ℕ) {log : List Note} → Visits log i → i ≢ j → Visits (arrived j ∷ departed i ∷ log) j

-- The callbacks of a table keep a log: an arrival and a departure note their state, and the callbacks
-- of the events note nothing.
pub record KeepsLog {K : Type 0} (log : K → List Note) (defs : List (StateDefinition K))
    : Type 0 where
  pub arrivals :
      (i : ℕ) (d : StateDefinition K) (k k' : K)
      → get_elem? defs i ≡ some d
      → notify d.on_arrival d.state k ≡ some k'
      → log k' ≡ arrived d.state ∷ log k
  pub departures :
      (i : ℕ) (d : StateDefinition K) (k k' : K)
      → get_elem? defs i ≡ some d
      → notify d.on_departure d.state k ≡ some k'
      → log k' ≡ departed d.state ∷ log k
  pub quiet :
      (i : ℕ) (d : StateDefinition K) (e : Event) (k : K) (r : ℕ × K)
      → get_elem? defs i ≡ some d
      → fire (callback e d) k ≡ some r
      → log r.1 ≡ log k

module _ {K : Type 0} (log : K → List Note) where
  -- Where the machine stands, and what the log says of it.
  abbrev pub Standing : StateMachine K → K → Type 0
  Standing m k =
      ((m.current ≡ none) × (log k ≡ []))
      ⊎ ((i : ℕ) × (m.current ≡ some i) × (i ≤ m.max_state) × Visits (log k) i)

  module _ (m : StateMachine K) (w : IsWellFormed m) (l : KeepsLog log m.states) where
    arrive_notes :
        (i : ℕ) (k k' : K) → i ≤ m.max_state → arrive m i k ≡ some k' → log k' ≡ arrived i ∷ log k
    arrive_notes i k k' h e =
        let (d, found, id) = w.indexed i h in
        let (d', found', e') = bind-eq-some (get_elem? m.states i) _ e in
        let same : d'.state ≡ i = cc in
        l.arrivals i d' k k' found' e' ∙ ap (λ s. arrived s ∷ log k) same

    depart_notes :
        (i : ℕ) (k k' : K) → i ≤ m.max_state → depart m i k ≡ some k' → log k' ≡ departed i ∷ log k
    depart_notes i k k' h e =
        let (d, found, id) = w.indexed i h in
        let (d', found', e') = bind-eq-some (get_elem? m.states i) _ e in
        let same : d'.state ≡ i = cc in
        l.departures i d' k k' found' e' ∙ ap (λ s. departed s ∷ log k) same

    jump_from_visits :
        (i next : ℕ) (k : K) (s : StateMachine K × K)
        → i ≤ m.max_state
        → next ≤ m.max_state
        → Visits (log k) i
        → jump_from i m next k ≡ some s
        → Visits (log s.1) next
    unfolding jump_from
    jump_from_visits i next k s hi hn v e = elim (ℕ_discrete i next) [
      | yes same ↦
          let stays : s.1 ≡ k = ground (arith, same, e) in
          subst₂ (λ q j. Visits (log q) j) (sym stays) same v
      | no other ↦
          let go : depart m i k
                >>= (λ k'. arrive m next k' >>= λ k''. some (record m { current = some next }, k''))
              ≡ some s =
            ground (arith, other, e) in
          let (k₁, left, e₁) = bind-eq-some (depart m i k) _ go in
          let (k₂, came, e₂) = bind-eq-some (arrive m next k₁) _ e₁ in
          let noted : log s.1 ≡ arrived next ∷ departed i ∷ log k =
            ap log (ground (arith, e₂))
            ∙ arrive_notes next k₁ k₂ hn came
            ∙ ap (λ t. arrived next ∷ t) (depart_notes i k k₁ hi left) in
          subst (λ t. Visits t next) (sym noted) (moved i next v other)
    ]

    -- The callback of the current state, and the jump.
    react_visits :
        (ev : Event) (i ret : ℕ) (k : K) (m' : StateMachine K) (k' : K)
        → m.current ≡ some i
        → i ≤ m.max_state
        → Visits (log k) i
        → react (callback ev) m k ≡ some (ret, m', k')
        → Visits (log k') ret
    unfolding react jump
    react_visits ev i ret k m' k' at hi v e =
        let (j, at', e₁) = bind-eq-some m.current _ e in
        let (d, found, e₂) = bind-eq-some (get_elem? m.states j) _ e₁ in
        let (r, fired, e₃) = bind-eq-some (fire (callback ev d) k) _ e₂ in
        let (s, jumped, e₄) = bind-eq-some (jump (some j) m r.0 r.1) _ e₃ in
        let here : i ≡ j = cc in
        let seen : Visits (log r.1) j =
          subst₂ (λ t q. Visits t q) (sym (l.quiet j d ev k r found fired)) here v in
        let (_, below) = jump_lands m s.0 j r.0 r.1 s.1 at' jumped in
        let jumped' : jump_from j m r.0 r.1 ≡ some s = ground (arith, jumped, below) in
        let there = jump_from_visits j r.0 r.1 s (omega (arith, hi, here)) below seen jumped' in
        subst₂ (λ t q. Visits (log t) q) (ground (arith, e₄)) (ground (arith, e₄)) there

  current-IsWellFormed :
      (m : StateMachine K) (c : Option ℕ) → IsWellFormed m → IsWellFormed (record m { current = c })
  current-IsWellFormed m c w = record { initial_below = w.initial_below; indexed = w.indexed }

  handler_visits :
      (ev : Event) (m m' : StateMachine K) (ret : ℕ) (k k' : K)
      → IsWellFormed m
      → KeepsLog log m.states
      → Standing m k
      → stm_handler (callback ev) m k ≡ some (ret, m', k')
      → Visits (log k') ret
  unfolding stm_handler handle_first
  handler_visits ev m m' ret k k' w l (inl (none_yet, empty)) e =
      let (s, first, e₁) = bind-eq-some (handle_first m.current m k) _ e in
      let start : StateMachine K = record m { current = some m.initial } in
      let go : arrive m m.initial k >>= (λ k'. some (start, k')) ≡ some s =
        ground (arith, none_yet, first) in
      let (k₁, came, e₂) = bind-eq-some (arrive m m.initial k) _ go in
      let begun : s ≡ (start, k₁) = ground (arith, e₂) in
      let noted : log k₁ ≡ arrived m.initial ∷ [] =
        arrive_notes m w l m.initial k k₁ (omega (arith, w.initial_below)) came
        ∙ ap (λ t. arrived m.initial ∷ t) empty in
      react_visits start (current-IsWellFormed m (some m.initial) w) l ev m.initial ret k₁ m' k'
        refl (omega (arith, w.initial_below))
        (subst (λ t. Visits t m.initial) (sym noted) (entered m.initial))
        (subst {A = StateMachine K × K} (λ t. react (callback ev) t.0 t.1 ≡ some (ret, m', k'))
          begun e₁)
  handler_visits ev m m' ret k k' w l (inr (i, at, hi, v)) e =
      let (s, first, e₁) = bind-eq-some (handle_first m.current m k) _ e in
      let same : s ≡ (m, k) = ground (arith, at, first) in
      react_visits m w l ev i ret k m' k' at hi v (
        subst {A = StateMachine K × K} (λ t. react (callback ev) t.0 t.1 ≡ some (ret, m', k')) same
          e₁)

  -- Over any events that do not abort, from a machine that has not started: the callbacks ran as a
  -- walk does. The initial state was entered first; whenever another state was entered, the one
  -- before had just been left; none was entered twice in a row; and the last one entered is the
  -- current state. (Before the first event nothing has run.)
  pub events-Standing :
      (es : List Event) (m m' : StateMachine K) (k k' : K)
      → IsWellFormed m
      → KeepsLog log m.states
      → Standing m k
      → events es m k ≡ some (m', k')
      → Standing m' k'
  unfolding events
  events-Standing [] m m' k k' w l s e =
      let same_machine : m ≡ m' = ground (arith, e) in
      let same_data : k ≡ k' = ground (arith, e) in
      subst₂ (λ x q. Standing x q) same_machine same_data s
  events-Standing (ev ∷ es) m m' k k' w l s e =
      let (r, one, e₁) = bind-eq-some (stm_handler (callback ev) m k) _ e in
      let (lands, below, _) = stm_handler_lands (callback ev) m r.1 r.0 k r.2 w one in
      let v = handler_visits ev m r.1 r.0 k r.2 w l s one in
      let w' : IsWellFormed r.1 =
        subst (λ t. IsWellFormed t) (sym lands) (current-IsWellFormed m (some r.0) w) in
      let l' : KeepsLog log r.1.states =
        subst (λ t. KeepsLog log t) (sym (ap (λ (x : StateMachine K). x.states) lands)) l in
      events-Standing es r.1 m' r.2 k' w' l'
        (inr (
          r.0,
          ap (λ (x : StateMachine K). x.current) lands,
          omega (arith, below, ap (λ (x : StateMachine K). x.max_state) lands),
          v,
        ))
        e₁
