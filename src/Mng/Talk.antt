-- ===== src/Mng/Talk.antt =====
-- A session of the management protocol (src/server/mng.c) over the events of the selector, and what
-- it owes its peer.
use tpe_protos_g.Base.{
  ◌<◌, ◌≡◌, ◌⊎◌, inl, inr, refl, sym, ap, ap₂, subst, subst₂, ◌∙◌, arith, true, false, ◌&&◌, List,
  [], ◌∷◌, ◌++◌, append-nil, append_assoc, ◌==◌, if◌then◌else◌, Bytes, length, drop, Bool-cases,
}
use tpe_protos_g.Mng.Commands.{World}
use tpe_protos_g.Mng.Replies.{Nonempty}
use tpe_protos_g.Mng.Session.{
  MngSession, Received, received, end_of_stream, recv_failed, try_again, mng_read, mng_received,
  mng_process_input, mng_write, mng_close, process, new_session,
}
use tpe_protos_g.Mng.Stream.{
  Dialogue, dialogue, hear, hear_all, Silent, Processed, process-Processed, hear_more,
}
use tpe_protos_g.Mng.Sending.{drop-Nonempty}
use tpe_protos_g.Netutils.{Sent}
use tpe_protos_g.Selector.{op_read, op_write}

-- A session in its world, with the bytes that came in and those that the peer got.
pub record Talk : Type 0 where
  pub world : World
  pub session : MngSession
  pub input : Bytes
  pub got : Bytes

pub data Event : Type 0 where
  readable : Received → Event
  writable : List Sent → Event

abbrev arrived : Received → Bytes
arrived (received c cs) = c ∷ cs
arrived _ = []

-- The bytes that a call of mng_read takes in: none if it has some pending.
abbrev taken_in : Bytes → Received → Bytes
taken_in [] r = arrived r
taken_in (c ∷ cs) r = []

-- An event of the selector, which it reports only for the interest that the session has.
unfoldable pub event : Event → Talk → Talk
event (readable r) t =
    if t.session.alive && (t.session.interest == op_read)
    then (let m = mng_read r t.world t.session in
        record {
          world = m.0;
          session = m.1;
          input = t.input ++ taken_in t.session.pending r;
          got = t.got;
        })
    else t
event (writable sends) t =
    if t.session.alive && (t.session.interest == op_write)
    then (let m = mng_write sends t.world t.session in
        record { world = m.0.0; session = m.0.1; input = t.input; got = t.got ++ m.1 })
    else t

unfoldable pub events : List Event → Talk → Talk
events [] t = t
events (e ∷ es) t = events es (event e t)

abbrev pub opened : World → Talk
opened w = record { world = w; session = new_session; input = []; got = [] }

-- the dialogue before the first byte
abbrev pub beginning : World → Dialogue
beginning w = record { world = w; line = []; rights = new_session.rights; answered = [] }

-- The peer's bytes are a first part of the answers to a first part of its input.
pub record Answers (start : World) (t : Talk) : Type 0 where
  pub heard : Bytes
  pub unheard : Bytes
  pub unsent : Bytes
  pub all_input : heard ++ unheard ≡ t.input
  pub all_answers : t.got ++ unsent ≡ (hear_all heard (beginning start)).answered

-- And while the session lives it waits for the peer's bytes with nothing left to say or to hear, or to
-- send the rest of a response.
abbrev pub Waits : World → Talk → Type 0
Waits start t =
    (a : Answers start t) × ((t.session.alive ≡ false)
      ⊎ ((t.session.interest ≡ op_read) × (a.unheard ≡ []) × (a.unsent ≡ []))
      ⊎ ((t.session.interest ≡ op_write) × Nonempty a.unsent))

-- The invariant of a session that lives.
pub record Lives (start w : World) (s : MngSession) (input got : Bytes) : Type 0 where
  pub heard : Bytes
  pub parts : heard ++ s.pending ≡ input
  pub same : dialogue w s got ≡ hear_all heard (beginning start)
  pub state :
      (Silent s × (s.pending ≡ []) × (s.rights.closing ≡ false) × (s.interest ≡ op_read))
      ⊎ ((s.interest ≡ op_write) × (s.out_sent < length s.out))

pub Lives-Waits :
    (start w : World) (s : MngSession) (input got : Bytes)
    → Lives start w s input got
    → Waits start (record { world = w; session = s; input = input; got = got })
Lives-Waits start w s input got l = (
  record {
    heard = l.heard;
    unheard = s.pending;
    unsent = drop s.out_sent s.out;
    all_input = l.parts;
    all_answers = ap (λ (d : Dialogue). d.answered) l.same;
  },
  inr (elim l.state [
    | inl (quiet, none_left, stays, reads) ↦
        inl (reads, none_left, ap₂ (λ n o. drop n o) quiet.1 quiet.0)
    | inr (writes, more) ↦ inr (writes, drop-Nonempty s.out_sent s.out more)
  ]),
)

hear_closed : (cs : Bytes) (d : Dialogue) → d.rights.closing ≡ true → hear_all cs d ≡ d
unfolding hear_all
hear_closed [] d h = refl
hear_closed (c ∷ cs) d h = rw h

pub hear_all-append :
    (xs ys : Bytes) (d : Dialogue) → hear_all (xs ++ ys) d ≡ hear_all ys (hear_all xs d)
unfolding hear_all
hear_all-append [] ys d = refl
hear_all-append (x ∷ xs) ys d = elim (Bool-cases d.rights.closing) [
  | inl closed ↦
      hear_closed (x ∷ (xs ++ ys)) d closed
      ∙ sym (ap (λ t. hear_all ys t) (hear_closed (x ∷ xs) d closed) ∙ hear_closed ys d closed)
  | inr goes_on ↦
      hear_more x (xs ++ ys) d goes_on
      ∙ hear_all-append xs ys (hear d x)
      ∙ sym (ap (λ t. hear_all ys t) (hear_more x xs d goes_on))
]

pub Lives-Answers :
    (start w w' : World) (s s' : MngSession) (input got : Bytes)
    → Lives start w s input got
    → Answers start (record { world = w'; session = s'; input = input; got = got })
Lives-Answers start w w' s s' input got l = record {
  heard = l.heard;
  unheard = s.pending;
  unsent = drop s.out_sent s.out;
  all_input = l.parts;
  all_answers = ap (λ (d : Dialogue). d.answered) l.same;
}

-- what an event leaves: a session that lives, or one that is closed
unfoldable pub Next : World → World → MngSession → Bytes → Bytes → Type 0
Next start w s input got =
    ((s.alive ≡ true) × Lives start w s input got)
    ⊎ ((s.alive ≡ false)
        × Answers start (record { world = w; session = s; input = input; got = got }))

pub Nonempty-length : (xs : Bytes) → Nonempty xs → 0 < length xs
Nonempty-length [] h = absurd h
Nonempty-length (x ∷ xs) h = omega arith

-- The loop over pending bytes, from a silent session that lives.
Processed-next :
    (start w : World) (s : MngSession) (input got cs : Bytes) (l : Bytes)
    → l ++ cs ≡ input
    → dialogue w s got ≡ hear_all l (beginning start)
    → (p : Processed s got cs w (process cs w s)) → s.interest ≡ op_read
    → Lives start (process cs w s).0 (process cs w s).1 input got
Processed-next start w s input got cs l parts same p reads = record {
  heard = l ++ p.heard;
  parts = append_assoc l p.heard (process cs w s).1.pending ∙ ap (λ t. l ++ t) p.parts ∙ parts;
  same =
      p.same
      ∙ ap (λ d. hear_all p.heard d) same
      ∙ sym (hear_all-append l p.heard (beginning start));
  state = elim p.state [
    | inl (q, none_left, stays, i) ↦ inl (q, none_left, stays, i ∙ reads)
    | inr (out, sent, i) ↦ inr (i, omega (arith, sent, Nonempty-length (process cs w s).1.out out))
  ];
}

closed-Next :
    (start w : World) (s : MngSession) (input got : Bytes)
    → Lives start w s input got
    → Next start (mng_close w s).0 (mng_close w s).1 (input ++ []) got
unfolding mng_close Next
closed-Next start w s input got l =
    subst (λ i. Next start (mng_close w s).0 (mng_close w s).1 i got) (sym (append-nil input))
      (inr (refl, Lives-Answers start w (mng_close w s).0 s (mng_close w s).1 input got l))

received-Next :
    (start w : World) (s : MngSession) (input got : Bytes) (r : Received)
    → s.alive ≡ true
    → Lives start w s input got
    → Silent s
    → s.pending ≡ []
    → s.rights.closing ≡ false
    → s.interest ≡ op_read
    → Next start (mng_received r w s).0 (mng_received r w s).1 (input ++ arrived r) got
unfolding mng_received mng_close Next
received-Next start w s input got (received c cs) alive l quiet none_left stays reads =
    let s' : MngSession = record s { pending = c ∷ cs } in
    let p = process-Processed (c ∷ cs) w s' got quiet stays in
    let whole : l.heard ≡ input =
      sym (append-nil l.heard) ∙ ap (λ t. l.heard ++ t) (sym none_left) ∙ l.parts in
    inl (
      p.kept ∙ alive,
      Processed-next start w s' (input ++ c ∷ cs) got (c ∷ cs) l.heard (ap (λ t. t ++ c ∷ cs) whole)
          l.same p reads,
    )
received-Next start w s input got end_of_stream alive l quiet none_left stays reads =
    closed-Next start w s input got l
received-Next start w s input got (recv_failed e) alive l quiet none_left stays reads =
    elim (Bool-cases (try_again e)) [
      | inl again ↦
          rw again (subst (λ i. Next start w s i got) (sym (append-nil input)) (inl (alive, l)))
      | inr broke ↦ rw broke (closed-Next start w s input got l)
    ]

pub read-Next :
    (start w : World) (s : MngSession) (input got : Bytes) (r : Received)
    → s.alive ≡ true
    → Lives start w s input got
    → s.interest ≡ op_read
    → Next start (mng_read r w s).0 (mng_read r w s).1 (input ++ taken_in s.pending r) got
unfolding mng_read
read-Next start w s input got r alive l reads = elim l.state [
  | inl (quiet, none_left, stays, i) ↦
      let as_received : mng_read r w s ≡ mng_received r w s =
        ap
          (λ (p : Bytes). elim p as (λ x. World × MngSession) [
            | [] ↦ mng_received r w s
            | c ∷ cs ↦ mng_process_input w s
          ])
          none_left in
      subst₂ (λ (m : World × MngSession) (t : Bytes). Next start m.0 m.1 t got) (sym as_received)
        (ap (λ p. input ++ taken_in p r) (sym none_left))
        (received-Next start w s input got r alive l quiet none_left stays reads)
  | inr (writes, more) ↦ absurd (omega (arith, reads, writes))
]
