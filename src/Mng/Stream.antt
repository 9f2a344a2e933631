-- ===== src/Mng/Stream.antt =====
-- A session of the management protocol (src/server/mng.c) as a function on the stream of its bytes.
use tpe_protos_g.Base.{
  ℕ, ◌+◌, ◌≡◌, ◌⊎◌, inl, inr, refl, sym, ap, ap₂, subst, ◌∙◌, false, [], ◌∷◌, ◌++◌, append-nil, leb,
  ◌==◌, if◌then◌else◌, Bytes, length, drop, Bool-cases, List-cases,
}
use tpe_protos_g.Mng.Commands.{World, Rights, handle_line, mng_write_size}
use tpe_protos_g.Mng.Replies.{Nonempty, handle_line-Nonempty}
use tpe_protos_g.Mng.Session.{MngSession, fitted, queue_response, take_char, process}
use tpe_protos_g.Mng.Text.{line_of}
use tpe_protos_g.Selector.{op_write}

-- The protocol with no sockets: what it knows, the line so far, and what it answered.
pub record Dialogue : Type 0 where
  pub world : World
  pub line : Bytes
  pub rights : Rights
  pub answered : Bytes

-- One byte of the client. CR counts for nothing, LF ends the line, and a line of more than 1023
-- bytes is answered and dropped so far.
unfoldable pub hear : Dialogue → ℕ → Dialogue
hear d c =
    if c == 13
    then d
    else if c == 10
    then (let r = handle_line d.world d.rights d.line in
        record { world = r.0; line = []; rights = r.1.0; answered = d.answered ++ fitted r.1.1 })
    else if leb 1024 (length d.line + 1)
    then record d { line = []; answered = d.answered ++ fitted (line_of "-ERR line too long") }
    else record d { line = d.line ++ c ∷ [] }

-- A stream of bytes; what follows a line that closes the session is not heard.
unfoldable pub hear_all : Bytes → Dialogue → Dialogue
hear_all [] d = d
hear_all (c ∷ cs) d = if d.rights.closing then d else hear_all cs (hear d c)

-- The session, with the bytes that the peer got so far.
abbrev pub dialogue : World → MngSession → Bytes → Dialogue
dialogue w s got = record {
  world = w;
  line = s.line;
  rights = s.rights;
  answered = got ++ drop s.out_sent s.out;
}

fitted-Nonempty : (text : Bytes) → Nonempty text → Nonempty (fitted text)
unfolding fitted
fitted-Nonempty text h = elim (Bool-cases (leb mng_write_size (length text))) [
  | inl large ↦ rw large tt
  | inr fits ↦ rw fits h
]

-- A session with nothing to send, and one with a response.
abbrev pub Silent : MngSession → Type 0
Silent s = (s.out ≡ []) × (s.out_sent ≡ 0)

abbrev pub Answering : MngSession → Type 0
Answering s = Nonempty s.out × (s.out_sent ≡ 0) × (s.interest ≡ op_write)

-- what a step from a silent session leaves
abbrev Left : MngSession → MngSession → Type 0
Left s s' =
    (s'.alive ≡ s.alive)
    × ((Silent s' × (s'.rights ≡ s.rights) × (s'.interest ≡ s.interest)) ⊎ Answering s')

Silent-answer : (s : MngSession) (got : Bytes) → Silent s → got ++ drop s.out_sent s.out ≡ got
Silent-answer s got (e, z) = ap₂ (λ n o. got ++ drop n o) z e ∙ append-nil got

-- one byte, from a silent session
module _ (w : World) (s : MngSession) (got : Bytes) (quiet : Silent s) where
  take_lf :
      let r = handle_line w s.rights s.line in
      dialogue r.0 (queue_response (record s { line = []; rights = r.1.0 }) r.1.1) got ≡ record {
        world = r.0;
        line = [];
        rights = r.1.0;
        answered = (got ++ drop s.out_sent s.out) ++ fitted r.1.1;
      }
  take_lf =
      let r = handle_line w s.rights s.line in
      ap (λ t. record { world = r.0; line = []; rights = r.1.0; answered = t ++ fitted r.1.1 })
        (sym (Silent-answer s got quiet))

  take_char-hear :
      (c : ℕ)
      → (dialogue (take_char w s c).0 (take_char w s c).1 got ≡ hear (dialogue w s got) c)
        × Left s (take_char w s c).1
  unfolding take_char hear
  take_char-hear c = elim (Bool-cases (c == 13)) [
    | inl cr ↦ rw cr (refl, (refl, inl (quiet, refl, refl)))
    | inr more ↦ elim (Bool-cases (c == 10)) [
      | inl lf ↦ rw more (
          rw lf (
            take_lf,
            (refl, inr (fitted-Nonempty _ (handle_line-Nonempty w s.rights s.line), refl, refl)),
          ))
      | inr text ↦ elim (Bool-cases (leb 1024 (length s.line + 1))) [
        | inl long ↦ rw more (
            rw text (
              rw long (
                ap
                    (λ t. record {
                      world = w;
                      line = [];
                      rights = s.rights;
                      answered = t ++ fitted (line_of "-ERR line too long");
                    })
                    (sym (Silent-answer s got quiet)),
                (refl, inr (fitted-Nonempty _ tt, refl, refl)),
              )))
        | inr fits ↦ rw more (rw text (rw fits (refl, (refl, inl (quiet, refl, refl)))))
      ]
    ]
  ]

-- What the loop over the pending bytes leaves: it heard a first part of them, and it is silent with
-- none left, or it has a response.
pub record Processed (s : MngSession) (got cs : Bytes) (w : World) (r : World × MngSession)
    : Type 0 where
  pub heard : Bytes
  pub parts : heard ++ r.1.pending ≡ cs
  pub same : dialogue r.0 r.1 got ≡ hear_all heard (dialogue w s got)
  pub kept : r.1.alive ≡ s.alive
  pub state :
      (Silent r.1 × (r.1.pending ≡ []) × (r.1.rights.closing ≡ false) × (r.1.interest ≡ s.interest))
      ⊎ Answering r.1

pub process_silent :
    (c : ℕ) (cs : Bytes) (w : World) (s : MngSession)
    → s.out ≡ []
    → process (c ∷ cs) w s ≡ process cs (take_char w s c).0 (take_char w s c).1
unfolding process
process_silent c cs w s e = rw e

pub process_answering :
    (cs : Bytes) (w : World) (s : MngSession)
    → Nonempty s.out
    → process cs w s ≡ (w, record s { pending = cs })
unfolding process
process_answering [] w s h = refl
process_answering (c ∷ cs) w s h = elim (List-cases s.out) [
  | inl empty ↦ absurd (subst (λ t. Nonempty t) empty h)
  | inr (x, xs, e) ↦ rw e
]

pub hear_more :
    (c : ℕ) (cs : Bytes) (d : Dialogue)
    → d.rights.closing ≡ false
    → hear_all (c ∷ cs) d ≡ hear_all cs (hear d c)
unfolding hear_all
hear_more c cs d stays = rw stays

pub process-Processed :
    (cs : Bytes) (w : World) (s : MngSession) (got : Bytes)
    → Silent s
    → s.rights.closing ≡ false
    → Processed s got cs w (process cs w s)
unfolding process hear_all
process-Processed [] w s got quiet stays = record {
  heard = [];
  parts = refl;
  same = refl;
  kept = refl;
  state = inl (quiet, refl, stays, refl);
}
process-Processed (c ∷ cs) w s got quiet stays =
    let (e, (alive, left)) = take_char-hear w s got quiet c in
    let s' = (take_char w s c).1 in
    let w' = (take_char w s c).0 in
    elim left [
      | inl (quiet', rights, interest) ↦
          let stays' : s'.rights.closing ≡ false = ap (λ (a : Rights). a.closing) rights ∙ stays in
          let p = process-Processed cs w' s' got quiet' stays' in
          subst (λ r. Processed s got (c ∷ cs) w r) (sym (process_silent c cs w s quiet.0))
            (record {
              heard = c ∷ p.heard;
              parts = ap (λ t. c ∷ t) p.parts;
              same =
                  p.same
                  ∙ ap (λ d. hear_all p.heard d) e
                  ∙ sym (hear_more c p.heard (dialogue w s got) stays);
              kept = p.kept ∙ alive;
              state = elim p.state [
                | inl (q, none_left, still, same) ↦ inl (q, none_left, still, same ∙ interest)
                | inr answer ↦ inr answer
              ];
            })
      | inr answer ↦
          subst (λ r. Processed s got (c ∷ cs) w r)
            (sym (process_silent c cs w s quiet.0 ∙ process_answering cs w' s' answer.0))
            (record {
              heard = c ∷ [];
              parts = refl;
              same = e ∙ sym (hear_more c [] (dialogue w s got) stays);
              kept = alive;
              state = inr answer;
            })
    ]
