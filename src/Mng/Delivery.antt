-- ===== src/Mng/Delivery.antt =====
-- A session of the management protocol (src/server/mng.c) over any events: what the peer gets.
use tpe_protos_g.Base.{
  ℕ, ◌≤◌, ◌<◌, ◌≡◌, inl, inr, refl, sym, ap, subst, ◌∙◌, arith, true, false, ◌&&◌, List, [], ◌∷◌,
  ◌++◌, append-nil, append_assoc, ◌==◌, if◌then◌else◌, Bytes, length, drop, drop_all, Bool-cases,
  List-cases,
}
use tpe_protos_g.Mng.Commands.{World}
use tpe_protos_g.Mng.Replies.{Nonempty}
use tpe_protos_g.Mng.Session.{
  MngSession, mng_process_input, mng_write, mng_close, response_sent, send_loop, Sending, blocked,
  broken, stopped, after_loop, read_again,
}
use tpe_protos_g.Mng.Stream.{Dialogue, dialogue, hear_all, Processed, process-Processed}
use tpe_protos_g.Mng.Sending.{Sends, send_loop-Sends}
use tpe_protos_g.Mng.Talk.{
  Talk, Event, readable, writable, event, events, opened, beginning, Waits, Lives, Lives-Waits,
  Lives-Answers, Next, hear_all-append, Nonempty-length, read-Next,
}
use tpe_protos_g.Selector.{op_read, op_write}

module _ (start w : World) (s : MngSession) (input got : Bytes) (alive : s.alive ≡ true)
    (l : Lives start w s input got) (writes : s.interest ≡ op_write) where
  -- the same dialogue, with more of the response sent
  further_on :
      (n : ℕ) (more : Bytes)
      → more ++ drop n s.out ≡ drop s.out_sent s.out
      → dialogue w (record s { out_sent = n }) (got ++ more) ≡ hear_all l.heard (beginning start)
  further_on n more h =
      ap (λ t. record { world = w; line = s.line; rights = s.rights; answered = t })
        (append_assoc got more (drop n s.out) ∙ ap (λ t. got ++ t) h)
      ∙ l.same

  part_sent :
      (n : ℕ) (more : Bytes)
      → more ++ drop n s.out ≡ drop s.out_sent s.out
      → n < length s.out
      → Lives start w (record s { out_sent = n }) input (got ++ more)
  part_sent n more h b = record {
    heard = l.heard;
    parts = l.parts;
    same = further_on n more h;
    state = inr (writes, b);
  }

  abbrev spoken : MngSession
  spoken = record s { out = []; out_sent = 0 }

  -- The whole response is sent.
  module _ (more : Bytes) (h : more ++ drop (length s.out) s.out ≡ drop s.out_sent s.out) where
    all_said : got ++ more ≡ (hear_all l.heard (beginning start)).answered
    all_said =
        ap (λ t. got ++ t)
          (sym (append-nil more)
            ∙ ap (λ t. more ++ t) (sym (drop_all (length s.out) s.out (omega arith)))
            ∙ h)
        ∙ ap (λ (d : Dialogue). d.answered) l.same

    spoken_same : dialogue w spoken (got ++ more) ≡ hear_all l.heard (beginning start)
    spoken_same =
        ap (λ t. record { world = w; line = s.line; rights = s.rights; answered = t })
          (append-nil (got ++ more) ∙ all_said ∙ sym (ap (λ (d : Dialogue). d.answered) l.same))
        ∙ l.same

    closing-Next : Next start (mng_close w spoken).0 (mng_close w spoken).1 input (got ++ more)
    unfolding mng_close Next
    closing-Next = inr (
      refl,
      record {
        heard = l.heard;
        unheard = s.pending;
        unsent = [];
        all_input = l.parts;
        all_answers = append-nil (got ++ more) ∙ all_said;
      },
    )

    -- The bytes that are still pending are heard.
    resumed-Next :
        (r : World × MngSession)
        → Processed spoken (got ++ more) s.pending w r
        → Next start (read_again r).0 (read_again r).1 input (got ++ more)
    unfolding Next
    resumed-Next r p =
        let heard = l.heard ++ p.heard in
        let parts : heard ++ r.1.pending ≡ input =
          append_assoc l.heard p.heard r.1.pending ∙ ap (λ t. l.heard ++ t) p.parts ∙ l.parts in
        let same : dialogue r.0 r.1 (got ++ more) ≡ hear_all heard (beginning start) =
          p.same
          ∙ ap (λ d. hear_all p.heard d) spoken_same
          ∙ sym (hear_all-append l.heard p.heard (beginning start)) in
        elim p.state [
          | inl (q, none_left, stays, i) ↦
              subst (λ (m : MngSession). Next start r.0 m input (got ++ more))
                (sym (
                  ap
                    (λ (o : Bytes). elim o as (λ x. MngSession) [
                      | [] ↦ record r.1 { interest = op_read }
                      | x ∷ xs ↦ r.1
                    ])
                    q.0))
                (inl (
                  p.kept ∙ alive,
                  record {
                    heard = heard;
                    parts = parts;
                    same = same;
                    state = inl (q, none_left, stays, refl);
                  },
                ))
          | inr (out, sent, i) ↦ elim (List-cases r.1.out) [
            | inl empty ↦ absurd (subst (λ t. Nonempty t) empty out)
            | inr (y, ys, e) ↦
                subst (λ (m : MngSession). Next start r.0 m input (got ++ more))
                  (sym (
                    ap
                      (λ (o : Bytes). elim o as (λ x. MngSession) [
                        | [] ↦ record r.1 { interest = op_read }
                        | x ∷ xs ↦ r.1
                      ])
                      e))
                  (inl (
                    p.kept ∙ alive,
                    record {
                      heard = heard;
                      parts = parts;
                      same = same;
                      state = inr (i, omega (arith, sent, Nonempty-length r.1.out out));
                    },
                  ))
          ]
        ]

    whole_sent :
        (n : ℕ)
        → Next start
            (response_sent w (record s { out_sent = n })).0
            (response_sent w (record s { out_sent = n })).1
            input
            (got ++ more)
    unfolding response_sent
    whole_sent n = elim (Bool-cases s.rights.closing) [
      | inl closes ↦
          subst (λ (m : World × MngSession). Next start m.0 m.1 input (got ++ more))
            (sym (
              ap (λ b. if b then mng_close w spoken else read_again (mng_process_input w spoken))
                closes))
            closing-Next
      | inr stays ↦
          subst (λ (m : World × MngSession). Next start m.0 m.1 input (got ++ more))
            (sym (
              ap (λ b. if b then mng_close w spoken else read_again (mng_process_input w spoken))
                stays))
            (resumed-Next (mng_process_input w spoken)
              (process-Processed s.pending w spoken (got ++ more) (refl, refl) stays))
    ]

  sent-Next :
      (r : Sending)
      → Sends s.out s.out_sent r
      → Next start (after_loop w s r).0.0 (after_loop w s r).0.1 input (got ++ (after_loop w s r).1)
  unfolding mng_close Next
  sent-Next (blocked n more) (h, b) = inl (alive, part_sent n more h b)
  sent-Next (broken n more) (h, b) = inr (
    refl,
    Lives-Answers start w _ (record s { out_sent = n }) _ input (got ++ more)
        (part_sent n more h b),
  )
  sent-Next (stopped n more) (h, b) = elim (Bool-cases (n == length s.out)) [
    | inl all ↦
        let here : n ≡ length s.out = ground (arith, all) in
        rw all (whole_sent more (ap (λ k. more ++ drop k s.out) (sym here) ∙ h) n)
    | inr some_left ↦ rw some_left (inl (alive, part_sent n more h (ground (arith, some_left, b))))
  ]

sent_room :
    (start w : World) (s : MngSession) (input got : Bytes)
    → Lives start w s input got
    → s.out_sent ≤ length s.out
sent_room start w s input got l = elim l.state [
  | inl (quiet, _, _, _) ↦ omega (arith, quiet.1)
  | inr (writes, more) ↦ omega (arith, more)
]

abbrev NextOf : World → Talk → Type 0
NextOf start t = Next start t.world t.session t.input t.got

event-Lives :
    (start : World) (e : Event) (t : Talk)
    → t.session.alive ≡ true
    → Lives start t.world t.session t.input t.got
    → NextOf start (event e t)
unfolding event mng_write Next
event-Lives start (readable r) t alive l =
    elim (Bool-cases (t.session.alive && (t.session.interest == op_read))) [
      | inl due ↦
          rw due (read-Next start t.world t.session t.input t.got r alive l (ground (arith, due)))
      | inr idle ↦ rw idle (inl (alive, l))
    ]
event-Lives start (writable sends) t alive l =
    elim (Bool-cases (t.session.alive && (t.session.interest == op_write))) [
      | inl due ↦ rw due (
          sent-Next start t.world t.session t.input t.got alive l (ground (arith, due))
            (send_loop sends t.session.out t.session.out_sent)
            (send_loop-Sends sends t.session.out t.session.out_sent
              (sent_room start t.world t.session t.input t.got l)))
      | inr idle ↦ rw idle (inl (alive, l))
    ]

-- A session that is closed hears no event.
event_closed : (e : Event) (t : Talk) → t.session.alive ≡ false → event e t ≡ t
unfolding event
event_closed (readable r) t dead = ground (arith, dead)
event_closed (writable sends) t dead = ground (arith, dead)

events_next :
    (start : World) (es : List Event) (t : Talk) → NextOf start t → NextOf start (events es t)
unfolding events Next
events_next start [] t n = n
events_next start (e ∷ es) t (inl (alive, l)) =
    events_next start es (event e t) (event-Lives start e t alive l)
events_next start (e ∷ es) t (inr (dead, a)) =
    events_next start es (event e t)
      (subst (λ u. NextOf start u) (sym (event_closed e t dead)) (inr (dead, a)))

-- Over any events of the selector, however recv cuts the input and send cuts the output: what the
-- peer got is a first part of the answers to the input, heard as one stream of lines, with nothing
-- lost, repeated or out of order. While the session lives it either waits for input, and then all of
-- the input is answered and all answers are sent, or it waits to send the rest of a response.
pub events-Waits : (w : World) (es : List Event) → Waits w (events es (opened w))
unfolding Next hear_all
events-Waits w es =
    elim (events_next w es (opened w) (
      inl (
        refl,
        record {
          heard = [];
          parts = refl;
          same = refl;
          state = inl ((refl, refl), refl, refl, refl);
        },
      ))) [
        | inl (alive, l) ↦
            Lives-Waits w (events es (opened w)).world (events es (opened w)).session
              (events es (opened w)).input (events es (opened w)).got l
        | inr (dead, a) ↦ (a, inl dead)
      ]
