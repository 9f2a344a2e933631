-- ===== src/Mng/Sending.antt =====
-- The loop of mng_write (src/server/mng.c) that sends a response.
use tpe_protos_g.Base.{
  ℕ, zero, suc, ◌+◌, ◌≤◌, ◌<◌, ◌≡◌, inl, inr, refl, ap, ◌∙◌, arith, List, [], ◌∷◌, ◌++◌,
  append_assoc, ltb, Bytes, length, take, drop, drop-add, take-append-drop-length, length-take,
  length-drop, Bool-cases,
}
use tpe_protos_g.Mng.Replies.{Nonempty}
use tpe_protos_g.Mng.Session.{try_again, send_loop, Sending, blocked, broken, stopped, also}
use tpe_protos_g.Netutils.{Sent, took, failed}

-- What a run of the send loop leaves: what was sent in it, and the rest of the response.
abbrev pub Sends : Bytes → ℕ → Sending → Type 0
Sends out sent (blocked n got) = (got ++ drop n out ≡ drop sent out) × (n < length out)
Sends out sent (broken n got) = (got ++ drop n out ≡ drop sent out) × (n < length out)
Sends out sent (stopped n got) = (got ++ drop n out ≡ drop sent out) × (n ≤ length out)

further :
    (out got : Bytes) (sent : ℕ) (r : Sending)
    → got ++ drop (sent + length got) out ≡ drop sent out
    → Sends out (sent + length got) r
    → Sends out sent (also got r)
further out got sent (blocked n more) e (h, b) =
    (append_assoc got more (drop n out) ∙ ap (λ t. got ++ t) h ∙ e, b)
further out got sent (broken n more) e (h, b) =
    (append_assoc got more (drop n out) ∙ ap (λ t. got ++ t) h ∙ e, b)
further out got sent (stopped n more) e (h, b) =
    (append_assoc got more (drop n out) ∙ ap (λ t. got ++ t) h ∙ e, b)

pub send_loop-Sends :
    (sends : List Sent) (out : Bytes) (sent : ℕ)
    → sent ≤ length out
    → Sends out sent (send_loop sends out sent)
unfolding send_loop
send_loop-Sends [] out sent h = elim (Bool-cases (ltb sent (length out))) [
  | inl more ↦ rw more (refl, ground arith)
  | inr all ↦ rw all (refl, h)
]
send_loop-Sends (failed e ∷ sends) out sent h = elim (Bool-cases (ltb sent (length out))) [
  | inr all ↦ rw all (refl, h)
  | inl more ↦ elim (Bool-cases (try_again e)) [
    | inl again ↦ rw more (rw again (refl, ground arith))
    | inr broke ↦ rw more (rw broke (refl, ground arith))
  ]
]
send_loop-Sends (took zero ∷ sends) out sent h = elim (Bool-cases (ltb sent (length out))) [
  | inr all ↦ rw all (refl, h)
  | inl more ↦ rw more (refl, h)
]
send_loop-Sends (took (suc n) ∷ sends) out sent h = elim (Bool-cases (ltb sent (length out))) [
  | inr all ↦ rw all (refl, h)
  | inl more ↦
      let got = take (suc n) (drop sent out) in
      let room : sent < length out = ground arith in
      let r =
        send_loop-Sends sends out (sent + length got)
          (omega (arith, length-take (suc n) (drop sent out), length-drop sent out)) in
      rw more (
        further out got sent (send_loop sends out (sent + length got))
          (ap (λ t. got ++ t) (drop-add sent (length got) out)
            ∙ take-append-drop-length (suc n) (drop sent out))
          r)
]

pub drop-Nonempty : (n : ℕ) (xs : Bytes) → n < length xs → Nonempty (drop n xs)
drop-Nonempty n [] h = absurd (omega arith)
drop-Nonempty zero (x ∷ xs) h = tt
drop-Nonempty (suc n) (x ∷ xs) h = drop-Nonempty n xs (omega arith)
