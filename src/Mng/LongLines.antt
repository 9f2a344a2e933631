-- ===== src/Mng/LongLines.antt =====
-- A line that is too long for a management session (src/server/mng.c).
use tpe_protos_g.Base.{
  ℕ, ◌+◌, ◌≤◌, ◌≡◌, ◌≢◌, sym, ap, ◌∙◌, arith, false, true, [], ◌∷◌, ◌++◌, append-nil, append_assoc,
  leb, ◌==◌, Bytes, length, length-append,
}
use tpe_protos_g.Mng.Commands.{World}
use tpe_protos_g.Mng.Session.{MngSession, fitted, queue_response, take_char, process}
use tpe_protos_g.Mng.Stream.{process_silent, process_answering}
use tpe_protos_g.Mng.Text.{line_of}

-- Bytes that are neither CR nor LF.
abbrev pub Plain : Bytes → Type 0
Plain [] = Unit {0}
Plain (c ∷ cs) = (c ≢ 13) × (c ≢ 10) × Plain cs

take_ordinary_byte :
    (w : World) (s : MngSession) (c : ℕ)
    → c ≢ 13
    → c ≢ 10
    → length s.line + 1 ≤ 1023
    → take_char w s c ≡ (w, record s { line = s.line ++ c ∷ [] })
unfolding take_char
take_ordinary_byte w s c cr lf h =
    let a : (c == 13) ≡ false = ground arith in
    let b : (c == 10) ≡ false = ground arith in
    let fits : leb 1024 (length s.line + 1) ≡ false = ground arith in rw a (rw b (rw fits))

process_ordinary_bytes :
    (xs zs : Bytes) (w : World) (s : MngSession)
    → s.out ≡ []
    → Plain xs
    → length s.line + length xs ≤ 1023
    → process (xs ++ zs) w s ≡ process zs w (record s { line = s.line ++ xs })
process_ordinary_bytes [] zs w s e p h =
    ap (λ l. process zs w (record s { line = l })) (sym (append-nil s.line))
process_ordinary_bytes (c ∷ xs) zs w s e (cr, lf, p) h =
    let s' : MngSession = record s { line = s.line ++ c ∷ [] } in
    process_silent c (xs ++ zs) w s e
    ∙ ap (λ (r : World × MngSession). process (xs ++ zs) r.0 r.1)
        (take_ordinary_byte w s c cr lf (omega arith))
    ∙ process_ordinary_bytes xs zs w s' e p (omega (arith, length-append s.line (c ∷ [])))
    ∙ ap (λ l. process zs w (record s { line = l })) (append_assoc s.line (c ∷ []) xs)

-- For a session with nothing to send and no line so far, and a line of 1023 bytes and one more, none
-- of them CR or LF: it is answered with -ERR line too long at byte 1024, the line is empty again and
-- the bytes behind it, whatever they are, are kept pending.
pub long_line_restarts :
    (w : World) (s : MngSession) (xs ys : Bytes) (c : ℕ)
    → s.out ≡ []
    → s.line ≡ []
    → Plain xs
    → length xs ≡ 1023
    → c ≢ 13
    → c ≢ 10
    → process (xs ++ c ∷ ys) w s ≡ (
      w,
      record (queue_response (record s { line = [] }) (line_of "-ERR line too long")) {
        pending = ys;
      },
    )
unfolding take_char fitted
long_line_restarts w s xs ys c e empty p n cr lf =
    let s' : MngSession = record s { line = s.line ++ xs } in
    let a : (c == 13) ≡ false = ground arith in
    let b : (c == 10) ≡ false = ground arith in
    let long : leb 1024 (length s'.line + 1) ≡ true = ground (arith, length-append s.line xs) in
    let answer : MngSession =
      queue_response (record s { line = [] }) (line_of "-ERR line too long") in
    let step : take_char w s' c ≡ (w, answer) = rw a (rw b (rw long)) in
    process_ordinary_bytes xs (c ∷ ys) w s e p (omega (arith, ap length empty))
    ∙ process_silent c ys w s' e
    ∙ ap (λ (r : World × MngSession). process ys r.0 r.1) step
    ∙ process_answering ys w answer tt
