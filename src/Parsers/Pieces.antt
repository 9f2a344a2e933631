-- ===== src/Parsers/Pieces.antt =====
-- Messages that arrive in pieces: hello_consume, auth_consume and request_consume (src/shared/hello.c,
-- auth.c and request.c) on two buffers and on one that holds all.
use tpe_protos_g.Base.{
  ◌≡◌, ap, subst, ◌∙◌, ℕ, Bool, true, false, Option, some, [], ◌++◌, Bytes, if◌then◌else◌,
  Bool-cases, inl, inr, ◌⊎◌,
}
use tpe_protos_g.Buffer.{Buffer}
use tpe_protos_g.Buffer.Queue.{Holds}
use tpe_protos_g.Parsers.Auth.{AuthParser, auth_step, auth_final, auth_consume}
use tpe_protos_g.Parsers.Consume.{consume, feed, consume-feed, feed-append, feed_not_final}
use tpe_protos_g.Parsers.Hello.{HelloParser, hello_step, hello_final, hello_consume}
use tpe_protos_g.Parsers.Request.{RequestParser, request_step, request_final, request_consume}

-- A call of a parser on a buffer, with what it leaves: the parser, and the bytes that are unread.
pub record Reads {P : Type 0} (call : Buffer → P → Option (Buffer × P)) (limit : ℕ) (b : Buffer)
    (p q : P) (left : Bytes) : Type 0 where
  pub buffer : Buffer
  pub returns : call b p ≡ some (buffer, q)
  pub unread : Holds buffer limit left

-- The first buffer ends the message, and then all of it in one buffer is read alike, with the second
-- piece unread; or it is read up, and the parser that goes on with the second buffer ends where one
-- does that has all of it in one buffer.
abbrev pub SameInPieces :
    {P : Type 0}
    → (Buffer → P → Option (Buffer × P))
    → (P → Bool)
    → ℕ
    → Buffer
    → Buffer
    → Buffer
    → P
    → Bytes
    → Type 0
SameInPieces {P} call final limit b c whole p ys =
    (q : P) × (left : Bytes) × Reads call limit b p q left
    × (((final q ≡ true) × Reads call limit whole p q (left ++ ys))
        ⊎ ((final q ≡ false)
            × (left ≡ [])
            × ((r : P) × (rest : Bytes) × Reads call limit c q r rest
                × Reads call limit whole p r rest)))

module _ {P : Type 0} (step : P → ℕ → P) (final : P → Bool) (limit : ℕ) where
  consume-Reads :
      (b : Buffer) (p : P) (xs : Bytes)
      → Holds b limit xs
      → Reads (consume step final) limit b p (feed step final p xs).0 (feed step final p xs).1
  consume-Reads b p xs h =
      let (b', e, h') = consume-feed step final limit b p xs h in
      record { buffer = b'; returns = e; unread = h' }

  loop-SameInPieces :
      (b c whole : Buffer) (p : P) (xs ys : Bytes)
      → Holds b limit xs
      → Holds c limit ys
      → Holds whole limit (xs ++ ys)
      → final p ≡ false
      → SameInPieces (consume step final) final limit b c whole p ys
  loop-SameInPieces b c whole p xs ys hb hc hw fp =
      let q = (feed step final p xs).0 in
      let left = (feed step final p xs).1 in
      let all = consume-Reads whole p (xs ++ ys) hw in
      let joined = feed-append step final p xs ys fp in
      (
        q,
        left,
        consume-Reads b p xs hb,
        elim (Bool-cases (final q)) [
          | inl done ↦ inl (
            done,
            subst (λ (t : P × Bytes). Reads (consume step final) limit whole p t.0 t.1)
                (joined ∙ ap (λ t. if t then (q, left ++ ys) else feed step final q ys) done) all,
          )
          | inr more ↦ inr (
            more,
            feed_not_final step final p xs fp more,
            (
              (feed step final q ys).0,
              (feed step final q ys).1,
              consume-Reads c q ys hc,
              subst (λ (t : P × Bytes). Reads (consume step final) limit whole p t.0 t.1)
                  (joined ∙ ap (λ t. if t then (q, left ++ ys) else feed step final q ys) more) all,
            ),
          )
        ],
      )

-- For two buffers with a piece each and one with both, and parsers that are in no final state:
-- hello_consume, auth_consume and request_consume fail no assert. If the first piece ends the message,
-- all of it in one buffer leaves the same parser and the second piece unread besides. Else the first
-- piece is read up, and the parser that goes on with the second ends as if it had found all in one
-- buffer, with the same bytes unread.
pub consume-SameInPieces :
    {D : Type 0} (limit : ℕ) (b c whole : Buffer) (xs ys : Bytes) (h : HelloParser D × Bool)
    (a : AuthParser × Bool) (r : RequestParser × Option Bool)
    → Holds b limit xs
    → Holds c limit ys
    → Holds whole limit (xs ++ ys)
    → hello_final h ≡ false
    → auth_final a ≡ false
    → request_final r ≡ false
    → SameInPieces (λ b p. hello_consume b p.0 p.1) hello_final limit b c whole h ys
      × SameInPieces (λ b p. auth_consume b p.0 p.1) auth_final limit b c whole a ys
      × SameInPieces (λ b p. request_consume b p.0 p.1) request_final limit b c whole r ys
unfolding hello_consume auth_consume request_consume
consume-SameInPieces limit b c whole xs ys h a r hb hc hw fh fa fr = (
  loop-SameInPieces hello_step hello_final limit b c whole h xs ys hb hc hw fh,
  loop-SameInPieces auth_step auth_final limit b c whole a xs ys hb hc hw fa,
  loop-SameInPieces request_step request_final limit b c whole r xs ys hb hc hw fr,
)
