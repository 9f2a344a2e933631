-- ===== src/Netutils/Writing.antt =====
-- sock_blocking_write (src/shared/netutils.c): what the peer gets, and when it gets everything.
use tpe_protos_g.Base.{
  ℕ, zero, suc, ◌≤◌, ◌<◌, ◌≡◌, ◌⊎◌, Option, refl, sym, ap, subst, ◌∙◌, arith, none, some, List, [],
  ◌∷◌, ◌++◌, append-nil, append_assoc, Bytes, length, take, drop, take-append-drop, length-drop,
  pos, List-cases, inl, inr,
}
use tpe_protos_g.Buffer.{Buffer, buffer_read_adv}
use tpe_protos_g.Buffer.Queue.{Holds, contents, read_adv-Holds, can_read-Holds, can_read_empty}
use tpe_protos_g.Netutils.{
  Errno, Sent, took, failed, Written, returned, out_of_sends, aborted, sock_blocking_write,
}

-- The peer has a first part of the text, and the buffer holds the rest.
pub record Split (limit : ℕ) (text : Bytes) (b : Buffer) (peer : Bytes) : Type 0 where
  pub rest : Bytes
  pub held : Holds b limit rest
  pub together : peer ++ rest ≡ text

-- What a call owes: no failed assert; 0 only with everything written, or if errno was 0 and a send took
-- nothing; else a clean split.
abbrev pub Owes : ℕ → Bytes → Option Errno → Written → Type 0
Owes limit text errno (returned none b peer) =
    ((peer ≡ text) × Holds b limit []) ⊎ ((errno ≡ none) × Split limit text b peer)
Owes limit text errno (returned (some e) b peer) = Split limit text b peer
Owes limit text errno (out_of_sends b peer) = Split limit text b peer
Owes limit text errno aborted = ⊥

-- what a send of up to `n` bytes takes
abbrev got : ℕ → Buffer → Bytes
got n b = take n (contents b)

-- One send that takes something, with `b'` the buffer behind it.
module _ (n : ℕ) (sends : List Sent) (errno : Option Errno) (b b' : Buffer) (peer : Bytes)
    {limit : ℕ} where
  module _ (y : ℕ) (ys : Bytes) (some_sent : got n b ≡ y ∷ ys) where
    round_last :
        buffer_read_adv b (pos (length (got n b))) ≡ some b'
        → Holds b' limit []
        → sock_blocking_write (took n ∷ sends) errno b peer ≡ returned none b' (peer ++ got n b)
    unfolding sock_blocking_write
    round_last adv h = ground (arith, adv, some_sent, can_read_empty b' h)

    round_more :
        (x : ℕ) (xs : Bytes)
        → buffer_read_adv b (pos (length (got n b))) ≡ some b'
        → Holds b' limit (x ∷ xs)
        → sock_blocking_write (took n ∷ sends) errno b peer
          ≡ sock_blocking_write sends errno b' (peer ++ got n b)
    unfolding sock_blocking_write
    round_more x xs adv h = ground (arith, adv, some_sent, can_read-Holds b' x xs h)

-- The buffer behind a send of up to `n` bytes, whole.
advance :
    (limit n : ℕ) (b : Buffer) {rest : Bytes}
    → Holds b limit rest
    → (b' : Buffer) × (buffer_read_adv b (pos (length (take n (contents b)))) ≡ some b')
      × Holds b' limit (drop n (contents b))
advance limit n b h =
    read_adv-Holds b (take n (contents b)) (drop n (contents b))
      (subst (λ u. Holds b limit u) (sym h.holds ∙ sym (take-append-drop n (contents b))) h)

joined :
    (limit n : ℕ) (text : Bytes) (b : Buffer) (peer rest : Bytes)
    → Holds b limit rest
    → peer ++ rest ≡ text
    → (peer ++ take n (contents b)) ++ drop n (contents b) ≡ text
joined limit n text b peer rest h e =
    append_assoc peer (take n (contents b)) (drop n (contents b))
    ∙ ap (λ u. peer ++ u) (take-append-drop n (contents b) ∙ h.holds)
    ∙ e

-- Every send takes at least a byte.
abbrev pub AllTake : List Sent → Type 0
AllTake [] = Unit {0}
AllTake (took zero ∷ sends) = ⊥
AllTake (took (suc n) ∷ sends) = AllTake sends
AllTake (failed e ∷ sends) = ⊥

some_bytes :
    (n : ℕ) (rest : Bytes) (b : Buffer)
    → contents b ≡ rest
    → 0 < length rest
    → (y : ℕ) × (ys : Bytes) × (got (suc n) b ≡ y ∷ ys)
some_bytes n [] b e h = absurd (omega arith)
some_bytes n (y ∷ ys) b e h = (y, take n ys, ap (take (suc n)) e)

-- If every send takes at least a byte, as many sends as there are bytes bring the call to an end,
-- with 0 and everything written.
pub write_enough :
    (limit : ℕ) (sends : List Sent) (errno : Option Errno) (b : Buffer) (peer rest : Bytes)
    → Holds b limit rest
    → AllTake sends
    → 0 < length rest
    → length rest ≤ length sends
    → (b' : Buffer) × (sock_blocking_write sends errno b peer ≡ returned none b' (peer ++ rest))
write_enough limit [] errno b peer rest h p some_left enough = absurd (omega arith)
write_enough limit (failed x ∷ sends) errno b peer rest h p some_left enough = absurd p
write_enough limit (took zero ∷ sends) errno b peer rest h p some_left enough = absurd p
write_enough limit (took (suc n) ∷ sends) errno b peer rest h p some_left enough =
    let (b', adv, h') = advance limit (suc n) b h in
    let (y, ys, bytes) = some_bytes n rest b h.holds some_left in
    let left = drop (suc n) (contents b) in
    let shorter : length left < length rest =
      omega (arith, length-drop (suc n) (contents b), ap length h.holds) in
    let all : (peer ++ got (suc n) b) ++ left ≡ peer ++ rest =
      joined limit (suc n) (peer ++ rest) b peer rest h refl in
    elim (List-cases left) [
      | inl none_left ↦ (
        b',
        round_last (suc n) sends errno b b' peer y ys bytes adv (rw none_left at h')
            ∙ ap (λ u. returned none b' u) (sym (append-nil _) ∙ rw none_left at all),
      )
      | inr (x, xs, more) ↦
          let (b'', e) =
            write_enough limit sends errno b' (peer ++ got (suc n) b) left h' p
              (omega (arith, ap length more)) (omega arith) in
          (
            b'',
            round_more (suc n) sends errno b b' peer y ys bytes x xs adv (rw more at h')
                ∙ e
                ∙ ap (λ u. returned none b'' u) all,
          )
    ]
