-- ===== src/Parsers/Draining.antt =====
-- Where the loop of the parsers (Parsers/Consume) stops, whatever the buffer is: at a final state, or with
-- no bytes left.
use tpe_protos_g.Base.{
  ℕ, zero, suc, ◌+◌, ◌-◌, ◌≤◌, ◌≡◌, ◌⊎◌, refl, arith, Bool, true, false, Option, some, ◌>>=◌, ◌==◌,
  leb, get_elem?, pos, if◌then◌else◌, Every, bind-Every, any-Every, Bool-cases, inl, inr,
}
use tpe_protos_g.Buffer.{Buffer, buffer_can_read, buffer_read, buffer_read_adv, buffer_compact}
use tpe_protos_g.Parsers.Consume.{consume, consume_loop}

module _ {P : Type 0} (step : P → ℕ → P) (final : P → Bool) where
  -- A final state, or no bytes left.
  abbrev pub Drained : Buffer × P → Type 0
  Drained r = (final r.1 ≡ true) ⊎ (buffer_can_read r.0 ≡ false)

  abbrev Shorter : Buffer → Buffer → Type 0
  Shorter b b' = b'.write - b'.read + 1 ≤ b.write - b.read

  adv-Shorter : (b : Buffer) → Every (Shorter b) (buffer_read_adv b (pos 1))
  unfolding buffer_read_adv buffer_compact
  adv-Shorter b = elim (Bool-cases (leb (b.read + 1) b.write)) [
    | inl inside ↦ elim (Bool-cases (b.read + 1 == b.write)) [
      | inl last ↦ ground (arith, inside, last)
      | inr more ↦ ground (arith, inside, more)
    ]
    | inr outside ↦ ground (arith, outside)
  ]

  read-Shorter :
      (b : Buffer)
      → buffer_can_read b ≡ true
      → Every (λ (r : ℕ × Buffer). Shorter b r.1) (buffer_read b)
  unfolding buffer_read
  read-Shorter b e = by (buffer_can_read b) e
    where
      by :
          (more : Bool)
          → more ≡ true
          → Every
              (λ (r : ℕ × Buffer). Shorter b r.1)
              (if more
                then (do
                  ret ← get_elem? b.store b.read
                  b' ← buffer_read_adv b (pos 1)
                  some (ret, b'))
                else some (0, b))
      by true e =
          any-Every (λ (r : ℕ × Buffer). Shorter b r.1) (get_elem? b.store b.read)
            (λ ret. buffer_read_adv b (pos 1) >>= λ b'. some (ret, b'))
            (λ ret.
              bind-Every (Shorter b) (λ (r : ℕ × Buffer). Shorter b r.1) (buffer_read_adv b (pos 1))
                (λ b'. some (ret, b')) (adv-Shorter b) (λ b' l. l))
      by false e = absurd (cc)

  loop-Drained :
      (fuel : ℕ) (b : Buffer) (p : P)
      → b.write - b.read ≤ fuel
      → Every Drained (consume_loop step final fuel b p)
  unfolding consume_loop
  loop-Drained zero b p h = inr (ground arith)
  loop-Drained (suc fuel) b p h =
      go (buffer_can_read b) refl (λ b' p' less. loop-Drained fuel b' p' (omega (arith, less, h)))
    where
      by :
          (b' : Buffer) (p' : P) (f : Bool)
          → final p' ≡ f
          → Every Drained (consume_loop step final fuel b' p')
          → Every Drained
              (elim f [ true ↦ some (b', p') | false ↦ consume_loop step final fuel b' p' ])
      by b' p' true e rest = inl e
      by b' p' false e rest = rest

      taken : Option (Buffer × P)
      taken = buffer_read b >>= λ r.
          let p' = step p r.0 in
          elim (final p') [ true ↦ some (r.1, p') | false ↦ consume_loop step final fuel r.1 p' ]

      go :
          (more : Bool)
          → buffer_can_read b ≡ more
          → ((b' : Buffer) (p' : P)
              → Shorter b b'
              → Every Drained (consume_loop step final fuel b' p'))
          → Every Drained (elim more [ true ↦ taken | false ↦ some (b, p) ])
      go true e next =
          bind-Every (λ (r : ℕ × Buffer). Shorter b r.1) Drained (buffer_read b) _
            (read-Shorter b e)
            (λ r less. by r.1 (step p r.0) (final (step p r.0)) refl (next r.1 (step p r.0) less))
      go false e next = inr e

  pub consume-Drained : (b : Buffer) (p : P) → Every Drained (consume step final b p)
  unfolding consume
  consume-Drained b p = loop-Drained (b.write - b.read) b p (omega arith)
