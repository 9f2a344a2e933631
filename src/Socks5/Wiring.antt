-- ===== src/Socks5/Wiring.antt =====
-- The interests that a session of src/shared/socks5.c sets: the registrations of its descriptors stay.
use tpe_protos_g.Base.{
  ℕ, ◌≡◌, ◌≢◌, ap, ◌∙◌, arith, Bool, some, none, true, false, Option, ◌==◌, if◌then◌else◌, pos, ltb,
  ◌>>=◌,
}
use tpe_protos_g.Selector.{Status, Selector, selector_set_interest, is_success, success, iargs}
use tpe_protos_g.Selector.Interest.{with_interest, set_interest-IsValid}
use tpe_protos_g.Selector.Table.{IsValid, Registration, registered}
use tpe_protos_g.Socks5.System.{set_interest}
use tpe_protos_g.Socks5.Types.{Handler, Context}

-- What is registered for a descriptor, with its interest; the rest of it is not looked at.
abbrev pub interest : Option (Registration Handler ℕ) → Option ℕ
interest none = none
interest (some r) = some r.interest

abbrev pub interest_at : Selector Handler ℕ → ℕ → Option ℕ
interest_at s n = interest (registered s n)

-- A valid selector with something registered for `n`.
pub record Watches (s : Selector Handler ℕ) (n : ℕ) : Type 0 where
  pub valid : IsValid s
  pub held : Registration Handler ℕ
  pub found : registered s n ≡ some held

interest_changed :
    (op : ℕ) (r : Option (Registration Handler ℕ)) (h : Registration Handler ℕ)
    → r ≡ some h
    → interest (with_interest op r) ≡ some op
interest_changed op r h e = ground (arith, e)

-- Setting the interest of a registered descriptor leaves the rest of the table.
pub record Sets (s s' : Selector Handler ℕ) (n op : ℕ) : Type 0 where
  pub valid : IsValid s'
  pub here : interest_at s' n ≡ some op
  pub elsewhere : (j : ℕ) → n ≢ j → registered s' j ≡ registered s j
  pub kept : (j : ℕ) → Watches s j → Watches s' j

-- as set_interest-IsValid describes the new table
Changed : Selector Handler ℕ → Selector Handler ℕ → ℕ → ℕ → Type 0
Changed s s' n op =
    (j : ℕ)
    → registered s' j ≡ (if n == j then with_interest op (registered s j) else registered s j)

still_there :
    (same : Bool) (op : ℕ) (r : Option (Registration Handler ℕ)) (h : Registration Handler ℕ)
    → r ≡ some h
    → (h' : Registration Handler ℕ) × ((if same then with_interest op r else r) ≡ some h')
still_there true op r h e = (record h { interest = op }, ground (arith, e))
still_there false op r h e = (h, e)

Changed-Sets :
    (s s' : Selector Handler ℕ) (n op : ℕ)
    → Watches s n
    → IsValid s'
    → Changed s s' n op
    → Sets s s' n op
unfolding Changed
Changed-Sets s s' n op w v change =
    let self : (n == n) ≡ true = ground arith in
    record {
      valid = v;
      here =
          ap interest (
            change n
            ∙ ap (λ b. if b then with_interest op (registered s n) else registered s n) self)
          ∙ interest_changed op (registered s n) w.held w.found;
      elsewhere = λ j other.
          let apart : (n == j) ≡ false = ground (arith, other) in
          change j
          ∙ ap (λ b. if b then with_interest op (registered s j) else registered s j) apart;
      kept = λ j there.
          let (h, e) = still_there (n == j) op (registered s j) there.held there.found in
          record { valid = v; held = h; found = change j ∙ e };
    }

Inside : Selector Handler ℕ → ℕ → ℕ → Type 0
Inside s n op =
    (s' : Selector Handler ℕ) × (selector_set_interest s (pos n) op
      ≡ some (elim (registered s n) [ none ↦ iargs | some r ↦ success ], s'))
    × IsValid s'
    × Changed s s' n op

chosen : (A B : Type 0) (b : Bool) → b ≡ true → (if b then A else B) → A
chosen A B true e x = x
chosen A B false e x = absurd (cc)

selector_changes : (s : Selector Handler ℕ) (n op : ℕ) → Watches s n → Inside s n op
unfolding Inside Changed
selector_changes s n op w =
    let (fd, below, small) = w.valid.placed n w.held w.found in
    let fits : ltb n s.fd_size ≡ true = ground (arith, w.valid.max_inside, below) in
    chosen _ _ (ltb n s.fd_size) fits (set_interest-IsValid s n op w.valid small)

pub selector_set_interest-Sets :
    (s : Selector Handler ℕ) (n op : ℕ)
    → Watches s n
    → (s' : Selector Handler ℕ) × (selector_set_interest s (pos n) op ≡ some (success, s'))
      × Sets s s' n op
unfolding Inside
selector_set_interest-Sets s n op w =
    let (s', e, v, change) = selector_changes s n op w in
    (
      s',
      e
          ∙ ap
              (λ (r : Option (Registration Handler ℕ)).
                some (elim r as (λ x. Status) [ none ↦ iargs | some h ↦ success ], s'))
              w.found,
      Changed-Sets s s' n op w v change,
    )

pub set_interest-Sets :
    (c : Context) (n op : ℕ)
    → Watches c.selector n
    → (s' : Selector Handler ℕ) × (set_interest (pos n) op c
        ≡ some (true, record c { selector = s' }))
      × Sets c.selector s' n op
unfolding set_interest
set_interest-Sets c n op w =
    let (s', e, sets) = selector_set_interest-Sets c.selector n op w in
    (s', ap (λ m. m >>= λ r. some (is_success r.0, record c { selector = r.1 })) e, sets)
