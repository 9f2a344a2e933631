-- ===== src/Config/Laws.antt =====
-- Setting and getting parameters (src/shared/config.c).
use tpe_protos_g.Base.{
  ℕ, true, false, Option, none, some, if◌then◌else◌, ℤ, pos, negsuc, Bytes, codes, str_eq,
  str_eq→eq, ◌≡◌, arith, refl, ap, ◌∙◌, ◌&&◌, ◌⊎◌, inr, str_eq_refl,
}
use tpe_protos_g.Config.{
  Config, config_set_key, config_get_key, config_is_key, set_known, get_known,
}

str_eq_self : (a b : Bytes) → a ≡ b → str_eq a b ≡ true
str_eq_self a b e = ap (λ t. str_eq t b) e ∙ str_eq_refl b

-- After config_set_key, config_get_key returns the new value for the key that was set, if the call
-- was accepted, and for every other key, and after a call that was not accepted, what it returned
-- before. A call that is not accepted changes nothing.
pub get-set_key :
    (c : Config) (key other : Bytes) (value old : ℤ)
    → let (done, c') = config_set_key c (some key) value in
      (config_get_key (some c') (some other) (some old) ≡ (
        if done && str_eq key other
        then (true, some value)
        else config_get_key (some c) (some other) (some old)))
      × ((done ≡ true) ⊎ (c' ≡ c))
unfolding config_set_key config_get_key set_known get_known
get-set_key c key other (negsuc n) old = (refl, inr refl)
get-set_key c key other (pos n) old = ground (
  arith,
  str_eq→eq key other,
  str_eq_self key other,
  str_eq→eq key (codes "negotiation-timeout"),
  str_eq→eq key (codes "connect-timeout"),
  str_eq→eq key (codes "idle-timeout"),
  str_eq→eq key (codes "max-connections"),
  str_eq→eq other (codes "negotiation-timeout"),
  str_eq→eq other (codes "connect-timeout"),
  str_eq→eq other (codes "idle-timeout"),
  str_eq→eq other (codes "max-connections"),
)

-- config_set_key accepts exactly what config_is_key knows, with a value that is not negative; a key
-- that is NULL is never known.
pub set_key-is_key :
    (c : Config) (key : Option Bytes) (n : ℕ)
    → ((config_set_key c key (pos n)).0 ≡ config_is_key key)
      × ((config_set_key c key (negsuc n)).0 ≡ false)
      × (config_is_key none ≡ false)
unfolding config_set_key config_get_key config_is_key set_known get_known
set_key-is_key c none n = ground arith
set_key-is_key c (some key) n = ground arith
