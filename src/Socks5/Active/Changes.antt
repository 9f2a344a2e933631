-- ===== src/Socks5/Active/Changes.antt =====
-- The list of the live sessions (src/shared/socks5.c) while sessions begin and end.
use tpe_protos_g.Base.{
  ℕ, ◌≡◌, refl, subst, arith, Option, none, some, List, [], ◌∷◌, ◌==◌, ◌>>=◌, if◌then◌else◌, Bool,
  true, false, Bool-cases, inl, inr,
}
use tpe_protos_g.Stm.Events.{bind-eq-some}
use tpe_protos_g.Socks5.Active.{Heap, active_list_add, active_list_remove}
use tpe_protos_g.Socks5.Active.Refines.{Fresh, Stands, add-Stands}
use tpe_protos_g.Socks5.Active.Removal.{removed, is_in, remove-Stands}

-- a session that is accepted, or that is done
pub data Change : Type 0 where
  begins ends : ℕ → Change

abbrev pub change : Change → Heap → Heap
change (begins s) h = active_list_add s h
change (ends s) h = active_list_remove s h

unfoldable pub run : List Change → Heap → Heap
run [] h = h
run (c ∷ cs) h = run cs (change c h)

-- The same on a list of sessions: one begins that is not in it, and one ends that is.
abbrev pub listed : Change → List ℕ → Option (List ℕ)
listed (begins s) xs = if is_in s xs then none else some (s ∷ xs)
listed (ends s) xs = if is_in s xs then some (removed s xs) else none

unfoldable pub run_listed : List Change → List ℕ → Option (List ℕ)
run_listed [] xs = some xs
run_listed (c ∷ cs) xs = listed c xs >>= run_listed cs

is_in-Fresh : (s : ℕ) (xs : List ℕ) → is_in s xs ≡ false → Fresh s xs
is_in-Fresh s [] e = tt
is_in-Fresh s (x ∷ xs) e = elim (Bool-cases (x == s)) [
  | inl here ↦ absurd (ground (arith, e, here))
  | inr there ↦ (ground (arith, there), there, is_in-Fresh s xs (ground (arith, e, there)))
]

change-Stands :
    (c : Change) (h : Heap) (xs ys : List ℕ)
    → Stands h xs
    → listed c xs ≡ some ys
    → Stands (change c h) ys
change-Stands (begins s) h xs ys v e = by (is_in s xs) refl e
  where
    by :
        (b : Bool)
        → is_in s xs ≡ b
        → (if b then none else some (s ∷ xs)) ≡ some ys
        → Stands (active_list_add s h) ys
    by true m e = absurd (cc)
    by false m e =
        subst (Stands (active_list_add s h)) (cc) (add-Stands h s xs v (is_in-Fresh s xs m))
change-Stands (ends s) h xs ys v e = by (is_in s xs) refl e
  where
    by :
        (b : Bool)
        → is_in s xs ≡ b
        → (if b then some (removed s xs) else none) ≡ some ys
        → Stands (active_list_remove s h) ys
    by true m e = subst (Stands (active_list_remove s h)) (cc) (remove-Stands h s xs v m).0
    by false m e = absurd (cc)

-- For links that stand for a list of different sessions: while sessions begin that are not in the list
-- and sessions end that are, the links stand for the list with each one that begins put in front, and
-- each one that ends taken out.
pub changes-Stands :
    (cs : List Change) (h : Heap) (xs ys : List ℕ)
    → Stands h xs
    → run_listed cs xs ≡ some ys
    → Stands (run cs h) ys
unfolding run run_listed
changes-Stands [] h xs ys v e = subst (Stands h) (cc) v
changes-Stands (c ∷ cs) h xs ys v e =
    let (zs, first, rest) = bind-eq-some (listed c xs) (run_listed cs) e in
    changes-Stands cs (change c h) zs ys (change-Stands c h xs zs v first) rest
