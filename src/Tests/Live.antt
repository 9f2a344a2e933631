-- ===== src/Tests/Live.antt =====
-- The list of the live sessions (src/shared/socks5.c) on a small input.
use tpe_protos_g.Base.{none, some, refl, ◌≡◌, List, [], ◌∷◌}
use tpe_protos_g.Socks5.Active.{Heap, active_list_add, active_list_remove}
use tpe_protos_g.Socks5.Active.Changes.{Change, begins, ends, run, run_listed, changes-Stands}
use tpe_protos_g.Socks5.Active.Refines.{Stands}

abbrev no_sessions : Heap
no_sessions = record { links = λ t. record { active_prev = none; active_next = none }; head = none }

-- Three sessions begin, and the one in the middle ends, then the first.
abbrev changes : List Change
changes = begins 5 ∷ begins 7 ∷ begins 9 ∷ ends 7 ∷ ends 9 ∷ begins 7 ∷ []

changes_head : (run changes no_sessions).head ≡ some 7
unfolding run active_list_add active_list_remove
changes_head = refl

changes-Stands_example : Stands (run changes no_sessions) (7 ∷ 5 ∷ [])
unfolding run_listed
changes-Stands_example =
    changes-Stands changes no_sessions [] (7 ∷ 5 ∷ []) (record { linked = refl; distinct = tt })
      refl
