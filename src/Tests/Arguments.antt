-- ===== src/Tests/Arguments.antt =====
-- The values of the command line (src/shared/args.c) on small inputs.
use tpe_protos_g.Args.{port, nonneg_int, user, Means, user-Means, printed_arguments}
use tpe_protos_g.Args.Options.{
  opt_p, opt_u, opt_t, IsValid, parse_args, parse_args-IsValid, set_options, set_option,
}
use tpe_protos_g.Base.{Every, false, true, [], ◌≡◌, some, none, arith, codes, refl, ◌∷◌}
use tpe_protos_g.Mng.Text.{decimal, strtol, scan_digits}

user-Means_example : Means (codes "ana:a:b") (user (codes "ana:a:b"))
user-Means_example = user-Means (codes "ana:a:b")

printed_arguments_example :
    (port (decimal 70000) ≡ none) × (nonneg_int (decimal 70000) ≡ some 70000)
printed_arguments_example = printed_arguments 70000 (omega arith)

signs : (port (codes "-0") ≡ some 0) × (port (codes "-1") ≡ none) × (port (codes " +80") ≡ some 80)
unfolding port strtol scan_digits
signs = (refl, refl, refl)

parse_args-IsValid_example :
    Every IsValid
      (parse_args (opt_p (codes "1081") ∷ opt_u (codes "ana:x") ∷ opt_t (codes "5") ∷ []) false)
parse_args-IsValid_example =
    parse_args-IsValid (opt_p (codes "1081") ∷ opt_u (codes "ana:x") ∷ opt_t (codes "5") ∷ []) false

refused : parse_args (opt_p (codes "65536") ∷ []) false ≡ none
unfolding parse_args set_options set_option port strtol scan_digits
refused = refl

left_over : parse_args [] true ≡ none
unfolding parse_args set_options
left_over = refl
