-- ===== src/Access.antt =====
-- src/shared/access_log.c: the lines of the access log.
--
-- A line is what the three functions write behind the time of the day. The file, and the time, are
-- not modelled.
use tpe_protos_g.Base.{ℕ, Option, none, some, ◌∷◌, ◌++◌, Bytes, codes}
use tpe_protos_g.Mng.Text.{decimal}

abbrev pub Line : Type 0
Line = Bytes

-- `x ? x : other`
abbrev or_else : Bytes → Option Bytes → Bytes
or_else other none = other
or_else other (some x) = x

-- `\t%s\t%s:%u`
abbrev peers : Option Bytes → Option Bytes → ℕ → Bytes
peers user dest port =
    9 ∷ (or_else (codes "-") user ++ (9 ∷ (or_else (codes "-") dest ++ (58 ∷ decimal port))))

unfoldable pub access_log_open : Option Bytes → Bytes → ℕ → Line
access_log_open user dest port =
    peers user (some dest) port ++ (9 ∷ (codes "-" ++ (9 ∷ (codes "-" ++ (9 ∷ codes "OPEN")))))

unfoldable pub access_log_close : Option Bytes → Bytes → ℕ → ℕ → ℕ → Line
access_log_close user dest port bytes_c2o bytes_o2c =
    peers user (some dest) port
    ++ (9 ∷ (decimal bytes_c2o ++ (9 ∷ (decimal bytes_o2c ++ (9 ∷ codes "CLOSE")))))

unfoldable pub access_log_fail : Option Bytes → Bytes → ℕ → Option Bytes → Line
access_log_fail user dest port reason =
    peers user (some dest) port
    ++ (9
        ∷ (codes "-"
            ++ (9 ∷ (codes "-" ++ (9 ∷ (codes "FAIL: " ++ or_else (codes "unknown") reason))))))
