-- ===== src/Socks5/States.antt =====
-- The states of a SOCKS5 session, `enum socks_v5state` of src/shared/socks5.c.
use tpe_protos_g.Base.{ℕ}

abbrev pub hello_read : ℕ
hello_read = 0

abbrev pub hello_write : ℕ
hello_write = 1

abbrev pub auth_read : ℕ
auth_read = 2

abbrev pub auth_write : ℕ
auth_write = 3

abbrev pub request_read : ℕ
request_read = 4

abbrev pub request_resolv : ℕ
request_resolv = 5

abbrev pub connecting : ℕ
connecting = 6

abbrev pub request_write : ℕ
request_write = 7

abbrev pub copy : ℕ
copy = 8

abbrev pub done : ℕ
done = 9

abbrev pub error : ℕ
error = 10
