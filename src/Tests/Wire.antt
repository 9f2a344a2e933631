-- ===== src/Tests/Wire.antt =====
-- The parsers (src/shared/hello.c, auth.c and request.c) on small inputs.
use tpe_protos_g.Base.{
  ◌≡◌, refl, arith, some, Option, Bool, false, [], ◌∷◌, ◌++◌, Bytes, replicate, length,
}
use tpe_protos_g.Buffer.{Buffer}
use tpe_protos_g.Buffer.Queue.{Holds}
use tpe_protos_g.Parsers.Pieces.{SameInPieces, consume-SameInPieces}
use tpe_protos_g.Parsers.Hello.{
  HelloState, HelloParser, hello_parser_init, hello_consume, hello_final,
}
use tpe_protos_g.Parsers.Hello.Wire as HelloWire
use tpe_protos_g.Parsers.Auth.{AuthParser, AuthState, auth_final, auth_parser_init, auth_consume}
use tpe_protos_g.Parsers.Auth.Wire as AuthWire
use tpe_protos_g.Parsers.Request.{
  request_final, RequestParser, RequestState, request_parser_init, request_consume,
}
use tpe_protos_g.Parsers.Request.Wire as RequestWire
use tpe_protos_g.Parsers.Request.Reading.{request_consume-Reads}

-- a buffer that holds exactly `xs`
abbrev holding : Bytes → Buffer
holding xs = record { store = xs; limit = length xs; read = 0; write = length xs }

abbrev blank256 : Bytes
blank256 = replicate 256 0

abbrev hello_parser : HelloParser Bytes
hello_parser = record {
  on_authentication_method = some (λ d m. d ++ m ∷ []);
  user_data = [];
  state = HelloState.version;
  remaining = 0;
}

abbrev hello_text : Bytes
hello_text = 5 ∷ 2 ∷ 0 ∷ 2 ∷ 9 ∷ []

hello_text-Holds : Holds (holding hello_text) 5 hello_text
hello_text-Holds = ground arith

hello_consume-Reads_example :
    (b' : Buffer) × (r : HelloParser Bytes × Bool) × (left : Bytes) × (hello_consume
        (holding hello_text)
        (hello_parser_init hello_parser)
        false
      ≡ some (b', r))
    × Holds b' 5 left
    × HelloWire.Reads hello_parser false (HelloWire.greeting hello_text) (r, left)
hello_consume-Reads_example =
    HelloWire.hello_consume-Reads 5 (holding hello_text) hello_parser false hello_text (omega arith)
      hello_text-Holds

abbrev auth_text : Bytes
auth_text = 1 ∷ 2 ∷ 97 ∷ 98 ∷ 1 ∷ 99 ∷ 7 ∷ []

abbrev auth_parser : AuthParser
auth_parser = record {
  state = AuthState.error;
  remaining = 3;
  ulen = 4;
  plen = 5;
  uname = blank256;
  passwd = blank256;
}

auth_text-Holds : Holds (holding auth_text) 7 auth_text
auth_text-Holds = ground arith

auth_consume-Reads_example :
    (b' : Buffer) × (r : AuthParser × Bool) × (left : Bytes) × (auth_consume
        (holding auth_text)
        (auth_parser_init auth_parser)
        false
      ≡ some (b', r))
    × Holds b' 7 left
    × AuthWire.Reads false (AuthWire.credentials auth_text) (r, left)
auth_consume-Reads_example =
    AuthWire.auth_consume-Reads 7 (holding auth_text) auth_parser false auth_text (omega arith)
      auth_text-Holds refl refl

-- a name, and port 443
abbrev request_text : Bytes
request_text = 5 ∷ 1 ∷ 0 ∷ 3 ∷ 2 ∷ 104 ∷ 105 ∷ 1 ∷ 187 ∷ []

abbrev request_parser : RequestParser
request_parser = record {
  request = record { cmd = 0; dest_addr = record { type = 0; bytes = blank256 }; dest_port = 0 };
  state = RequestState.error;
  remaining = 0;
  read = 0;
}

request_text-Holds : Holds (holding request_text) 9 request_text
request_text-Holds = ground arith

request_consume-Reads_example :
    (b' : Buffer) × (r : RequestParser × Option Bool) × (left : Bytes) × (request_consume
        (holding request_text)
        (request_parser_init request_parser)
        (some false)
      ≡ some (b', r))
    × Holds b' 9 left
    × RequestWire.Reads (some false) (RequestWire.request_of request_text) (r, left)
request_consume-Reads_example =
    request_consume-Reads 9 (holding request_text) request_parser (some false) request_text
      (omega arith) request_text-Holds refl

-- A greeting in two pieces, the second behind its first method; the other two parsers read it too.
abbrev first_piece : Buffer
first_piece = record { store = 5 ∷ 2 ∷ 0 ∷ 0 ∷ 0 ∷ []; limit = 5; read = 0; write = 3 }

abbrev second_piece : Buffer
second_piece = record { store = hello_text; limit = 5; read = 3; write = 5 }

consume-SameInPieces_example :
    SameInPieces
      (λ b p. hello_consume b p.0 p.1)
      hello_final
      5
      first_piece
      second_piece
      (holding hello_text)
      (hello_parser, false)
      (2 ∷ 9 ∷ [])
    × SameInPieces
        (λ b p. auth_consume b p.0 p.1)
        auth_final
        5
        first_piece
        second_piece
        (holding hello_text)
        (auth_parser_init auth_parser, false)
        (2 ∷ 9 ∷ [])
    × SameInPieces
        (λ b p. request_consume b p.0 p.1)
        request_final
        5
        first_piece
        second_piece
        (holding hello_text)
        (request_parser_init request_parser, some false)
        (2 ∷ 9 ∷ [])
consume-SameInPieces_example =
    consume-SameInPieces 5 first_piece second_piece (holding hello_text) (5 ∷ 2 ∷ 0 ∷ [])
      (2 ∷ 9 ∷ []) (hello_parser, false) (auth_parser_init auth_parser, false)
      (request_parser_init request_parser, some false) (ground arith) (ground arith)
      hello_text-Holds refl refl refl

abbrev twelve : Buffer
twelve = record { store = replicate 12 0; limit = 12; read = 0; write = 1 }

twelve-Holds : Holds twelve 12 (0 ∷ [])
twelve-Holds = ground arith
