-- ===== src/Worker/Firecracker/Vsock.antt =====
-- worker/firecracker/vsock/vsock.go. The connection is a value that says what its calls do: whether
-- it can be dialled, what the first Read returns, the bytes that follow, and which Write fails.
-- JSON, `%q` and the clock are parameters. What the client writes is recorded, a text for each Write.
pub mod Frames
pub mod Exchange
mod Tests
use code_execution_engine.Common.{
  ℤ, second, ℕ, ◌+◌, ◌-◌, ◌*◌, ◌/◌, ◌%◌, ◌^◌, Bool, true, false, not, ◌||◌, List, [], ◌∷◌, ◌++◌,
  Option, none, some, Text, Fallible, ok, err, codes, decimal, same, ltb, leb, if◌then◌else◌,
  length, take, drop,
}

abbrev pub default_vsock_port : ℕ
default_vsock_port = 5000

abbrev pub vsock_request_timeout : ℕ
vsock_request_timeout = 30 * second

pub record VsockClient : Type 0 where
  pub uds_path : Text
  pub port : ℕ

pub record Conn : Type 0 where
  pub dialled : Option Text
  pub first_read : Fallible Text
  pub stream : Text
  pub write_failure : ℕ → Option Text

unfoldable pub handshake : VsockClient → Text
handshake vc = codes "CONNECT " ++ (decimal vc.port ++ codes "\n")

-- `n < 2 || string(resp[:2]) != "OK"` on the bytes that Read returned.
unfoldable pub is_refused : Text → Bool
is_refused resp = ltb (length resp) 2 || not (same (take 2 resp) (codes "OK"))

-- A call with its effect: the texts written, in order, and its result.
abbrev pub Traced : Type 0 → Type 0
Traced A = List Text × Fallible A

module _ (quote : Text → Text) where
  unfoldable pub check_response : Text → Text → Traced (Unit {0})
  check_response sent resp =
      if is_refused resp
      then (sent ∷ [], err (codes "vsock handshake failed: " ++ quote resp))
      else (sent ∷ [], ok tt)

  unfoldable pub connect : VsockClient → Conn → Traced (Unit {0})
  connect vc conn = elim conn.dialled [
    | some e ↦ ([], err (codes "dial UDS " ++ (vc.uds_path ++ (codes ": " ++ e))))
    | none ↦ elim (conn.write_failure 0) [
      | some e ↦ ([], err (codes "send CONNECT: " ++ e))
      | none ↦ elim conn.first_read [
        | err e ↦ (handshake vc ∷ [], err (codes "read CONNECT resp: " ++ e))
        | ok resp ↦ check_response (handshake vc) resp
      ]
    ]
  ]

  unfoldable pub ping : VsockClient → Conn → Option Text
  ping vc conn = elim (connect vc conn).1 [ err e ↦ some e | ok _ ↦ none ]

-- `binary.BigEndian.PutUint32(_, uint32(n))` and `Uint32`.
unfoldable pub put_uint32 : ℕ → Text
put_uint32 n = (n / 2 ^ 24 % 256) ∷ (n / 2 ^ 16 % 256) ∷ (n / 2 ^ 8 % 256) ∷ (n % 256) ∷ []

unfoldable pub uint32 : Text → ℕ
uint32 (a ∷ b ∷ c ∷ d ∷ _) = a * 2 ^ 24 + b * 2 ^ 16 + c * 2 ^ 8 + d
uint32 _ = 0

-- `io.ReadFull` of `n` bytes: those and what is left, or the error of a stream that ends early.
unfoldable pub read_full : ℕ → Text → Fallible (Text × Text)
read_full n stream =
    if leb n (length stream)
    then ok (take n stream, drop n stream)
    else err (if ltb 0 (length stream) then codes "unexpected EOF" else codes "EOF")

abbrev pub max_response : ℕ
max_response = 1024 * 1024

infixl 5 ◌>>=◌
abbrev pub ◌>>=◌ {ℓ κ} : {A : Type ℓ} {B : Type κ} → Fallible A → (A → Fallible B) → Fallible B
ok a >>= f = f a
err e >>= f = err e

-- `fmt.Errorf("…: %w", err)`.
abbrev pub wrap {ℓ} : {A : Type ℓ} → Text → Fallible A → Fallible A
wrap context (ok a) = ok a
wrap context (err e) = err (context ++ (codes ": " ++ e))

abbrev pub within_cap : ℕ → Fallible (Unit {0})
within_cap n = if ltb max_response n then err (codes "response too large: " ++ decimal n) else ok tt

-- The reads of `Execute`: the length, its check, and the body.
unfoldable pub read_body : ℕ → Text → Fallible Text
read_body resp_len stream = do
  _ ← within_cap resp_len
  (body, _) ← wrap (codes "read resp") (read_full resp_len stream)
  ok body

unfoldable pub read_response : Text → Fallible Text
read_response stream = do
  (len_buf, rest) ← wrap (codes "read resp len") (read_full 4 stream)
  read_body (uint32 len_buf) rest

pub record ExecuteReq : Type 0 where
  pub trace_id : Text
  pub lang : Text
  pub code : Text
  pub timeout : ℕ

pub record ExecuteResp : Type 0 where
  pub stdout : Text
  pub stderr : Text
  pub exit_code : ℤ
  pub execution_time : ℤ
  pub error : Text
  pub timed_out : Bool

-- `time.Until`: how far the deadline is ahead, or how long it has passed.
pub data Until : Type 0 where
  ahead : ℕ → Until
  behind : ℕ → Until

unfoldable pub until : ℕ → ℕ → Until
until deadline now = if leb now deadline then ahead (deadline - now) else behind (now - deadline)

-- The times that `Execute` reads: for the trace, for the deadline, at the end.
pub record Clock : Type 0 where
  pub traced : ℕ
  pub started : ℕ
  pub ended : ℕ

module _ (quote : Text → Text) (marshal : ExecuteReq → Fallible Text)
    (unmarshal : Text → Fallible ExecuteResp) where
  -- From the response on.
  unfoldable pub receive : Clock → Text → Fallible (ExecuteResp × Until)
  receive clock stream = do
    body ← read_response stream
    resp ← wrap (codes "unmarshal resp") (unmarshal body)
    ok (resp, until (clock.started + vsock_request_timeout) clock.ended)

  -- The two writes of the request, the second and third of the connection.
  unfoldable pub send : Clock → Conn → List Text → Text → Traced (ExecuteResp × Until)
  send clock conn sent data_ = elim (conn.write_failure 1) [
    | some e ↦ (sent, err (codes "write len: " ++ e))
    | none ↦ elim (conn.write_failure 2) [
      | some e ↦ (sent ++ put_uint32 (length data_) ∷ [], err (codes "write req: " ++ e))
      | none ↦ (sent ++ put_uint32 (length data_) ∷ data_ ∷ [], receive clock conn.stream)
    ]
  ]

  abbrev request : Clock → Text → Text → ℕ → ExecuteReq
  request clock lang code timeout = record {
    trace_id = codes "tr-" ++ decimal clock.traced;
    lang = lang;
    code = code;
    timeout = timeout;
  }

  unfoldable pub execute :
      VsockClient → Conn → Clock → Text → Text → ℕ → Traced (ExecuteResp × Until)
  execute vc conn clock lang code timeout = elim (connect quote vc conn).1 [
    | err e ↦ ((connect quote vc conn).0, err (codes "vsock connect: " ++ e))
    | ok _ ↦ elim (marshal (request clock lang code timeout)) [
      | err e ↦ ((connect quote vc conn).0, err (codes "marshal request: " ++ e))
      | ok data_ ↦ send clock conn (connect quote vc conn).0 data_
    ]
  ]
