-- ===== src/Worker/Firecracker/Vsock/Exchange.antt =====
-- A whole exchange with the guest runner.
use code_execution_engine.Common.{
  ℕ, ◌+◌, ◌-◌, ◌≤◌, ◌≡◌, ◌∙◌, ap, ◌↔◌, inl, inr, false, [], ◌∷◌, none, Text, Fallible, ok, arith,
  Fallible-cases, length,
}
use code_execution_engine.Worker.Firecracker.Vsock.{
  VsockClient, Conn, handshake, is_refused, Traced, check_response, connect, ping, put_uint32,
  read_response, ExecuteReq, ExecuteResp, Until, ahead, until, Clock, vsock_request_timeout,
  receive, send, request, execute,
}

module _ (quote : Text → Text) (vc : VsockClient) (conn : Conn) where
  -- The handshake went through: the socket was dialled, the line written, and OK read.
  pub record IsOpen : Type 0 where
    pub dialled : conn.dialled ≡ none
    pub written : conn.write_failure 0 ≡ none
    pub resp : Text
    pub answered : conn.first_read ≡ ok resp
    pub accepted : is_refused resp ≡ false

  open_trace : IsOpen → connect quote vc conn ≡ (handshake vc ∷ [], ok tt)
  unfolding connect check_response
  open_trace o = ground arith

  open_inv : (u : Unit {0}) → (connect quote vc conn).1 ≡ ok u → IsOpen
  unfolding connect check_response
  open_inv u h = elim (Fallible-cases conn.first_read) [
    | inr (e, x) ↦ absurd (ground arith)
    | inl (r, x) ↦ record {
      dialled = ground arith;
      written = ground arith;
      resp = r;
      answered = x;
      accepted = ground arith;
    }
  ]

  -- `Ping` reports no error exactly when the handshake goes through.
  pub ping_iff : (ping quote vc conn ≡ none) ↔ IsOpen
  unfolding ping
  ping_iff = (
    λ h. elim (Fallible-cases (connect quote vc conn).1) [
      | inl (u, x) ↦ open_inv u x
      | inr (e, x) ↦ absurd (ground arith)
    ],
    λ o. ground (arith, open_trace o),
  )

module _ (quote : Text → Text) (marshal : ExecuteReq → Fallible Text)
    (unmarshal : Text → Fallible ExecuteResp) (vc : VsockClient) (conn : Conn) (clock : Clock)
    (lang code : Text) (timeout : ℕ) where
  abbrev exchange : Traced (ExecuteResp × Until)
  exchange = execute quote marshal unmarshal vc conn clock lang code timeout

  -- What a successful exchange consists of.
  pub record IsExchange (resp : ExecuteResp) (t : Until) : Type 0 where
    pub opened : IsOpen quote vc conn
    pub request_data : Text
    pub marshalled :
        marshal (request quote marshal unmarshal clock lang code timeout) ≡ ok request_data
    pub length_written : conn.write_failure 1 ≡ none
    pub request_written : conn.write_failure 2 ≡ none
    pub body : Text
    pub read : read_response conn.stream ≡ ok body
    pub unmarshalled : unmarshal body ≡ ok resp
    pub left : t ≡ until (clock.started + vsock_request_timeout) clock.ended

  receive_inv :
      (resp : ExecuteResp) (t : Until)
      → receive quote marshal unmarshal clock conn.stream ≡ ok (resp, t)
      → (body : Text) × (read_response conn.stream ≡ ok body)
        × (unmarshal body ≡ ok resp)
        × (t ≡ until (clock.started + vsock_request_timeout) clock.ended)
  unfolding receive
  receive_inv resp t h = elim (Fallible-cases (read_response conn.stream)) [
    | inr (e, x) ↦ absurd (ground arith)
    | inl (body, x) ↦ elim (Fallible-cases (unmarshal body)) [
      | inr (e, y) ↦ absurd (ground arith)
      | inl (r, y) ↦ (body, x, ground arith, ground arith)
    ]
  ]

  IsExchange-of_ok :
      (resp : ExecuteResp) (t : Until) → exchange.1 ≡ ok (resp, t) → IsExchange resp t
  unfolding execute send
  IsExchange-of_ok resp t h = elim (Fallible-cases (connect quote vc conn).1) [
    | inr (e, x) ↦ absurd (ground arith)
    | inl (u, x) ↦
        elim (Fallible-cases (marshal (request quote marshal unmarshal clock lang code timeout))) [
          | inr (e, y) ↦ absurd (ground arith)
          | inl (d, y) ↦
              let (body, read, unmarshalled, left) = receive_inv resp t (ground arith) in
              record {
                opened = open_inv quote vc conn u x;
                request_data = d;
                marshalled = y;
                length_written = ground arith;
                request_written = ground arith;
                body = body;
                read = read;
                unmarshalled = unmarshalled;
                left = left;
              }
        ]
  ]

  exchange_made :
      (resp : ExecuteResp) (t : Until) (x : IsExchange resp t)
      → exchange
        ≡ (handshake vc ∷ put_uint32 (length x.request_data) ∷ x.request_data ∷ [], ok (resp, t))
  unfolding execute send receive
  exchange_made resp t x = ground (arith, open_trace quote vc conn x.opened)

  -- `Execute` returns a response exactly when the handshake went through, both writes of the request
  -- went through, the stream holds an acceptable response and that is the JSON of the response. It
  -- has then written the handshake and the request as a frame and nothing more, and what it returns
  -- as a duration is the time left until its deadline.
  pub execute_iff :
      (resp : ExecuteResp) (t : Until)
      → ((exchange.1 ≡ ok (resp, t)) ↔ IsExchange resp t)
        × ((x : IsExchange resp t)
            → exchange.0 ≡ handshake vc ∷ put_uint32 (length x.request_data) ∷ x.request_data ∷ [])
  execute_iff resp t = (
    (
      IsExchange-of_ok resp t,
      λ x. ap (λ (o : Traced (ExecuteResp × Until)). o.1) (exchange_made resp t x),
    ),
    λ x. ap (λ (o : Traced (ExecuteResp × Until)). o.0) (exchange_made resp t x),
  )

  -- The duration that `Execute` returns falls as the call takes longer: it is what the call left of
  -- the thirty seconds, not what it took.
  pub execute_duration :
      (resp : ExecuteResp) (t : Until)
      → exchange.1 ≡ ok (resp, t)
      → clock.started ≤ clock.ended
      → clock.ended ≤ clock.started + vsock_request_timeout
      → t ≡ ahead (vsock_request_timeout - (clock.ended - clock.started))
  unfolding until
  execute_duration resp t h k l = (IsExchange-of_ok resp t h).left ∙ ground arith
