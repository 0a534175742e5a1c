-- ===== src/Worker/Firecracker/Vsock/Frames.antt =====
-- Length-prefixed frames: what the client writes, and what it accepts.
use mathlib.Core.Path.{ap₂}
use mathlib.Core.List.{append_assoc}
use code_execution_engine.Common.{
  ℕ, ◌+◌, ◌*◌, ◌/◌, ◌%◌, ◌^◌, ◌≤◌, ◌<◌, ◌≡◌, refl, sym, ◌∙◌, ap, ◌↔◌, inl, inr, [], ◌∷◌, ◌++◌, Text,
  ok, err, codes, decimal, arith, lt→ltb, Fallible-cases, All, All-append_left, length,
  take-append_length, drop-append_length, take-append-drop, length-append, length-take_of_le,
}
use code_execution_engine.Worker.Firecracker.Vsock.{
  put_uint32, uint32, read_body, read_full, read_response, max_response,
}

-- A length below 2 ^ 32 is read back as it was written.
pub uint32-put_uint32 : (n : ℕ) → n < 2 ^ 32 → uint32 (put_uint32 n) ≡ n
unfolding uint32 put_uint32
uint32-put_uint32 n h = omega arith

length-put_uint32 : (n : ℕ) → length (put_uint32 n) ≡ 4
unfolding put_uint32
length-put_uint32 n = refl

read_full_exact :
    (n : ℕ) (xs rest : Text) → length xs ≡ n → read_full n (xs ++ rest) ≡ ok (xs, rest)
unfolding read_full
read_full_exact n xs rest e =
    rw (← e) (
      ground (arith, length-append xs rest, take-append_length xs rest, drop-append_length xs rest))

read_full_inv :
    (n : ℕ) (stream xs rest : Text)
    → read_full n stream ≡ ok (xs, rest)
    → (stream ≡ xs ++ rest) × (length xs ≡ n)
unfolding read_full
read_full_inv n stream xs rest h =
    ground (arith, take-append-drop n stream, length-take_of_le n stream)

-- A frame as the client writes one and as the guest answers: the length in four bytes, the body.
abbrev pub frame : Text → Text
frame body = put_uint32 (length body) ++ body

read_body_exact :
    (body rest : Text)
    → length body ≤ max_response
    → read_body (length body) (body ++ rest) ≡ ok body
unfolding read_body
read_body_exact body rest h = ground (arith, read_full_exact (length body) body rest refl)

read_body_inv :
    (n : ℕ) (stream body : Text)
    → read_body n stream ≡ ok body
    → (rest : Text) × (stream ≡ body ++ rest) × (length body ≡ n) × (n ≤ max_response)
unfolding read_body
read_body_inv n stream body h = elim (Fallible-cases (read_full n stream)) [
  | inr (e, x) ↦ absurd (ground arith)
  | inl ((xs, rest), x) ↦
      let same : xs ≡ body = ground arith in
      let (split, len) = read_full_inv n stream xs rest x in
      (rest, split ∙ ap (λ b. b ++ rest) same, ap length (sym same) ∙ len, ground arith)
]

uint32-inv :
    (len_buf : Text)
    → length len_buf ≡ 4
    → All (λ b. b < 256) len_buf
    → put_uint32 (uint32 len_buf) ≡ len_buf
unfolding uint32 put_uint32
uint32-inv (a ∷ b ∷ c ∷ d ∷ []) h bytes =
    let n = a * 2 ^ 24 + b * 2 ^ 16 + c * 2 ^ 8 + d in
    let first : n / 2 ^ 24 % 256 ≡ a = omega arith in
    let second : n / 2 ^ 16 % 256 ≡ b = omega arith in
    let third : n / 2 ^ 8 % 256 ≡ c = omega arith in
    let fourth : n % 256 ≡ d = omega arith in cc (first, second, third, fourth)
uint32-inv (a ∷ b ∷ c ∷ d ∷ e ∷ s) h bytes = absurd (omega arith)
uint32-inv (a ∷ b ∷ c ∷ []) h bytes = absurd (omega arith)
uint32-inv (a ∷ b ∷ []) h bytes = absurd (omega arith)
uint32-inv (a ∷ []) h bytes = absurd (omega arith)
uint32-inv [] h bytes = absurd (omega arith)

response_inv :
    (stream body : Text)
    → All (λ b. b < 256) stream
    → read_response stream ≡ ok body
    → (rest : Text) × (stream ≡ frame body ++ rest) × (length body ≤ max_response)
unfolding read_response
response_inv stream body bytes h = elim (Fallible-cases (read_full 4 stream)) [
  | inr (e, x) ↦ absurd (ground arith)
  | inl ((len_buf, r), x) ↦
      let (split, four) = read_full_inv 4 stream len_buf r x in
      let (rest, split_r, len, cap) = read_body_inv (uint32 len_buf) r body (ground arith) in
      let prefix : len_buf ≡ put_uint32 (length body) =
        sym
          (uint32-inv len_buf four (All-append_left (λ b. b < 256) len_buf r (rw (← split) bytes)))
        ∙ ap put_uint32 (sym len) in
      (
        rest,
        split
            ∙ ap₂ (λ p q. p ++ q) prefix split_r
            ∙ sym (append_assoc (put_uint32 (length body)) body rest),
        omega (arith, len, cap),
      )
]

response_read :
    (stream body rest : Text)
    → stream ≡ frame body ++ rest
    → length body ≤ max_response
    → read_response stream ≡ ok body
unfolding read_response
response_read stream body rest e h =
    rw (e, append_assoc (put_uint32 (length body)) body rest)
      (rw
        (read_full_exact 4 (put_uint32 (length body)) (body ++ rest)
          (length-put_uint32 (length body)))
        (rw (uint32-put_uint32 (length body) (omega arith)) (read_body_exact body rest h)))

-- What the client accepts as a response: exactly a frame with a body of at most a megabyte at the
-- front of the stream, where the stream is made of bytes. It returns the body, and so it returns to
-- the sender of a frame what was framed.
pub read_response_iff :
    (stream body : Text)
    → All (λ b. b < 256) stream
    → (read_response stream ≡ ok body)
      ↔ ((rest : Text) × (stream ≡ frame body ++ rest) × (length body ≤ max_response))
read_response_iff stream body bytes =
    (response_inv stream body bytes, λ h. response_read stream body h.0 h.1 h.2)

-- A response that announces more than a megabyte is refused before its body is read, whatever
-- follows; so the client never holds a larger one.
pub read_response_too_large :
    (n : ℕ) (rest : Text)
    → max_response < n
    → n < 2 ^ 32
    → read_response (put_uint32 n ++ rest) ≡ err (codes "response too large: " ++ decimal n)
unfolding read_response read_body
read_response_too_large n rest h k =
    rw (read_full_exact 4 (put_uint32 n) rest (length-put_uint32 n))
      (rw (uint32-put_uint32 n k) (rw (lt→ltb max_response n h)))
