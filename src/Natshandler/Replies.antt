-- ===== src/Natshandler/Replies.antt =====
-- What the handlers of natshandler/handler.go make of a message, over the service.
use mathlib.Core.Path.{subst}
use code_execution_engine.Common.{
  ◌≡◌, ◌↔◌, refl, sym, ap, ◌∙◌, inl, inr, Bool, List, [], ◌∷◌, Option, String, Text, Fallible, ok,
  err, All, Fallible-cases,
}
use code_execution_engine.Internal.Sanitize.Acceptance.{IsAcceptable}
use code_execution_engine.Worker.{Result}
use code_execution_engine.Service.{CompilerResponse, normalize_language, execute}
use code_execution_engine.Service.Requests.{execute_submits_iff}
use code_execution_engine.Natshandler.{CompilerRequest, Handled, handle, start_handlers}

same_request : (a b : CompilerRequest) → ok a ≡ ok b → a ≡ b
same_request a b h = cc

module _ (unmarshal : Text → Fallible CompilerRequest) (marshal : CompilerResponse → Text)
    (unicode_lower : Text → Text) (decode_string : Text → Fallible Text)
    (match_string : String → Text → Option Bool) (execute_job : Text → Text → Result × Option Text)
    (elapsed : Text) where
  -- The service that StartHandlers makes over the pool.
  abbrev pub svc : Text → Text → CompilerResponse × List (Text × Text)
  svc = execute unicode_lower decode_string match_string execute_job elapsed

  -- A request in the message hands over this job.
  abbrev pub AsksFor : Text → Text → Text → Type 0
  AsksFor message l c =
      (req : CompilerRequest) × (unmarshal message ≡ ok req)
      × (decode_string req.code ≡ ok c)
      × (l ≡ normalize_language unicode_lower req.language)
      × IsAcceptable match_string c (normalize_language unicode_lower req.language) 10000

  -- How a handler answers: one reply to a message that is a request, none to another, and a job
  -- exactly where the request asks for it.
  abbrev pub AnswersRight : (Text → Handled) → Type 0
  AnswersRight h =
      (message : Text)
      → ((e : Text) → unmarshal message ≡ err e → h message ≡ ([], []))
        × ((req : CompilerRequest)
            → unmarshal message ≡ ok req
            → (h message).0 ≡ marshal (svc req.code req.language).0 ∷ [])
        × ((l c : Text) → ((h message).1 ≡ (l, c) ∷ []) ↔ AsksFor message l c)

  handle_unread :
      (message e : Text)
      → unmarshal message ≡ err e
      → handle unmarshal marshal svc message ≡ ([], [])
  unfolding handle
  handle_unread message e x = rw (x, handle) refl

  handle_read :
      (message : Text) (req : CompilerRequest)
      → unmarshal message ≡ ok req
      → handle unmarshal marshal svc message
        ≡ (marshal (svc req.code req.language).0 ∷ [], (svc req.code req.language).1)
  unfolding handle
  handle_read message req x = rw (x, handle) refl

  handle_asked :
      (message l c : Text) (req : CompilerRequest)
      → unmarshal message ≡ ok req
      → ((handle unmarshal marshal svc message).1 ≡ (l, c) ∷ []) ↔ AsksFor message l c
  handle_asked message l c req x =
      let there = ap (λ (h : Handled). h.1) (handle_read message req x) in
      let iff =
        (execute_submits_iff unicode_lower decode_string match_string execute_job elapsed req.code
            req.language).0
          l c in
      (
        λ h. let s = iff.0 (sym there ∙ h) in (req, x, s.0, s.1, s.2),
        λ (r, y, decoded, same_l, fine).
            there
            ∙ iff.1 (
                subst
                  (λ (q : CompilerRequest).
                    (decode_string q.code ≡ ok c)
                    × (l ≡ normalize_language unicode_lower q.language)
                    × IsAcceptable match_string c (normalize_language unicode_lower q.language)
                        10000)
                  (same_request r req (sym y ∙ x)) (decoded, same_l, fine)),
      )

  handle-AnswersRight : AnswersRight (handle unmarshal marshal svc)
  handle-AnswersRight message = elim (Fallible-cases (unmarshal message)) [
    | inr (e, x) ↦ (
      λ e' y. handle_unread message e' y,
      λ req y. absurd (cc (x, y)),
      λ l c. (λ h. absurd (cc (handle_unread message e x, h)), λ asks. absurd (cc (x, asks.1))),
    )
    | inl (req, x) ↦ (
      λ e y. absurd (cc (x, y)),
      λ r y. ap (λ (h : Handled). h.0) (handle_read message r y),
      λ l c. handle_asked message l c req x,
    )
  ]

  -- Both subscriptions answer alike. A message that is no request gets no reply and hands no job to
  -- the pool. A request gets one reply, the response of the service to it. And a message hands over a
  -- job exactly where its request's code decodes and the sanitizer accepts what it decodes to, in at
  -- most 10000 bytes, for the normalised language; the job is that code in that language.
  pub start_handlers-AnswersRight :
      All (λ s. AnswersRight s.1) (start_handlers unmarshal marshal svc)
  unfolding start_handlers
  start_handlers-AnswersRight = (handle-AnswersRight, (handle-AnswersRight, tt))
