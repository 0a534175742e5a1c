-- ===== src/Worker/Firecracker/Instance/Outcome.antt =====
-- executeCode of worker/firecracker/firecracker.go: when a job succeeds, and what it leaves behind.
use mathlib.Core.List.{append-nil}
use mathlib.Core.Path.{subst}
use code_execution_engine.Common.{
  pos, eqb_ℤ_iff, ℕ, ◌≡◌, ◌≢◌, ◌↔◌, refl, sym, ap, ◌∙◌, inl, inr, true, [], ◌∷◌, ◌++◌, none, Text,
  Fallible, ok, codes, is_empty, Bool-cases, Option-cases, Fallible-cases, arith,
}
use code_execution_engine.Worker.{Result}
use code_execution_engine.Worker.Firecracker.Api.{do_req}
use code_execution_engine.Worker.Firecracker.Vsock.{
  VsockClient, ExecuteReq, ExecuteResp, Until, default_vsock_port, execute,
}
use code_execution_engine.Worker.Firecracker.Instance.{
  Machine, instance_id, find_vsock_uds, snapshot_load, failed_after, of_response, ask_guest, run_at,
  restore, execute_code,
}

abbrev pub client_at : Text → VsockClient
client_at path = record { uds_path = path; port = default_vsock_port }

is_empty_iff : (t : Text) → (is_empty t ≡ true) ↔ (t ≡ [])
is_empty_iff [] = ground arith
is_empty_iff (c ∷ t) = ground arith

-- A result is a success, and has no error, exactly where a condition holds.
abbrev pub Succeeds : Result → Type 0 → Type 0
Succeeds r S = (r.success ≡ true ↔ S) × (r.error ≡ none ↔ S)

Succeeds-map : (r : Result) (S T : Type 0) → Succeeds r S → (S → T) → (T → S) → Succeeds r T
Succeeds-map r S T h f g =
    ((λ e. f (h.0.0 e), λ t. h.0.1 (g t)), (λ e. f (h.1.0 e), λ t. h.1.1 (g t)))

Succeeds-eq : (r r' : Result) (S : Type 0) → r ≡ r' → Succeeds r' S → Succeeds r S
Succeeds-eq r r' S e h = subst (λ q. Succeeds q S) (sym e) h

failed_after-Succeeds :
    (elapsed : ℕ) (e : Text) (S : Type 0) → (S → ⊥) → Succeeds (failed_after elapsed e) S
failed_after-Succeeds elapsed e S never =
    ((λ h. absurd (cc h), λ s. absurd (never s)), (λ h. absurd (cc h), λ s. absurd (never s)))

of_response_lem :
    (elapsed : ℕ) (resp : ExecuteResp)
    → Succeeds (of_response elapsed resp) ((resp.exit_code ≡ pos 0) × (resp.error ≡ []))
      × ((of_response elapsed resp).output ≡ resp.stdout ++ resp.stderr)
unfolding of_response
of_response_lem elapsed resp = ground (
  arith,
  eqb_ℤ_iff resp.exit_code (pos 0),
  is_empty_iff resp.error,
  is_empty_iff resp.stderr,
  append-nil resp.stdout,
)

module _ (join : Text → Text → Text) (quote : Text → Text) (marshal : ExecuteReq → Fallible Text)
    (unmarshal : Text → Fallible ExecuteResp) where
  -- The guest at a socket answered that the program ended with exit code 0 and with no error.
  abbrev pub Answers : Machine → Text → Text → Text → ExecuteResp → Type 0
  Answers m path language code resp =
      (u : Until) × ((execute quote marshal unmarshal (client_at path) (m.conn (client_at path))
          m.clock language code 10).1
        ≡ ok (resp, u))
      × (resp.exit_code ≡ pos 0)
      × (resp.error ≡ [])

  same_response :
      (m : Machine) (path language code : Text) (resp resp' : ExecuteResp) (u u' : Until)
      → (execute quote marshal unmarshal
          (client_at path)
          (m.conn (client_at path))
          m.clock
          language
          code
          10).1
        ≡ ok (resp, u)
      → (execute quote marshal unmarshal
          (client_at path)
          (m.conn (client_at path))
          m.clock
          language
          code
          10).1
        ≡ ok (resp', u')
      → resp' ≡ resp
  same_response m path language code resp resp' u u' x y = cc (x, y)

  of_answer :
      (m : Machine) (path language code : Text) (resp : ExecuteResp) (u : Until)
      → (execute quote marshal unmarshal
          (client_at path)
          (m.conn (client_at path))
          m.clock
          language
          code
          10).1
        ≡ ok (resp, u)
      → Succeeds
          (of_response m.elapsed resp)
          ((resp : ExecuteResp) × Answers m path language code resp)
  of_answer m path language code resp u x =
      Succeeds-map (of_response m.elapsed resp) _ _ (of_response_lem m.elapsed resp).0
        (λ h. (resp, (u, x, h.0, h.1)))
        (λ h.
          let e = same_response m path language code resp h.0 u h.1.0 x h.1.1 in
          (
            ap (λ (r : ExecuteResp). r.exit_code) (sym e) ∙ h.1.2,
            ap (λ (r : ExecuteResp). r.error) (sym e) ∙ h.1.3,
          ))

  ask_guest-Answers_iff :
      (m : Machine) (path language code : Text)
      → Succeeds
          (ask_guest join quote marshal unmarshal m path language code)
          ((resp : ExecuteResp) × Answers m path language code resp)
  unfolding ask_guest
  ask_guest-Answers_iff m path language code =
      elim (Fallible-cases
        (execute quote marshal unmarshal (client_at path) (m.conn (client_at path)) m.clock language
          code 10).1) [
            | inr (e, x) ↦
                Succeeds-eq (ask_guest join quote marshal unmarshal m path language code)
                  (failed_after m.elapsed (codes "execute: " ++ e)) _ (rw (x, ask_guest) refl)
                  (failed_after-Succeeds m.elapsed _ _ (λ h. cc (x, h.1.1)))
            | inl ((resp, u), x) ↦
                Succeeds-eq (ask_guest join quote marshal unmarshal m path language code)
                  (of_response m.elapsed resp) _ (rw (x, ask_guest) refl)
                  (of_answer m path language code resp u x)
          ]

  -- The socket that was found is one, and the guest behind it answers.
  abbrev pub AnswersAt : Machine → Text → Text → Text → Type 0
  AnswersAt m path language code =
      (path ≢ []) × ((resp : ExecuteResp) × Answers m path language code resp)

  run_at-AnswersAt_iff :
      (m : Machine) (path language code : Text)
      → Succeeds
          (run_at join quote marshal unmarshal m path language code).1
          (AnswersAt m path language code)
  unfolding run_at
  run_at-AnswersAt_iff m path language code = elim (Bool-cases (is_empty path)) [
    | inl e ↦
        Succeeds-eq (run_at join quote marshal unmarshal m path language code).1
          (failed_after m.elapsed (codes "vsock UDS not found")) _ (ground arith)
          (failed_after-Succeeds m.elapsed _ _ (λ h. h.0 ((is_empty_iff path).0 e)))
    | inr e ↦
        Succeeds-eq (run_at join quote marshal unmarshal m path language code).1
          (ask_guest join quote marshal unmarshal m path language code) _ (ground arith)
          (Succeeds-map (ask_guest join quote marshal unmarshal m path language code) _ _
            (ask_guest-Answers_iff m path language code)
            (λ h. ((λ x. cc ((is_empty_iff path).1 x, e)), h)) (λ h. h.1))
  ]

  restore-AnswersAt_iff :
      (snapshot_dir : Text) (m : Machine) (language code : Text)
      → Succeeds (restore join quote marshal unmarshal snapshot_dir m language code).1 (
          (do_req m.http (snapshot_load join snapshot_dir) ≡ none)
          × AnswersAt m (find_vsock_uds join m (instance_id m)) language code)
  unfolding restore
  restore-AnswersAt_iff snapshot_dir m language code =
      let path = find_vsock_uds join m (instance_id m) in
      let r = (run_at join quote marshal unmarshal m path language code).1 in
      elim (Option-cases (do_req m.http (snapshot_load join snapshot_dir))) [
        | inr (e, x) ↦
            Succeeds-eq (restore join quote marshal unmarshal snapshot_dir m language code).1
              (failed_after m.elapsed (codes "load snapshot: " ++ e)) _ (ground arith)
              (failed_after-Succeeds m.elapsed _ _ (λ h. cc (x, h.0)))
        | inl x ↦
            Succeeds-eq (restore join quote marshal unmarshal snapshot_dir m language code).1 r _
              (ground arith)
              (Succeeds-map r _ _ (run_at-AnswersAt_iff m path language code) (λ h. (x, h))
                (λ h. h.1))
      ]

  -- Firecracker starts, the snapshot is loaded, a socket is found, and the guest behind it runs the
  -- code to exit code 0 with no error.
  abbrev pub IsServed : Text → Machine → Text → Text → Type 0
  IsServed snapshot_dir m language code =
      (m.spawn_failure ≡ none)
      × (do_req m.http (snapshot_load join snapshot_dir) ≡ none)
      × AnswersAt m (find_vsock_uds join m (instance_id m)) language code

  -- The result of a job is a success exactly where Firecracker starts, loads the snapshot, a socket
  -- is found, and the guest behind it ran the code to exit code 0 with no error; and exactly there
  -- the result has no error.
  pub execute_code-IsServed_iff :
      (snapshot_dir : Text) (m : Machine) (language code : Text)
      → Succeeds
          (execute_code join quote marshal unmarshal snapshot_dir m language code).1
          (IsServed snapshot_dir m language code)
  unfolding execute_code
  execute_code-IsServed_iff snapshot_dir m language code =
      let r = (restore join quote marshal unmarshal snapshot_dir m language code).1 in
      elim (Option-cases m.spawn_failure) [
        | inr (e, x) ↦
            Succeeds-eq (execute_code join quote marshal unmarshal snapshot_dir m language code).1
              (failed_after m.elapsed (codes "start fc: " ++ e)) _ (ground arith)
              (failed_after-Succeeds m.elapsed _ _ (λ h. cc (x, h.0)))
        | inl x ↦
            Succeeds-eq (execute_code join quote marshal unmarshal snapshot_dir m language code).1 r
              _ (ground arith)
              (Succeeds-map r _ _ (restore-AnswersAt_iff snapshot_dir m language code)
                (λ h. (x, h.0, h.1)) (λ h. (h.1, h.2)))
      ]
