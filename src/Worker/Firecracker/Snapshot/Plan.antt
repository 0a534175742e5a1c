-- ===== src/Worker/Firecracker/Snapshot/Plan.antt =====
-- What createSnapshot asks of the Firecracker API, against the plan of its requests.
use mathlib.Core.List.{append-nil}
use code_execution_engine.Common.{
  replicate, ◌<◌, ℕ, zero, suc, ◌≡◌, ◌≤◌, refl, ap, ◌∙◌, inl, inr, Bool, true, false, List, [], ◌∷◌,
  ◌++◌, Option, none, some, Text, codes, Option-cases, Bool-cases, arith,
}
use code_execution_engine.Worker.Firecracker.Api.{Request, Http, do_req}
use code_execution_engine.Worker.Firecracker.Snapshot.{
  Effect, removes, spawns, looks_for, requests, pings, kills, Host, poll, Trace, call, boot,
  create_snapshot, machine_config, boot_source, root_drive, vsock_device, instance_start, pause,
  snapshot_create, init_sock, ◌then_go◌,
}

-- The plan: the requests in their order, each with the name of its step.
abbrev pub plan : Text → Text → Text → Text → List (Text × Request)
plan kernel_path rootfs_path mem_path vmstate_path =
    (codes "machine config", machine_config)
    ∷ (codes "boot source", boot_source kernel_path)
    ∷ (codes "drive", root_drive rootfs_path)
    ∷ (codes "vsock", vsock_device)
    ∷ (codes "start", instance_start)
    ∷ (codes "pause", pause)
    ∷ (codes "snapshot create", snapshot_create mem_path vmstate_path)
    ∷ []

-- A plan carried out: up to the first request that is refused, with that refusal.
unfoldable pub carry_out : Http → List (Text × Request) → List Request × Option Text
carry_out http [] = ([], none)
carry_out http ((context, r) ∷ rest) =
    let later = carry_out http rest in
    elim (do_req http r) [
      | some e ↦ (r ∷ [], some (context ++ (codes ": " ++ e)))
      | none ↦ (r ∷ later.0, later.1)
    ]

-- The requests among the effects.
abbrev pub asked : List Effect → List Request
asked [] = []
asked (requests r ∷ effects) = r ∷ asked effects
asked (removes p ∷ effects) = asked effects
asked (spawns p i ∷ effects) = asked effects
asked (looks_for p ∷ effects) = asked effects
asked (pings ∷ effects) = asked effects
asked (kills ∷ effects) = asked effects

asked-append : (xs ys : List Effect) → asked (xs ++ ys) ≡ asked xs ++ asked ys
asked-append [] ys = refl
asked-append (requests r ∷ xs) ys = ap (◌∷◌ r) (asked-append xs ys)
asked-append (removes p ∷ xs) ys = asked-append xs ys
asked-append (spawns p i ∷ xs) ys = asked-append xs ys
asked-append (looks_for p ∷ xs) ys = asked-append xs ys
asked-append (pings ∷ xs) ys = asked-append xs ys
asked-append (kills ∷ xs) ys = asked-append xs ys

asked-poll :
    (n : ℕ) (succeeds : ℕ → Bool) (effect : Effect)
    → asked (effect ∷ []) ≡ []
    → asked (poll n succeeds effect) ≡ []
unfolding poll
asked-poll zero succeeds effect h = refl
asked-poll (suc n) succeeds effect h = elim (Bool-cases (succeeds 0)) [
  | inl e ↦ rw (e, poll) h
  | inr e ↦
      rw (e, poll)
        (asked-append (effect ∷ []) (poll n (λ i. succeeds (suc i)) effect)
          ∙ rw h (asked-poll n (λ i. succeeds (suc i)) effect h))
]

-- A trace asks what a plan carried out asks, and ends as it ends.
abbrev CarriesOut : Http → Trace → List (Text × Request) → Type 0
CarriesOut http t p = (asked t.0, t.1) ≡ carry_out http p

module _ (host : Host) where
  call-carries :
      (context : Text) (r : Request) (k : Trace) (p : List (Text × Request))
      → CarriesOut host.http k p
      → CarriesOut host.http (call host context r then_go k) ((context, r) ∷ p)
  unfolding call carry_out
  call-carries context r k p h = elim (Option-cases (do_req host.http r)) [
    | inl e ↦ rw (e, call, carry_out) (ap (λ (l : List Request × Option Text). (r ∷ l.0, l.1)) h)
    | inr (x, e) ↦ rw (e, call, carry_out) refl
  ]

  call-carries_last :
      (context : Text) (r : Request)
      → CarriesOut host.http (call host context r) ((context, r) ∷ [])
  unfolding call carry_out
  call-carries_last context r = elim (Option-cases (do_req host.http r)) [
    | inl e ↦ rw (e, call, carry_out) refl
    | inr (x, e) ↦ rw (e, call, carry_out) refl
  ]

  pings-carries :
      (succeeds : ℕ → Bool) (k : Trace) (p : List (Text × Request))
      → CarriesOut host.http k p
      → CarriesOut host.http ((poll 30 succeeds pings, none) then_go k) p
  pings-carries succeeds k p h =
      rw (asked-append (poll 30 succeeds pings) k.0, asked-poll 30 succeeds pings refl) h

-- The snapshot is made by carrying out the plan: createSnapshot sends the requests of the plan in
-- their order up to the first that is refused, none after it, and returns that refusal under the
-- name of its step; where none is refused it returns no error. It sends none where firecracker does
-- not start. How often the socket and the guest are polled makes no difference.
pub create_snapshot-carry_out :
    (quote : Text → Text) (kernel_path rootfs_path mem_path vmstate_path : Text) (host : Host)
    → (
      asked (create_snapshot quote kernel_path rootfs_path host mem_path vmstate_path).0,
      (create_snapshot quote kernel_path rootfs_path host mem_path vmstate_path).1,
    )
      ≡ elim host.spawn_failure [
        | some e ↦ ([], some (codes "start firecracker: " ++ e))
        | none ↦ carry_out host.http (plan kernel_path rootfs_path mem_path vmstate_path)
      ]
unfolding create_snapshot boot
create_snapshot-carry_out quote kernel_path rootfs_path mem_path vmstate_path host =
    elim (Option-cases host.spawn_failure) [
      | inr (e, x) ↦ rw (x, create_snapshot) refl
      | inl x ↦
          rw (x, create_snapshot)
            (rw
              (
                asked-append (poll 50 host.is_there (looks_for init_sock)) _,
                asked-poll 50 host.is_there (looks_for init_sock) refl,
                asked-append (boot quote kernel_path rootfs_path host mem_path vmstate_path).0 _,
                append-nil
                    (asked (boot quote kernel_path rootfs_path host mem_path vmstate_path).0),
              )
              booted)
    ]
  where
    booted :
        CarriesOut host.http
          (boot quote kernel_path rootfs_path host mem_path vmstate_path)
          (plan kernel_path rootfs_path mem_path vmstate_path)
    booted = call-carries host _ _ _ _ (
        call-carries host _ _ _ _ (
          call-carries host _ _ _ _ (
            call-carries host _ _ _ _ (
              call-carries host _ _ _ _ (
                pings-carries host _ _ _
                  (call-carries host _ _ _ _ (call-carries_last host _ _)))))))

later :
    (succeeds : ℕ → Bool) (k : ℕ)
    → succeeds 0 ≡ false
    → ((j : ℕ) → suc j < k → succeeds (suc j) ≡ false)
    → (j : ℕ) → suc j < suc k
    → succeeds j ≡ false
later succeeds k e failed zero h = e
later succeeds k e failed (suc j) h = failed j (omega arith)

-- The waits are counted: one makes at most `n` tries, goes on while they fail, and ends before the
-- `n`-th only after one that succeeds.
pub poll_stops :
    (n : ℕ) (succeeds : ℕ → Bool) (effect : Effect)
    → (k : ℕ) × (poll n succeeds effect ≡ replicate k effect)
      × (k ≤ n)
      × ((j : ℕ) → suc j < k → succeeds j ≡ false)
      × (k < n → (j : ℕ) × (k ≡ suc j) × (succeeds j ≡ true))
unfolding poll
poll_stops zero succeeds effect =
    (0, refl, omega arith, λ j h. absurd (omega arith), λ h. absurd (omega arith))
poll_stops (suc n) succeeds effect = elim (Bool-cases (succeeds 0)) [
  | inl e ↦ (1, rw (e, poll) refl, omega arith, λ j h. absurd (omega arith), λ h. (0, refl, e))
  | inr e ↦
      let (k, same, le, failed, done) = poll_stops n (λ i. succeeds (suc i)) effect in
      (
        suc k,
        rw (e, poll) (ap (◌∷◌ effect) same),
        omega (arith, le),
        later succeeds k e failed,
        λ h. let (j, q, t) = done (omega arith) in (suc j, ap suc q, t),
      )
]
