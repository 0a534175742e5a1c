-- ===== src/Worker/Firecracker/Instance/Search.antt =====
-- findVsockUDS of worker/firecracker/firecracker.go: which socket a job finds.
use code_execution_engine.Common.{
  ◌-◌, ◌<◌, ◌≡◌, ◌≢◌, ◌↔◌, ◌⊎◌, ◌∙◌, refl, sym, ap, inl, inr, Bool, true, false, List, [], ◌∷◌,
  ◌++◌, Text, ok, err, codes, Bool-cases, Fallible-cases, All, length, length-append, take, drop,
  take-append-drop, drop-append_length, length-take_of_le, same_iff, arith,
}
use code_execution_engine.Worker.Firecracker.Snapshot.{init_vsock}
use code_execution_engine.Worker.Firecracker.Instance.{
  Machine, is_vsock, first_file, scan, candidates, find_vsock_uds,
}

-- A name with something before ".vsock".
abbrev pub IsVsock : Text → Type 0
IsVsock n = (stem : Text) × (stem ≢ []) × (n ≡ stem ++ codes ".vsock")

length-nonempty : (t : Text) → t ≢ [] → 0 < length t
length-nonempty [] h = absurd (h refl)
length-nonempty (c ∷ t) h = omega arith

is_vsock_stem : (stem : Text) → stem ≢ [] → is_vsock (stem ++ codes ".vsock") ≡ true
unfolding is_vsock
is_vsock_stem stem h = ground (
  arith,
  length-append stem (codes ".vsock"),
  length-nonempty stem h,
  drop-append_length stem (codes ".vsock"),
  same_iff (codes ".vsock") (codes ".vsock"),
)

is_vsock-stem : (n : Text) → is_vsock n ≡ true → IsVsock n
unfolding is_vsock
is_vsock-stem n h =
    let k = length n - 6 in
    let long : 6 < length n = ground arith in
    let tail : drop k n ≡ codes ".vsock" =
      (same_iff (drop k n) (codes ".vsock")).0 (ground arith) in
    (
      take k n,
      λ e. absurd (omega (arith, long, ap length e, length-take_of_le k n (omega arith))),
      sym (take-append-drop k n) ∙ ap (λ t. take k n ++ t) tail,
    )

is_vsock-IsVsock_iff : (n : Text) → (is_vsock n ≡ true) ↔ IsVsock n
is_vsock-IsVsock_iff n =
    (is_vsock-stem n, λ (stem, some_stem, e). ap is_vsock e ∙ is_vsock_stem stem some_stem)

module _ (join : Text → Text → Text) (has_file : Text → Bool) where
  abbrev pub in_tmp : Text → Text
  in_tmp n = join (codes "/tmp") n

  -- The name is not that of a socket that is there.
  abbrev pub IsNoSocket : Text → Type 0
  IsNoSocket n = IsVsock n → has_file (in_tmp n) ≡ false

  -- The path is that of the first socket among the names.
  abbrev pub IsFirstSocket : List Text → Text → Type 0
  IsFirstSocket names path =
      (before : List Text) × (n : Text) × (after : List Text) × (names ≡ before ++ n ∷ after)
      × All IsNoSocket before
      × IsVsock n
      × (has_file (in_tmp n) ≡ true)
      × (path ≡ in_tmp n)

  -- Another name in front that is not that of a socket.
  skip :
      (n path path' : Text) (names : List Text)
      → IsNoSocket n
      → path' ≡ path
      → IsFirstSocket names path ⊎ ((path ≡ []) × All IsNoSocket names)
      → IsFirstSocket (n ∷ names) path' ⊎ ((path' ≡ []) × All IsNoSocket (n ∷ names))
  skip n path path' names unfit e (inl (before, m, after, same_names, absent, name, there, p)) =
      inl (n ∷ before, m, after, ap (◌∷◌ n) same_names, (unfit, absent), name, there, e ∙ p)
  skip n path path' names unfit e (inr (none_found, absent)) = inr (e ∙ none_found, (unfit, absent))

  scan-cases :
      (names : List Text)
      → IsFirstSocket names (first_file has_file (scan join names))
        ⊎ ((first_file has_file (scan join names) ≡ []) × All IsNoSocket names)
  unfolding scan first_file
  scan-cases [] = inr (refl, tt)
  scan-cases (n ∷ names) = elim (Bool-cases (is_vsock n)) [
    | inr e ↦
        skip n (first_file has_file (scan join names)) _ names
          (λ v. absurd (cc (e, (is_vsock-IsVsock_iff n).1 v))) (rw e refl) (scan-cases names)
    | inl e ↦ elim (Bool-cases (has_file (in_tmp n))) [
      | inr x ↦
          skip n (first_file has_file (scan join names)) _ names (λ v. x) (rw (e, x) refl)
            (scan-cases names)
      | inl x ↦ inl ([], n, names, refl, tt, (is_vsock-IsVsock_iff n).0 e, x, rw (e, x) refl)
    ]
  ]

-- The path of the socket for an instance.
abbrev pub own_socket : Text → Text
own_socket id = codes "/tmp/fc-" ++ (id ++ codes ".vsock")

-- The search finds the socket under the name of the instance, where it is there; otherwise the one
-- that the snapshot was made with, where that is there; otherwise, in the order of the directory
-- /tmp, the first file there whose name has something before ".vsock"; and "" only where there is no
-- such file either, or the directory cannot be read.
pub find_vsock_uds-cases :
    (join : Text → Text → Text) (m : Machine) (id : Text)
    → ((m.has_file (own_socket id) ≡ true) × (find_vsock_uds join m id ≡ own_socket id))
      ⊎ (((m.has_file (own_socket id) ≡ false)
            × (m.has_file init_vsock ≡ true)
            × (find_vsock_uds join m id ≡ init_vsock))
          ⊎ ((m.has_file (own_socket id) ≡ false)
              × (m.has_file init_vsock ≡ false)
              × (((names : List Text) × (m.entries ≡ ok names)
                    × (IsFirstSocket join m.has_file names (find_vsock_uds join m id)
                        ⊎ ((find_vsock_uds join m id ≡ [])
                            × All (IsNoSocket join m.has_file) names)))
                  ⊎ ((e : Text) × (m.entries ≡ err e) × (find_vsock_uds join m id ≡ [])))))
unfolding find_vsock_uds first_file candidates
find_vsock_uds-cases join m id = elim (Bool-cases (m.has_file (own_socket id))) [
  | inl h ↦ inl (h, rw h refl)
  | inr h ↦ elim (Bool-cases (m.has_file init_vsock)) [
    | inl k ↦ inr (inl (h, k, rw (h, k) refl))
    | inr k ↦ inr (
        inr (
          h,
          k,
          elim (Fallible-cases m.entries) [
            | inl (names, e) ↦ inl (names, e, rw (h, k, e) (scan-cases join m.has_file names))
            | inr (x, e) ↦ inr (x, e, rw (h, k, e) refl)
          ],
        ))
  ]
]
