-- ===== src/Docker/Addresses.antt =====
-- The addresses of containers (`acquireIP`, `releaseIP`, `CreateContainer` and `Remove` of
-- pkg/exec/docker/container.go, with `CleanupContainer` of pkg/exec/container.go). What Docker
-- answers is an argument.
use mathlib.Core.List.Perm
use mathlib.Core.List.{perm_append_singleton, Perm}
use functions_invoker.Base.{
  refl, inr, Bool-cases, inl, ◌≡◌, ◌⊎◌, Bool, true, false, String, Option, none, some, List, [],
  ◌∷◌, ◌++◌, if◌then◌else◌,
}

unfoldable pub acquire_ip : List String → Option String × List String
acquire_ip [] = (none, [])
acquire_ip (ip ∷ ips) = (some ip, ips)

unfoldable pub release_ip : String → List String → List String
release_ip ip ips = ips ++ ip ∷ []

-- Docker's answers to a removal: the removal itself, the closing of the log connection, if there is
-- one, and the end of the log's readers.
pub record RemoveAnswers : Type 0 where
  pub is_removed : Bool
  pub has_connection : Bool
  pub is_closed : Bool
  pub is_drained : Bool

-- Whether it succeeded, and the addresses.
unfoldable pub remove : RemoveAnswers → String → List String → Bool × List String
unfolding release_ip
remove w ip ips =
    let released = release_ip ip ips in
    if w.is_removed
    then (if w.has_connection
        then (if w.is_closed then (w.is_drained, released) else (false, released))
        else (true, released))
    else (false, ips)

pub record CreateAnswers : Type 0 where
  pub is_known_kind : Bool
  pub is_created : Bool
  pub is_attached : Bool
  pub is_started : Bool
  pub is_responding : Bool
  pub removal : RemoveAnswers

-- The address of the new container, if there is one, and the addresses that can be used.
unfoldable pub create_container : CreateAnswers → List String → Option String × List String
unfolding acquire_ip release_ip remove
create_container w ips =
    if w.is_known_kind
    then elim ips [
      | [] ↦ (none, [])
      | ip ∷ rest ↦
          if w.is_created
          then (if w.is_attached
              then (if w.is_started
                  then (if w.is_responding
                      then (some ip, rest)
                      else (none, (remove w.removal ip rest).1))
                  else (none, (remove w.removal ip rest).1))
              else (none, (remove w.removal ip rest).1))
          else (none, release_ip ip rest)
    ]
    else (none, ips)

abbrev pub taken : Option String → List String
taken none = []
taken (some ip) = ip ∷ []

-- The addresses that can be used and that of the new container are those that could be used before;
-- or no container was created, one address is lost, and Docker did not remove its container.
abbrev pub Accounted : CreateAnswers → List String → Option String × List String → Type 0
Accounted w ips out =
    Perm (taken out.0 ++ out.1) ips
    ⊎ ((w.removal.is_removed ≡ false) × (out.0 ≡ none) × ((ip : String) × Perm (ip ∷ out.1) ips))

remove-Accounted :
    (w : CreateAnswers) (ip : String) (rest : List String)
    → Accounted w (ip ∷ rest) (none, (remove w.removal ip rest).1)
unfolding remove release_ip
remove-Accounted w ip rest = elim (Bool-cases w.removal.is_removed) [
  | inr kept ↦ rw kept (inr (refl, refl, (ip, Perm.refl (ip ∷ rest))))
  | inl gone ↦ elim (Bool-cases w.removal.has_connection) [
    | inr n ↦ rw (gone, n) (inl (perm_append_singleton ip rest))
    | inl y ↦ elim (Bool-cases w.removal.is_closed) [
      | inl c ↦ rw (gone, y, c) (inl (perm_append_singleton ip rest))
      | inr c ↦ rw (gone, y, c) (inl (perm_append_singleton ip rest))
    ]
  ]
]

-- However the creation of a container ends, the new container's address and those that can be used
-- are together those that could be used before, each as often; only if Docker fails to remove a
-- container that could not be set up, its address stays taken.
pub create_container-Accounted :
    (w : CreateAnswers) (ips : List String) → Accounted w ips (create_container w ips)
unfolding create_container
create_container-Accounted w ips = elim (Bool-cases w.is_known_kind) [
  | inr n ↦ rw n (inl (Perm.refl ips))
  | inl y ↦ rw y (known ips)
]
  where
    known :
        (ips : List String)
        → Accounted w ips (create_container (record w { is_known_kind = true }) ips)
    known [] = inl (Perm.refl [])
    known (ip ∷ rest) = elim (Bool-cases w.is_created) [
      | inr n ↦ rw n (unfold release_ip in inl (perm_append_singleton ip rest))
      | inl created ↦ elim (Bool-cases w.is_attached) [
        | inr n ↦ rw (created, n) (remove-Accounted w ip rest)
        | inl attached ↦ elim (Bool-cases w.is_started) [
          | inr n ↦ rw (created, attached, n) (remove-Accounted w ip rest)
          | inl started ↦ elim (Bool-cases w.is_responding) [
            | inr n ↦ rw (created, attached, started, n) (remove-Accounted w ip rest)
            | inl r ↦ rw (created, attached, started, r) (inl (Perm.refl (ip ∷ rest)))
          ]
        ]
      ]
    ]
