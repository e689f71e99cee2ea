-- ===== src/ServiceMgr/Services.antt =====
-- Each service that consul has named has one fiber that watches its nodes.
use fiberproxy.Prelude.{
  ℕ, ◌+◌, Bool, true, false, ◌&&◌, ◌||◌, List, [], ◌∷◌, ◌++◌, Bytes, bytes_eq, bytes_eq_iff, ◌≡◌,
  refl, ap, ◌∙◌, arith, if◌then◌else◌, contains, contains-add, bytes_key, Bool-cases, inl, inr,
}
use fiberproxy.Json.{Json}
use fiberproxy.ServiceMgr.Polling.{
  Polled, poll_failed, poll_threw, polled, Finder, new_finder, watch_service, watch_services,
  found_services, services_round, watch_service_change,
}

abbrev pub times : Bytes → List Bytes → ℕ
times n [] = 0
times n (x ∷ xs) = (if bytes_eq x n then 1 else 0) + times n xs

times-append :
    (n x : Bytes) (xs : List Bytes)
    → times n (xs ++ x ∷ []) ≡ times n xs + (if bytes_eq x n then 1 else 0)
times-append n x [] = omega arith
times-append n x (y ∷ xs) = omega (arith, times-append n x xs)

-- The fibers for a service are one if it is watched, and none if not.
abbrev IsOnce : Bytes → Finder → Type 0
IsOnce n f = times n f.started ≡ (if contains n f.watching_services then 1 else 0)

watch_service-IsOnce : (n name : Bytes) (f : Finder) → IsOnce n f → IsOnce n (watch_service name f)
unfolding watch_service
watch_service-IsOnce n name f o = elim (Bool-cases (contains name f.watching_services)) [
  | inl e ↦ ground (arith, e, o)
  | inr e ↦ ground (
    arith,
    e,
    o,
    times-append n name f.started,
    contains-add name n f.watching_services,
    bytes_eq_iff name n,
  )
]

watch_service-contains :
    (n name : Bytes) (f : Finder)
    → contains n (watch_service name f).watching_services
      ≡ (bytes_eq name n || contains n f.watching_services)
unfolding watch_service
watch_service-contains n name f = elim (Bool-cases (contains name f.watching_services)) [
  | inl e ↦ ground (arith, e, bytes_eq_iff name n)
  | inr e ↦ ground (arith, e, contains-add name n f.watching_services)
]

watch_service-running : (name : Bytes) (f : Finder) → (watch_service name f).running ≡ f.running
unfolding watch_service
watch_service-running name f = ground arith

watch_services-IsOnce :
    (n : Bytes) (names : List Bytes) (f : Finder) → IsOnce n f → IsOnce n (watch_services names f)
unfolding watch_services
watch_services-IsOnce n [] f o = o
watch_services-IsOnce n (x ∷ xs) f o =
    watch_services-IsOnce n xs (watch_service x f) (watch_service-IsOnce n x f o)

watch_services-contains :
    (n : Bytes) (names : List Bytes) (f : Finder)
    → contains n (watch_services names f).watching_services
      ≡ (contains n names || contains n f.watching_services)
unfolding watch_services contains
watch_services-contains n [] f = refl
watch_services-contains n (x ∷ xs) f =
    watch_services-contains n xs (watch_service x f) ∙ ground (arith, watch_service-contains n x f)

watch_services-running :
    (names : List Bytes) (f : Finder) → (watch_services names f).running ≡ f.running
unfolding watch_services
watch_services-running [] f = refl
watch_services-running (x ∷ xs) f =
    watch_services-running xs (watch_service x f) ∙ watch_service-running x f

IsOnce-if :
    (n : Bytes) (b : Bool) (f g : Finder) → IsOnce n f → IsOnce n g → IsOnce n (if b then f else g)
IsOnce-if n true f g o p = o
IsOnce-if n false f g o p = p

module _ {J : Type 0} (json : Json J) where
  -- The service stands in an answer, before a poll throws.
  abbrev pub named : Bytes → List Polled → Bool
  named n [] = false
  named n (poll_failed ∷ ps) = named n ps
  named n (poll_threw ∷ ps) = false
  named n (polled index rsp ∷ ps) = contains n (found_services json rsp) || named n ps

  services_round-IsOnce :
      (n : Bytes) (p : Polled) (f : Finder) → IsOnce n f → IsOnce n (services_round json p f)
  unfolding services_round
  services_round-IsOnce n poll_failed f o = o
  services_round-IsOnce n poll_threw f o = o
  services_round-IsOnce n (polled index rsp) f o =
      watch_services-IsOnce n (found_services json rsp) (record f { indexid = index }) o

  watch_service_change-IsOnce :
      (n : Bytes) (ps : List Polled) (f : Finder)
      → IsOnce n f
      → IsOnce n (watch_service_change json ps f)
  unfolding watch_service_change
  watch_service_change-IsOnce n [] f o = o
  watch_service_change-IsOnce n (p ∷ ps) f o =
      IsOnce-if n f.running _ f
        (watch_service_change-IsOnce n ps (services_round json p f) (services_round-IsOnce n p f o))
        o

  watch_service_change-contains :
      (n : Bytes) (ps : List Polled) (f : Finder)
      → contains n (watch_service_change json ps f).watching_services
        ≡ ((f.running && named n ps) || contains n f.watching_services)
  unfolding watch_service_change services_round
  watch_service_change-contains n [] f = ground arith
  watch_service_change-contains n (poll_failed ∷ ps) f =
      ground (arith, watch_service_change-contains n ps (services_round json poll_failed f))
  watch_service_change-contains n (poll_threw ∷ ps) f =
      ground (arith, watch_service_change-contains n ps (services_round json poll_threw f))
  watch_service_change-contains n (polled index rsp ∷ ps) f = ground (
    arith,
    watch_service_change-contains n ps (services_round json (polled index rsp) f),
    watch_services-contains n (found_services json rsp) (record f { indexid = index }),
    watch_services-running (found_services json rsp) (record f { indexid = index }),
  )

  -- Whatever the long polls give: a service that stands in an answer, before a poll throws, has one
  -- fiber that watches it, and any other has none.
  pub watch_service_change_once :
      (n : Bytes) (ps : List Polled)
      → times n (watch_service_change json ps new_finder).started ≡ (if named n ps then 1 else 0)
  unfolding contains
  watch_service_change_once n ps =
      watch_service_change-IsOnce n ps new_finder refl
      ∙ ap (λ b. if b then 1 else 0) (watch_service_change-contains n ps new_finder ∙ ground arith)
