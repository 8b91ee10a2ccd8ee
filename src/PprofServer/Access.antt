-- ===== src/PprofServer/Access.antt =====
-- Who gets a profile: authOrLocalOnly of internal/http/pprofserver/server.go.
use mathlib.Core.Path.{ap₂}
use service_courier_platform.Prelude.{
  ◌≡◌, ◌≢◌, ◌↔◌, inl, inr, ap, refl, String, true, false, ◌||◌, ◌==◌, eq_iff, eqb, eqb_iff,
  text_length, Option, none, some, Bool-cases, both_tests, some_inj,
}
use service_courier_platform.PprofServer.{
  Config, Request, Reply, Profile, unauthorized, served, route, secure_eq, is_loopback,
  credentials_match, handler,
}

-- The client is on this host; or the server has a user and a password, and the request has both.
pub data Allowed (cfg : Config) (r : Request) : Type 0 where
  local_client : is_loopback r.remote_addr ≡ true → Allowed cfg r
  known_client :
      cfg.user ≢ "" → cfg.pass ≢ "" → r.basic_auth ≡ some (cfg.user, cfg.pass) → Allowed cfg r

secure_eq_iff : (u s : String) → (secure_eq u s ≡ true) ↔ (u ≡ s)
unfolding secure_eq
secure_eq_iff u s = elim (Bool-cases (eqb (text_length u) (text_length s))) [
  | inl e ↦ rw e (eq_iff u s)
  | inr e ↦ rw e (
    λ h. absurd (both_tests h refl),
    λ h. absurd (both_tests ((eqb_iff _ _).1 (ap (λ t. text_length t) h)) e),
  )
]

matches :
    (cfg : Config) (auth : Option (String × String))
    → (credentials_match cfg auth ≡ true) ↔ (auth ≡ some (cfg.user, cfg.pass))
unfolding credentials_match
matches cfg none = (λ h. absurd (both_tests h refl), λ h. cc)
matches cfg (some (u, p)) = elim (Bool-cases (secure_eq u cfg.user)) [
  | inr e ↦ rw e (
    λ h. absurd (both_tests h refl),
    λ h. absurd (both_tests ((secure_eq_iff u cfg.user).1 (ap (λ q. q.0) (some_inj h))) e),
  )
  | inl e ↦ elim (Bool-cases (secure_eq p cfg.pass)) [
    | inr f ↦
        rw (e, f)
          (
            λ h. absurd (both_tests h refl),
            λ h. absurd (both_tests ((secure_eq_iff p cfg.pass).1 (ap (λ q. q.1) (some_inj h))) f),
          )
    | inl f ↦
        rw (e, f)
          (
            λ h.
                ap₂ (λ a b. some (a, b)) ((secure_eq_iff u cfg.user).0 e)
                  ((secure_eq_iff p cfg.pass).0 f),
            λ h. refl,
          )
  ]
]

blank : (a b : String) → (a == "" || b == "") ≡ true → a ≢ "" → b ≢ "" → ⊥
blank a b h n m = elim (Bool-cases (a == "")) [
  | inl e ↦ n ((eq_iff a "").0 e)
  | inr e ↦ m ((eq_iff b "").0 (rw e at h))
]

filled : (a b : String) → (a == "" || b == "") ≡ false → (a ≢ "") × (b ≢ "")
filled a b h = elim (Bool-cases (a == "")) [
  | inl e ↦ absurd (both_tests refl (rw e at h))
  | inr e ↦ (λ z. both_tests ((eq_iff a "").1 z) e, λ z. both_tests ((eq_iff b "").1 z) (rw e at h))
]

-- The two ways in which a request ends.
data Verdict (cfg : Config) (r : Request) : Type 0 where
  let_in : Allowed cfg r → handler cfg r ≡ served (route r.path) → Verdict cfg r
  turned_away : ¬ Allowed cfg r → handler cfg r ≡ unauthorized → Verdict cfg r

verdict : (cfg : Config) (r : Request) → Verdict cfg r
unfolding handler
verdict cfg r = elim (Bool-cases (is_loopback r.remote_addr)) [
  | inl l ↦ let_in (local_client l) (rw l refl)
  | inr l ↦ elim (Bool-cases (cfg.user == "" || cfg.pass == "")) [
    | inl e ↦ turned_away (no_settings l e) (rw (l, e) refl)
    | inr e ↦ elim (Bool-cases (credentials_match cfg r.basic_auth)) [
      | inl m ↦
          let (user, pass) = filled cfg.user cfg.pass e in
          let_in (known_client user pass ((matches cfg r.basic_auth).0 m)) (rw (l, e, m) refl)
      | inr m ↦ turned_away (no_match l m) (rw (l, e, m) refl)
    ]
  ]
]
  where
    no_settings :
        is_loopback r.remote_addr ≡ false
        → (cfg.user == "" || cfg.pass == "") ≡ true
        → ¬ Allowed cfg r
    no_settings l e (local_client h) = both_tests h l
    no_settings l e (known_client u p a) = blank cfg.user cfg.pass e u p

    no_match :
        is_loopback r.remote_addr ≡ false
        → credentials_match cfg r.basic_auth ≡ false
        → ¬ Allowed cfg r
    no_match l m (local_client h) = both_tests h l
    no_match l m (known_client u p a) = both_tests ((matches cfg r.basic_auth).1 a) m

refused_served : {x : Reply} (p : Profile) → x ≡ served p → x ≡ unauthorized → ⊥
refused_served p h k = cc

-- A request is answered with the profile of its path exactly when it is allowed, and with 401
-- otherwise; without a user or a password in the settings only clients on this host are.
pub handler_iff :
    (cfg : Config) (r : Request)
    → ((handler cfg r ≡ served (route r.path)) ↔ Allowed cfg r)
      × ((handler cfg r ≡ unauthorized) ↔ ¬ Allowed cfg r)
handler_iff cfg r = elim (verdict cfg r) [
  | let_in a h ↦
      ((λ _. a, λ _. h), (λ k. absurd (refused_served (route r.path) h k), λ n. absurd (n a)))
  | turned_away n h ↦
      ((λ k. absurd (refused_served (route r.path) k h), λ a. absurd (n a)), (λ _. n, λ _. h))
]
