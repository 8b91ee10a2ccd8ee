-- ===== src/CourierService/Acceptance.antt =====
-- Which couriers validateCreate of internal/service/courier/courier.go accepts, by their values.
use service_courier_platform.Prelude.{
  ◌≡◌, ◌≢◌, ◌∙◌, sym, ap, refl, ◌⊎◌, inl, inr, ◌↔◌, Bool, true, false, Bool-cases, String, some,
  ◌==◌, eq_iff, trim_space, arith,
}
use service_courier_platform.Errors.{ok}
use service_courier_platform.Domain.{Courier, transport_valid}
use service_courier_platform.Domain.Phone.{IsPhone, validate_phone_iff, status_valid_iff}
use service_courier_platform.CourierService.{validate_create, with_transport, is_blank}
use service_courier_platform.CourierService.Validation.{IsWellFormed, validate_create_iff}

transport_valid_iff :
    (t : String) → (transport_valid t ≡ true) ↔ ((t ≡ "on_foot") ⊎ ((t ≡ "scooter") ⊎ (t ≡ "car")))
unfolding transport_valid
transport_valid_iff t = ground (arith, eq_iff t "on_foot", eq_iff t "scooter", eq_iff t "car")

is_blank_iff : (s : String) → (is_blank s ≡ false) ↔ (trim_space s ≢ "")
is_blank_iff s = elim (Bool-cases (trim_space s == "")) [
  | inl e ↦ (λ h. absurd (true_false (sym e ∙ h)), λ n. absurd (n ((eq_iff (trim_space s) "").0 e)))
  | inr e ↦ (λ h q. true_false (sym ((eq_iff (trim_space s) "").1 q) ∙ e), λ n. e)
]
  where
    true_false : ◌≡◌ {A = Bool} true false → ⊥
    true_false p = cc

-- A courier that may be registered, and as which courier.
pub record Accepted (c d : Courier) : Type 0 where
  pub named : trim_space c.name ≢ ""
  pub phone : IsPhone c.phone
  pub status : (c.status ≡ "available") ⊎ ((c.status ≡ "busy") ⊎ (c.status ≡ "paused"))
  pub transport :
      ((c.transport_type ≡ "") × (d ≡ record c { transport_type = "on_foot" }))
      ⊎ ((d ≡ c)
          × ((c.transport_type ≡ "on_foot")
              ⊎ ((c.transport_type ≡ "scooter") ⊎ (c.transport_type ≡ "car"))))

with_transport_foot :
    (c : Courier)
    → c.transport_type ≡ ""
    → with_transport c ≡ record c { transport_type = "on_foot" }
with_transport_foot c e = rw ((eq_iff c.transport_type "").1 e) refl

with_transport_same : (c : Courier) → (c.transport_type == "") ≡ false → with_transport c ≡ c
with_transport_same c e = rw e refl

Accepted-IsWellFormed :
    (c d : Courier) → d ≡ with_transport c → IsWellFormed (with_transport c) → Accepted c d
Accepted-IsWellFormed c d e w = record {
  named = (is_blank_iff c.name).0 w.named;
  phone = (validate_phone_iff c.phone).0 w.phone;
  status = (status_valid_iff c.status).0 w.status;
  transport = elim (Bool-cases (c.transport_type == "")) [
    | inl q ↦
        let none_given = (eq_iff c.transport_type "").0 q in
        inl (none_given, e ∙ with_transport_foot c none_given)
    | inr q ↦
        let same = with_transport_same c q in
        inr (
          e ∙ same,
          (transport_valid_iff c.transport_type).0
              (ap transport_valid (sym (ap (λ x. x.transport_type) same)) ∙ w.transport),
        )
  ];
}

IsWellFormed-Accepted :
    (c d : Courier) → Accepted c d → (d ≡ with_transport c) × IsWellFormed (with_transport c)
IsWellFormed-Accepted c d a = elim a.transport [
  | inl (none_given, e) ↦
      let foot = with_transport_foot c none_given in
      (
        e ∙ sym foot,
        formed (
            ap (λ x. transport_valid x.transport_type) foot
            ∙ (transport_valid_iff "on_foot").1 (inl refl)),
      )
  | inr (e, known) ↦
      let given = given_type c.transport_type known in
      let same = with_transport_same c given in
      (
        e ∙ sym same,
        formed (
            ap (λ x. transport_valid x.transport_type) same
            ∙ (transport_valid_iff c.transport_type).1 known),
      )
]
  where
    formed :
        transport_valid (with_transport c).transport_type ≡ true → IsWellFormed (with_transport c)
    formed t = record {
      named = (is_blank_iff c.name).1 a.named;
      phone = (validate_phone_iff c.phone).1 a.phone;
      status = (status_valid_iff c.status).1 a.status;
      transport = t;
    }

    given_type :
        (t : String) → (t ≡ "on_foot") ⊎ ((t ≡ "scooter") ⊎ (t ≡ "car")) → (t == "") ≡ false
    given_type t (inl e) = rw e refl
    given_type t (inr (inl e)) = rw e refl
    given_type t (inr (inr e)) = rw e refl

-- `validateCreate` accepts a courier exactly when the name is not blank, the phone number is a plus
-- sign and eleven digits, the status is `available`, `busy` or `paused`, and the transport type is
-- `on_foot`, `scooter`, `car` or empty. It hands on the courier as it is, with `on_foot` for an
-- empty type.
pub validate_create-Accepted : (c d : Courier) → (validate_create (some c) ≡ ok d) ↔ Accepted c d
validate_create-Accepted c d = (
  λ h. let (e, w) = (validate_create_iff c d).0 h in Accepted-IsWellFormed c d e w,
  λ a. (validate_create_iff c d).1 (IsWellFormed-Accepted c d a),
)
