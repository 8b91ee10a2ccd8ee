-- ===== src/Gateway.antt =====
-- The orders gateway: internal/gateway/orders (order.go and retrying.go). The gRPC client is an
-- argument, and so is what happens around the attempts of a retried call. Logging is left out.
pub mod Backoff
pub mod Retry
use service_courier_platform.Prelude.{
  ℕ, zero, suc, ◌+◌, ◌-◌, ℤ, pos, pos_part, String, Bool, true, false, not, ◌||◌, List, [], ◌∷◌,
  Option, none, some, eqb, eqb_ℤ, ltb_ℤ, leb_ℤ, if◌then◌else◌, shl,
}
use service_courier_platform.Errors.{Err, wrap, Result, ok, err, as_grpc}
use service_courier_platform.Domain.{Time}

pub record Order : Type 0 where
  pub id : String
  pub status : String
  pub created_at : Time

-- The fields of the generated message that the code reads.
pub record ProtoOrder : Type 0 where
  pub id : String
  pub status : String
  pub created_at : Option Time

-- `mapProtoOrder`; a missing time stays the zero time.
unfoldable pub map_proto_order : ProtoOrder → Order
map_proto_order o = record {
  id = o.id;
  status = o.status;
  created_at = elim o.created_at [ none ↦ 0 | some t ↦ t ];
}

-- The two calls of `OrdersServiceClient`.
pub record Client : Type 0 where
  pub get_order_by_id : String → Result (Option ProtoOrder)
  pub get_orders : Time → Result (List (Option ProtoOrder))

answer_order : Result (Option ProtoOrder) → Result (Option Order)
answer_order (err e) = err (wrap "order gateway: GetOrderByID" e)
answer_order (ok none) = ok none
answer_order (ok (some o)) = ok (some (map_proto_order o))

-- `GRPCGateway.GetByID`.
unfoldable pub get_by_id : Client → String → Result (Option Order)
unfolding answer_order map_proto_order
get_by_id client id = answer_order (client.get_order_by_id id)

-- The loop of `ListFrom`, which skips nil orders.
map_orders : List (Option ProtoOrder) → List Order
map_orders [] = []
map_orders (none ∷ os) = map_orders os
map_orders (some o ∷ os) = map_proto_order o ∷ map_orders os

answer_orders : Result (List (Option ProtoOrder)) → Result (List Order)
answer_orders (err e) = err (wrap "order gateway: GetOrders" e)
answer_orders (ok os) = ok (map_orders os)

-- `GRPCGateway.ListFrom`.
unfoldable pub list_from : Client → Time → Result (List Order)
unfolding answer_orders map_orders map_proto_order
list_from client from = answer_orders (client.get_orders from)

-- int and Duration are int64.
pub record RetryConfig : Type 0 where
  pub max_attempts : ℤ
  pub base_delay : ℤ
  pub max_delay : ℤ

abbrev pub resource_exhausted : ℕ
resource_exhausted = 8

abbrev pub unavailable : ℕ
unavailable = 14

abbrev pub deadline_exceeded : ℕ
deadline_exceeded = 4

-- `isRetryable`.
unfoldable pub is_retryable : Err → Bool
unfolding as_grpc
is_retryable e = elim (as_grpc e) [
  | none ↦ false
  | some code ↦ eqb code resource_exhausted || (eqb code unavailable || eqb code deadline_exceeded)
]

-- `backoff`.
unfoldable pub backoff : ℤ → ℤ → ℕ → ℤ
unfolding shl
backoff base max attempt = let d = shl base (attempt - 1) in if ltb_ℤ max d then max else d

-- What the loop of a retried call meets: the answer of each attempt, whether the context has ended
-- after it, and whether the timer fires before the context ends.
pub record World (A : Type 0) : Type 0 where
  pub answer : ℕ → Result A
  pub ended : ℕ → Bool
  pub woke : ℕ → Bool

-- What the caller gets, how often the next gateway was called, and the delays that were begun:
-- one for each count of the retries' counter.
pub record Report (A : Type 0) : Type 0 where
  pub result : Result A
  pub calls : ℕ
  pub delays : List ℤ

-- `sleepWithContext`.
unfoldable pub sleep_with_context : {A : Type 0} → World A → ℕ → ℤ → Bool
sleep_with_context w attempt d = if leb_ℤ d (pos 0) then true else w.woke attempt

module _ {A : Type 0} (cfg : RetryConfig) (w : World A) where
  -- The end of a round whose attempt failed.
  failed : ℕ → Err → Report A → Report A
  failed attempt e rest =
      if w.ended attempt || (eqb_ℤ (pos attempt) cfg.max_attempts || not (is_retryable e))
      then record { result = err e; calls = 1; delays = [] }
      else let d = backoff cfg.base_delay cfg.max_delay attempt in
        if sleep_with_context w attempt d
        then record { result = rest.result; calls = suc rest.calls; delays = d ∷ rest.delays }
        else record { result = err e; calls = 1; delays = d ∷ [] }

  -- One round of the loop, with the rounds that are left after it.
  round : ℕ → Result A → (Result A → Report A) → Report A
  round attempt (ok a) later = record { result = ok a; calls = 1; delays = [] }
  round attempt (err e) later = failed attempt e (later (err e))

  -- The loop from an attempt on, with the number of rounds left and `nil, lastErr`.
  unfoldable pub rounds : ℕ → ℕ → Result A → Report A
  unfolding round failed
  rounds zero attempt last = record { result = last; calls = 0; delays = [] }
  rounds (suc left) attempt last = round attempt (w.answer attempt) (rounds left (suc attempt))

  -- `RetryingGateway.GetByID` and `ListFrom`; `missing` is the nil that stands for no result.
  unfoldable pub retrying : A → Report A
  unfolding rounds
  retrying missing = rounds (pos_part cfg.max_attempts) 1 (ok missing)
