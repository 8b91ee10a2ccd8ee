-- ===== src/Errors.antt =====
-- Error values: internal/apperr/errors.go, internal/repository/errors.go and
-- internal/transport/kafka/errors.go, with what they use of Go's package errors.
use service_courier_platform.Prelude.{◌≡◌, ℕ, String, Bool, true, false, ◌==◌, Option, none, some}

-- The error values that the program compares with `errors.Is`.
pub data Sentinel : Type 0 where
  invalid conflict not_found no_rows canceled deadline_exceeded : Sentinel

-- An error is the chain that `errors.Is` and `errors.As` walk.
pub data Err : Type 0 where
  -- `errors.New` of package apperr, pgx.ErrNoRows, the errors of package context
  sentinel : Sentinel → Err
  -- `*pgconn.PgError`, by its code
  pg : String → Err
  -- an error of the gRPC client, by its status code
  grpc : ℕ → Err
  -- `errors.New`, and `fmt.Errorf` with no %w
  text : String → Err
  -- `fmt.Errorf` with %w
  wrap : String → Err → Err
  -- `kafka.PermanentError`, whose field may be nil
  permanent : Err → Err
  permanent_nil : Err

abbrev pub same_sentinel : Sentinel → Sentinel → Bool
same_sentinel invalid invalid = true
same_sentinel conflict conflict = true
same_sentinel not_found not_found = true
same_sentinel no_rows no_rows = true
same_sentinel canceled canceled = true
same_sentinel deadline_exceeded deadline_exceeded = true
same_sentinel _ _ = false

-- `errors.Is`.
unfoldable pub errors_is : Sentinel → Err → Bool
errors_is s (sentinel t) = same_sentinel s t
errors_is s (pg c) = false
errors_is s (grpc c) = false
errors_is s (text m) = false
errors_is s (wrap m e) = errors_is s e
errors_is s (permanent e) = errors_is s e
errors_is s permanent_nil = false

-- `errors.As` with a `*pgconn.PgError`.
unfoldable pub as_pg : Err → Option String
as_pg (sentinel t) = none
as_pg (pg c) = some c
as_pg (grpc c) = none
as_pg (text m) = none
as_pg (wrap m e) = as_pg e
as_pg (permanent e) = as_pg e
as_pg permanent_nil = none

-- The code that `status.FromError` finds.
unfoldable pub as_grpc : Err → Option ℕ
as_grpc (grpc c) = some c
as_grpc (wrap m e) = as_grpc e
as_grpc (permanent e) = as_grpc e
as_grpc _ = none

-- `errors.As` with a `PermanentError`.
unfoldable pub is_permanent : Err → Bool
is_permanent (wrap m e) = is_permanent e
is_permanent (permanent e) = true
is_permanent permanent_nil = true
is_permanent _ = false

-- `Permanent`, on an error that is there.
unfoldable pub to_permanent : Err → Err
to_permanent e = permanent e

-- `PermanentError.Unwrap`.
unfoldable pub unwrap : Err → Option Err
unwrap (permanent e) = some e
unwrap (wrap m e) = some e
unwrap _ = none

-- `IsDuplicate`.
unfoldable pub is_duplicate : Err → Bool
unfolding as_pg
is_duplicate e = elim (as_pg e) [ none ↦ false | some c ↦ c == "23505" ]

-- `IsNotFound`.
unfoldable pub is_not_found : Err → Bool
unfolding errors_is
is_not_found e = errors_is no_rows e

-- What a fallible call returns.
pub data Result (A : Type 0) : Type 0 where
  ok : A → Result A
  err : Err → Result A

pub ok_inj : {A : Type 0} {a b : A} → ok a ≡ ok b → a ≡ b
ok_inj h = cc

pub err_inj : {A : Type 0} {x y : Err} → ◌≡◌ {A = Result A} (err x) (err y) → x ≡ y
err_inj h = cc

pub err_ok : {A : Type 0} {e : Err} {a : A} → err e ≡ ok a → ⊥
err_ok h = cc
