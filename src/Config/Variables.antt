-- ===== src/Config/Variables.antt =====
-- Typed variables of the environment: envBool, envInt, envFloat64 and envDuration of
-- internal/config/config.go. `strconv.ParseFloat` and `time.ParseDuration` are arguments, and the
-- default of a number or a duration comes with its text.
use service_courier_platform.Prelude.{
  ◌≡◌, refl, ℤ, String, Bool, true, false, ◌||◌, ◌==◌, Option, none, some, if◌then◌else◌,
  Bool-cases, inl, inr,
}
use service_courier_platform.Errors.{text, wrap, Result, ok, err, ok_inj, err_ok}
use service_courier_platform.Handlers.Numbers.{parse_int}
use service_courier_platform.Config.{Env, env_or_default, invalid_setting}

-- `strconv.ParseBool`.
unfoldable pub parse_bool : String → Option Bool
parse_bool s =
    if s == "1" || (s == "t" || (s == "T" || (s == "TRUE" || (s == "true" || s == "True"))))
    then some true
    else if s == "0" || (s == "f" || (s == "F" || (s == "FALSE" || (s == "false" || s == "False"))))
    then some false
    else none

-- `strconv.FormatBool`.
abbrev pub format_bool : Bool → String
format_bool true = "true"
format_bool false = "false"

bool_of : String → Option Bool → Result Bool
bool_of key none = invalid_setting key
bool_of key (some b) = ok b

-- `envBool`.
unfoldable pub env_bool : Env → String → Bool → Result Bool
unfolding bool_of
env_bool env key default = bool_of key (parse_bool (env_or_default env key (format_bool default)))

-- A value that has been read, and the test of it.
validated : {A : Type 0} → String → (A → Bool) → Result A → Result A
validated key valid (err e) = err (wrap key e)
validated key valid (ok a) = if valid a then ok a else invalid_setting key

read_int : Option ℤ → Result ℤ
read_int none = err (text "invalid syntax")
read_int (some n) = ok n

-- `envInt`, with the text of its default.
unfoldable pub env_int : Env → String → String → (ℤ → Bool) → Result ℤ
unfolding validated read_int
env_int env key default valid =
    validated key valid (read_int (parse_int (env_or_default env key default)))

-- `envFloat64` and `envDuration`: the reader is the one of float64s, or of durations.
unfoldable pub env_read :
    {A : Type 0} → (String → Result A) → Env → String → String → (A → Bool) → Result A
unfolding validated
env_read read env key default valid = validated key valid (read (env_or_default env key default))

validated_passes :
    {A : Type 0} (key : String) (valid : A → Bool) (r : Result A) {a : A}
    → validated key valid r ≡ ok a
    → valid a ≡ true
unfolding validated
validated_passes key valid (err e) h = cc
validated_passes key valid (ok x) {a} h = elim (Bool-cases (valid x)) [
  | inl e ↦ let same : x ≡ a = ok_inj (rw e at h) in rw (← same, e)
  | inr e ↦ absurd (err_ok (rw e at h))
]

-- What is read passes its test.
pub env_int_passes :
    (env : Env) (key default : String) (valid : ℤ → Bool) {n : ℤ}
    → env_int env key default valid ≡ ok n
    → valid n ≡ true
unfolding env_int
env_int_passes env key default valid h = validated_passes key valid _ h

pub env_read_passes :
    {A : Type 0} (read : String → Result A) (env : Env) (key default : String) (valid : A → Bool)
    {a : A}
    → env_read read env key default valid ≡ ok a
    → valid a ≡ true
unfolding env_read
env_read_passes read env key default valid h = validated_passes key valid _ h

-- A reading that depends on one before, whose error it passes on.
abbrev pub then_read : {A B : Type 0} → Result A → (A → Result B) → Result B
then_read (err e) f = err e
then_read (ok a) f = f a

pub then_read_ok :
    {A B : Type 0} (r : Result A) (f : A → Result B) {b : B}
    → then_read r f ≡ ok b
    → (a : A) × (r ≡ ok a) × (f a ≡ ok b)
then_read_ok (err e) f h = cc
then_read_ok (ok a) f h = (a, refl, h)
