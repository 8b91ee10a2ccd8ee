-- ===== src/Middleware/Addresses.antt =====
-- The address that clientIP of internal/http/middleware/ratelimit/middleware.go makes of `host:port`.
use Prim.Native.Char.{Char}
use Prim.Native.String.{String, [], ◌∷◌}
use service_courier_platform.Prelude.{
  both_tests, ℕ, ◌≡◌, refl, ◌==◌, false, none, some, eq_iff, Bool-cases, inl, inr,
}
use service_courier_platform.Middleware.{
  is_char, has_char, before_last, plain, split_host, pick, client_ip,
}

-- `net.JoinHostPort` of a host without colons.
unfoldable pub join : String → String → String
join [] port = ":" ∷ port
join (c ∷ host) port = c ∷ join host port

-- No colon and no bracket.
pub record IsBare (s : String) : Type 0 where
  pub colon : has_char b':' s ≡ false
  pub opening : has_char b'[' s ≡ false
  pub closing : has_char b']' s ≡ false

not_first :
    (n : ℕ) (c : Char) (s : String)
    → has_char n (c ∷ s) ≡ false
    → (is_char n c ≡ false) × (has_char n s ≡ false)
unfolding has_char
not_first n c s h = elim (Bool-cases (is_char n c)) [
  | inl e ↦ absurd (both_tests refl (rw e at h))
  | inr e ↦ (e, rw e at h)
]

before_last-none : (n : ℕ) (s : String) → has_char n s ≡ false → before_last n s ≡ none
unfolding before_last
before_last-none n [] h = refl
before_last-none n (c ∷ s) h =
    let (first, rest) = not_first n c s h in rw (before_last-none n s rest, first) refl

before_last-join :
    (host port : String)
    → has_char b':' port ≡ false
    → before_last b':' (join host port) ≡ some host
unfolding before_last join
before_last-join [] port h = rw (before_last-none b':' port h) refl
before_last-join (c ∷ host) port h = rw (before_last-join host port h) refl

has_char-join :
    (n : ℕ) (host port : String)
    → is_char n ":" ≡ false
    → has_char n host ≡ false
    → has_char n port ≡ false
    → has_char n (join host port) ≡ false
unfolding has_char join
has_char-join n [] port k h p = rw k p
has_char-join n (c ∷ host) port k h p =
    let (first, rest) = not_first n c host h in rw first (has_char-join n host port k rest p)

split_plain :
    (c : Char) (s : String)
    → is_char b'[' c ≡ false
    → split_host (c ∷ s) ≡ plain (c ∷ s) (before_last b':' (c ∷ s))
unfolding split_host
split_plain c s h = rw h refl

plain_host :
    (text host : String)
    → has_char b':' host ≡ false
    → has_char b'[' text ≡ false
    → has_char b']' text ≡ false
    → plain text (some host) ≡ some host
unfolding plain
plain_host text host a b c = rw (a, b, c) refl

split_host-join :
    (c : Char) (host port : String)
    → IsBare (c ∷ host)
    → IsBare port
    → split_host (join (c ∷ host) port) ≡ some (c ∷ host)
unfolding join
split_host-join c host port h p =
    rw
      (
        split_plain c (join host port) (not_first b'[' c host h.opening).0,
        before_last-join (c ∷ host) port p.colon,
      )
      (plain_host (join (c ∷ host) port) (c ∷ host) h.colon
        (has_char-join b'[' (c ∷ host) port refl h.opening p.opening)
        (has_char-join b']' (c ∷ host) port refl h.closing p.closing))

not_empty : (c : Char) (host : String) → ((c ∷ host) == "") ≡ false
not_empty c host = elim (Bool-cases ((c ∷ host) == "")) [
  | inl e ↦ absurd (no_text ((eq_iff (c ∷ host) "").0 e))
  | inr e ↦ e
]
  where
    no_text : c ∷ host ≡ [] → ⊥
    no_text q = cc

-- A client with the address `host:port` is counted under the host, for hosts that are not empty
-- where neither host nor port has a colon or a bracket: the port plays no part.
pub client_ip-join :
    (c : Char) (host port : String)
    → IsBare (c ∷ host)
    → IsBare port
    → client_ip (join (c ∷ host) port) ≡ c ∷ host
unfolding client_ip pick
client_ip-join c host port h p = rw (split_host-join c host port h p, not_empty c host) refl
