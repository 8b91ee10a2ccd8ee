-- ===== src/App/Connecting.antt =====
-- The retried connection of internal/app/helpers.go.
use service_courier_platform.Prelude.{
  ℕ, zero, suc, ◌+◌, ◌<◌, ◌≤◌, ◌≡◌, refl, subst, pos, true, false, ltb, Option, none, some, arith,
  Bool-cases, Option-cases, inl, inr,
}
use service_courier_platform.Errors.{Err, Result, ok, err}
use service_courier_platform.App.{
  Attempts, given_up, waited, attempted, attempts, connect_db_with_retry,
}

module _ {P : Type 0} (n : ℕ) (w : Attempts P) where
  -- An attempt that failed, and after which the delay was waited for in full.
  pub record Passed (i : ℕ) : Type 0 where
    pub error : Err
    pub failure : w.open_pool i ≡ err error
    pub waited_for : i < n → w.interrupted i ≡ none

  -- How the attempts end.
  pub data Ends (i : ℕ) (last : Option Err) : Result P → Type 0 where
    connected : (p : P) → i ≤ n → w.open_pool i ≡ ok p → Ends i last (ok p)
    cut_short :
        (e x : Err) → i < n → w.open_pool i ≡ err x → w.interrupted i ≡ some e → Ends i last (err e)
    exhausted : i ≡ suc n → Ends i last (given_up (pos n) w last)

  -- The last error before an attempt.
  pub data LastError : ℕ → Option Err → Type 0 where
    at_start : LastError 1 none
    of_attempt : (i : ℕ) (e : Err) → w.open_pool i ≡ err e → LastError (suc i) (some e)

  pub record Run (start : ℕ) (r : Result P) : Type 0 where
    pub more : ℕ
    pub before : (k : ℕ) → k < more → Passed (k + start)
    pub last : Option Err
    pub last_error : LastError (more + start) last
    pub ends : Ends (more + start) last r

  stop : (i : ℕ) (last : Option Err) (r : Result P) → LastError i last → Ends i last r → Run i r
  stop i last r l e = record {
    more = 0;
    before = λ k h. elim h [ ];
    last = last;
    last_error = subst (λ j. LastError j last) zero_plus l;
    ends = subst (λ j. Ends j last r) zero_plus e;
  }
    where
      zero_plus : i ≡ 0 + i
      zero_plus = omega arith

  go_on : (i : ℕ) (r : Result P) → Passed i → Run (suc i) r → Run i r
  go_on i r p run = record {
    more = suc run.more;
    before = before;
    last = run.last;
    last_error = subst (λ j. LastError j run.last) (shift run.more) run.last_error;
    ends = subst (λ j. Ends j run.last r) (shift run.more) run.ends;
  }
    where
      shift : (k : ℕ) → k + suc i ≡ suc k + i
      shift k = omega arith

      before : (k : ℕ) → k < suc run.more → Passed (k + i)
      before zero h = subst Passed (omega arith) p
      before (suc k) h = subst Passed (shift k) (run.before k (omega arith))

  attempt_made :
      (i : ℕ) (last : Option Err) (later : Option Err → Result P) (v : Result P)
      → i ≤ n
      → LastError i last
      → w.open_pool i ≡ v
      → ((e : Err) → LastError (suc i) (some e) → Run (suc i) (later (some e)))
      → Run i (attempted (pos n) w i v later)
  unfolding attempted waited
  attempt_made i last later (ok p) h l a go = stop i last (ok p) l (connected p h a)
  attempt_made i last later (err x) h l a go = elim (Bool-cases (ltb i n)) [
    | inr at_end ↦ rw at_end (
        go_on i (later (some x))
          (record { error = x; failure = a; waited_for = λ k. absurd (no_more at_end k) })
          (go x (of_attempt i x a)))
    | inl room ↦ elim (Option-cases (w.interrupted i)) [
      | inl full ↦
          rw (room, full)
            (go_on i (later (some x)) (record { error = x; failure = a; waited_for = λ k. full })
              (go x (of_attempt i x a)))
      | inr (e, cut) ↦ rw (room, cut) (stop i last (err e) l (cut_short e x (below room) a cut))
    ]
  ]
    where
      no_more : ltb i n ≡ false → i < n → ⊥
      no_more p q = ground arith

      below : ltb i n ≡ true → i < n
      below p = ground arith

  attempts-Run :
      (left i : ℕ) (last : Option Err)
      → left + i ≡ suc n
      → LastError i last
      → Run i (attempts (pos n) w left i last)
  unfolding attempts
  attempts-Run zero i last h l = stop i last (given_up (pos n) w last) l (exhausted (omega arith))
  attempts-Run (suc left) i last h l =
      attempt_made i last (attempts (pos n) w left (suc i)) (w.open_pool i) (omega arith) l refl
        (λ e k. attempts-Run left (suc i) (some e) (omega arith) k)

  -- The connection is that of the first attempt that succeeds, and there are at most the configured
  -- number of attempts; a context that ends in a delay ends the attempts with its error; and when
  -- all have failed, the error wraps the one of the last attempt. Every attempt before has failed,
  -- and its delay was waited for in full where another attempt was allowed.
  pub connect_db_with_retry-Run : Run 1 (connect_db_with_retry (pos n) w)
  unfolding connect_db_with_retry
  connect_db_with_retry-Run = attempts-Run n 1 none (omega arith) at_start
