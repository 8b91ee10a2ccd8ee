-- ===== src/Gateway/Retry.antt =====
-- The loop of GetByID and ListFrom in internal/gateway/orders/retrying.go.
use service_courier_platform.Prelude.{
  ℕ, zero, suc, ◌+◌, ◌<◌, ◌≤◌, ◌≡◌, ◌≢◌, refl, ◌∙◌, sym, ap, ℤ, pos, pos_part, Bool, true, false,
  List, [], ◌∷◌, eqb, eqb_ℤ, Bool-cases, inl, inr, arith, length, eqb_iff, subst,
}
use service_courier_platform.Errors.{Err, Result, ok, err}
use service_courier_platform.Gateway.{
  RetryConfig, World, Report, is_retryable, backoff, sleep_with_context, failed, round, rounds,
  retrying,
}

module _ {A : Type 0} (cfg : RetryConfig) (w : World A) (n : ℕ) where
  abbrev pub delay : ℕ → ℤ
  delay a = backoff cfg.base_delay cfg.max_delay a

  -- An attempt after which the loop goes on.
  pub record Retried (a : ℕ) : Type 0 where
    pub error : Err
    pub failure : w.answer a ≡ err error
    pub running : w.ended a ≡ false
    pub not_last : a ≢ n
    pub retryable : is_retryable error ≡ true
    pub slept : sleep_with_context w a (delay a) ≡ true

  -- Why an attempt is the last one.
  pub data Stops (a : ℕ) : Type 0 where
    succeeded : (x : A) → w.answer a ≡ ok x → Stops a
    context_ended : w.ended a ≡ true → Stops a
    exhausted : a ≡ n → Stops a
    final : (e : Err) → w.answer a ≡ err e → is_retryable e ≡ false → Stops a
    interrupted : sleep_with_context w a (delay a) ≡ false → Stops a

  -- A run of the loop from an attempt on: `more` attempts are made after it, and the answer of the
  -- last one is returned.
  pub record Loop (left attempt : ℕ) (r : Report A) : Type 0 where
    pub more : ℕ
    pub calls : r.calls ≡ suc more
    pub within : r.calls ≤ left
    pub result : r.result ≡ w.answer (more + attempt)
    pub before : (i : ℕ) → i < more → Retried (i + attempt)
    pub stops : Stops (more + attempt)
    pub waits : length r.delays ≤ r.calls

  once :
      (left attempt : ℕ) (ds : List ℤ) (v : Result A)
      → w.answer attempt ≡ v
      → Stops attempt
      → length ds ≤ 1
      → Loop (suc left) attempt (record { result = v; calls = 1; delays = ds })
  once left attempt ds v e s d = record {
    more = 0;
    calls = refl;
    within = omega arith;
    result = sym e ∙ ap w.answer zero_plus;
    before = λ i h. elim h [ ];
    stops = subst Stops zero_plus s;
    waits = d;
  }
    where
      zero_plus : attempt ≡ 0 + attempt
      zero_plus = omega arith

  again :
      (left attempt : ℕ) (r : Report A)
      → Retried attempt
      → Loop left (suc attempt) r
      → Loop
          (suc left)
          attempt
          (record { result = r.result; calls = suc r.calls; delays = delay attempt ∷ r.delays })
  again left attempt r t l = record {
    more = suc l.more;
    calls = ap suc l.calls;
    within = omega (arith, l.within);
    result = l.result ∙ ap w.answer (shift l.more);
    before = before;
    stops = subst Stops (shift l.more) l.stops;
    waits = omega (arith, l.waits);
  }
    where
      shift : (k : ℕ) → k + suc attempt ≡ suc k + attempt
      shift k = omega arith

      before : (i : ℕ) → i < suc l.more → Retried (i + attempt)
      before zero h = subst Retried (omega arith) t
      before (suc i) h = subst Retried (shift i) (l.before i (omega arith))

  module _ (limit : cfg.max_attempts ≡ pos n) where
    below_limit : (attempt : ℕ) → eqb attempt n ≡ false → attempt ≢ n
    below_limit attempt h = ground arith

    tested : (attempt : ℕ) (b : Bool) → eqb attempt n ≡ b → eqb_ℤ (pos attempt) cfg.max_attempts ≡ b
    tested attempt b h = ap (eqb_ℤ (pos attempt)) limit ∙ h

    Loop-failed :
        (left attempt : ℕ) (e : Err) (rest : Report A)
        → w.answer attempt ≡ err e
        → (attempt ≢ n → Loop left (suc attempt) rest)
        → Loop (suc left) attempt (failed cfg w attempt e rest)
    unfolding failed
    Loop-failed left attempt e rest a later =
        let last = once left attempt in
        elim (Bool-cases (w.ended attempt)) [
          | inl ended ↦ rw ended (last [] (err e) a (context_ended ended) (omega arith))
          | inr runs ↦ elim (Bool-cases (eqb attempt n)) [
            | inl at_limit ↦
                rw (runs, tested attempt true at_limit)
                  (last [] (err e) a (exhausted ((eqb_iff attempt n).0 at_limit)) (omega arith))
            | inr below ↦ elim (Bool-cases (is_retryable e)) [
              | inr ends ↦
                  rw (runs, tested attempt false below, ends)
                    (last [] (err e) a (final e a ends) (omega arith))
              | inl goes ↦ elim (Bool-cases (sleep_with_context w attempt (delay attempt))) [
                | inl slept ↦
                    rw (runs, tested attempt false below, goes, slept)
                      (again left attempt rest
                        (record {
                          error = e;
                          failure = a;
                          running = runs;
                          not_last = below_limit attempt below;
                          retryable = goes;
                          slept = slept;
                        })
                        (later (below_limit attempt below)))
                | inr cut ↦
                    rw (runs, tested attempt false below, goes, cut)
                      (last (delay attempt ∷ []) (err e) a (interrupted cut) (omega arith))
              ]
            ]
          ]
        ]

    Loop-round :
        (left attempt : ℕ) (v : Result A) (later : Result A → Report A)
        → w.answer attempt ≡ v
        → (attempt ≢ n → (e : Err) → Loop left (suc attempt) (later (err e)))
        → Loop (suc left) attempt (round cfg w attempt v later)
    unfolding round
    Loop-round left attempt (ok x) later a go =
        once left attempt [] (ok x) a (succeeded x a) (omega arith)
    Loop-round left attempt (err e) later a go =
        Loop-failed left attempt e (later (err e)) a (λ d. go d e)

    loop :
        (left attempt : ℕ) (last : Result A)
        → left + attempt ≡ n
        → Loop (suc left) attempt (rounds cfg w (suc left) attempt last)
    unfolding rounds
    loop zero attempt last h =
        Loop-round zero attempt (w.answer attempt) (rounds cfg w zero (suc attempt)) refl
          (λ d e. absurd (d (omega arith)))
    loop (suc left) attempt last h =
        Loop-round (suc left) attempt (w.answer attempt) (rounds cfg w (suc left) (suc attempt))
          refl (λ d e. loop left (suc attempt) (err e) (omega arith))

-- With at least one attempt allowed, a retried call makes at least one and at most that many calls
-- and returns the answer of the last one, which is where the call succeeded, the context had
-- ended, the attempts were used up, the error is not retryable, or the sleep was cut short; every
-- call before failed with a retryable error, while the context ran, and was slept after. No more
-- delays are begun than calls are made.
pub retrying-Loop :
    {A : Type 0} (cfg : RetryConfig) (w : World A) (n : ℕ) (missing : A)
    → cfg.max_attempts ≡ pos (suc n)
    → Loop cfg w (suc n) (suc n) 1 (retrying cfg w missing)
unfolding retrying
retrying-Loop cfg w n missing limit =
    subst (λ k. Loop cfg w (suc n) (suc n) 1 (rounds cfg w k 1 (ok missing)))
      (sym (ap pos_part limit)) (loop cfg w (suc n) limit n 1 (ok missing) (omega arith))

-- With no attempt allowed, no call is made and the nil result is returned with no error.
pub retrying-none :
    {A : Type 0} (cfg : RetryConfig) (w : World A) (missing : A)
    → pos_part cfg.max_attempts ≡ 0
    → retrying cfg w missing ≡ record { result = ok missing; calls = 0; delays = [] }
unfolding retrying
retrying-none cfg w missing h = rw (h, rounds)
