-- ===== src/Kafka/Consumer.antt =====
-- The life of the consumer: NewConsumer and Run of internal/transport/kafka/consumer.go. What the
-- group and the context do is one record for each round of the loop. Logging, and with it the
-- draining of the group's errors, is left out.
use service_courier_platform.Prelude.{
  ◌≡◌, refl, ◌⊎◌, inl, inr, String, Bool, ◌||◌, ◌==◌, Option, none, some, All, subst, List, [], ◌∷◌,
  ◌++◌, ap, trim_space, if◌then◌else◌,
}
use service_courier_platform.Errors.{Err, Result, ok, err}

abbrev pub no_brokers : List String → Bool
no_brokers [] = Bool.true
no_brokers (b ∷ bs) = Bool.false

unfoldable pub connected : {G : Type 0} → Result G → Result (Option G)
connected (ok g) = ok (some g)
connected (err e) = err e

-- `NewConsumer`, with the answer of the constructor of the group.
unfoldable pub new_consumer :
    {G : Type 0}
    → (List String → String → Result G)
    → List String
    → String
    → String
    → Result (Option G)
unfolding connected
new_consumer new_group brokers group_id topic =
    if no_brokers brokers || (trim_space topic == "" || trim_space group_id == "")
    then ok none
    else connected (new_group brokers group_id)

-- One round: the context's error before the call of `Consume`, what it returns, the context's error
-- after it, and that of the pause.
pub record Round : Type 0 where
  pub before : Option Err
  pub consumed : Option Err
  pub after : Option Err
  pub pause : Option Err

failed_round : Option Err → Option Err → Option Err
failed_round (some e) pause = some e
failed_round none pause = pause

called : Option Err → Option Err → Option Err → Option Err
unfolding failed_round
called none after pause = pause
called (some e) after pause = failed_round after pause

-- `consumeOnce`, with `sleepOrDone` for the pause.
unfoldable pub consume_once : Round → Option Err
unfolding called
consume_once r = elim r.before [ some e ↦ some e | none ↦ called r.consumed r.after r.pause ]

-- How `Run` stands after the rounds: still running, or returned with an error.
pub data Running : Type 0 where
  running : Running
  stopped : Err → Running

continued : Option Err → Running → Running
continued none rest = rest
continued (some e) rest = stopped e

-- `Consumer.Run`, of a consumer that is there.
unfoldable pub run : List Round → Running
unfolding continued
run [] = running
run (r ∷ rs) = let rest = run rs in continued (consume_once r) rest

-- The error is the context's, at one of the three places where a round looks at it.
abbrev pub FromContext : Round → Err → Type 0
FromContext r e = (r.before ≡ some e) ⊎ ((r.after ≡ some e) ⊎ (r.pause ≡ some e))

-- Rounds that all went on, and one in which the context had ended.
pub record Ended (rounds : List Round) (e : Err) : Type 0 where
  pub first : List Round
  pub last : Round
  pub rest : List Round
  pub split : rounds ≡ first ++ last ∷ rest
  pub went_on : All (λ r. consume_once r ≡ none) first
  pub context : FromContext last e

called_context :
    (consumed after pause : Option Err) {e : Err}
    → called consumed after pause ≡ some e
    → (after ≡ some e) ⊎ (pause ≡ some e)
unfolding called
called_context none after pause h = inr h
called_context (some x) (some y) pause h = inl h
called_context (some x) none pause h = inr h

round_context :
    (before consumed after pause : Option Err) {e : Err}
    → consume_once (record { before = before; consumed = consumed; after = after; pause = pause })
      ≡ some e
    → FromContext (record { before = before; consumed = consumed; after = after; pause = pause }) e
unfolding consume_once
round_context (some x) consumed after pause h = inl h
round_context none consumed after pause h = inr (called_context consumed after pause h)

stopped_inj : {x y : Err} → stopped x ≡ stopped y → x ≡ y
stopped_inj h = cc

run_round :
    (r : Round) (rs : List Round) (o : Option Err) {e : Err}
    → consume_once r ≡ o
    → continued o (run rs) ≡ stopped e
    → (run rs ≡ stopped e → Ended rs e)
    → Ended (r ∷ rs) e
unfolding continued
run_round r rs none q h later =
    let l = later h in
    record {
      first = r ∷ l.first;
      last = l.last;
      rest = l.rest;
      split = ap (λ xs. r ∷ xs) l.split;
      went_on = (q, l.went_on);
      context = l.context;
    }
run_round r rs (some x) {e} q h later =
    let same : x ≡ e = stopped_inj h in
    record {
      first = [];
      last = r;
      rest = rs;
      split = refl;
      went_on = tt;
      context =
          round_context r.before r.consumed r.after r.pause
            (subst (λ y. consume_once r ≡ some y) same q);
    }

-- `Run` returns only an error of its context: an error of `Consume` ends no loop while the context
-- goes on.
pub run-Ended : (rounds : List Round) {e : Err} → run rounds ≡ stopped e → Ended rounds e
unfolding run
run-Ended [] h = cc
run-Ended (r ∷ rs) h = run_round r rs (consume_once r) refl h (run-Ended rs)
