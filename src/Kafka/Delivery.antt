-- ===== src/Kafka/Delivery.antt =====
-- Which messages a claim marks: ConsumeClaim of internal/transport/kafka/consumer.go.
use service_courier_platform.Prelude.{String, ◌≡◌, refl, ap, List, [], ◌∷◌, ◌++◌, map, none, some}
use service_courier_platform.Errors.{Err, Result}
use service_courier_platform.Orders.{Event}
use service_courier_platform.Kafka.{
  EventDto, Message, Received, session_done, closed, message, Outcome, waiting, returned, Verdict,
  mark, give_up, Claim, proceed, consume_message, consume_claim,
}

module _ {S : Type 0} (unmarshal : String → Result EventDto)
    (handler : Event → S → Result (Unit {0}) × S) where
  -- Messages that were consumed one after the other, each of them for good.
  pub data Consumed : S → List Message → S → Type 0 where
    here : {s : S} → Consumed s [] s
    next :
        {s t u : S} {m : Message} {ms : List Message}
        → consume_message unmarshal handler m s ≡ (mark, t)
        → Consumed t ms u
        → Consumed s (m ∷ ms) u

  -- How the claim ends, by what it receives next.
  abbrev pub Ends : S → List Received → Outcome → S → Type 0
  Ends s [] o t = (o ≡ waiting) × (t ≡ s)
  Ends s (session_done ∷ rs) o t = (o ≡ returned none) × (t ≡ s)
  Ends s (closed ∷ rs) o t = (o ≡ returned none) × (t ≡ s)
  Ends s (message m ∷ rs) o t =
      (e : Err) × (consume_message unmarshal handler m s ≡ (give_up e, t)) × (o ≡ returned (some e))

  pub record Trace (inputs : List Received) (s : S) (c : Claim S) : Type 0 where
    pub messages : List Message
    pub rest : List Received
    pub reached : S
    pub split : inputs ≡ map message messages ++ rest
    pub consumed : Consumed s messages reached
    pub marked : c.marked ≡ map (λ m. m.offset) messages
    pub ends : Ends reached rest c.outcome c.state

  Trace-next :
      (m : Message) (rs : List Received) (s : S) (v : Verdict × S)
      → consume_message unmarshal handler m s ≡ v
      → ((t : S) → Trace rs t (consume_claim unmarshal handler rs t))
      → Trace
          (message m ∷ rs)
          s
          (proceed unmarshal handler m (consume_claim unmarshal handler rs) v)
  unfolding proceed
  Trace-next m rs s (mark, t) e later =
      let l = later t in
      record {
        messages = m ∷ l.messages;
        rest = l.rest;
        reached = l.reached;
        split = ap (λ xs. message m ∷ xs) l.split;
        consumed = next e l.consumed;
        marked = ap (λ xs. m.offset ∷ xs) l.marked;
        ends = l.ends;
      }
  Trace-next m rs s (give_up x, t) e later = record {
    messages = [];
    rest = message m ∷ rs;
    reached = s;
    split = refl;
    consumed = here;
    marked = refl;
    ends = (x, e, refl);
  }

  stop :
      (inputs : List Received) (s : S) (o : Outcome)
      → Ends s inputs o s
      → Trace inputs s (record { marked = []; outcome = o; state = s })
  stop inputs s o e = record {
    messages = [];
    rest = inputs;
    reached = s;
    split = refl;
    consumed = here;
    marked = refl;
    ends = e;
  }

  -- A claim consumes a first part of what it receives, and marks exactly the messages of that part,
  -- in their order; it goes on waiting at the end of what it receives, returns nil when the session
  -- or the channel ends, and else returns the error of the next message, which is not marked.
  pub consume_claim-Trace :
      (inputs : List Received) (s : S) → Trace inputs s (consume_claim unmarshal handler inputs s)
  unfolding consume_claim
  consume_claim-Trace [] s = stop [] s waiting (refl, refl)
  consume_claim-Trace (session_done ∷ rs) s =
      stop (session_done ∷ rs) s (returned none) (refl, refl)
  consume_claim-Trace (closed ∷ rs) s = stop (closed ∷ rs) s (returned none) (refl, refl)
  consume_claim-Trace (message m ∷ rs) s =
      Trace-next m rs s (consume_message unmarshal handler m s) refl (consume_claim-Trace rs)
