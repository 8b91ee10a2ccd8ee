-- ===== src/Config/Brokers.antt =====
-- The Kafka settings of internal/config/config.go, and the consumer that
-- internal/transport/kafka/consumer.go makes of them.
use service_courier_platform.Prelude.{
  ◌≡◌, ◌≢◌, ◌∙◌, sym, ap, subst, refl, String, false, ◌==◌, none, List, [], ◌∷◌, All, trim_space,
  trim_space-trim_space, Bool-cases, inl, inr,
}
use service_courier_platform.Errors.{ok_inj, Result, ok, err}
use service_courier_platform.Kafka.Consumer.{new_consumer, no_brokers, connected}
use service_courier_platform.Config.{
  Env, KafkaConfig, env_or_default, brokers_of, split_first, split_brokers, kafka_of, load_kafka,
}

-- A value that a trim leaves with something in it.
abbrev pub Named : String → Type 0
Named s = (trim_space s == "") ≡ false

-- There are brokers, each with a name that is trimmed; and the topic and the group have names.
pub record IsComplete (k : KafkaConfig) : Type 0 where
  pub some_broker : no_brokers k.brokers ≡ false
  pub brokers : All (λ b. Named b × (trim_space b ≡ b)) k.brokers
  pub topic : Named k.topic
  pub group_id : Named k.group_id

trimmed_Named : (s : String) → Named s → Named (trim_space s)
trimmed_Named s h = ap (λ t. t == "") (trim_space-trim_space s) ∙ h

pub env_Named :
    (env : Env) (key default : String) → Named default → Named (env_or_default env key default)
unfolding env_or_default
env_Named env key default d = elim (Bool-cases (trim_space (env key) == "")) [
  | inl e ↦ rw e d
  | inr e ↦ rw e (trimmed_Named (env key) e)
]

brokers_of-Named : (bs : List String) → All (λ b. Named b × (trim_space b ≡ b)) (brokers_of bs)
unfolding brokers_of
brokers_of-Named [] = tt
brokers_of-Named (b ∷ bs) = elim (Bool-cases (trim_space b == "")) [
  | inl e ↦ rw e (brokers_of-Named bs)
  | inr e ↦ rw e ((trimmed_Named b e, trim_space-trim_space b), brokers_of-Named bs)
]

split-Named : (csv : String) → All (λ b. Named b × (trim_space b ≡ b)) (split_brokers csv)
unfolding split_brokers
split-Named csv = brokers_of-Named ((split_first csv).0 ∷ (split_first csv).1)

default_topic : Named "order.status.changed"
unfolding trim_space
default_topic = refl

default_group : Named "service-courier"
unfolding trim_space
default_group = refl

IsComplete-of :
    (env : Env) (bs : List String) {k : KafkaConfig}
    → All (λ b. Named b × (trim_space b ≡ b)) bs
    → kafka_of env bs ≡ ok k
    → IsComplete k
unfolding kafka_of
IsComplete-of env [] a h = cc
IsComplete-of env (b ∷ bs) a h = subst IsComplete (ok_inj h) (record {
  some_broker = refl;
  brokers = a;
  topic = env_Named env "KAFKA_ORDER_TOPIC" "order.status.changed" default_topic;
  group_id = env_Named env "KAFKA_GROUP_ID" "service-courier" default_group;
})

-- What `loadKafka` accepts names at least one broker, each trimmed and not empty, and a topic and a
-- group that are not blank.
pub load_kafka-IsComplete : (env : Env) {k : KafkaConfig} → load_kafka env ≡ ok k → IsComplete k
unfolding load_kafka
load_kafka-IsComplete env h =
    let csv = env_or_default env "KAFKA_BROKERS" "kafka:9092" in
    IsComplete-of env (split_brokers csv) (split-Named csv) h

pub answered :
    {G : Type 0} (new_group : List String → String → Result G) (bs : List String)
    (group topic : String)
    → no_brokers bs ≡ false
    → Named topic
    → Named group
    → new_consumer new_group bs group topic ≡ connected (new_group bs group)
unfolding new_consumer
answered new_group bs group topic b t g = rw (b, t, g) refl

connected_some : {G : Type 0} (r : Result G) → connected r ≢ ok none
unfolding connected
connected_some (ok g) h = cc
connected_some (err e) h = cc

-- With settings that `loadKafka` accepts, `NewConsumer` returns a consumer or the group's error,
-- never the nil that the worker takes for a missing configuration.
pub new_consumer-load_kafka :
    {G : Type 0} (new_group : List String → String → Result G) (env : Env) {k : KafkaConfig}
    → load_kafka env ≡ ok k
    → new_consumer new_group k.brokers k.group_id k.topic ≢ ok none
new_consumer-load_kafka new_group env {k} h n =
    let c = load_kafka-IsComplete env h in
    connected_some (new_group k.brokers k.group_id)
      (sym (answered new_group k.brokers k.group_id k.topic c.some_broker c.topic c.group_id) ∙ n)
