-- ===== src/Runtime/Client/Settings.antt =====
-- Which of the settings that Python gives reach the Kafka client.
use kaf_py.Prelude.{
  ℕ, false, ◌*◌, ◌≡◌, ◌⊎◌, inl, inr, refl, subst, ◌∙◌, Option, none, some, String, string_eq, ℤ,
  pos, List, [], ◌∷◌, arith,
}
use kaf_py.Prelude.Map
use kaf_py.Retry.{RetryPolicy}
use kaf_py.Configuration.{to_rust}
use kaf_py.Configuration.Consumers
use kaf_py.Consumer.Config.{
  ConsumerConfig, ConsumerFields, Built, Setter, PartitionAssignmentStrategy, into_rdkafka_config,
  set, millis_u32, build, show_bool,
}
use kaf_py.Runtime.Client.{rust_config, rust_fields, plain_fields, set_some}

List-cases {ℓ} :
    {A : Type ℓ} (l : List A) → (l ≡ []) ⊎ ((first : A) × (rest : List A) × (l ≡ first ∷ rest))
List-cases [] = inl refl
List-cases (first ∷ rest) = inr (first, rest, refl)

module _ {F64 : Type 0} where
  -- What the fields of the client's configuration are, by those that Python gave.
  abbrev Kept : Consumers.ConsumerFields F64 → ConsumerFields (RetryPolicy F64) → Type 0
  Kept f g =
      (g.topics ≡ f.topics)
      × (g.session_timeout_ms ≡ millis_u32 (f.session_timeout_ms * 1000000))
      × (g.max_poll_interval_ms ≡ millis_u32 (f.max_poll_interval_ms * 1000000))
      × (g.enable_auto_commit ≡ f.enable_auto_commit)
      × (g.security_protocol ≡ none)
      × (g.sasl_mechanism ≡ none)
      × (g.sasl_username ≡ none)
      × (g.sasl_password ≡ none)
      × (g.bootstrap_timeout_ms ≡ none)
      × (g.fetch_min_bytes ≡ pos 1048576)
      × (g.partition_assignment_strategy ≡ PartitionAssignmentStrategy.cooperative_sticky)
      × (g.max_partition_fetch_bytes ≡ pos 10485760)
      × (g.retry_backoff_ms ≡ 100)
      × (g.enable_auto_offset_store ≡ false)

  plain_fields-Kept :
      (default_policy : RetryPolicy F64) (f : Consumers.ConsumerFields F64)
      → Kept f (plain_fields default_policy f)
  unfolding plain_fields
  plain_fields-Kept default_policy f =
      (refl, refl, refl, refl, refl, refl, refl, refl, refl, refl, refl, refl, refl, refl)

  set_some-Kept :
      {A : Type 0} (setter : A → Setter (RetryPolicy F64)) (o : Option A)
      (f : Consumers.ConsumerFields F64) (g : ConsumerFields (RetryPolicy F64))
      → ((a : A) → Kept f (set g (setter a)))
      → Kept f g
      → Kept f (set_some setter o g)
  set_some-Kept setter none f g k h = h
  set_some-Kept setter (some a) f g k h = k a

  rust_fields-Kept :
      (default_policy : RetryPolicy F64) (f : Consumers.ConsumerFields F64)
      → Kept f (rust_fields default_policy f)
  unfolding rust_fields set
  rust_fields-Kept default_policy f =
      let h0 = plain_fields-Kept default_policy f in
      let h1 =
        set_some-Kept (λ p. Setter.default_retry_policy (to_rust p)) f.default_retry_policy f _
          (λ a. h0) h0 in
      let h2 = set_some-Kept Setter.dlq_topic_prefix f.dlq_topic_prefix f _ (λ a. h1) h1 in
      set_some-Kept Setter.drain_timeout f.drain_timeout_secs f _ (λ a. h2) h2

  built : RetryPolicy F64 → Consumers.ConsumerConfig F64 → ConsumerConfig (RetryPolicy F64)
  built default_policy c = record {
    brokers = c.brokers;
    group_id = c.group_id;
    fields = rust_fields default_policy c.fields;
  }

  rust_config-built :
      (default_policy : RetryPolicy F64) (c : Consumers.ConsumerConfig F64) (topic : String)
      (rest : List String)
      → c.fields.topics ≡ topic ∷ rest
      → rust_config default_policy c ≡ Built.ok (built default_policy c)
  unfolding rust_config built
  rust_config-built default_policy c topic rest e =
      let same = (rust_fields-Kept default_policy c.fields).0 ∙ e in rw (same, build) refl

  abbrev pub Dropped : (ℕ → String) → (ℤ → String) → ConsumerConfig (RetryPolicy F64) → Type 0
  Dropped show_nat show_int r =
      (Map.get "security.protocol" (into_rdkafka_config show_nat show_int r) ≡ none)
      × (Map.get "sasl.mechanism" (into_rdkafka_config show_nat show_int r) ≡ none)
      × (Map.get "sasl.username" (into_rdkafka_config show_nat show_int r) ≡ none)
      × (Map.get "sasl.password" (into_rdkafka_config show_nat show_int r) ≡ none)
      × (Map.get "fetch.min.bytes" (into_rdkafka_config show_nat show_int r)
          ≡ some (show_int (pos 1048576)))
      × (Map.get "partition.assignment.strategy" (into_rdkafka_config show_nat show_int r)
          ≡ some "cooperative-sticky")
      × (Map.get "max.partition.fetch.bytes" (into_rdkafka_config show_nat show_int r)
          ≡ some (show_int (pos 10485760)))
      × (Map.get "fetch.message.max.bytes" (into_rdkafka_config show_nat show_int r)
          ≡ some (show_int (pos 1048576)))
      × (Map.get "retry.backoff.ms" (into_rdkafka_config show_nat show_int r) ≡ some (show_nat 100))
      × (Map.get "enable.auto.offset.store" (into_rdkafka_config show_nat show_int r)
          ≡ some (show_bool false))

  built-Dropped :
      (default_policy : RetryPolicy F64) (show_nat : ℕ → String) (show_int : ℤ → String)
      (c : Consumers.ConsumerConfig F64)
      → Dropped show_nat show_int (built default_policy c)
  unfolding into_rdkafka_config Map.get built
  built-Dropped default_policy show_nat show_int c =
      let kept = rust_fields-Kept default_policy c.fields in
      (
        rw (kept.4, kept.5, kept.6, kept.7, kept.8) refl,
        rw (kept.4, kept.5, kept.6, kept.7, kept.8) refl,
        rw (kept.4, kept.5, kept.6, kept.7, kept.8) refl,
        rw (kept.4, kept.5, kept.6, kept.7, kept.8) refl,
        rw (kept.9) refl,
        rw (kept.10) refl,
        rw (kept.11) refl,
        rw (kept.9) refl,
        rw (kept.12) refl,
        rw (kept.13) refl,
      )

  rust_config-eq :
      (default_policy : RetryPolicy F64) (c : Consumers.ConsumerConfig F64)
      (r : ConsumerConfig (RetryPolicy F64))
      → rust_config default_policy c ≡ Built.ok r
      → built default_policy c ≡ r
  unfolding rust_config built
  rust_config-eq default_policy c r e = elim (List-cases c.fields.topics) [
    | inl empty ↦
        let same = (rust_fields-Kept default_policy c.fields).0 ∙ empty in
        absurd (ground (arith, same))
    | inr (topic, rest, found) ↦ cc (rust_config-built default_policy c topic rest found)
  ]

  -- Whatever the security protocol, the SASL credentials, the limits of the bytes to fetch, the
  -- retry backoff, the automatic offset store and the assignment strategy that Python gave are: a client's configuration that is
  -- made of them sets no protocol and no credentials, and the others to the fixed defaults of its own builder.
  pub rust_config-Dropped :
      (default_policy : RetryPolicy F64) (show_nat : ℕ → String) (show_int : ℤ → String)
      (c : Consumers.ConsumerConfig F64) (r : ConsumerConfig (RetryPolicy F64))
      → rust_config default_policy c ≡ Built.ok r
      → Dropped show_nat show_int r
  rust_config-Dropped default_policy show_nat show_int c r e =
      subst (Dropped show_nat show_int) (rust_config-eq default_policy c r e)
        (built-Dropped default_policy show_nat show_int c)
