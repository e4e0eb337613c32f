-- ===== src/Configuration/Consumers/Defaults.antt =====
-- The defaults of src/config.rs: those of the builder and those of the environment.
use kaf_py.Prelude.{ℕ, ◌≡◌, refl, ap, false, none, some, String, [], ◌∷◌}
use kaf_py.Configuration.Environment.{Environment, text, uint, bool}
use kaf_py.Configuration.Consumers.{
  ConsumerConfig, ConsumerConfigBuilder, default_fields, Setter, Built, new, set, set_field, build,
  from_env,
}

-- The environment sets nothing, and the parsers read the decimal texts and lists that the source
-- writes down.
pub record IsBare (e : Environment) : Type 0 where
  pub unset : (name : String) → e.var name ≡ none
  pub reads_false : e.parse_bool "false" ≡ some false
  pub reads_1 : e.parse_uint 32 "1" ≡ some 1
  pub reads_100 : e.parse_uint 32 "100" ≡ some 100
  pub reads_100_wide : e.parse_uint 64 "100" ≡ some 100
  pub reads_3000 : e.parse_uint 32 "3000" ≡ some 3000
  pub reads_30000 : e.parse_uint 32 "30000" ≡ some 30000
  pub reads_300000 : e.parse_uint 32 "300000" ≡ some 300000
  pub reads_1048576 : e.parse_uint 32 "1048576" ≡ some 1048576
  pub splits : e.split_trimmed "transactions,events" ≡ "transactions" ∷ "events" ∷ []

module _ (e : Environment) (bare : IsBare e) where
  text_lem : (name default : String) → text e name default ≡ default
  unfolding text
  text_lem name default = rw (bare.unset name) refl

  uint_lem :
      (bits : ℕ) (name default : String) → uint e bits name default ≡ e.parse_uint bits default
  unfolding uint
  uint_lem bits name default = ap (e.parse_uint bits) (text_lem name default)

  bool_lem : (name default : String) → bool e name default ≡ e.parse_bool default
  unfolding bool
  bool_lem name default = ap e.parse_bool (text_lem name default)

module _ {F64 : Type 0} where
  abbrev pub named : ConsumerConfigBuilder F64
  named =
      set (set (set new (Setter.brokers "localhost:9092")) (Setter.group_id "rust-consumer-group"))
        (Setter.topics ("transactions" ∷ "events" ∷ []))

  -- In an environment that sets nothing, with parsers that read the default texts: `from_env` returns a
  -- configuration, and a new builder that is given the same brokers, group and topics builds the same one.
  pub from_env-build :
      (e : Environment)
      → IsBare e
      → (c : ConsumerConfig F64) × (from_env e ≡ some c) × (build named ≡ Built.ok c)
  unfolding build set set_field new from_env
  from_env-build e bare =
      let c : ConsumerConfig F64 = record {
        brokers = "localhost:9092";
        group_id = "rust-consumer-group";
        fields = record default_fields { topics = "transactions" ∷ "events" ∷ [] };
      } in
      (
        c,
        simp (
          uint_lem e bare,
          bool_lem e bare,
          bare.unset,
          bare.reads_false,
          bare.reads_1,
          bare.reads_100,
          bare.reads_100_wide,
          bare.reads_3000,
          bare.reads_30000,
          bare.reads_300000,
          bare.reads_1048576,
          bare.splits,
        ),
        refl,
      )
