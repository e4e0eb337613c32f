-- ===== src/Configuration/Consumers/Builders.antt =====
-- The two styles of using `ConsumerConfigBuilder` of src/config.rs.
use kaf_py.Prelude.{◌≡◌, refl, Bool, List}
use kaf_py.Configuration.Fluent.{calls, assigned, calls_lem}
use kaf_py.Configuration.Consumers.{
  ConsumerConfigBuilder, Setter, set, make_consumer_builder_clone, build,
}

module _ {F64 : Type 0} where
  clone_lem : (b : ConsumerConfigBuilder F64) → make_consumer_builder_clone b ≡ b
  unfolding make_consumer_builder_clone
  clone_lem b = refl

  -- However calls on the object and on the copies that the setters return are mixed, `build` gives
  -- what the assignments of the setters alone, in their order, come to.
  pub build-calls :
      (b : ConsumerConfigBuilder F64) (steps : List (Bool × Setter F64))
      → build (calls set make_consumer_builder_clone b steps) ≡ build (assigned set b steps)
  build-calls b steps = rw (calls_lem set make_consumer_builder_clone clone_lem b steps) refl
