-- ===== src/Configuration/Producers/Builders.antt =====
-- The two styles of using `ProducerConfigBuilder` of src/config.rs.
use kaf_py.Prelude.{◌≡◌, refl, Bool, List}
use kaf_py.Configuration.Fluent.{calls, assigned, calls_lem}
use kaf_py.Configuration.Producers.{
  ProducerConfigBuilder, Setter, set, make_producer_builder_clone, build,
}

clone_lem : (b : ProducerConfigBuilder) → make_producer_builder_clone b ≡ b
unfolding make_producer_builder_clone
clone_lem b = refl

-- The same of the producer's builder.
pub build_producer-calls :
    (b : ProducerConfigBuilder) (steps : List (Bool × Setter))
    → build (calls set make_producer_builder_clone b steps) ≡ build (assigned set b steps)
build_producer-calls b steps = rw (calls_lem set make_producer_builder_clone clone_lem b steps) refl
