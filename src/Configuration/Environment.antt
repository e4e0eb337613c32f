-- ===== src/Configuration/Environment.antt =====
-- The environment variables that `from_env` of src/config.rs reads, and how it reads them. The variables,
-- after the file `.env` was loaded, and the parsers of the standard library are an interface; `none` is
-- the exception.
use kaf_py.Prelude.{ℕ, Bool, Option, none, some, String, List, ◌>>=◌}

pub record Environment : Type 0 where
  pub var : String → Option String
  -- A number of that many bits.
  pub parse_uint : ℕ → String → Option ℕ
  pub parse_bool : String → Option Bool
  -- `split(',')`, each part trimmed.
  pub split_trimmed : String → List String

-- `unwrap_or_else`
abbrev pub unwrap_or : Option String → String → String
unwrap_or none default = default
unwrap_or (some text) default = text

-- `map` and `transpose`: a variable that is set must parse.
abbrev pub transpose : {A : Type 0} → (String → Option A) → Option String → Option (Option A)
transpose parse none = some none
transpose parse (some text) = parse text >>= λ a. some (some a)

module _ (e : Environment) where
  unfoldable pub text : String → String → String
  text name default = unwrap_or (e.var name) default

  unfoldable pub uint : ℕ → String → String → Option ℕ
  unfolding text
  uint bits name default = e.parse_uint bits (text name default)

  unfoldable pub bool : String → String → Option Bool
  unfolding text
  bool name default = e.parse_bool (text name default)

  unfoldable pub optional_uint : ℕ → String → Option (Option ℕ)
  optional_uint bits name = transpose (e.parse_uint bits) (e.var name)

  unfoldable pub optional_bool : String → Option (Option Bool)
  optional_bool name = transpose e.parse_bool (e.var name)
