-- ===== src/Execution/Buffer.antt =====
-- `PerPartitionBuffer` of src/worker_pool/accumulator.rs. An instant and a duration are numbers of
-- milliseconds; the present one is an argument, as the clock is read.
use kaf_py.Prelude.{
  ℕ, ◌+◌, Bool, true, false, Option, none, some, List, [], ◌∷◌, ◌++◌, length, leb, if◌then◌else◌,
}
use kaf_py.Message.{OwnedMessage}

pub record PerPartitionBuffer : Type 0 where
  pub messages : List OwnedMessage
  pub deadline : Option ℕ

abbrev pub no_messages : List OwnedMessage → Bool
no_messages [] = true
no_messages (m ∷ ms) = false

unfoldable pub new : PerPartitionBuffer
new = record { messages = []; deadline = none }

unfoldable pub is_empty : PerPartitionBuffer → Bool
is_empty b = no_messages b.messages

unfoldable pub len : PerPartitionBuffer → ℕ
len b = length b.messages

unfoldable pub start_timer : ℕ → PerPartitionBuffer → ℕ → PerPartitionBuffer
start_timer now b max_wait = elim b.deadline [
  | none ↦ record b { deadline = some (now + max_wait) }
  | some d ↦ b
]

unfoldable pub is_deadline_expired : ℕ → PerPartitionBuffer → Bool
is_deadline_expired now b = elim b.deadline [ none ↦ false | some d ↦ leb d now ]

push : PerPartitionBuffer → OwnedMessage → PerPartitionBuffer
push b m = record b { messages = b.messages ++ m ∷ [] }

unfoldable pub add : ℕ → PerPartitionBuffer → OwnedMessage → ℕ → PerPartitionBuffer
unfolding is_empty start_timer push
add now b m max_wait = if is_empty b then push (start_timer now b max_wait) m else push b m

-- The messages, and the buffer that `mem::take` leaves.
unfoldable pub take_messages : PerPartitionBuffer → List OwnedMessage × PerPartitionBuffer
take_messages b = (b.messages, record b { messages = [] })
