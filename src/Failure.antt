-- ===== src/Failure.antt =====
-- src/failure/reason.rs and src/failure/classifier.rs: the failure hierarchy and the default
-- classifier of Python exceptions.
use kaf_py.Prelude.{◌≡◌, ◌↔◌, Bool, true, arith, ◌||◌, if◌then◌else◌, String, str_contains, concat}

pub data FailureCategory : Type 0 where
  retryable terminal non_retryable : FailureCategory

pub data RetryableKind : Type 0 where
  network_timeout broker_unavailable transient_partition_error : RetryableKind

pub data TerminalKind : Type 0 where
  poison_message deserialization_failed handler_panic : TerminalKind

pub data NonRetryableKind : Type 0 where
  validation business_logic configuration : NonRetryableKind

pub data FailureReason : Type 0 where
  retryable : RetryableKind → FailureReason
  terminal : TerminalKind → FailureReason
  non_retryable : NonRetryableKind → FailureReason

unfoldable pub category : FailureReason → FailureCategory
category (FailureReason.retryable k) = FailureCategory.retryable
category (FailureReason.terminal k) = FailureCategory.terminal
category (FailureReason.non_retryable k) = FailureCategory.non_retryable

display_retryable : RetryableKind → String
display_retryable network_timeout = "network timeout"
display_retryable broker_unavailable = "broker unavailable"
display_retryable transient_partition_error = "transient partition error"

display_terminal : TerminalKind → String
display_terminal poison_message = "poison message detected"
display_terminal deserialization_failed = "deserialization failed"
display_terminal handler_panic = "handler panic"

display_non_retryable : NonRetryableKind → String
display_non_retryable validation = "validation error"
display_non_retryable business_logic = "business logic error"
display_non_retryable configuration = "configuration error"

-- `FailureReason::to_string`
unfoldable pub display_reason : FailureReason → String
unfolding display_retryable display_terminal display_non_retryable
display_reason (FailureReason.retryable k) = concat "Retryable: " (display_retryable k)
display_reason (FailureReason.terminal k) = concat "Terminal: " (display_terminal k)
display_reason (FailureReason.non_retryable k) = concat "NonRetryable: " (display_non_retryable k)

-- The later branches of the ladder of `classify`.
classify_permanent : String → String → FailureReason
classify_permanent error_repr traceback =
    if str_contains error_repr "PoisonError" || str_contains traceback "poison"
    then FailureReason.terminal poison_message
    else if str_contains error_repr "DeserializationError" || str_contains error_repr "DecodeError"
    then FailureReason.terminal deserialization_failed
    else if str_contains error_repr "PanicException" || str_contains error_repr "SystemExit"
    then FailureReason.terminal handler_panic
    else if str_contains error_repr "ValidationError" || str_contains error_repr "ValueError"
    then FailureReason.non_retryable validation
    else if str_contains error_repr "BusinessLogicError"
        || str_contains error_repr "DomainException"
    then FailureReason.non_retryable business_logic
    else if str_contains error_repr "ConfigError" || str_contains error_repr "ConfigurationError"
    then FailureReason.non_retryable configuration
    else FailureReason.non_retryable business_logic

-- `error_repr` is the `{:?}` of the exception, `traceback` its `to_string`.
unfoldable pub classify : String → String → FailureReason
unfolding classify_permanent
classify error_repr traceback =
    if str_contains error_repr "TimeoutError" || str_contains traceback "timeout"
    then FailureReason.retryable network_timeout
    else if str_contains error_repr "KafkaError" || str_contains error_repr "BrokerTransport"
    then FailureReason.retryable broker_unavailable
    else if str_contains error_repr "PartitionError"
    then FailureReason.retryable transient_partition_error
    else classify_permanent error_repr traceback

-- The texts that speak for a retry.
abbrev pub speaks_for_retry : String → String → Bool
speaks_for_retry error_repr traceback =
    str_contains error_repr "TimeoutError"
    || (str_contains traceback "timeout"
        || (str_contains error_repr "KafkaError"
            || (str_contains error_repr "BrokerTransport"
                || str_contains error_repr "PartitionError")))

-- The default classifier calls an exception retryable exactly when its text has one of the four
-- markers of a passing fault, or its traceback mentions a timeout, whatever else they say.
classify_retryable_iff :
    (error_repr traceback : String)
    → (category (classify error_repr traceback) ≡ FailureCategory.retryable)
      ↔ (speaks_for_retry error_repr traceback ≡ true)
unfolding classify category
classify_retryable_iff error_repr traceback = ground arith
