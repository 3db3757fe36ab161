-- ===== src/Contracts/Ports.antt =====
-- app/contracts/ports.py: the provider-neutral failure that every adapter raises.
use Prim.Native.String.{String}
use seqret_be.Prelude.{Bool}

-- `class ProviderErrorKind`
pub data ProviderErrorKind : Type 0 where
  not_found conflict invalid_input unavailable deadline_exceeded permission_denied :
      ProviderErrorKind

-- `ProviderErrorKind.value`
abbrev pub value : ProviderErrorKind → String
value not_found = "not_found"
value conflict = "conflict"
value invalid_input = "invalid_input"
value unavailable = "unavailable"
value deadline_exceeded = "deadline_exceeded"
value permission_denied = "permission_denied"

-- `class ProviderError`, with what the services read of it.
pub record ProviderError : Type 0 where
  pub kind : ProviderErrorKind
  pub retryable : Bool

-- An exception from an adapter call: a `ProviderError`, or any other `Exception`.
pub data Exception : Type 0 where
  provider_error : ProviderError → Exception
  other_error : Exception
