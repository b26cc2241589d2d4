-- ===== src/Error.antt =====
-- omnistack-core/src/error.rs, and the error of omnistack-core/src/memory.rs that it wraps.
use omni_stack_rust.Service.Server.{ServiceError}

pub data MemoryError : Type 0 where
  exhausted : MemoryError

pub data Error : Type 0 where
  nop dropped unknown io_error json_parse_error : Error
  memory_error : MemoryError → Error
  service_error : ServiceError → Error

-- `std::result::Result` with this error.
pub data Result {ℓ} (A : Type ℓ) : Type ℓ where
  value : A → Result A
  error : Error → Result A
