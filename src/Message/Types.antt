-- ===== src/Message/Types.antt =====
-- The structs of log.pb.go. A pointer that may be nil is an `Option`, a float64 its 64-bit pattern,
-- and a time stamp (of package tai64n, outside the repository) a value of the parameter `T`.
use cypress.Base.{ℕ, Bool, Option, List}
use cypress.Base.Text.{Text}
use cypress.Base.Int.{ℤ}

pub record Interval : Type 0 where
  pub seconds : ℕ
  pub nanoseconds : ℕ

pub record Attribute : Type 0 where
  pub key : ℕ
  pub skey : Option Text
  pub ival : Option ℤ
  pub sval : Option Text
  pub bval : Option Text
  pub tval : Option Interval
  pub boolval : Option Bool
  pub fval : Option ℕ

pub record Tag : Type 0 where
  pub name : Text
  pub value : Option Text

-- `version` is the bit pattern of the int32.
pub record Message (T : Type 0) : Type 0 where
  pub version : ℕ
  pub timestamp : Option T
  pub msg_type : Option ℕ
  pub attributes : List Attribute
  pub session_id : Option Text
  pub tags : List Tag
