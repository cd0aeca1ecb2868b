-- ===== src/Queue/Types.antt =====
-- internal/stores/queuestore/types.go
use localaz.Common.{Bytes, ℕ, ◌==◌, Bool, false, not, ◌&&◌, List}
use localaz.Common.Int.{ℤ, pos, negsuc, ltb_int}
use localaz.Common.Dict.{Dict}

pub data Error : Type 0 where
  queue_not_found queue_exists message_not_found pop_receipt_mismatch : Error

-- Instants are nanoseconds since the zero `time.Time`; durations are nanoseconds.
abbrev pub Time : Type 0
Time = ℤ

abbrev pub zero_time : Time
zero_time = pos 0

abbrev pub is_zero : Time → Bool
is_zero (pos n) = n == 0
is_zero (negsuc n) = false

pub record Message : Type 0 where
  pub id : Bytes
  pub text : Bytes
  pub insertion_time : Time
  pub expiration_time : Time
  pub next_visible : Time
  pub pop_receipt : Bytes
  pub dequeue_count : ℕ

-- `!now.Before(m.NextVisible)`
unfoldable pub visible : Time → Message → Bool
visible now m = not (ltb_int now m.next_visible)

-- `!m.ExpirationTime.IsZero() && now.After(m.ExpirationTime)`
unfoldable pub expired : Time → Message → Bool
expired now m = not (is_zero m.expiration_time) && ltb_int m.expiration_time now

pub record Queue : Type 0 where
  pub name : Bytes
  pub metadata : Dict Bytes
  pub messages : List Message

pub record QueueInfo : Type 0 where
  pub name : Bytes
  pub metadata : Dict Bytes
  pub approximate_count : ℕ
