-- ===== src/Timeout.antt =====
-- hw2/src/common/timeout.h: the interface of a timer, and the timer with uniform periods.
use to_ftds.Base.{ℕ, suc, ◌+◌, Bool, ltb}

-- `ITimeout`. A call may change what the timer sees (the clock goes on), so it returns the timer.
pub record ITimeout (T : Type 0) : Type 0 where
  pub reset : T → T
  pub is_expired : T → Bool × T

-- `UniformTimer`: `clock` are the readings of the steady clock in the order of the calls of `Now`,
-- `uid_ms` the periods that the generator draws; `reads` and `draws` count those already used.
pub record UniformTimer : Type 0 where
  pub clock : ℕ → ℕ
  pub uid_ms : ℕ → ℕ
  pub reads : ℕ
  pub draws : ℕ
  pub expires_at : ℕ

unfoldable pub reset : UniformTimer → UniformTimer
reset t = record t {
  expires_at = t.clock t.reads + t.uid_ms t.draws;
  reads = suc t.reads;
  draws = suc t.draws;
}

-- The log line of `IsExpired` reads the clock once more.
unfoldable pub is_expired : UniformTimer → Bool × UniformTimer
is_expired t = (ltb t.expires_at (t.clock (suc t.reads)), record t { reads = suc (suc t.reads) })

instance abbrev pub uniform_timer : ITimeout UniformTimer
uniform_timer = record { reset = reset; is_expired = is_expired }
