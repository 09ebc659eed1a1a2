-- ===== src/Cache.antt =====
-- cache/redis/conn.go: the pool of connections to redis, over redigo, which is a parameter.
use filestore_hsz.Prelude.{ℕ, ◌*◌, ◌^◌, Text, bytes, ℤ, pos, ltb_ℤ, Option, none, if◌then◌else◌}
use filestore_hsz.Go.{Result, Go, pure, call, ◌>>=◌}

abbrev pub redis_host : Text
redis_host = bytes "127.0.0.1:6379"

-- `redis.Dial`, `time.Since` in nanoseconds, and the error of `c.Do`.
pub record Redigo (W : Type 0) : Type 1 where
  pub Conn : Type 0
  pub Time : Type 0
  pub dial : (network address : Text) → W → Result Conn × W
  pub since : Time → W → ℤ × W
  pub do_command : Conn → Text → W → Option Text × W

-- `redis.Pool`, with its timeout in seconds.
pub record Pool {W : Type 0} (redigo : Redigo W) : Type 0 where
  pub max_idle : ℕ
  pub max_active : ℕ
  pub idle_timeout : ℕ
  pub dial : Go W (Result redigo.Conn)
  pub test_on_borrow : redigo.Conn → redigo.Time → Go W (Option Text)

module _ {W : Type 0} (redigo : Redigo W) where
  -- A connection that was used within the last minute is not asked.
  unfoldable pub test_on_borrow : redigo.Conn → redigo.Time → Go W (Option Text)
  test_on_borrow c t = do
    since ← call (redigo.since t)
    let asked = call (redigo.do_command c (bytes "PING"))
    if ltb_ℤ since (pos (60 * 10 ^ 9)) then pure none else asked

  unfoldable pub new_redis_pool : Pool redigo
  unfolding test_on_borrow
  new_redis_pool = record {
    max_idle = 50;
    max_active = 30;
    idle_timeout = 300;
    dial = call (redigo.dial (bytes "tcp") redis_host);
    test_on_borrow = test_on_borrow;
  }
