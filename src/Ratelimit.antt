-- ===== src/Ratelimit.antt =====
-- ratelimit/ratelimit.go and server/ratelimit.go: the counter of calls in a window of time, kept in a
-- field of a Redis hash, and the check that the server makes before it serves a request. Redis is not
-- part of the repository: its commands are the parameter `Redis`.
pub mod Window
pub mod Burst
pub mod Used
use Prim.Native.String.{◌++◌}
use nodemux.Common.{
  ℕ, ◌/◌, String, Bool, true, false, Option, none, some, ℤ, pos, negsuc, leb_ℤ, eqb_ℤ, add_int,
  pos_part, neg_part, sub_ℕ, if◌then◌else◌, is_empty, decimal, Outcome, done, panic, ◌>>=◌, suc,
  List, [], ◌∷◌,
}

-- The state of the server and the commands that the counter uses. `none` and `false` are errors.
pub record Redis : Type 1 where
  pub Store : Type 0
  pub hincrby : Store → String → String → Store × Option ℤ
  pub hset : Store → String → String → ℤ → Store × Bool
  pub expire : Store → String → ℤ → Store × Bool

abbrev pub value_base : ℤ
value_base = pos 1000

-- Times and spans are in seconds.
pub record RatelimitOptions : Type 0 where
  pub time : ℤ
  pub span : ℤ

-- Go's `/` on `int` rounds towards 0.
unfoldable pub quotient : ℤ → ℤ → ℤ
quotient a b = sub_ℕ (pos_part a / pos_part b) (neg_part a / pos_part b)

-- `RedisKey`. The divisor is positive where it is used.
unfoldable pub redis_key : RatelimitOptions → Outcome String
unfolding quotient decimal
redis_key opts =
    if leb_ℤ opts.span (pos 0)
    then panic
    else done ("rtlm:" ++ decimal opts.span ++ ":" ++ decimal (quotient opts.time opts.span))

-- The loop over the options given: a set time or span replaces the default, `none` is a nil option.
-- A zero time and a zero span are not set.
unfoldable pub merge_options : RatelimitOptions → List (Option (Option ℤ × ℤ)) → RatelimitOptions
merge_options opts [] = opts
merge_options opts (none ∷ rest) = merge_options opts rest
merge_options opts (some (time, span) ∷ rest) =
    merge_options
      (record {
        time = elim time [ none ↦ opts.time | some t ↦ t ];
        span = if eqb_ℤ span (pos 0) then opts.span else span;
      })
      rest

pub data Verdict : Type 0 where
  allowed refused failed : Verdict

-- What the new value of the counter leads to.
pub data Decision : Type 0 where
  over reset pass : Decision

unfoldable pub decide_value : ℤ → ℤ → Decision
unfolding add_int
decide_value limit new_value =
    if leb_ℤ (add_int value_base limit) new_value
    then over
    else if leb_ℤ new_value value_base
    then reset
    else pass

module _ (redis : Redis) where
  open redis use {Store, hincrby, hset, expire}

  -- The commands of `Incr` after `HIncrBy`: the base value and the expiry for a field that is new.
  unfoldable pub finish : Store → String → String → ℤ → Decision → Store × Verdict
  finish s key field span over = (s, refused)
  finish s key field span pass = (s, allowed)
  finish s key field span reset =
      let (s', stored) = hset s key field value_base in
      if stored
      then (let (s'', expires) = expire s' key (add_int span span) in
          (s'', if expires then allowed else failed))
      else (s', failed)

  -- The commands of `Incr` on the key of its window.
  unfoldable pub count_call : Store → String → String → ℤ → ℤ → Store × Verdict
  unfolding finish
  count_call s key field limit span =
      let (s', counted) = hincrby s key field in
      elim counted [
        | none ↦ (s', failed)
        | some new_value ↦ finish s' key field span (decide_value limit new_value)
      ]

  -- `Incr`: `now` is the current time and the span of an hour, in place of which an option may come. A
  -- span that is not positive is a panic.
  unfoldable pub incr :
      Store
      → RatelimitOptions
      → List (Option (Option ℤ × ℤ))
      → String
      → ℤ
      → Outcome (Store × Verdict)
  unfolding merge_options redis_key count_call
  incr s now optslist field limit =
      let opts = merge_options now optslist in
      redis_key opts >>= λ key. done (count_call s key field limit opts.span)

-- server/config.go
pub record RatelimitConfig : Type 0 where
  pub ip : ℤ
  pub user : ℤ

unfoldable pub user_limit : RatelimitConfig → ℤ
user_limit cfg = if leb_ℤ cfg.user (pos 0) then pos 3600 else cfg.user

unfoldable pub ip_limit : RatelimitConfig → ℤ
ip_limit cfg = if leb_ℤ cfg.ip (pos 0) then pos 3600 else cfg.ip

-- `limit * factor`, where the factor is 1 or 2.
unfoldable pub factored : Bool → ℤ → ℤ
factored from_websocket limit = if from_websocket then add_int limit limit else limit

-- The field that a request counts against, and its limit: the account's, or the address's.
unfoldable pub limit_for : String → String → RatelimitConfig → String × ℤ
unfolding user_limit ip_limit
limit_for remote_addr account_name cfg =
    if is_empty account_name then (remote_addr, ip_limit cfg) else (account_name, user_limit cfg)

module _ (redis : Redis) where
  -- `checkRatelimit`, on the client of the store "ratelimit" or its absence, at the time `now`; `Incr` is
  -- called without options, so that the span is an hour.
  unfoldable pub check_ratelimit :
      Option (Redis.Store redis)
      → ℤ
      → String
      → String
      → RatelimitConfig
      → Bool
      → Outcome (Option (Redis.Store redis) × Verdict)
  unfolding limit_for factored incr
  check_ratelimit none now remote_addr account_name cfg from_websocket = done (none, allowed)
  check_ratelimit (some s) now remote_addr account_name cfg from_websocket =
      let (field, limit) = limit_for remote_addr account_name cfg in
      incr redis s (record { time = now; span = pos 3600 }) [] field (factored from_websocket limit)
      >>= λ (s', verdict). done (some s', verdict)

-- What `RatelimitHandler.ServeHTTP` answers: the next handler's reply, or status 429.
pub data Served : Type 0 where
  next : Served
  too_many server_error : Served

unfoldable pub serve_http : Verdict → Served
serve_http allowed = next
serve_http refused = too_many
serve_http failed = server_error
