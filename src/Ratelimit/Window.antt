-- ===== src/Ratelimit/Window.antt =====
-- How many calls a window lets through, on a Redis that answers every command.
use nodemux.Common.{
  Outcome, done, ◌>>=◌, length, All, ℕ, zero, suc, ◌+◌, ◌≤◌, ◌<◌, String, Bool, true, false, some,
  ℤ, pos, ltb, add_int-pos, max_int, if◌then◌else◌, List, [], ◌∷◌, ◌≡◌, refl, ap, ap₂, ◌∙◌, arith,
}
use nodemux.Ratelimit.{
  Redis, Verdict, allowed, refused, Decision, over, reset, pass, decide_value, value_base, finish,
  count_call, incr, redis_key, merge_options,
}

-- Redis as documented, with no errors; a positive expiry is still to come. `read` is the number that a field holds, 0 if it is not there.
pub record IsRedis (redis : Redis) : Type 0 where
  pub read : Redis.Store redis → String → String → ℕ
  pub hincrby_result :
      (s : Redis.Store redis) (key field : String)
      → (redis.hincrby s key field).1 ≡ some (pos (suc (read s key field)))
  pub hincrby_read :
      (s : Redis.Store redis) (key field : String)
      → read (redis.hincrby s key field).0 key field ≡ suc (read s key field)
  pub hset_result :
      (s : Redis.Store redis) (key field : String) (n : ℕ)
      → (redis.hset s key field (pos n)).1 ≡ true
  pub hset_read :
      (s : Redis.Store redis) (key field : String) (n : ℕ)
      → read (redis.hset s key field (pos n)).0 key field ≡ n
  pub expire_result :
      (s : Redis.Store redis) (key : String) (span : ℤ) → (redis.expire s key span).1 ≡ true
  pub expire_read :
      (s : Redis.Store redis) (key field : String) (span : ℕ)
      → 0 < span
      → read (redis.expire s key (pos span)).0 key field ≡ read s key field

-- The verdicts of `n` calls in a row.
unfoldable pub verdicts :
    (redis : Redis) → String → String → ℤ → ℤ → ℕ → Redis.Store redis → List Verdict
verdicts redis key field limit span zero s = []
verdicts redis key field limit span (suc n) s =
    let (s', verdict) = count_call redis s key field limit span in
    verdict ∷ verdicts redis key field limit span n s'

-- The verdicts of `Incr` at the times given, each call with this span.
unfoldable pub calls :
    (redis : Redis) → String → ℤ → ℤ → List ℤ → Redis.Store redis → Outcome (List Verdict)
unfolding incr
calls redis field limit span [] s = done []
calls redis field limit span (t ∷ times) s =
    incr redis s (record { time = t; span = span }) [] field limit >>= λ (s', verdict).
    calls redis field limit span times s' >>= λ rest. done (verdict ∷ rest)

-- Call number `i` is let through as long as `i` lies below the limit.
unfoldable pub budget : ℕ → ℕ → ℕ → List Verdict
budget limit i zero = []
budget limit i (suc n) = (if ltb i limit then allowed else refused) ∷ budget limit (suc i) n

pub decide_value-first :
    (limit v : ℕ)
    → 1000 + limit ≤ max_int
    → 0 < limit
    → v ≤ 1000
    → decide_value (pos limit) (pos v) ≡ reset
unfolding decide_value
decide_value-first limit v small some_limit h = rw (add_int-pos 1000 limit small) (ground arith)

decide_value-later :
    (limit i : ℕ)
    → 1000 + limit ≤ max_int
    → decide_value (pos limit) (pos (suc (1000 + i))) ≡ (if ltb (suc i) limit then pass else over)
unfolding decide_value
decide_value-later limit i small = rw (add_int-pos 1000 limit small) (ground arith)

module _ (redis : Redis) (law : IsRedis redis) (key field : String) (limit span : ℕ)
    (small : 1000 + limit ≤ max_int) (some_limit : 0 < limit) (some_span : 0 < span)
    (short : span ≤ 4611686018) where
  open law use {
    read, hincrby_result, hincrby_read, hset_result, hset_read, expire_result, expire_read,
  }

  count_call_step :
      (s : Redis.Store redis) (d : Decision)
      → decide_value (pos limit) (pos (suc (read s key field))) ≡ d
      → count_call redis s key field (pos limit) (pos span)
        ≡ finish redis (redis.hincrby s key field).0 key field (pos span) d
  unfolding count_call
  count_call_step s d e = rw (hincrby_result s key field, count_call) (rw e refl)

  pub finish-reset :
      (s : Redis.Store redis)
      → ((finish redis s key field (pos span) reset).1 ≡ allowed)
        × (read (finish redis s key field (pos span) reset).0 key field ≡ 1000)
  unfolding finish
  finish-reset s =
      let s' = (redis.hset s key field value_base).0 in
      rw (hset_result s key field 1000, add_int-pos span span (omega arith))
        (
          rw (expire_result s' key (pos (span + span))) refl,
          expire_read s' key field (span + span) (omega arith) ∙ hset_read s key field 1000,
        )

  -- A field below the base starts a window: the call is let through, and the count begins.
  count_call_first :
      (s : Redis.Store redis)
      → read s key field < 1000
      → ((count_call redis s key field (pos limit) (pos span)).1 ≡ allowed)
        × (read (count_call redis s key field (pos limit) (pos span)).0 key field ≡ 1000)
  count_call_first s h =
      rw
        (count_call_step s reset
          (decide_value-first limit (suc (read s key field)) small some_limit (omega arith)))
        (finish-reset (redis.hincrby s key field).0)

  finish_counted :
      (s : Redis.Store redis) (more : Bool)
      → ((finish redis s key field (pos span) (if more then pass else over)).1
          ≡ (if more then allowed else refused))
        × (read (finish redis s key field (pos span) (if more then pass else over)).0 key field
            ≡ read s key field)
  unfolding finish
  finish_counted s true = (refl, refl)
  finish_counted s false = (refl, refl)

  count_call_later :
      (s : Redis.Store redis) (i : ℕ)
      → read s key field ≡ 1000 + i
      → ((count_call redis s key field (pos limit) (pos span)).1
          ≡ (if ltb (suc i) limit then allowed else refused))
        × (read (count_call redis s key field (pos limit) (pos span)).0 key field ≡ 1000 + suc i)
  count_call_later s i h =
      let (verdict, kept) = finish_counted (redis.hincrby s key field).0 (ltb (suc i) limit) in
      rw
        (count_call_step s (if ltb (suc i) limit then pass else over)
          (ap (λ v. decide_value (pos limit) (pos (suc v))) h ∙ decide_value-later limit i small))
        (verdict, omega (arith, kept, hincrby_read s key field))

  verdicts_later :
      (i n : ℕ) (s : Redis.Store redis)
      → read s key field ≡ 1000 + i
      → verdicts redis key field (pos limit) (pos span) n s ≡ budget limit (suc i) n
  unfolding verdicts budget
  verdicts_later i zero s h = refl
  verdicts_later i (suc n) s h =
      let (verdict, counted) = count_call_later s i h in
      ap₂ ◌∷◌ verdict
        (verdicts_later (suc i) n (count_call redis s key field (pos limit) (pos span)).0 counted)

  -- The commands of `n` calls in a row in a window that begins with the field absent, or left below the
  -- base.
  pub verdicts-budget :
      (n : ℕ) (s : Redis.Store redis)
      → read s key field < 1000
      → verdicts redis key field (pos limit) (pos span) n s ≡ budget limit 0 n
  unfolding verdicts budget
  verdicts-budget zero s h = refl
  verdicts-budget (suc n) s h =
      let (verdict, counted) = count_call_first s h in
      ap₂ ◌∷◌ (verdict ∙ ground arith) (
        verdicts_later 0 n (count_call redis s key field (pos limit) (pos span)).0
          (counted ∙ omega arith))

  calls-verdicts :
      (times : List ℤ) (s : Redis.Store redis)
      → All (λ t. redis_key (record { time = t; span = pos span }) ≡ done key) times
      → calls redis field (pos limit) (pos span) times s
        ≡ done (verdicts redis key field (pos limit) (pos span) (length times) s)
  unfolding calls verdicts incr merge_options
  calls-verdicts [] s same = refl
  calls-verdicts (t ∷ times) s same =
      let s' = (count_call redis s key field (pos limit) (pos span)).0 in
      rw (same.0, incr, merge_options) (rw (calls-verdicts times s' same.1) refl)

  -- In a window that begins with the field absent, or left below the base, call number `i`, counted
  -- from 0, is let through exactly if `i` lies below the limit; the others are refused. The times of the
  -- calls are all of that window, the limit is positive and leaves room in an `int` over the base of
  -- 1000, the span is positive and at most 4611686018 seconds, so that its double is a duration, and
  -- Redis has no errors.
  pub calls-budget :
      (times : List ℤ) (s : Redis.Store redis)
      → All (λ t. redis_key (record { time = t; span = pos span }) ≡ done key) times
      → read s key field < 1000
      → calls redis field (pos limit) (pos span) times s ≡ done (budget limit 0 (length times))
  calls-budget times s same bare =
      calls-verdicts times s same ∙ ap done (verdicts-budget (length times) s bare)
