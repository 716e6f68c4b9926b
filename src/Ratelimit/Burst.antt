-- ===== src/Ratelimit/Burst.antt =====
-- Calls that run at once: `Incr` counts in one command and stores the base in a later one, and another
-- call's commands may come in between.
use nodemux.Common.{
  ℕ, zero, suc, ◌+◌, ◌≤◌, ◌<◌, String, Option, none, some, ℤ, pos, max_int, List, [], ◌∷◌, ◌≡◌,
  refl, ap, ap₂, ◌∙◌, replicate, arith,
}
use nodemux.Ratelimit.{Redis, Verdict, allowed, failed, decide_value, finish}
use nodemux.Ratelimit.Window.{IsRedis, decide_value-first, finish-reset}

module _ (redis : Redis) (key field : String) (limit span : ℤ) where
  -- `n` calls run their `HIncrBy`, one after the other.
  unfoldable pub count_all : ℕ → Redis.Store redis → Redis.Store redis × List (Option ℤ)
  count_all zero s = (s, [])
  count_all (suc n) s =
      let (s', counted) = redis.hincrby s key field in
      let (s'', rest) = count_all n s' in (s'', counted ∷ rest)

  -- The rest of one call, and of each call in turn.
  unfoldable pub finish_call : Redis.Store redis → Option ℤ → Redis.Store redis × Verdict
  finish_call s none = (s, failed)
  finish_call s (some v) = finish redis s key field span (decide_value limit v)

  unfoldable pub finish_all : Redis.Store redis → List (Option ℤ) → List Verdict
  unfolding finish_call
  finish_all s [] = []
  finish_all s (counted ∷ rest) =
      let (s', verdict) = finish_call s counted in verdict ∷ finish_all s' rest

  -- A burst of `n` calls, all of which count before the first of them goes on.
  unfoldable pub burst : ℕ → Redis.Store redis → List Verdict
  unfolding count_all finish_all
  burst n s = let (s', counts) = count_all n s in finish_all s' counts

module _ (redis : Redis) (law : IsRedis redis) (key field : String) (limit span : ℕ)
    (small : 1000 + limit ≤ max_int) (some_limit : 0 < limit) (some_span : 0 < span)
    (short : span ≤ 4611686018) where
  open law use {read, hincrby_result, hincrby_read}

  -- The counts of a burst on a field at `v`.
  counts : ℕ → ℕ → List (Option ℤ)
  counts v zero = []
  counts v (suc n) = some (pos (suc v)) ∷ counts (suc v) n

  count_all-counts :
      (n : ℕ) (s : Redis.Store redis)
      → (count_all redis key field (pos limit) (pos span) n s).1 ≡ counts (read s key field) n
  unfolding count_all counts
  count_all-counts zero s = refl
  count_all-counts (suc n) s = ap₂ ◌∷◌ (hincrby_result s key field) (
      count_all-counts n (redis.hincrby s key field).0
      ∙ ap (λ v. counts v n) (hincrby_read s key field))

  finish_all-counts :
      (n v : ℕ) (s : Redis.Store redis)
      → v + n ≤ 1000
      → finish_all redis key field (pos limit) (pos span) s (counts v n) ≡ replicate n allowed
  unfolding finish_all counts finish_call
  finish_all-counts zero v s h = refl
  finish_all-counts (suc n) v s h =
      let d = decide_value-first limit (suc v) small some_limit (omega arith) in
      ap₂ ◌∷◌
        (ap (λ x. (finish redis s key field (pos span) x).1) d
          ∙ (finish-reset redis law key field limit span small some_limit some_span short s).0)
        (finish_all-counts n (suc v) _ (omega arith))

  -- A burst of calls that all count before the first of them goes on, and that leaves the field at 1000
  -- or below, is let through whole, for any positive limit that leaves room in an `int` over the base of
  -- 1000, however low. The span is positive and at most 4611686018 seconds, and Redis has no errors.
  pub burst-allowed :
      (n : ℕ) (s : Redis.Store redis)
      → read s key field + n ≤ 1000
      → burst redis key field (pos limit) (pos span) n s ≡ replicate n allowed
  unfolding burst
  burst-allowed n s h =
      ap
        (finish_all redis key field (pos limit) (pos span)
          (count_all redis key field (pos limit) (pos span) n s).0)
        (count_all-counts n s)
      ∙ finish_all-counts n (read s key field) _ h
