-- ===== src/Hub/Failures.antt =====
-- How many failures the loop of a Redis hub survives.
use nodemux.Common.{ℕ, ◌+◌, ◌≤◌, List, [], ◌∷◌, All, ◌≡◌, refl, arith}
use nodemux.Hub.Stream.{HubError, fine, network, other, handle_redis_error}
use nodemux.Hub.PubSub.{
  RedisChainhub, PubSubEvent, sub_failed, sub, unsub, pub_status, handle, error_of, count_event,
  first_error, snapshots_error, run,
}

-- 1 for a failure of the network.
unfoldable pub failure : HubError → ℕ
failure fine = 0
failure network = 1
failure other = 0

unfoldable pub failures : List PubSubEvent → ℕ
unfolding failure
failures [] = 0
failures (event ∷ rest) = failure (error_of event) + failures rest

-- The event gives no error but one of the network.
abbrev pub IsPassing : HubError → Type 0
IsPassing fine = Unit {0}
IsPassing network = Unit {0}
IsPassing other = ⊥

handle_redis_error_small :
    (n : ℕ) (err : HubError)
    → IsPassing err
    → n + failure err ≤ 30
    → ((handle_redis_error n err).1 ≡ fine) × ((handle_redis_error n err).0 ≤ n + failure err)
unfolding handle_redis_error failure
handle_redis_error_small n fine ok h = (refl, omega arith)
handle_redis_error_small n network ok h = (ground arith, omega arith)
handle_redis_error_small n other ok h = absurd ok

count_event_small :
    (n : ℕ) (event : PubSubEvent)
    → IsPassing (error_of event)
    → n + failure (error_of event) ≤ 30
    → ((count_event n event).1 ≡ fine) × ((count_event n event).0 ≤ n + failure (error_of event))
unfolding count_event error_of
count_event_small n (sub_failed ch err) ok h = handle_redis_error_small n err ok h
count_event_small n (sub ch snapshots) ok h =
    handle_redis_error_small n (snapshots_error snapshots) ok h
count_event_small n (unsub ch) ok h = (refl, omega arith)
count_event_small n (pub_status publish_err set_err) ok h =
    handle_redis_error_small n (first_error publish_err set_err) ok h

-- The loop of the hub keeps running over events whose only errors are of the network, as long as these
-- and the failures counted before are at most 30 together.
pub run-fine :
    (n : ℕ) (events : List PubSubEvent) (h : RedisChainhub)
    → All (λ event. IsPassing (error_of event)) events
    → n + failures events ≤ 30
    → (run n events h).1 ≡ fine
unfolding run failures
run-fine n [] h ok few = refl
run-fine n (event ∷ rest) h ok few =
    let (passes, low) = count_event_small n event ok.0 (omega arith) in
    rw (passes, run)
      (run-fine (count_event n event).0 rest (handle event h) ok.1 (omega (arith, low)))
