-- ===== src/Tests/Updates.antt =====
-- Runs of the updater and of the counter of calls.
use nodemux.Common.{
  decimal, lookup, ℕ, zero, suc, ℤ, pos, String, true, false, none, some, List, Bool, [], ◌∷◌, ◌≡◌,
  String_discrete, inr, pos_part, ite, refl, ◌∙◌, arith, inl, done, replicate,
}
use nodemux.Endpoint.{Block}
use nodemux.EndpointSet.{Heap, EndpointSet}
use nodemux.EndpointSet.Tip.{IsTip}
use nodemux.Multiplexer.{Multiplexer, Runtime}
use nodemux.Multiplexer.Invariant.{Inv}
use nodemux.Sync.{ChainStatus, update_tip, height_changed, update_status}
use nodemux.Sync.Head.{new_heap, update_tip-IsTip}
use nodemux.Sync.Status.{update_status-Inv}
use nodemux.Chain.{parse_chain, split_slash}
use nodemux.Endpoint.{EndpointConfig}
use nodemux.Multiplexer.Loading.{IsLoadable}
use nodemux.Sync.{Answer, failed, got, sync_rounds}
use nodemux.Sync.Effect.{
  take_in, take_in_all, every_status, update_status-take_in, sync_rounds-every_status,
}
use nodemux.Multiplexer.{update}
use nodemux.Ratelimit.{Redis, allowed, redis_key, quotient}
use nodemux.Ratelimit.Window.{IsRedis, calls, budget, calls-budget}
use nodemux.Ratelimit.Burst.{burst, burst-allowed}
use nodemux.Tests.{config_of, model, eosio, endpoint_of, two, two-Inv, steady, steady-IsGo}

abbrev pub head_seven : Block
head_seven = record { height = pos 7; hash = "h7" }

abbrev head_three : Block
head_three = record { height = pos 3; hash = "h3" }

abbrev up : ChainStatus
up = record { endpoint_name = "tron01"; chain = eosio; blockhead = some head_seven; healthy = true }

abbrev down : ChainStatus
down = record { endpoint_name = "tron02"; chain = eosio; blockhead = none; healthy = false }

update_status-Inv_example :
    (m' : Multiplexer) × (update_status steady steady two up ≡ done m') × Inv m'
update_status-Inv_example = update_status-Inv steady steady two up steady-IsGo steady-IsGo two-Inv

abbrev inbox : List (ChainStatus × Runtime × Runtime)
inbox = (up, steady, steady) ∷ (down, steady, steady) ∷ []

up_found : lookup String_discrete "tron01" two.name_index ≡ some 0
unfolding model
up_found = refl

update_status-take_in_example :
    (m' : Multiplexer) × (update_status steady steady two up ≡ done m')
    × ((a : ℕ) → m'.heap a ≡ update two.heap 0 (take_in (two.heap 0) up) a)
update_status-take_in_example =
    update_status-take_in steady steady two up 0 steady-IsGo steady-IsGo two-Inv up_found

abbrev answers : List Answer
answers =
    got (some head_seven) ∷ got (some head_seven) ∷ failed ∷ got none ∷ got (some head_seven) ∷ []

sync_rounds-every_status_example :
    take_in_all
      (endpoint_of "tron01" (pos 1))
      (sync_rounds (endpoint_of "tron01" (pos 1)) none answers)
    ≡ take_in_all
        (endpoint_of "tron01" (pos 1))
        (every_status (endpoint_of "tron01" (pos 1)) answers)
sync_rounds-every_status_example =
    sync_rounds-every_status (endpoint_of "tron01" (pos 1)) (endpoint_of "tron01" (pos 1)) none
      answers tt

abbrev tall_heap : Heap
tall_heap = elim [
  | zero ↦ record (endpoint_of "tron01" (pos 150)) { blockhead = some head_seven }
  | suc n ↦ endpoint_of "tron02" (pos 60)
]

abbrev tall : EndpointSet
tall = record { items = ("tron01", 0) ∷ ("tron02", 1) ∷ []; weights = []; max_tip_height = pos 7 }

tall-IsTip : IsTip tall_heap tall.items (pos 7)
tall-IsTip = record {
  nonneg = omega arith;
  upper = (omega arith, (tt, tt));
  attained = inr (inl refl);
}

-- The head of the first endpoint falls from 7 to 3.
update_tip-IsTip_example :
    IsTip
      (new_heap tall_heap 0 head_three)
      tall.items
      (update_tip steady
        (new_heap tall_heap 0 head_three)
        (height_changed (some head_seven) head_three)
        head_three
        tall).max_tip_height
update_tip-IsTip_example =
    update_tip-IsTip steady tall_heap 0 head_three tall steady-IsGo (inl refl) tall-IsTip

-- A server that keeps a number for each field of each key, and never forgets one.
abbrev Fields : Type 0
Fields = String → String → ℕ

abbrev set_field : Fields → String → String → ℕ → Fields
set_field s key field n k f =
    ite (String_discrete k key) (ite (String_discrete f field) n (s k f)) (s k f)

abbrev counters : Redis
counters = record {
  Store = Fields;
  hincrby =
      λ s key field. (set_field s key field (suc (s key field)), some (pos (suc (s key field))));
  hset = λ s key field n. (set_field s key field (pos_part n), true);
  expire = λ s key span. (s, true);
}

ite_self : {A : Type 0} (d : Discrete A) (x : A) (a b : ℕ) → ite (d x x) a b ≡ a
ite_self d x a b = ground arith

set_field_self : (s : Fields) (key field : String) (n : ℕ) → set_field s key field n key field ≡ n
set_field_self s key field n =
    ite_self String_discrete key _ (s key field) ∙ ite_self String_discrete field n (s key field)

abbrev counters-IsRedis : IsRedis counters
counters-IsRedis = record {
  read = λ s. s;
  hincrby_result = λ s key field. refl;
  hincrby_read = λ s key field. set_field_self s key field (suc (s key field));
  hset_result = λ s key field n. refl;
  hset_read = λ s key field n. set_field_self s key field n;
  expire_result = λ s key span. refl;
  expire_read = λ s key field span some_time. refl;
}

calls-budget_example :
    calls counters "u" (pos 2) (pos 60) (pos 60 ∷ pos 61 ∷ pos 119 ∷ pos 62 ∷ []) (λ key field. 0)
    ≡ done (budget 2 0 4)
unfolding redis_key quotient decimal
calls-budget_example =
    calls-budget counters counters-IsRedis "rtlm:60:1" "u" 2 60 (omega arith) (omega arith)
      (omega arith) (omega arith) (pos 60 ∷ pos 61 ∷ pos 119 ∷ pos 62 ∷ []) (λ key field. 0)
      (refl, (refl, (refl, (refl, tt)))) (omega arith)

burst-allowed_example :
    burst counters "k" "u" (pos 2) (pos 60) 40 (λ key field. 0) ≡ replicate 40 allowed
burst-allowed_example =
    burst-allowed counters counters-IsRedis "k" "u" 2 60 (omega arith) (omega arith) (omega arith)
      (omega arith) 40 (λ key field. 0) (omega arith)

abbrev entries : List (String × EndpointConfig)
entries = ("tron01", config_of (pos 150)) ∷ ("tron02", config_of (pos 60)) ∷ []

abbrev any_namespace : String → Bool
any_namespace namespace = true

entry-IsLoadable : (name : String) (weight : ℤ) → IsLoadable any_namespace (name, config_of weight)
unfolding parse_chain split_slash
entry-IsLoadable name weight = (eosio, refl, refl)
