-- ===== src/Sync/Effect.antt =====
-- What a status does to the endpoints, and what the loop that asks an endpoint publishes.
use nodemux.Common.{
  ℕ, Bool, true, false, Option, none, some, List, [], ◌∷◌, ℕ_discrete, String_discrete, eq_of_parts,
  lookup, ◌≡◌, ◌≢◌, refl, sym, ap, ◌∙◌, inl, inr, Bool-cases, Option-cases, if_neg, done, done-inj,
  arith,
}
use nodemux.Chain.{ChainRef_discrete}
use nodemux.Endpoint.{Endpoint, Block}
use nodemux.EndpointSet.{Heap}
use nodemux.Multiplexer.{Multiplexer, Runtime, IsGo, update}
use nodemux.Multiplexer
use nodemux.Multiplexer.Invariant.{Inv}
use nodemux.Sync.{
  ChainStatus, same_health, update_health, update_head, update_status, block_is_equal, Answer,
  failed, got, unhealthy_status, update_block, get_blockhead, sync_rounds,
}
use nodemux.Sync.Store.{update_cases, update_self}
use nodemux.Sync.Status.{update_status-Inv, update_health-Inv, IsListed-Located}

-- The endpoint once it has taken in a status: a status with no block keeps the head.
unfoldable pub take_in : Endpoint → ChainStatus → Endpoint
take_in ep cs = record ep {
  healthy = cs.healthy;
  blockhead = elim cs.blockhead [ none ↦ ep.blockhead | some block ↦ some block ];
}

unfoldable pub take_in_all : Endpoint → List ChainStatus → Endpoint
take_in_all ep [] = ep
take_in_all ep (cs ∷ rest) = take_in_all (take_in ep cs) rest

-- The status that each answer would give, if none was held back.
unfoldable pub every_status : Endpoint → List Answer → List ChainStatus
every_status ep [] = []
every_status ep (failed ∷ rest) = unhealthy_status ep ∷ every_status ep rest
every_status ep (got none ∷ rest) = every_status ep rest
every_status ep (got (some block) ∷ rest) = update_block ep block ∷ every_status ep rest

-- The endpoint shows the last block, where there is one.
abbrev pub Shows : Endpoint → Option Block → Type 0
Shows ep none = Unit {0}
Shows ep (some block) = (ep.healthy ≡ true) × (ep.blockhead ≡ some block)

pub block_is_equal_sound : (a b : Block) → block_is_equal (some a) (some b) ≡ true → a ≡ b
unfolding block_is_equal
block_is_equal_sound a b h = elim (String_discrete a.hash b.hash) [
  | yes p ↦
      let same : a.height ≡ b.height = eq_of_parts a.height b.height (ground arith) in
      (λ i. record { height = same i; hash = p i })
  | no p ↦ absurd (ground arith)
]

take_in-update_block :
    (shown ep : Endpoint) (block : Block)
    → shown.healthy ≡ true
    → shown.blockhead ≡ some block
    → take_in shown (update_block ep block) ≡ shown
unfolding take_in update_block
take_in-update_block shown ep block well here =
    (λ i. record shown { healthy = sym well i; blockhead = sym here i })

sync_rounds-take_in :
    (shown ep ep' : Endpoint) (last_block : Option Block) (answers : List Answer)
    → Shows shown last_block
    → take_in_all shown (sync_rounds ep last_block answers)
      ≡ take_in_all shown (every_status ep' answers)
unfolding sync_rounds every_status take_in_all get_blockhead take_in unhealthy_status update_block
    block_is_equal
sync_rounds-take_in shown ep ep' last_block [] shows = refl
sync_rounds-take_in shown ep ep' last_block (failed ∷ rest) shows =
    sync_rounds-take_in (take_in shown (unhealthy_status ep)) (record ep { connected = false }) ep'
      none rest tt
sync_rounds-take_in shown ep ep' last_block (got none ∷ rest) shows =
    sync_rounds-take_in shown ep ep' none rest tt
sync_rounds-take_in shown ep ep' none (got (some block) ∷ rest) shows =
    sync_rounds-take_in (take_in shown (update_block ep block)) (record ep { connected = true }) ep'
      (some block) rest (refl, refl)
sync_rounds-take_in shown ep ep' (some old) (got (some block) ∷ rest) shows =
    elim (Bool-cases (block_is_equal (some old) (some block))) [
      | inr differs ↦ rw differs (
          sync_rounds-take_in (take_in shown (update_block ep block))
            (record ep { connected = true }) ep' (some block) rest (refl, refl))
      | inl same ↦
          let here : shown.blockhead ≡ some block =
            shows.1 ∙ ap some (block_is_equal_sound old block same) in
          rw same (
            sync_rounds-take_in shown (record ep { connected = true }) ep' (some block) rest
              (shows.0, here)
            ∙ ap (λ x. take_in_all x (every_status ep' rest))
                (sym (take_in-update_block shown ep' block shows.0 here)))
    ]

update_same :
    (heap : Heap) (addr : ℕ) (ep : Endpoint) (a : ℕ)
    → ep ≡ heap addr
    → heap a ≡ update heap addr ep a
update_same heap addr ep a same = elim (update_cases heap addr ep a) [
  | inl (p, e) ↦ ap heap p ∙ sym same ∙ sym e
  | inr (p, e) ↦ sym e
]

same_health_sound : (a b : Bool) → same_health a b ≡ true → a ≡ b
unfolding same_health
same_health_sound a b h = ground arith

update_health-heap :
    (r : Runtime) (m m' : Multiplexer) (addr : ℕ) (healthy : Bool) (a : ℕ)
    → update_health r m addr healthy ≡ done m'
    → m'.heap a ≡ update m.heap addr (record (m.heap addr) { healthy = healthy }) a
unfolding update_health
update_health-heap r m m' addr healthy a h =
    let ep = record (m.heap addr) { healthy = healthy } in
    elim (Bool-cases (same_health healthy (m.heap addr).healthy)) [
      | inl same ↦
          let kept : m ≡ m' = done-inj (rw same at h) in
          let well = same_health_sound healthy (m.heap addr).healthy same in
          ap (λ x. x.heap a) (sym kept)
          ∙ update_same m.heap addr ep a (λ i. record (m.heap addr) { healthy = well i })
      | inr differs ↦
          elim (Option-cases (lookup ChainRef_discrete (m.heap addr).chain m.chain_index)) [
            | inl e ↦ absurd (cc (rw (differs, e) at h))
            | inr (s, e) ↦ ap (λ x. x.heap a) (sym (done-inj (rw (differs, e) at h)))
          ]
    ]

update_head-heap :
    (r : Runtime) (m m' : Multiplexer) (addr : ℕ) (block : Block) (a : ℕ)
    → update_head r m addr block ≡ done m'
    → m'.heap a ≡ update m.heap addr (record (m.heap addr) { blockhead = some block }) a
unfolding update_head
update_head-heap r m m' addr block a h =
    elim (Option-cases (lookup ChainRef_discrete (m.heap addr).chain m.chain_index)) [
      | inl e ↦ absurd (cc (rw e at h))
      | inr (s, e) ↦ ap (λ x. x.heap a) (sym (done-inj (rw e at h)))
    ]

pub update_other :
    (heap : Heap) (addr : ℕ) (ep : Endpoint) (a : ℕ) → a ≢ addr → update heap addr ep a ≡ heap a
unfolding update
update_other heap addr ep a p = if_neg (ℕ_discrete a addr) p ep (heap a)

-- The two writes of one update, to the same address, amount to one.
update_twice :
    (heap : Heap) (addr : ℕ) (ep : Endpoint) (head : Option Block) (heap' : Heap) (a : ℕ)
    → ((b : ℕ) → heap' b ≡ update heap addr ep b)
    → update heap' addr (record (heap' addr) { blockhead = head }) a
      ≡ update heap addr (record ep { blockhead = head }) a
update_twice heap addr ep head heap' a written =
    let ep' = record ep { blockhead = head } in
    let here : heap' addr ≡ ep = written addr ∙ update_self heap addr ep in
    elim (update_cases heap' addr (record (heap' addr) { blockhead = head }) a) [
      | inl (p, e) ↦
          e
          ∙ (λ i. record (here i) { blockhead = head })
          ∙ sym (update_self heap addr ep')
          ∙ ap (update heap addr ep') (sym p)
      | inr (p, e) ↦
          e ∙ written a ∙ update_other heap addr ep a p ∙ sym (update_other heap addr ep' a p)
    ]

after_head :
    (r r' : Runtime) (m n m' : Multiplexer) (addr : ℕ) (cs : ChainStatus) (head : Option Block)
    (a : ℕ)
    → cs.blockhead ≡ head
    → ((b : ℕ) → n.heap b ≡ update m.heap addr (record (m.heap addr) { healthy = cs.healthy }) b)
    → (elim head [ none ↦ done n | some block ↦ update_head r' n addr block ]) ≡ done m'
    → m'.heap a ≡ update m.heap addr (take_in (m.heap addr) cs) a
unfolding take_in
after_head r r' m n m' addr cs none a e written h =
    rw e (ap (λ x. x.heap a) (sym (done-inj h)) ∙ written a)
after_head r r' m n m' addr cs (some block) a e written h = rw e (
    update_head-heap r' n m' addr block a h
    ∙ update_twice m.heap addr (record (m.heap addr) { healthy = cs.healthy }) (some block) n.heap a
        written)

-- A status for a known endpoint, in a multiplexer that is in order: `updateStatus` ends, the endpoint
-- has taken in the status, its health and, if there is one, its head, and no other endpoint changes.
pub update_status-take_in :
    (r r' : Runtime) (m : Multiplexer) (cs : ChainStatus) (addr : ℕ)
    → IsGo r
    → IsGo r'
    → Inv m
    → lookup String_discrete cs.endpoint_name m.name_index ≡ some addr
    → (m' : Multiplexer) × (update_status r r' m cs ≡ done m')
      × ((a : ℕ) → m'.heap a ≡ update m.heap addr (take_in (m.heap addr) cs) a)
unfolding update_status Multiplexer.get
update_status-take_in r r' m cs addr go go' v known =
    let l = IsListed-Located m cs.endpoint_name addr (v.listed cs.endpoint_name addr known) in
    let (m', e, v') = update_status-Inv r r' m cs go go' v in
    let (n, e', v'', names, l') = update_health-Inv r go m addr v l cs.healthy in
    (
      m',
      e,
      λ a.
          after_head r r' m n m' addr cs cs.blockhead a refl
            (λ b. update_health-heap r m n addr cs.healthy b e')
            (rw (known, update_status, e') at e),
    )

-- The statuses that the loop publishes for an endpoint, which leave out a block that is the last one
-- again, tell as much as a status for every answer would: whoever takes them in has the same endpoint,
-- as long as the one that it has shows the block that the loop compares with first, if there is one.
pub sync_rounds-every_status :
    (shown ep : Endpoint) (last_block : Option Block) (answers : List Answer)
    → Shows shown last_block
    → take_in_all shown (sync_rounds ep last_block answers)
      ≡ take_in_all shown (every_status ep answers)
sync_rounds-every_status shown ep last_block answers shows =
    sync_rounds-take_in shown ep ep last_block answers shows
