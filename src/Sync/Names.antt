-- ===== src/Sync/Names.antt =====
-- The updater lists no name and takes none off.
use nodemux.Common.{
  ℕ, Bool, Option, none, some, String_discrete, lookup, ◌≡◌, sym, ap, ◌∙◌, inl, inr, Bool-cases,
  Option-cases, done, bind-done, done-inj,
}
use nodemux.Chain.{ChainRef_discrete}
use nodemux.Endpoint.{Block}
use nodemux.Multiplexer.{Multiplexer, Runtime}
use nodemux.Multiplexer
use nodemux.Sync.{ChainStatus, same_health, update_health, update_head, update_status}

update_health-names :
    (r : Runtime) (m m' : Multiplexer) (addr : ℕ) (healthy : Bool)
    → update_health r m addr healthy ≡ done m'
    → m'.name_index ≡ m.name_index
unfolding update_health
update_health-names r m m' addr healthy h =
    elim (Bool-cases (same_health healthy (m.heap addr).healthy)) [
      | inl same ↦ ap (λ x. x.name_index) (sym (done-inj (rw same at h)))
      | inr differs ↦
          elim (Option-cases (lookup ChainRef_discrete (m.heap addr).chain m.chain_index)) [
            | inl e ↦ absurd (cc (rw (differs, e) at h))
            | inr (s, e) ↦ ap (λ x. x.name_index) (sym (done-inj (rw (differs, e) at h)))
          ]
    ]

update_head-names :
    (r : Runtime) (m m' : Multiplexer) (addr : ℕ) (block : Block)
    → update_head r m addr block ≡ done m'
    → m'.name_index ≡ m.name_index
unfolding update_head
update_head-names r m m' addr block h =
    elim (Option-cases (lookup ChainRef_discrete (m.heap addr).chain m.chain_index)) [
      | inl e ↦ absurd (cc (rw e at h))
      | inr (s, e) ↦ ap (λ x. x.name_index) (sym (done-inj (rw e at h)))
    ]

after_health-names :
    (r : Runtime) (n m' : Multiplexer) (addr : ℕ) (head : Option Block)
    → (elim head [ none ↦ done n | some block ↦ update_head r n addr block ]) ≡ done m'
    → m'.name_index ≡ n.name_index
after_health-names r n m' addr none h = ap (λ x. x.name_index) (sym (done-inj h))
after_health-names r n m' addr (some block) h = update_head-names r n m' addr block h

pub update_status-names :
    (r r' : Runtime) (m m' : Multiplexer) (cs : ChainStatus)
    → update_status r r' m cs ≡ done m'
    → m'.name_index ≡ m.name_index
unfolding update_status Multiplexer.get
update_status-names r r' m m' cs h =
    elim (Option-cases (lookup String_discrete cs.endpoint_name m.name_index)) [
      | inl e ↦ ap (λ x. x.name_index) (sym (done-inj (rw (e, update_status) at h)))
      | inr (addr, e) ↦
          let (n, e', h') = bind-done _ _ m' (rw (e, update_status) at h) in
          after_health-names r' n m' addr cs.blockhead h'
          ∙ update_health-names r m n addr cs.healthy e'
    ]
