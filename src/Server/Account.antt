-- ===== src/Server/Account.antt =====
-- Which requests are let through to a relayer, and the account and chain that a path names.
use Prim.Native.String.{◌++◌}
use nodemux.Common.{
  String, Bool, true, false, some, List, is_empty, String_discrete, lookup, Outcome, done, ◌≡◌,
  refl, inl, inr, Bool-cases, Option-cases,
}
use nodemux.Chain.Text.{has_slash, split_slash-append, slash-append}
use nodemux.Endpoint.{strip_slash}
use nodemux.Config.{AccountConfig}
use nodemux.Ratelimit.{Verdict, allowed, refused, failed}
use nodemux.Server.{
  Acc, Response, served, segment, is_api, inner_segment, acc_regex, find_acc, limit_then,
  relay_handler,
}

limited :
    {A : Type 0} (v : Verdict) (next : Outcome (Response A)) (a : A)
    → limit_then v next ≡ done (served a)
    → (v ≡ allowed) × (next ≡ done (served a))
unfolding limit_then
limited allowed next a h = (refl, h)
limited refused next a h = absurd cc
limited failed next a h = absurd cc

-- A request is served only if it passes the authentication, its path names a configured account, and
-- the limit of that account lets it through: then the relayer serves it for that account.
pub relay_handler-served :
    {A : Type 0} (auth : Bool) (accounts : List (String × AccountConfig)) (verdict : Acc → Verdict)
    (next : Acc → Outcome (Response A)) (path : String) (a : A)
    → relay_handler auth accounts verdict next path ≡ done (served a)
    → (auth ≡ true)
      × (acc : Acc) × (find_acc accounts path ≡ some acc)
      × (verdict acc ≡ allowed)
      × (next acc ≡ done (served a))
unfolding relay_handler
relay_handler-served auth accounts verdict next path a h = elim (Bool-cases auth) [
  | inr off ↦ absurd (cc (rw (off, relay_handler) at h))
  | inl on ↦ elim (Option-cases (find_acc accounts path)) [
    | inl e ↦ absurd (cc (rw (on, relay_handler, e) at h))
    | inr (acc, e) ↦
        let (fine, gave) = limited (verdict acc) (next acc) a (rw (on, relay_handler, e) at h) in
        (on, acc, e, fine, gave)
  ]
]

segment-append : (s t : String) → has_slash s ≡ false → segment (s ++ "/" ++ t) ≡ (s, some t)
unfolding segment
segment-append s t clean = rw (split_slash-append s t clean, segment) refl

inner_segment-append :
    (s t : String)
    → has_slash s ≡ false
    → is_empty s ≡ false
    → inner_segment (s ++ "/" ++ t) ≡ some (s, t)
unfolding inner_segment
inner_segment-append s t clean full =
    let cut = segment-append s t clean in rw (inner_segment, cut, cut, full) refl

strip_slash-append : (t : String) → strip_slash ("/" ++ t) ≡ some t
unfolding strip_slash
strip_slash-append t = rw (slash-append t) refl

-- The path of a request of a configured account leads to the account and to the chain, whatever follows
-- the network behind a slash.
pub find_acc-path :
    (accounts : List (String × AccountConfig)) (kind account namespace network rest : String)
    (acccfg : AccountConfig)
    → is_api kind ≡ true
    → has_slash kind ≡ false
    → is_empty kind ≡ false
    → has_slash account ≡ false
    → is_empty account ≡ false
    → has_slash namespace ≡ false
    → is_empty namespace ≡ false
    → has_slash network ≡ false
    → is_empty network ≡ false
    → lookup String_discrete account accounts ≡ some acccfg
    → find_acc accounts
        ("/" ++ kind ++ "/" ++ account ++ "/" ++ namespace ++ "/" ++ network ++ "/" ++ rest)
      ≡ some (record {
        name = account;
        chain = record { namespace = namespace; network = network };
        config = acccfg;
      })
unfolding find_acc acc_regex
find_acc-path accounts kind account namespace network rest acccfg api k0 k1 a0 a1 n0 n1 w0 w1
      known =
    let tail = namespace ++ "/" ++ network ++ "/" ++ rest in
    rw
      (
        strip_slash-append (kind ++ "/" ++ account ++ "/" ++ tail),
        find_acc,
        acc_regex,
        inner_segment-append kind (account ++ "/" ++ tail) k0 k1,
        inner_segment-append account tail a0 a1,
        inner_segment-append namespace (network ++ "/" ++ rest) n0 n1,
        segment-append network rest w0,
        api,
        w1,
        known,
      )
      refl
