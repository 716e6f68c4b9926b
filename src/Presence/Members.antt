-- ===== src/Presence/Members.antt =====
-- What the choice among the members of a set promises.
use nodemux.Common.{
  ℕ, zero, suc, ◌<◌, String, true, Option, none, some, List, [], ◌∷◌, length, get_elem?, All, Any,
  Any-imp, ◌≡◌, refl, sym, ap, ◌∙◌, inl, inr, Bool-cases, Option-cases, Outcome, done, panic, arith,
}
use nodemux.Multiplexer.{Multiplexer}
use nodemux.Multiplexer
use nodemux.Presence.{get_healthy, first_healthy, among_members}

-- The choice is a healthy endpoint that a member names, or none where no member names one.
abbrev pub IsMember : Multiplexer → List String → Outcome (Option ℕ) → Type 0
IsMember m names panic = ⊥
IsMember m names (done none) = All (λ name. get_healthy m name ≡ none) names
IsMember m names (done (some addr)) =
    ((m.heap addr).healthy ≡ true) × Any (λ name. Multiplexer.get m name ≡ some addr) names

get_healthy_sound :
    (m : Multiplexer) (name : String) (addr : ℕ)
    → get_healthy m name ≡ some addr
    → ((m.heap addr).healthy ≡ true) × (Multiplexer.get m name ≡ some addr)
unfolding get_healthy
get_healthy_sound m name addr h = elim (Option-cases (Multiplexer.get m name)) [
  | inl e ↦ absurd (cc (rw (e, get_healthy) at h))
  | inr (a, e) ↦ elim (Bool-cases (m.heap a).healthy) [
    | inl well ↦
        let same : a ≡ addr = cc (rw (e, get_healthy, well) at h) in
        (ap (λ x. (m.heap x).healthy) (sym same) ∙ well, e ∙ ap some same)
    | inr ill ↦ absurd (cc (rw (e, get_healthy, ill) at h))
  ]
]

first_healthy-IsMember :
    (m : Multiplexer) (names : List String) → IsMember m names (done (first_healthy m names))
unfolding first_healthy
first_healthy-IsMember m [] = tt
first_healthy-IsMember m (name ∷ rest) = elim (Option-cases (get_healthy m name)) [
  | inr (addr, e) ↦
      rw (e, first_healthy)
        (let (well, found) = get_healthy_sound m name addr e in (well, inl found))
  | inl e ↦ rw (e, first_healthy) (later (first_healthy m rest) e (first_healthy-IsMember m rest))
]
  where
    later :
        (found : Option ℕ)
        → get_healthy m name ≡ none
        → IsMember m rest (done found)
        → IsMember m (name ∷ rest) (done found)
    later none e c = (e, c)
    later (some addr) e c = (c.0, inr c.1)

within :
    (names : List String) (i : ℕ)
    → i < length names
    → (name : String) × (get_elem? names i ≡ some name) × Any (λ x. x ≡ name) names
within [] i h = absurd (omega arith)
within (x ∷ rest) zero h = (x, refl, inl refl)
within (x ∷ rest) (suc i) h = let (name, e, any) = within rest i (omega arith) in (name, e, inr any)

-- With `rand.Intn` in its range, the choice among the members of a transaction's set does not panic: it
-- is an endpoint that a member names and that is healthy, and it is none only if no member names one.
pub among_members-IsMember :
    (random : ℕ → ℕ) (m : Multiplexer) (names : List String)
    → ((lim : ℕ) → 0 < lim → random lim < lim)
    → IsMember m names (among_members random m names)
unfolding among_members
among_members-IsMember random m [] range = tt
among_members-IsMember random m (x ∷ rest) range =
    let names = x ∷ rest in
    let (name, e, any) =
      within names (random (length names)) (range (length names) (omega arith)) in
    elim (Option-cases (get_healthy m name)) [
      | inl e' ↦ rw (e, among_members, e') (first_healthy-IsMember m names)
      | inr (addr, e') ↦
          let (well, found) = get_healthy_sound m name addr e' in
          rw (e, among_members, e')
            (well, Any-imp _ _ names (λ y same. ap (Multiplexer.get m) same ∙ found) any)
    ]
