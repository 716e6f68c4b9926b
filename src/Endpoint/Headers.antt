-- ===== src/Endpoint/Headers.antt =====
-- core/endpoint.go: the headers of a request that `doResponse` sends on, and those of the response that
-- `PipeRequest` passes back. The canonical form of the name of a header is net/http's, and a parameter.
use nodemux.Common.{
  String, Option, none, some, List, [], ◌∷◌, ◌++◌, append-nil, append_assoc, ite, String_discrete,
  lookup, insert, lookup-insert_self, lookup-insert_ne, ◌≡◌, refl, sym, ap, subst, ◌∙◌,
  Option-cases, inl, inr, arith,
}
use mathlib.Core.Logic.{if_pos, if_neg}

abbrev pub Header : Type 0
Header = List (String × List String)

unfoldable pub or_empty : Option (List String) → List String
or_empty none = []
or_empty (some values) = values

unfoldable pub values_of : String → Header → List String
unfolding or_empty
values_of name h = or_empty (lookup String_discrete name h)

-- The value, if there is one, in place of the others.
unfoldable pub chosen : Option String → List String → List String
chosen none values = values
chosen (some v) values = v ∷ []

module _ (canonical : String → String) where
  -- `Header.Add` and `Header.Set`
  unfoldable pub header_add : String → String → Header → Header
  unfolding values_of
  header_add k v h = insert String_discrete (canonical k) (values_of (canonical k) h ++ v ∷ []) h

  unfoldable pub header_set : String → String → Header → Header
  header_set k v h = insert String_discrete (canonical k) (v ∷ []) h

  unfoldable pub add_values : String → List String → Header → Header
  unfolding header_add
  add_values k [] h = h
  add_values k (v ∷ vlist) h = add_values k vlist (header_add k v h)

  unfoldable pub copy_headers : Header → Header → Header
  unfolding add_values
  copy_headers [] h = h
  copy_headers ((k, vlist) ∷ rest) h = copy_headers rest (add_values k vlist h)

  unfoldable pub set_headers : List (String × String) → Header → Header
  unfolding header_set
  set_headers [] h = h
  set_headers ((k, v) ∷ rest) h = set_headers rest (header_set k v h)

  -- The headers of the request to the endpoint; both lists in the order of the visit.
  unfoldable pub request_headers : Header → List (String × String) → String → Header
  unfolding copy_headers set_headers header_set
  request_headers client config remote_addr =
      header_set "X-Forwarded-For" remote_addr (set_headers config (copy_headers client []))

  unfoldable pub set_values : String → List String → Header → Header
  unfolding header_set
  set_values hn [] h = h
  set_values hn (hv ∷ hvs) h = set_values hn hvs (header_set hn hv h)

  -- `to_lower` is that of the package strings.
  unfoldable pub pipe_headers : (String → String) → Header → Header → Header
  unfolding set_values header_set
  pipe_headers to_lower [] h = h
  pipe_headers to_lower ((hn, hvs) ∷ rest) h = pipe_headers to_lower rest (
      ite (String_discrete (to_lower hn) "server") (header_set "Server" "nodemux" h)
        (set_values hn hvs h))

  unfoldable pub response_headers : (String → String) → Header → String → Header
  unfolding pipe_headers header_set
  response_headers to_lower response name =
      header_set "X-Real-Endpoint" name (pipe_headers to_lower response [])

  -- What the client gave under a name, in order.
  unfoldable pub given : String → Header → List String
  given name [] = []
  given name ((k, vlist) ∷ rest) =
      ite (String_discrete (canonical k) name) (vlist ++ given name rest) (given name rest)

  -- The last value that is set under a name.
  unfoldable pub last_set : String → List (String × String) → Option String
  last_set name [] = none
  last_set name ((k, v) ∷ rest) = elim (last_set name rest) [
    | some w ↦ some w
    | none ↦ ite (String_discrete (canonical k) name) (some v) none
  ]

  values_of-header_set :
      (name k v : String) (h : Header)
      → values_of name (header_set k v h)
        ≡ ite (String_discrete (canonical k) name) (v ∷ []) (values_of name h)
  unfolding values_of header_set or_empty
  values_of-header_set name k v h =
      let stored = lookup-insert_self String_discrete (canonical k) (v ∷ []) h in
      elim (String_discrete (canonical k) name) [
        | yes p ↦
            ap or_empty
              (subst (λ n. lookup String_discrete n (header_set k v h) ≡ some (v ∷ [])) p stored)
            ∙ sym (if_pos (String_discrete (canonical k) name) p (v ∷ []) (values_of name h))
        | no p ↦
            ap or_empty
              (lookup-insert_ne String_discrete (canonical k) name (v ∷ []) h (λ e. p (sym e)))
            ∙ sym (if_neg (String_discrete (canonical k) name) p (v ∷ []) (values_of name h))
      ]

  values_of-header_add :
      (name k v : String) (h : Header)
      → values_of name (header_add k v h)
        ≡ ite (String_discrete (canonical k) name) (values_of name h ++ v ∷ []) (values_of name h)
  unfolding values_of header_add or_empty
  values_of-header_add name k v h =
      let values = values_of (canonical k) h ++ v ∷ [] in
      let stored = lookup-insert_self String_discrete (canonical k) values h in
      elim (String_discrete (canonical k) name) [
        | yes p ↦
            ap or_empty
              (subst (λ n. lookup String_discrete n (header_add k v h) ≡ some values) p stored)
            ∙ ap (λ n. values_of n h ++ v ∷ []) p
            ∙ sym (
                if_pos (String_discrete (canonical k) name) p (values_of name h ++ v ∷ [])
                  (values_of name h))
        | no p ↦
            ap or_empty
              (lookup-insert_ne String_discrete (canonical k) name values h (λ e. p (sym e)))
            ∙ sym (
                if_neg (String_discrete (canonical k) name) p (values_of name h ++ v ∷ [])
                  (values_of name h))
      ]

  values_of-add_values :
      (name k : String) (vlist : List String) (h : Header)
      → values_of name (add_values k vlist h)
        ≡ ite (String_discrete (canonical k) name) (values_of name h ++ vlist) (values_of name h)
  unfolding add_values
  values_of-add_values name k [] h = ground (arith, append-nil (values_of name h))
  values_of-add_values name k (v ∷ vlist) h =
      let later = values_of-add_values name k vlist (header_add k v h) in
      let first = values_of-header_add name k v h in
      let joined = append_assoc (values_of name h) (v ∷ []) vlist in
      ground (arith, later, first, joined)

  values_of-copy_headers :
      (name : String) (client h : Header)
      → values_of name (copy_headers client h) ≡ values_of name h ++ given name client
  unfolding copy_headers given
  values_of-copy_headers name [] h = sym (append-nil (values_of name h))
  values_of-copy_headers name ((k, vlist) ∷ rest) h =
      let later = values_of-copy_headers name rest (add_values k vlist h) in
      let first = values_of-add_values name k vlist h in
      let joined = append_assoc (values_of name h) vlist (given name rest) in
      ground (arith, later, first, joined)

  values_of-set_headers :
      (name : String) (config : List (String × String)) (h : Header)
      → values_of name (set_headers config h) ≡ chosen (last_set name config) (values_of name h)
  unfolding set_headers last_set chosen
  values_of-set_headers name [] h = refl
  values_of-set_headers name ((k, v) ∷ rest) h =
      let later = values_of-set_headers name rest (header_set k v h) in
      let first = values_of-header_set name k v h in
      elim (Option-cases (last_set name rest)) [
        | inr (w, e) ↦ rw (e, last_set) (rw e at later)
        | inl e ↦ rw (e, last_set) (ground (arith, rw e at later, first))
      ]

  -- Of a request that is sent on, the header "X-Forwarded-For" holds the address of the client, whatever
  -- the client or the configuration says of it; any other header that the configuration names holds the
  -- value last set there, and each header that it does not name all the values of the client, in order.
  pub request_headers-values :
      (name : String) (client : Header) (config : List (String × String)) (remote_addr : String)
      → values_of name (request_headers client config remote_addr)
        ≡ ite
            (String_discrete (canonical "X-Forwarded-For") name)
            (remote_addr ∷ [])
            (chosen (last_set name config) (given name client))
  unfolding request_headers values_of or_empty lookup
  request_headers-values name client config remote_addr =
      values_of-header_set name "X-Forwarded-For" remote_addr
        (set_headers config (copy_headers client []))
      ∙ ap (λ x. ite (String_discrete (canonical "X-Forwarded-For") name) (remote_addr ∷ []) x)
          (values_of-set_headers name config (copy_headers client [])
            ∙ ap (chosen (last_set name config)) (values_of-copy_headers name client []))
