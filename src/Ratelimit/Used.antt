-- ===== src/Ratelimit/Used.antt =====
-- ratelimit/ratelimit.go: `Values`, which tells the calls counted in a window. The answer of `HGetAll`,
-- the fields of the hash of the window with their texts, is an argument, `none` an error.
use nodemux.Common.{
  true, Bool-cases, inl, inr, sym, ap, subst, ℕ, ◌+◌, ◌≤◌, String, Option, none, some, List, [],
  ◌∷◌, ℤ, pos, negsuc, leb_ℤ, add_int, max_int, atoi, if◌then◌else◌, String_discrete, lookup,
  insert, lookup-insert_self, lookup-insert_ne, Outcome, ◌>>=◌, done, ◌≡◌, refl, arith, ◌≢◌, ◌∙◌,
}
use mathlib.Core.Logic.{if_pos, if_neg}
use nodemux.Ratelimit.{RatelimitOptions, redis_key, merge_options, value_base}

-- A field is told if it holds a number from the base value on.
unfoldable pub tell : String → Option ℤ → List (String × ℤ) → List (String × ℤ)
tell field none used = used
tell field (some i) used =
    if leb_ℤ value_base i then insert String_discrete field (add_int i (negsuc 999)) used else used

unfoldable pub used_values : List (String × String) → List (String × ℤ)
unfolding tell atoi
used_values [] = []
used_values ((field, value) ∷ items) = tell field (atoi value) (used_values items)

-- `now` is the default, the current time and a span of an hour; `hgetall` answers for a key.
unfoldable pub values :
    (String → Option (List (String × String)))
    → RatelimitOptions
    → List (Option (Option ℤ × ℤ))
    → Outcome (Option (List (String × ℤ)))
unfolding redis_key merge_options used_values
values hgetall now optslist = redis_key (merge_options now optslist) >>= λ key. elim (hgetall key) [
  | none ↦ done none
  | some items ↦ done (some (used_values items))
]

less_base : (n : ℕ) → 1000 + n ≤ max_int → add_int (pos (1000 + n)) (negsuc 999) ≡ pos n
unfolding add_int
less_base n small = ground arith

tell_self :
    (field value : String) (n : ℕ) (used : List (String × ℤ))
    → atoi value ≡ some (pos (1000 + n))
    → 1000 + n ≤ max_int
    → lookup String_discrete field (tell field (atoi value) used) ≡ some (pos n)
unfolding tell
tell_self field value n used e small =
    let told : leb_ℤ value_base (pos (1000 + n)) ≡ true = ground arith in
    rw (e, tell, told)
      (lookup-insert_self String_discrete field (add_int (pos (1000 + n)) (negsuc 999)) used
        ∙ ap some (less_base n small))

tell_other :
    (field other : String) (number : Option ℤ) (used : List (String × ℤ))
    → other ≢ field
    → lookup String_discrete other (tell field number used) ≡ lookup String_discrete other used
unfolding tell
tell_other field other none used h = refl
tell_other field other (some i) used h = elim (Bool-cases (leb_ℤ value_base i)) [
  | inl e ↦
      rw (e, tell) (lookup-insert_ne String_discrete field other (add_int i (negsuc 999)) used h)
  | inr e ↦ rw (e, tell) refl
]

-- A field whose text is a number from the base value on is told, with what lies above the base.
pub used_values-lookup :
    (items : List (String × String)) (field value : String) (n : ℕ)
    → lookup String_discrete field items ≡ some value
    → atoi value ≡ some (pos (1000 + n))
    → 1000 + n ≤ max_int
    → lookup String_discrete field (used_values items) ≡ some (pos n)
unfolding lookup used_values
used_values-lookup [] field value n h e small = absurd cc
used_values-lookup ((f, v) ∷ items) field value n h e small = elim (String_discrete f field) [
  | yes p ↦
      let same : ◌≡◌ {A = Option String} (some v) (some value) =
        sym (if_pos (String_discrete f field) p (some v) (lookup String_discrete field items))
        ∙ h in
      let read : atoi v ≡ some (pos (1000 + n)) = cc (same, e) in
      subst
        (λ name. lookup String_discrete name (tell f (atoi v) (used_values items)) ≡ some (pos n)) p
        (tell_self f v n (used_values items) read small)
  | no p ↦
      tell_other f field (atoi v) (used_values items) (λ q. p (sym q))
      ∙ used_values-lookup items field value n
          (sym (if_neg (String_discrete f field) p (some v) (lookup String_discrete field items))
            ∙ h)
          e small
]
