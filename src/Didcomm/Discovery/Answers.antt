-- ===== src/Didcomm/Discovery/Answers.antt =====
-- What a query of didcomm/discovery/handler.go gets from the listener of another agent.
use mathlib.Core.List.{Memᴰ}
use zero_comm.Prelude.{
  Text, text, true, false, List, [], Option, none, some, ◌≡◌, ◌⊎◌, refl, inl, inr, Bool-cases, ◌==◌,
  eq_iff, keep, first, has_prefix, contains, ok, subst, sym, RoundTrips, first_passes, ◌∙◌,
}
use zero_comm.Prelude.Passing.{keep-Passes, mem-keep, first-some, Memᴰ-first}
use zero_comm.Didcomm.Discovery.Wildcards.{
  HasWildcard, ends_with_star-star, without_last_lem, wildcard_prefix, prefix_wildcard,
}
use zero_comm.Domain.{Feature, discover_feat_query}
use zero_comm.Didcomm.Discovery.{
  Queries, process_query, listen, disclose, query_features, domain_prefix, ends_with_star, as_list,
  without_last,
}

-- A query selects every feature if it is empty or a star; another query has to contain the domain,
-- and selects a feature by a wildcard or by its id.
abbrev pub Selects : Text → Feature → Type 0
Selects query f =
    (query ≡ [])
    ⊎ ((query ≡ text "*")
        ⊎ ((contains query domain_prefix ≡ true) × (HasWildcard query f.id ⊎ (f.id ≡ query))))

-- An answer to a query: features that it selects, and for each that it selects one of the same id.
abbrev pub IsAnswer : List Feature → Text → List Feature → Type 0
IsAnswer features query fs =
    ((f : Feature) → Memᴰ f fs → Memᴰ f features × Selects query f)
    × ((f : Feature)
        → Memᴰ f features
        → Selects query f
        → (g : Feature) × Memᴰ g fs × (g.id ≡ f.id))

everything :
    (features : List Feature) (query : Text)
    → ((f : Feature) → Selects query f)
    → IsAnswer features query features
everything features query h = ((λ f m. (m, h f)), λ f m s. (f, m, refl))

-- What is left where the query is neither empty nor a star.
domain_part :
    (query : Text) (f : Feature)
    → (query == []) ≡ false
    → (query == text "*") ≡ false
    → Selects query f
    → (contains query domain_prefix ≡ true) × (HasWildcard query f.id ⊎ (f.id ≡ query))
domain_part query f n m (inl e) = absurd (cc (n, (eq_iff query []).1 e))
domain_part query f n m (inr (inl e)) = absurd (cc (m, (eq_iff query (text "*")).1 e))
domain_part query f n m (inr (inr d)) = d

by_wildcard :
    (query id : Text)
    → ends_with_star query ≡ true
    → HasWildcard query id ⊎ (id ≡ query)
    → has_prefix id (without_last query) ≡ true
by_wildcard query id e (inl w) = wildcard_prefix query id w
by_wildcard query id e (inr same) =
    wildcard_prefix query id
      (without_last query, text "*", without_last_lem query e, same ∙ without_last_lem query e)

by_id :
    (query id : Text)
    → ends_with_star query ≡ false
    → HasWildcard query id ⊎ (id ≡ query)
    → (id == query) ≡ true
by_id query id e (inl (front, rest, q, r)) =
    absurd (cc (e, subst (λ t. ends_with_star t ≡ true) (sym q) (ends_with_star-star front)))
by_id query id e (inr same) = (eq_iff id query).1 same

module _ (features : List Feature) (query : Text) (n : (query == []) ≡ false)
    (m : (query == text "*") ≡ false) where
  nothing : contains query domain_prefix ≡ false → IsAnswer features query []
  nothing e = ((λ f h. elim h [ ]), λ f h s. absurd (cc (e, (domain_part query f n m s).0)))

  module _ (e : contains query domain_prefix ≡ true) where
    prefixed :
        ends_with_star query ≡ true
        → IsAnswer features query (keep (λ f. has_prefix f.id (without_last query)) features)
    prefixed star = (
      (λ f h.
          let (there, passes) = keep-Passes _ f features h in
          (there, inr (inr (e, inl (prefix_wildcard query f.id star passes))))),
      λ f there s. (
        f,
        mem-keep _ f features there (by_wildcard query f.id star (domain_part query f n m s).1),
        refl,
      ),
    )

    answer_named :
        (o : Option Feature)
        → first (λ f. f.id == query) features ≡ o
        → (f : Feature) → Memᴰ f (as_list o)
        → Memᴰ f features × Selects query f
    answer_named none found f h = elim h [ ]
    answer_named (some g) found f (Memᴰ.tail h) = elim h [ ]
    answer_named (some g) found f (Memᴰ.head same) =
        subst (λ x. Memᴰ x features × Selects query x) (sym same)
          (
            Memᴰ-first _ g features found,
            inr (inr (e, inr ((eq_iff g.id query).0 (first_passes _ features g found)))),
          )

    named :
        ends_with_star query ≡ false
        → IsAnswer features query (as_list (first (λ f. f.id == query) features))
    named plain = (
      answer_named (first (λ f. f.id == query) features) refl,
      λ f there s.
          let same = by_id query f.id plain (domain_part query f n m s).1 in
          let (g, found) = first-some (λ h. h.id == query) f features there same in
          (
            g,
            subst (λ o. Memᴰ g (as_list o)) (sym found) (Memᴰ.head refl),
            (eq_iff g.id query).0 (first_passes _ features g found)
                ∙ sym ((eq_iff f.id query).0 same),
          ),
    )

process_query-IsAnswer :
    (features : List Feature) (query : Text)
    → IsAnswer features query (process_query features query)
unfolding process_query
process_query-IsAnswer features query = elim (Bool-cases (query == [])) [
  | inl e ↦
      by_answer (rw (e, process_query) refl)
        (everything features query (λ f. inl ((eq_iff query []).0 e)))
  | inr n ↦ elim (Bool-cases (query == text "*")) [
    | inl e ↦
        by_answer (rw (n, process_query) (rw e refl))
          (everything features query (λ f. inr (inl ((eq_iff query (text "*")).0 e))))
    | inr m ↦ elim (Bool-cases (contains query domain_prefix)) [
      | inr e ↦ by_answer (rw (n, process_query) (rw m (rw e refl))) (nothing features query n m e)
      | inl e ↦ elim (Bool-cases (ends_with_star query)) [
        | inl star ↦
            by_answer (rw (n, process_query) (rw m (rw e (rw star refl))))
              (prefixed features query n m e star)
        | inr plain ↦
            by_answer (rw (n, process_query) (rw m (rw e (rw plain refl))))
              (named features query n m e plain)
      ]
    ]
  ]
]
  where
    by_answer :
        {fs : List Feature}
        → process_query features query ≡ fs
        → IsAnswer features query fs
        → IsAnswer features query (process_query features query)
    by_answer e h = subst (IsAnswer features query) (sym e) h

-- A query that one agent sends to another, whose listener answers it, succeeds, and gives features of
-- the other that it selects, and for each feature there that it selects one with the same id. An empty
-- query and a star select all; any other has to contain the domain, and be the id, or a start of the
-- id with a star behind it. JSON reads what it wrote.
pub query-listen :
    (j : Queries) (features : List Feature) (id query comment : Text)
    → RoundTrips j.queries
    → RoundTrips j.discloses
    → (fs : List Feature) × (query_features j id (listen j features) query comment ≡ ok fs)
      × ((f : Feature) → Memᴰ f fs → Memᴰ f features × Selects query f)
      × ((f : Feature)
          → Memᴰ f features
          → Selects query f
          → (g : Feature) × Memᴰ g fs × (g.id ≡ f.id))
unfolding query_features listen
query-listen j features id query comment qs ds =
    let (t, et, dt) =
      qs.trips (record { typ = discover_feat_query; id = id; query = query; comment = comment }) in
    let (u, eu, du) = ds.trips (disclose features id query) in
    let (sound, complete) = process_query-IsAnswer features query in
    (process_query features query, rw et (rw dt (rw eu (rw du refl))), sound, complete)
