-- ===== src/Didcomm/Discovery/Wildcards.antt =====
-- The wildcards in the queries of didcomm/discovery/handler.go.
use zero_comm.Prelude.{
  ℕ, suc, ◌-◌, Text, text, true, [], ◌∷◌, ◌++◌, ◌≡◌, refl, arith, eq_iff, length, has_prefix, sym,
  eqb, ◌∙◌, eqb_iff, ap, both_iff, has_prefix-append,
}
use zero_comm.Didcomm.Discovery.{ends_with_star, without_last}

-- The query is a text followed by a star, and the feature's id begins with this text.
abbrev pub HasWildcard : Text → Text → Type 0
HasWildcard query id =
    (front : Text) × (rest : Text) × (query ≡ front ++ text "*") × (id ≡ front ++ rest)

less_one : (n : ℕ) → suc n - 1 ≡ n
less_one n = omega arith

-- The tests of the wildcard read the last byte.
ends_with_star-cons : (a b : ℕ) (q : Text) → ends_with_star (a ∷ b ∷ q) ≡ ends_with_star (b ∷ q)
ends_with_star-cons a b q = rw (less_one (suc (length q)), less_one (length q)) refl

without_last-cons : (a b : ℕ) (q : Text) → without_last (a ∷ b ∷ q) ≡ a ∷ without_last (b ∷ q)
without_last-cons a b q = rw (less_one (suc (length q)), less_one (length q)) refl

pub without_last-star : (front : Text) → without_last (front ++ text "*") ≡ front
without_last-star [] = refl
without_last-star (a ∷ []) = refl
without_last-star (a ∷ b ∷ front) =
    without_last-cons a b (front ++ text "*") ∙ ap (λ t. a ∷ t) (without_last-star (b ∷ front))

pub ends_with_star-star : (front : Text) → ends_with_star (front ++ text "*") ≡ true
ends_with_star-star [] = refl
ends_with_star-star (a ∷ []) = refl
ends_with_star-star (a ∷ b ∷ front) =
    ends_with_star-cons a b (front ++ text "*") ∙ ends_with_star-star (b ∷ front)

pub without_last_lem : (q : Text) → ends_with_star q ≡ true → q ≡ without_last q ++ text "*"
without_last_lem [] e = cc
without_last_lem (a ∷ []) e = (eq_iff (a ∷ []) (text "*")).0 e
without_last_lem (a ∷ b ∷ q) e =
    ap (λ t. a ∷ t) (without_last_lem (b ∷ q) (sym (ends_with_star-cons a b q) ∙ e))
    ∙ ap (λ t. t ++ text "*") (sym (without_last-cons a b q))

prefix_rest : (s t : Text) → has_prefix s t ≡ true → (rest : Text) × (s ≡ t ++ rest)
prefix_rest s [] e = (s, refl)
prefix_rest [] (b ∷ t) e = cc
prefix_rest (a ∷ s) (b ∷ t) e =
    let h = (both_iff (eqb a b) (has_prefix s t)).0 e in
    let below = prefix_rest s t h.1 in
    (below.0, ap (λ c. c ∷ s) ((eqb_iff a b).0 h.0) ∙ ap (λ r. b ∷ r) below.1)

-- A query that ends in a star finds the ids that begin with the rest of it.
pub wildcard_prefix :
    (query id : Text) → HasWildcard query id → has_prefix id (without_last query) ≡ true
wildcard_prefix query id (front, rest, q, r) =
    rw (q, without_last-star front, r) (has_prefix-append front rest)

pub prefix_wildcard :
    (query id : Text)
    → ends_with_star query ≡ true
    → has_prefix id (without_last query) ≡ true
    → HasWildcard query id
prefix_wildcard query id e h =
    let below = prefix_rest id (without_last query) h in
    (without_last query, below.0, without_last_lem query e, below.1)
