-- ===== src/Validator.antt =====
-- pubsub/validator/init.go: the checksum of a group, and the comparison of the members' checksums.
pub mod Order
pub mod Checksum
pub mod Majority
pub mod Verdict
pub mod Joiner
pub mod Examples
use zero_comm.Prelude.{
  ℕ, ◌-◌, zero, Text, Bool, true, false, List, [], ◌∷◌, ◌++◌, map, Option, none, some, Result, ok,
  err, panic, inconsistent, ◌>>=◌, ◌==◌, ltb, leb, eqb, if◌then◌else◌, length, replicate, first,
  get_or, ◌&&◌,
}
use zero_comm.Prelude.Dict.{Dict, lookup, insert}
use zero_comm.Prelude.Sort.{sort}
use zero_comm.Prelude.Buffer.{encode_into, trim}
use zero_comm.Prelude.Base64.{encode, Alphabet, std}
use zero_comm.Domain.{Member}

-- json.Marshal on a list of members, and SHA-256
pub record Digest : Type 0 where
  pub marshal : List Member → Result Text
  pub sha256 : Text → Text

abbrev pub has_label : Text → Member → Bool
has_label l m = m.label == l

abbrev with_found : Option Member → List Member → List Member
with_found none ms = ms
with_found (some m) ms = m ∷ ms

-- the first member with each label
pick : List Member → List Text → List Member
pick grp [] = []
pick grp (l ∷ ls) = with_found (first (has_label l) grp) (pick grp ls)

abbrev pub labels : List Member → List Text
labels = map (λ m. m.label)

unfoldable pub order : List Member → List Member
unfolding pick
order grp = pick grp (sort (labels grp))

unfoldable pub calculate : Digest → List Member → Result Text
unfolding order encode_into trim encode
calculate d grp = do
  byts ← d.marshal (order grp)
  val ← encode_into (length byts) (encode std (d.sha256 byts))
  ok (trim val)

-- The map from a checksum to the members that reported it.
abbrev pub Buckets : Type 0
Buckets = Dict (List Text)

pub invert : Buckets → Dict Text → Buckets
unfolding lookup insert
invert mems [] = mems
invert mems ((membr, val) ∷ states) =
    invert (insert val (get_or (lookup val mems) [] ++ membr ∷ []) mems) states

pub least : ℕ → List Text → Buckets → ℕ × List Text
least deviated invalid [] = (deviated, invalid)
least deviated invalid ((val, membrs) ∷ mems) = elim (ltb (length membrs) deviated) [
  | true ↦ least (length membrs) membrs mems
  | false ↦ least deviated invalid mems
]

-- `range_mems` is the order in which the loop visits the map.
unfoldable pub verify : (Buckets → Buckets) → Dict Text → List Text × Bool
unfolding invert least
verify range_mems states =
    let (deviated, invalid) = least (length states) [] (range_mems (invert [] states)) in
    if eqb deviated (length states) then ([], true) else (invalid, false)

-- The map of checksums is the caller's: it comes back with the acceptor's entry.
unfoldable pub valid_join :
    Digest → (Buckets → Buckets) → Text → List Member → Dict Text → Result (Dict Text)
unfolding verify insert
valid_join d range_mems accptr joined grp_hashes = do
  joined_checksm ← calculate d joined
  let hashes = insert accptr joined_checksm grp_hashes
  if (verify range_mems hashes).1 then ok hashes else err inconsistent
