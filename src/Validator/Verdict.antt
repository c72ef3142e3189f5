-- ===== src/Validator/Verdict.antt =====
-- The verdict of `Verify` and `ValidJoin` of pubsub/validator/init.go.
use mathlib.Core.List.{Permᴰ}
use mathlib.Core.List.Permᴰ
use zero_comm.Prelude.{
  Text, List, [], ◌≡◌, ◌≢◌, ◌≤◌, ◌<◌, ◌⊎◌, inl, inr, ap, ◌∙◌, arith, All, All-perm, All-map, length,
  true, false, ◌↔◌,
}
use zero_comm.Prelude.Dict.{Dict, All-lookup}
use zero_comm.Validator.{Buckets, invert, least, verify}
use zero_comm.Validator.Majority.{
  reporters, IsBucket, IsLeast, inverted_entries, reported_bucket, least_lem, All-report,
  reporters_of_All, each_reported, reported_entry,
}

-- All members report one checksum.
abbrev pub Agree : Dict Text → Type 0
Agree s = All (λ e. All (λ f. f.1 ≡ e.1) s) s

module _ (range_mems : Buckets → Buckets) (covers : (m : Buckets) → Permᴰ m (range_mems m)) where
  -- What holds of all buckets in any order holds of the reporters of each reported checksum.
  of_buckets :
      (P : Text × List Text → Type 0) (s : Dict Text)
      → All P (range_mems (invert [] s))
      → (v : Text) → reporters v s ≢ []
      → P (v, reporters v s)
  of_buckets P s h v k =
      All-lookup P (invert [] s) v (reporters v s) (All-perm P (Permᴰ.symm (covers _)) h)
        (reported_bucket s v k)

  smallest :
      (s : Dict Text)
      → IsLeast
          (IsBucket s)
          (length s)
          []
          (range_mems (invert [] s))
          (least (length s) [] (range_mems (invert [] s)))
  smallest s =
      least_lem (IsBucket s) (length s) [] (range_mems (invert [] s))
        (All-perm _ (covers _) (inverted_entries s))

  Agree-of_verify : (s : Dict Text) → (verify range_mems s).1 ≡ true → Agree s
  unfolding verify
  Agree-of_verify s h =
      All-map _ _ s
        (λ e k.
          All-report e.1 s
            (ground (arith, of_buckets _ s (smallest s).bound e.1 k, (smallest s).below)))
        (each_reported s)

  verify_of_Agree : (s : Dict Text) → Agree s → (verify range_mems s).1 ≡ true
  unfolding verify
  verify_of_Agree s h = verdict (smallest s).origin
    where
      verdict :
          (least (length s) [] (range_mems (invert [] s)) ≡ (length s, []))
            ⊎ (((least (length s) [] (range_mems (invert [] s))).0 < length s)
                × ((least (length s) [] (range_mems (invert [] s))).0
                    ≡ length (least (length s) [] (range_mems (invert [] s))).1)
                × ((v : Text) × IsBucket s (v, (least (length s) [] (range_mems (invert [] s))).1)))
          → (verify range_mems s).1 ≡ true
      verdict (inl e) = ground arith
      verdict (inr (lt, e, (v, (eq, full)))) =
          let all = reported_entry (λ u. All (λ f. f.1 ≡ u) s) v s h (λ q. full (eq ∙ q)) in
          absurd (omega (arith, ap length eq, reporters_of_All v s all))

  -- `Verify` accepts the states exactly when all members report one checksum.
  pub verify_iff : (s : Dict Text) → ((verify range_mems s).1 ≡ true) ↔ Agree s
  verify_iff s = (Agree-of_verify s, verify_of_Agree s)

  -- Otherwise it returns all the members with some reported checksum, which are not all members,
  -- and no reported checksum has fewer members.
  pub verify_deviated :
      (s : Dict Text)
      → (verify range_mems s).1 ≡ false
      → (v : Text) × ((verify range_mems s).0 ≡ reporters v s)
        × (reporters v s ≢ [])
        × (length (reporters v s) < length s)
        × ((w : Text) → reporters w s ≢ [] → length (reporters v s) ≤ length (reporters w s))
  unfolding verify
  verify_deviated s h = deviated (smallest s).origin
    where
      deviated :
          (least (length s) [] (range_mems (invert [] s)) ≡ (length s, []))
            ⊎ (((least (length s) [] (range_mems (invert [] s))).0 < length s)
                × ((least (length s) [] (range_mems (invert [] s))).0
                    ≡ length (least (length s) [] (range_mems (invert [] s))).1)
                × ((v : Text) × IsBucket s (v, (least (length s) [] (range_mems (invert [] s))).1)))
          → (v : Text) × ((verify range_mems s).0 ≡ reporters v s)
            × (reporters v s ≢ [])
            × (length (reporters v s) < length s)
            × ((w : Text) → reporters w s ≢ [] → length (reporters v s) ≤ length (reporters w s))
      deviated (inl e) = ground arith
      deviated (inr (lt, e, (v, (eq, full)))) = (
        v,
        ground arith,
        (λ q. full (eq ∙ q)),
        omega (arith, ap length eq),
        λ w k. omega (arith, ap length eq, of_buckets _ s (smallest s).bound w k),
      )
