-- ===== src/Conflict/Fingerprint.antt =====
-- `ConflictFingerprintFor` and `ConflictFingerprint` of internal/entity/conflict.go. SHA-256 with
-- its hex encoding is the parameter `sha256_hex`.
use maintmode.Base.{
  ℕ, zero, suc, ◌+◌, ◌/◌, ◌%◌, String, false, List, [], ◌∷◌, ◌++◌, map, if◌then◌else◌, filter,
  contains, compare, Ordering, ltb,
}
use Prim.Native.Char.{code}
use maintmode.Base.Sorting.{sort_func}
use maintmode.Entity.Maint.{MaintenanceScope, global, resources, ℤ, pos, negsuc, sub_ℕ}
use maintmode.Entity.Conflict.{ConflictWithResources}

-- The bytes of an ASCII text.
abbrev codes : String → List ℕ
codes String.[] = []
codes (String.◌∷◌ c s) = code c ∷ codes s

-- The `n` low bytes of a number, the highest first; a UUID has 16.
abbrev bytes_of : ℕ → ℕ → List ℕ
bytes_of zero x = []
bytes_of (suc n) x = bytes_of n (x / 256) ++ x % 256 ∷ []

-- The decimal digits of a number below 10 ^ fuel, as ASCII.
abbrev decimal_from : ℕ → ℕ → List ℕ → List ℕ
decimal_from zero n rest = rest
decimal_from (suc fuel) n rest =
    let digit = b'0' + n % 10 in
    let more = decimal_from fuel (n / 10) (digit ∷ rest) in if ltb n 10 then digit ∷ rest else more

-- `strconv.AppendInt(…, 10)` of an int64, which has at most 19 digits.
unfoldable pub append_int : ℤ → List ℕ
append_int (pos n) = decimal_from 20 n []
append_int (negsuc n) = b'-' ∷ decimal_from 20 (suc n) []

-- `t.UTC().Truncate(time.Second).Unix()`
abbrev unix_seconds : ℕ → ℤ
unix_seconds t = sub_ℕ (t / 1_000_000) 62_135_596_800

abbrev scope_text : MaintenanceScope → String
scope_text global = "global"
scope_text resources = "resource"

-- `strings.Compare` of the two scopes: "global" comes before "resource".
abbrev compare_scope : MaintenanceScope → MaintenanceScope → Ordering
compare_scope global resources = Ordering.lt
compare_scope resources global = Ordering.gt
compare_scope _ _ = Ordering.eq

abbrev pub and_then : Ordering → Ordering → Ordering
and_then Ordering.eq o = o
and_then o _ = o

-- The comparison of the first `slices.SortFunc`.
unfoldable pub compare_conflicts : ConflictWithResources → ConflictWithResources → Ordering
compare_conflicts c d = and_then (compare c.maintenance_id d.maintenance_id) (
    and_then (compare c.overlap_start d.overlap_start)
      (and_then (compare c.overlap_end d.overlap_end) (compare_scope c.scope d.scope)))

-- `SortResources`
unfoldable pub sort_resources : List ℕ → List ℕ
unfolding sort_func
sort_resources ids = sort_func compare ids

unfoldable pub conflict_resources_fingerprint : List ℕ → List ℕ
conflict_resources_fingerprint [] = []
conflict_resources_fingerprint (id ∷ ids) =
    codes "id=" ++ (bytes_of 16 id ++ conflict_resources_fingerprint ids)

-- The bytes that the loop appends for one conflict.
unfoldable pub conflict_bytes : ConflictWithResources → List ℕ
unfolding append_int sort_resources conflict_resources_fingerprint
conflict_bytes c =
    codes "maintenance_id="
    ++ (bytes_of 16 c.maintenance_id
        ++ (codes "scope="
            ++ (codes (scope_text c.scope)
                ++ (codes "overlap_start="
                    ++ (append_int (unix_seconds c.overlap_start)
                        ++ (codes "overlap_end="
                            ++ (append_int (unix_seconds c.overlap_end)
                                ++ (codes "resources="
                                    ++ conflict_resources_fingerprint
                                        (sort_resources c.resources)))))))))

unfoldable pub conflicts_bytes : List ConflictWithResources → List ℕ
unfolding conflict_bytes
conflicts_bytes [] = []
conflicts_bytes (c ∷ cs) = conflict_bytes c ++ conflicts_bytes cs

-- The buffer that is hashed.
unfoldable pub fingerprint_buffer : List ConflictWithResources → List ℕ
unfolding conflicts_bytes sort_func compare_conflicts
fingerprint_buffer [] = codes "EMPTY_CONFLICT_SET"
fingerprint_buffer (c ∷ cs) = conflicts_bytes (sort_func compare_conflicts (c ∷ cs))

-- A conflict with only the resources of `own`, and with the read-side flag left false.
unfoldable pub project : List ℕ → ConflictWithResources → ConflictWithResources
project own c = record {
  conflict = c.conflict;
  resources = filter (λ id. contains id own) c.resources;
  known_at_approval = false;
}

module _ (sha256_hex : List ℕ → String) where
  unfoldable pub conflict_fingerprint : List ConflictWithResources → String
  unfolding fingerprint_buffer
  conflict_fingerprint conflicts = sha256_hex (fingerprint_buffer conflicts)

  unfoldable pub conflict_fingerprint_for : List ConflictWithResources → List ℕ → String
  unfolding conflict_fingerprint project
  conflict_fingerprint_for conflicts own = conflict_fingerprint (map (project own) conflicts)
