-- ===== src/Tests/Digests.antt =====
-- A short digest, which stands for MD5.
use s3db.Base.{◌+◌, ◌%◌, ◌≤◌, ◌≡◌, ◌≢◌, Text, [], ◌∷◌, codes, length, arith}
use s3db.Etag.{normalize, quoted}
use s3db.Etag.Md5.{compute, AllBytes, IsDigest, compute_lem}

-- a sum in one byte
abbrev digest : Text → Text
digest [] = 17 ∷ []
digest (c ∷ s) = (c + length s) % 256 ∷ []

digest-some_bytes : (body : Text) → 1 ≤ length (digest body)
digest-some_bytes [] = omega arith
digest-some_bytes (c ∷ s) = omega arith

digest-AllBytes : (body : Text) → AllBytes (digest body)
digest-AllBytes [] = (omega arith, tt)
digest-AllBytes (c ∷ s) = (omega arith, tt)

digest-IsDigest : IsDigest digest
digest-IsDigest = record { some_bytes = digest-some_bytes; bytes = digest-AllBytes }

compute_lem_example :
    (compute digest (codes "ab") ≢ [])
    × (normalize (compute digest (codes "ab")) ≡ compute digest (codes "ab"))
    × (normalize (quoted (compute digest (codes "ab"))) ≡ compute digest (codes "ab"))
    × (compute digest (codes "ab") ≡ compute digest (codes "cd")
        → digest (codes "ab") ≡ digest (codes "cd"))
    × (digest (codes "ab") ≡ digest (codes "cd")
        → compute digest (codes "ab") ≡ compute digest (codes "cd"))
compute_lem_example = compute_lem digest (codes "ab") (codes "cd") digest-IsDigest
