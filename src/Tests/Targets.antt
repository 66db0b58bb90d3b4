-- ===== src/Tests/Targets.antt =====
-- Targets as commands are given them.
use s3db.Base.{
  pos, negsuc, codes, has_suffix, has_prefix, ℕ_discrete, int_dec, ◌≡◌, refl, true, false, Text, [],
}
use s3db.Errors.{bad_target, external}
use s3db.Result.{ok, err}
use s3db.Cli.{Target, show_target, parse_s3_url, parse_target, expected_seq}
use s3db.Cli.Targets.{parse_s3_url-show_target}

abbrev given : Text
given = codes "s3://b/x/y"

abbrev read : Target
read = record { bucket = codes "b"; prefix = codes "x/y/" }

given-ok : parse_s3_url given ≡ ok read
unfolding parse_s3_url has_suffix has_prefix ℕ_discrete
given-ok = refl

-- A bucket's root is refused.
root_refused : parse_s3_url (codes "s3://b/") ≡ err bad_target
unfolding parse_s3_url has_suffix has_prefix ℕ_discrete
root_refused = refl

flags :
    parse_target [] (codes "b") (codes "x")
    ≡ ok (record { bucket = codes "b"; prefix = codes "x/" })
unfolding parse_target has_suffix has_prefix ℕ_discrete
flags = refl

-- Without a sidecar file, `-create` expects the number 0.
created_seq : expected_seq (negsuc 1) false true (err (external 2)) (λ t. ok (pos 5)) ≡ ok (pos 0)
unfolding expected_seq int_dec ℕ_discrete
created_seq = refl

parse_s3_url-show_target_example :
    (has_suffix (codes "/") read.prefix ≡ true) × (parse_s3_url (show_target read) ≡ ok read)
parse_s3_url-show_target_example = parse_s3_url-show_target given read given-ok
