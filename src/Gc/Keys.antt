-- ===== src/Gc/Keys.antt =====
-- The keys of changesets, which `doUpdate` writes and `groupByEpoch` reads.
use s3db.Base.{
  Text, codes, slash, ◌≡◌, refl, ◌∙◌, ap, subst, true, some, [], ◌∷◌, ◌++◌, arith, has_prefix,
}
use s3db.Commit.{changeset_key}
use s3db.Gc.{epoch_of, epoch_prefix, changesets_prefix}
use s3db.Gc.Groups.{IsEpoch, epoch_of-under}

has_prefix_refl : (p s : Text) → has_prefix p (p ++ s) ≡ true
unfolding has_prefix
has_prefix_refl [] s = refl
has_prefix_refl (c ∷ p) s = ground (arith, has_prefix_refl p s)

append_assoc : (a b c : Text) → (a ++ b) ++ c ≡ a ++ (b ++ c)
append_assoc [] b c = refl
append_assoc (x ∷ a) b c = ap (λ t. x ∷ t) (append_assoc a b c)

changeset_key-eq :
    (prefix e uuid : Text)
    → epoch_prefix (changesets_prefix prefix) e ++ (codes "cs-" ++ (uuid ++ codes ".bin"))
      ≡ changeset_key prefix e uuid
changeset_key-eq prefix e uuid =
    append_assoc (changesets_prefix prefix) (e ++ slash ∷ []) _
    ∙ append_assoc prefix (codes "changesets/") _
    ∙ ap (λ t. prefix ++ (codes "changesets/" ++ t)) (append_assoc e (slash ∷ []) _)

-- `groupByEpoch` finds in the key of a changeset the epoch under which `doUpdate` stored it, for
-- every epoch that is not empty and has no slash.
pub epoch_of-changeset_key :
    (prefix e uuid : Text)
    → IsEpoch e
    → epoch_of (changesets_prefix prefix) (changeset_key prefix e uuid) ≡ some e
epoch_of-changeset_key prefix e uuid ie =
    epoch_of-under (changesets_prefix prefix) e (changeset_key prefix e uuid) ie (
      subst (λ k. has_prefix (epoch_prefix (changesets_prefix prefix) e) k ≡ true)
        (changeset_key-eq prefix e uuid)
        (has_prefix_refl (epoch_prefix (changesets_prefix prefix) e) _))
