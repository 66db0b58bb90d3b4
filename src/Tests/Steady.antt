-- ===== src/Tests/Steady.antt =====
-- The outside of the tests moves along `Later`.
use s3db.Blob.Shared.{World, Later, stay, turn, put, delete}
use s3db.Env.Kept.{KeptBy, IsSteady}
use s3db.Tests.Codec.{hash}
use s3db.Tests.Outside.{env}

env-KeptBy : (w : World hash) → KeptBy env (Later hash w)
env-KeptBy w = record {
  get = λ k. record { at = λ v h. turn h };
  get_range = λ k start end. record { at = λ v h. turn h };
  stat = λ k. record { at = λ v h. turn h };
  put = λ k body cond. record { at = λ v h. put _ k body cond (turn h) };
  delete = λ k. record { at = λ v h. delete _ k (turn h) };
  uuid = record { at = λ v h. h };
  pause = λ n. record { at = λ v h. h };
}

pub env-IsSteady : IsSteady env (Later hash)
env-IsSteady = record { stay = λ w. stay; from = env-KeptBy }
