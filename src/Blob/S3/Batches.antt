-- ===== src/Blob/S3/Batches.antt =====
-- The batches of a deletion in the S3 store.
use s3db.Base.{
  ℕ, zero, suc, ◌+◌, ◌-◌, ◌≤◌, ◌<◌, ◌≡◌, sym, ◌∙◌, subst, Text, List, ◌++◌, length, drop, get_elem?,
  some, arith, ltb, Bool-cases, inl, inr,
}
use s3db.Base.Lists.{
  flatten, length-take_lem, take-ne_nil, length-drop, take-drop, drop-drop, drop_all,
}
use s3db.Blob.S3.{batches, batch_at, batch_end, batch_size}

-- A round takes the keys up to where the next one begins.
batch_at-drop :
    (i : ℕ) (keys : List Text)
    → i < length keys
    → batch_at i keys ++ drop (i + batch_size) keys ≡ drop i keys
batch_at-drop i keys h = elim (Bool-cases (ltb (length keys) (i + batch_size))) [
  | inl last ↦
      let n = length keys - i in
      let all : length (drop i keys) ≡ n = length-drop i keys in
      let end : drop (i + batch_size) keys ≡ drop n (drop i keys) =
        drop_all _ keys (ground (arith, last))
        ∙ sym (drop_all n (drop i keys) (omega (arith, all))) in
      rw (last, end) (take-drop n (drop i keys))
  | inr more ↦
      let size : (i + batch_size) - i ≡ batch_size = omega arith in
      rw (more, size, sym (drop-drop i batch_size keys)) (take-drop batch_size (drop i keys))
]

batches-flatten :
    (n i : ℕ) (keys : List Text) → length keys ≤ i + n → flatten (batches n i keys) ≡ drop i keys
unfolding batches
batches-flatten zero i keys h = sym (drop_all i keys (omega (arith, h)))
batches-flatten (suc n) i keys h = elim (Bool-cases (ltb i (length keys))) [
  | inl on ↦
      let rest = batches-flatten n (i + batch_size) keys (omega (arith, h)) in
      rw (on, rest) (batch_at-drop i keys (ground (arith, on)))
  | inr off ↦ rw off (sym (drop_all i keys (ground (arith, off))))
]

batch_at-size :
    (i : ℕ) (keys : List Text)
    → i < length keys
    → (1 ≤ length (batch_at i keys)) × (length (batch_at i keys) ≤ batch_size)
batch_at-size i keys h =
    let all : length (drop i keys) ≡ length keys - i = length-drop i keys in
    let n = batch_end i keys - i in
    let small : (1 ≤ n) × (n ≤ batch_size) = ground (arith, h) in
    let (below, _) = length-take_lem n (drop i keys) in
    (take-ne_nil n (drop i keys) small.0 (omega (arith, all, h)), omega (arith, below, small.1))

batches-size :
    (n i : ℕ) (keys : List Text) (j : ℕ) (batch : List Text)
    → get_elem? (batches n i keys) j ≡ some batch
    → (1 ≤ length batch) × (length batch ≤ batch_size)
unfolding batches
batches-size zero i keys j batch h = cc
batches-size (suc n) i keys zero batch h = elim (Bool-cases (ltb i (length keys))) [
  | inl on ↦
      let first : some (batch_at i keys) ≡ some batch = rw on at h in
      let same : batch_at i keys ≡ batch = cc first in
      subst (λ b. (1 ≤ length b) × (length b ≤ batch_size)) same
        (batch_at-size i keys (ground (arith, on)))
  | inr off ↦ cc (rw off at h)
]
batches-size (suc n) i keys (suc j) batch h = elim (Bool-cases (ltb i (length keys))) [
  | inl on ↦ batches-size n (i + batch_size) keys j batch (rw on at h)
  | inr off ↦ cc (rw off at h)
]

-- `DeletePrefix` asks for the deletion of exactly the listed keys, in their order, each once, by
-- requests of at least one and at most 1000 keys.
pub batches-exact :
    (keys : List Text)
    → (flatten (batches (length keys) 0 keys) ≡ keys)
      × ((j : ℕ) (batch : List Text)
          → get_elem? (batches (length keys) 0 keys) j ≡ some batch
          → (1 ≤ length batch) × (length batch ≤ 1000))
batches-exact keys =
    (batches-flatten (length keys) 0 keys (omega arith), batches-size (length keys) 0 keys)
