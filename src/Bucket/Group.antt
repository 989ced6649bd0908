-- ===== src/Bucket/Group.antt =====
-- Updates of a bucket form an abelian group of exponent two: their order does not matter, and
-- the same update twice is none.
use graph_zeppelin.Base.{◌≡◌, arith}
use graph_zeppelin.Base.Bits.Xor.{xor_comm, xor_assoc, xor_self, xor-zero, zero-xor, xor_left_comm}
use graph_zeppelin.Bucket.{Bucket, update, empty}

-- `a.alpha ^= b.alpha; a.gamma ^= b.gamma`, the body of each merge loop.
infixl 65 ◌⊕◌
abbrev pub ◌⊕◌ : Bucket → Bucket → Bucket
a ⊕ b = update a b.alpha b.gamma

pub ⊕_comm : (a b : Bucket) → a ⊕ b ≡ b ⊕ a
unfolding update
⊕_comm a b = ground (arith, xor_comm a.alpha b.alpha, xor_comm a.gamma b.gamma)

pub ⊕_assoc : (a b c : Bucket) → (a ⊕ b) ⊕ c ≡ a ⊕ (b ⊕ c)
unfolding update
⊕_assoc a b c = ground (arith, xor_assoc a.alpha b.alpha c.alpha, xor_assoc a.gamma b.gamma c.gamma)

pub ⊕_self : (a : Bucket) → a ⊕ a ≡ empty
unfolding update
⊕_self a = ground (arith, xor_self a.alpha, xor_self a.gamma)

pub ⊕-empty : (a : Bucket) → a ⊕ empty ≡ a
unfolding update
⊕-empty a = ground (arith, xor-zero a.alpha, xor-zero a.gamma)

pub empty-⊕ : (a : Bucket) → empty ⊕ a ≡ a
unfolding update
empty-⊕ a = ground (arith, zero-xor a.alpha, zero-xor a.gamma)

pub ⊕_left_comm : (a b c : Bucket) → a ⊕ (b ⊕ c) ≡ b ⊕ (a ⊕ c)
unfolding update
⊕_left_comm a b c =
    ground (arith, xor_left_comm a.alpha b.alpha c.alpha, xor_left_comm a.gamma b.gamma c.gamma)

pub ⊕_cancel : (a b : Bucket) → a ⊕ (a ⊕ b) ≡ b
⊕_cancel a b = ground (arith, ⊕_assoc a a b, ⊕_self a, empty-⊕ b)

pub ⊕_interchange : (a b c d : Bucket) → (a ⊕ b) ⊕ (c ⊕ d) ≡ (a ⊕ c) ⊕ (b ⊕ d)
⊕_interchange a b c d = ground (arith, ⊕_assoc a b (c ⊕ d), ⊕_assoc a c (b ⊕ d), ⊕_left_comm b c d)

pub ruleset bucket_group = (⊕_assoc, ⊕_self, ⊕-empty, empty-⊕)
