-- ===== src/Sketch/Stream.antt =====
-- The two update functions of a sketch on a stream of updates.
use graph_zeppelin.Base.{ℕ, ◌≡◌, List}
use graph_zeppelin.Bucket.{Hashes}
use graph_zeppelin.Sketch.{Sketch, update, update_cube, zero_contents, merge}
use graph_zeppelin.Sketch.Batch.{update_all, update_all_of_vector, merge-update_all}
use graph_zeppelin.Sketch.Linear.{shape, update-IsLinear, update_cube-IsLinear}
use graph_zeppelin.Sketch.Valid.{IsValid}
use graph_zeppelin.Sketch.Vector.{bit_of}

-- A well-formed sketch depends on the vector over GF(2) alone: two streams of updates in which
-- every index occurs with the same parity leave it in the same state, whether the sketch updates
-- as CameoSketch or as CubeSketch.
pub updates_of_vector :
    (h : Hashes) (s : Sketch) (xs ys : List ℕ)
    → IsValid s
    → ((a : ℕ) → bit_of a xs ≡ bit_of a ys)
    → (update_all (update h) s xs ≡ update_all (update h) s ys)
      × (update_all (update_cube h) s xs ≡ update_all (update_cube h) s ys)
updates_of_vector h s xs ys v same = (
  update_all_of_vector (update h) (update-IsLinear h) s xs ys v same,
  update_all_of_vector (update_cube h) (update_cube-IsLinear h) s xs ys v same,
)

-- A well-formed delta sketch that is zeroed, takes a stream of updates and is merged into a
-- well-formed sketch of the same shape does what the updates would have done there one by one,
-- for both update functions.
pub merge-updates :
    (h : Hashes) (s d : Sketch) (xs : List ℕ)
    → IsValid s
    → IsValid d
    → shape s ≡ shape d
    → (merge s (update_all (update h) (zero_contents d) xs) ≡ update_all (update h) s xs)
      × (merge s (update_all (update_cube h) (zero_contents d) xs)
          ≡ update_all (update_cube h) s xs)
merge-updates h s d xs v w e = (
  merge-update_all (update h) (update-IsLinear h) s d xs v w e,
  merge-update_all (update_cube h) (update_cube-IsLinear h) s d xs v w e,
)
