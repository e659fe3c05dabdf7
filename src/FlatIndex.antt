-- ===== src/FlatIndex.antt =====
-- `FlatVectorIndex` of crates/caw-index/src/flat_index.rs. The sum of an iterator starts at zero.
pub mod Nearest
pub mod Tests
use opencaw.Prelude.{
  ℕ, Bool, ◌||◌, String, List, [], ◌∷◌, ◌++◌, map, ◌==◌, if◌then◌else◌, length, take,
}
use opencaw.Prelude.Float.{Float}
use opencaw.Prelude.Sort.{sort_by}

pub record FlatVectorIndex (F : Type 0) : Type 0 where
  pub points : List (String × List F)

module _ {F : Type 0} ⦃fl : Float F⦄ where
  pub new_index : FlatVectorIndex F
  new_index = record { points = [] }

  pub add_point : String → List F → FlatVectorIndex F → FlatVectorIndex F
  add_point id embedding self = record { points = self.points ++ ((id, embedding) ∷ []) }

  -- `zip` ends with the shorter of the two.
  pub dot_loop : F → List F → List F → F
  dot_loop sum [] query = sum
  dot_loop sum (a ∷ emb) [] = sum
  dot_loop sum (a ∷ emb) (b ∷ query) = dot_loop (fl.add sum (fl.mul a b)) emb query

  pub scored : List F → String × List F → String × F
  unfolding dot_loop
  scored query (id, emb) = (id, dot_loop (fl.lit 0 1) emb query)

  -- `b.1.total_cmp(&a.1)` is not `Greater`.
  pub closer : String × F → String × F → Bool
  closer a b = fl.total_le b.1 a.1

  pub search_index : List F → ℕ → FlatVectorIndex F → List (String × F)
  unfolding scored closer
  search_index query top_k self =
      if (length self.points == 0) || (top_k == 0)
      then []
      else take top_k (sort_by closer (map {B = String × F} (scored query) self.points))
