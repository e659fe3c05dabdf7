-- ===== src/FlatIndex/Tests.antt =====
-- Three points in two dimensions, in hundredths.
use opencaw.Prelude.{ℕ, ◌≡◌, refl, List, [], ◌∷◌}
use opencaw.Prelude.Float.{hundredths, hundredths-IsIeee, always_num}
use opencaw.Prelude.Sort.{sort_by}
use opencaw.FlatIndex.{
  FlatVectorIndex, new_index, add_point, dot_loop, scored, closer, search_index,
}
use opencaw.FlatIndex.Nearest.{IsNearest, hit_of, search_index-IsNearest}

abbrev index : FlatVectorIndex ℕ
index =
    add_point "c" (60 ∷ 80 ∷ [])
      (add_point "b" (0 ∷ 100 ∷ []) (add_point "a" (100 ∷ 0 ∷ []) new_index))

abbrev query : List ℕ
query = 80 ∷ 60 ∷ []

index_lem : search_index query 2 index ≡ ("c", 96) ∷ ("a", 80) ∷ []
unfolding add_point new_index search_index scored dot_loop closer sort_by
index_lem = refl

search_index-IsNearest_example :
    IsNearest always_num hundredths-IsIeee query 2 index (hit_of query) (search_index query 2 index)
search_index-IsNearest_example = search_index-IsNearest always_num hundredths-IsIeee query 2 index
