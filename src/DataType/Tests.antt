-- ===== src/DataType/Tests.antt =====
-- src/common/vector_data_type.cc: the theorem on a vector of blocks of two bytes, four bytes apart.
use hecios.DataType.{
  DataType, basic, vector, calculate_strided_extent, to_i32, get_extent, get_regions_by_bytes,
}
use hecios.DataType.Loops.{vector_piece, vector_loop}
use hecios.DataType.Total.{IsExact}
use hecios.DataType.Strided.{IsStrided, get_regions_by_bytes-IsExact}
use hecios.Prelude.{[], ◌∷◌, some, ◌≡◌, refl, arith, add_u64, sub_u64, mul_u64, lt_i64}

abbrev pairs : DataType
pairs = vector 5 2 4 (basic 1)

program : Unit {0}
unfolding calculate_strided_extent to_i32 get_extent get_regions_by_bytes vector_piece vector_loop
    add_u64 sub_u64 mul_u64 lt_i64
program = tt

-- Five blocks span eighteen bytes; three bytes from the second of a block are its end and a block.
pairs_runs :
    (get_extent pairs ≡ 18)
    × (get_regions_by_bytes pairs 5 1 3
        ≡ some (record { offset = 1; extent = 1 } ∷ record { offset = 4; extent = 2 } ∷ []))
unfolding program
pairs_runs = (refl, refl)

pairs-IsStrided : IsStrided pairs 100 10
unfolding program
pairs-IsStrided = (omega arith, omega arith, omega arith, tt)

get_regions_by_bytes-IsExact_example : IsExact (get_regions_by_bytes pairs 12) 100 10
get_regions_by_bytes-IsExact_example =
    get_regions_by_bytes-IsExact pairs 12 100 10 pairs-IsStrided (omega arith) (omega arith)
