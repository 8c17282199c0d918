-- ===== src/Mapping/Tests.antt =====
-- src/layout/data_type_layout.cc and src/layout/data_type_processor.cc: the theorems on small layouts.
use hecios.RegionSet.{FileRegion}
use hecios.Layout.Stripe.{Stripe, stripe_distribution}
use hecios.Layout.Stripe.Round.{IsSound}
use hecios.DataType.Total.{total}
use hecios.Mapping.FileLayout.{get_sub_regions}
use hecios.Mapping.FileLayout.SubRegions.{get_sub_regions-total}
use hecios.Mapping.Processor.{distribute_contiguous_region}
use hecios.Mapping.Processor.Extent.{
  stripe_distribution-IsProgressive, distribute_contiguous_region-returns,
}
use hecios.Prelude.{true, List, [], ◌∷◌, some, ◌≡◌, arith}

abbrev two_pieces : List FileRegion
two_pieces = record { offset = 0; extent = 10 } ∷ record { offset = 40; extent = 20 } ∷ []

abbrev three_objects : Stripe
three_objects = record { server_idx = 1; num_servers = 3; strip_size = 10 }

second_object : IsSound three_objects 1
second_object = record { has_object = omega arith; positive = omega arith; fits = omega arith }

get_sub_regions-total_example :
    (regions : List FileRegion) × (get_sub_regions two_pieces 4 15 ≡ some regions)
    × (total regions ≡ 15)
get_sub_regions-total_example =
    get_sub_regions-total two_pieces 4 15 (omega arith) (omega arith) (omega arith)

distribute_contiguous_region-returns_example :
    (after : List FileRegion) × (distribute_contiguous_region
        (stripe_distribution three_objects)
        25
        70
        0
        true
        71
        []
      ≡ some after)
distribute_contiguous_region-returns_example =
    distribute_contiguous_region-returns (stripe_distribution three_objects) 1000 1031
      (stripe_distribution-IsProgressive three_objects 1000 second_object (omega arith)) 0 true 25
      70 71 [] (omega arith) (omega arith) (omega arith)
