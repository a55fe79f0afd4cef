-- ===== src/Grid/Tests.antt =====
-- The grid of six ranks: two columns and three full rows; with seven ranks the last row has one rank.
use mping.Prelude.{ℕ, ◌≡◌, refl, List, [], ◌∷◌, map, some, exclusive_scan, arith}
use mping.Buckets.{buckets_from, sizes_from}
use mping.Collectives.{out, resize_to_fit}
use mping.Grid.{num_columns, get_destination_in_colwise_exchange, Split, route}
use mping.Grid.Members.{members}
use mping.Grid.Sqrt.{floor_sqrt, ceil_sqrt}
use mping.Grid.Routing.{route-destination}
use mping.Grid.Exchange.{Envelope, SourceEnvelope, post_process}
use mping.Grid.Exchange.Received.{post_process-ordered}

-- `MPI_Comm_split` by its documentation.
abbrev split_now : Split
split_now color size rank = members color (color rank) size

route-destination_example : route split_now 7 6 3 ≡ some 3
route-destination_example =
    route-destination split_now 7 6 3 (λ color size rank h. refl) (omega arith) (omega arith)

abbrev no_message : Envelope ℕ
no_message = record { source = 0; destination = 0; payload = 0 }

columns_of_four : num_columns 4 ≡ 2
unfolding num_columns floor_sqrt ceil_sqrt
columns_of_four = refl

-- Rank 0 of four sends one element to rank 1 and two elements to rank 3.
-- Two elements that rank 0's row has brought to rank 1, for the ranks 3 and 1.
abbrev brought : List (Envelope ℕ)
brought =
    record { source = 0; destination = 3; payload = 8 }
    ∷ record { source = 1; destination = 1; payload = 5 }
    ∷ []

rows_of_four :
    (get_destination_in_colwise_exchange 4 3 ≡ 1) × (get_destination_in_colwise_exchange 4 1 ≡ 0)
unfolding num_columns floor_sqrt ceil_sqrt get_destination_in_colwise_exchange
rows_of_four = (refl, refl)

abbrev arrived : List (SourceEnvelope ℕ)
arrived =
    record { get_source = 1; get_payload = 5 } ∷ record { get_source = 0; get_payload = 8 } ∷ []

post_process-ordered_example :
    post_process 2 (out resize_to_fit []) (out resize_to_fit []) resize_to_fit 0 [] arrived
    ≡ some (record {
      recv_buf = map (λ e. e.get_payload) (buckets_from (λ e. e.get_source) 0 2 arrived);
      recv_counts = sizes_from (λ e. e.get_source) 0 2 arrived;
      recv_displs = exclusive_scan 0 (sizes_from (λ e. e.get_source) 0 2 arrived);
    })
post_process-ordered_example =
    post_process-ordered 2 0 arrived (omega arith) (omega arith, (omega arith, tt))
