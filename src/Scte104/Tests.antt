-- ===== src/Scte104/Tests.antt =====
-- Tests of the model of common/scte104filtering.c, and its theorems at concrete filters.
use obe_rt.Base.{◌≡◌, refl, true, none, some, [], ◌∷◌, arith}
use obe_rt.Base.Int.{pos, negsuc}
use obe_rt.Scte104.{Filters, Message, add_filter, appends, collect, narrow, lookup_scte35_pids}
use obe_rt.Scte104.Route.{takes, lookup_scte35_pids-routes}

-- "pid = 56, AS_index = all, DPI_PID_index = 1", "pid = 57, AS_index = all, DPI_PID_index = 80"
abbrev documented : Filters
documented = record {
  count = 2;
  array =
      record { pid = 56; as_index = negsuc 0; dpi_pid_index = pos 1; message_count = 0 }
      ∷ record { pid = 57; as_index = negsuc 0; dpi_pid_index = pos 80; message_count = 0 }
      ∷ [];
}

abbrev message : Message
message = record { as_index = pos 4; dpi_pid_index = pos 80 }

lookup_documented : lookup_scte35_pids (λ n. true) documented message ≡ some (57 ∷ [], 1)
unfolding lookup_scte35_pids narrow collect appends
lookup_documented = refl

add_null : add_filter none 56 (pos 0) (pos 0) ≡ (negsuc 0, none)
unfolding add_filter
add_null = refl

lookup_scte35_pids-routes_example :
    lookup_scte35_pids (λ n. true) documented message ≡ some (57 ∷ [], 1)
unfolding takes
lookup_scte35_pids-routes_example =
    lookup_scte35_pids-routes (λ n. true) documented message (λ n. refl) (omega arith)
