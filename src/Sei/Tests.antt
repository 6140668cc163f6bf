-- ===== src/Sei/Tests.antt =====
-- Tests of the model of encoders/video/sei-timestamp.c, and its theorems at concrete payloads.
use obe_rt.Base.{ℕ, ◌≡◌, refl, some, List, ◌∷◌, ◌++◌, arith, replicate}
use obe_rt.Base.Int.{ℤ, pos, ◌+ℤ◌, ◌-ℤ◌, ◌≤ℤ◌, ◌<ℤ◌, scale}
use obe_rt.Base.Copy.{splice}
use obe_rt.Timeval.{Timeval, timediff_to_usecs}
use obe_rt.Sei.{
  init, field_set, out_of_bounds, from_bytes, field_get, starts_with, find_from, uuid_find,
  value_timeval_set, query_codec_latency_ms,
}
use obe_rt.Sei.Latency.{query_codec_latency_ms-value_timeval_set}

abbrev blank : List ℕ
blank = replicate 80 7

stored :
    (field_set blank 80 2 0x12345678).1
    ≡ replicate 22 7 ++ 0x12 ∷ 0x34 ∷ 0x81 ∷ 0x56 ∷ 0x78 ∷ 0x81 ∷ replicate 52 7
unfolding field_set splice
stored = refl

-- A read does not look at the length: a short buffer is read past its end.
short_read : field_get (replicate 20 0) 1 ≡ out_of_bounds
unfolding field_get from_bytes
short_read = refl

found_in_payload : uuid_find (5 ∷ (init blank 80).1) 81 ≡ some 1
unfolding uuid_find find_from starts_with init splice
found_in_payload = refl

abbrev noon : Timeval
noon = record { tv_sec = pos 0; tv_usec = pos 0 }

query_codec_latency_ms-value_timeval_set_example :
    let begin : Timeval = record { tv_sec = pos 1000; tv_usec = pos 900000 } in
    let end : Timeval = record { tv_sec = pos 1001; tv_usec = pos 100999 } in
    (ms : ℤ) × (query_codec_latency_ms
        (value_timeval_set (value_timeval_set blank 80 4 (some begin) noon) 80 6 (some end) noon)
      ≡ some ms)
    × (scale 1000 ms ≤ℤ timediff_to_usecs end -ℤ timediff_to_usecs begin)
    × (timediff_to_usecs end -ℤ timediff_to_usecs begin <ℤ scale 1000 ms +ℤ pos 1000)
query_codec_latency_ms-value_timeval_set_example =
    query_codec_latency_ms-value_timeval_set blank 80 1000 900000 1001 100999 noon (omega arith)
      (omega arith)
