-- ===== src/Sei/Latency.antt =====
-- The codec latency that the SEI payload carries.
use obe_rt.Base.{ℕ, ◌+◌, ◌<◌, ◌≤◌, ◌^◌, ◌≡◌, ap₂, ◌∙◌, some, List, arith}
use obe_rt.Base.Int.{ℤ, pos, ◌+ℤ◌, ◌-ℤ◌, ◌≤ℤ◌, ◌<ℤ◌, scale, int_laws}
use obe_rt.Timeval.{Timeval, timeval_subtract, timediff_to_msecs, timediff_to_usecs}
use obe_rt.Timeval.Laws.{msecs-timeval_subtract}
use obe_rt.Sei.{
  field_set, field_get, reads, to_u32, value_timeval_set, latency_of, query_codec_latency_ms,
}
use obe_rt.Sei.Fields.{Holds, IsField, field_get-field_set, field_set_refuses}

module _ (length_bytes : ℕ) where
  write : ℕ → ℕ → List ℕ → List ℕ
  write nr value buffer = (field_set buffer length_bytes nr value).1

  write-Holds :
      (nr value : ℕ) (buffer : List ℕ)
      → Holds buffer length_bytes
      → Holds (write nr value buffer) length_bytes
  unfolding write
  write-Holds nr value buffer h = omega (arith, (field_set_refuses buffer length_bytes nr value).2)

  -- What four writes to the fields 4 to 7 leave to be read there.
  four_fields :
      (buffer : List ℕ) (a b c d : ℕ)
      → Holds buffer length_bytes
      → (a < 2 ^ 32) × (b < 2 ^ 32) × (c < 2 ^ 32) × (d < 2 ^ 32)
      → let after = write 7 d (write 6 c (write 5 b (write 4 a buffer))) in
        (field_get after 4 ≡ reads a)
        × (field_get after 5 ≡ reads b)
        × (field_get after 6 ≡ reads c)
        × (field_get after 7 ≡ reads d)
  unfolding write
  four_fields buffer a b c d h s =
      let h₁ = write-Holds 4 a buffer h in
      let h₂ = write-Holds 5 b _ h₁ in
      let h₃ = write-Holds 6 c _ h₂ in
      let r₁ = λ (k : ℕ) (g : IsField k).
        field_get-field_set buffer length_bytes 4 k a h (omega arith) g s.0 in
      let r₂ = λ (k : ℕ) (g : IsField k).
        field_get-field_set _ length_bytes 5 k b h₁ (omega arith) g s.1 in
      let r₃ = λ (k : ℕ) (g : IsField k).
        field_get-field_set _ length_bytes 6 k c h₂ (omega arith) g s.2 in
      let r₄ = λ (k : ℕ) (g : IsField k).
        field_get-field_set _ length_bytes 7 k d h₃ (omega arith) g s.3 in
      (
        r₄ 4 (omega arith) ∙ (r₃ 4 (omega arith) ∙ (r₂ 4 (omega arith) ∙ r₁ 4 (omega arith))),
        r₄ 5 (omega arith) ∙ (r₃ 5 (omega arith) ∙ r₂ 5 (omega arith)),
        r₄ 6 (omega arith) ∙ r₃ 6 (omega arith),
        r₄ 7 (omega arith),
      )

to_u32_small : (n : ℕ) → n < 2 ^ 32 → to_u32 (pos n) ≡ n
unfolding to_u32
to_u32_small n h = omega arith

value_timeval_set-write :
    (buffer : List ℕ) (length_bytes nr s u : ℕ) (now : Timeval)
    → s < 2 ^ 32
    → u < 2 ^ 32
    → value_timeval_set buffer length_bytes nr
        (some (record { tv_sec = pos s; tv_usec = pos u }))
        now
      ≡ write length_bytes (nr + 1) u (write length_bytes nr s buffer)
unfolding value_timeval_set write
value_timeval_set-write buffer length_bytes nr s u now hs hu =
    ap₂ (λ a b. write length_bytes (nr + 1) b (write length_bytes nr a buffer)) (to_u32_small s hs)
      (to_u32_small u hu)

-- The latency that is read from a payload is the time between the two stamps that were written into
-- it: after the time of entry goes into value 4 and the time of exit into value 6, the query returns
-- their difference in milliseconds, rounded down, in whatever order they are. This holds for times
-- whose seconds fit 32 bits and whose microseconds are at most 2146483647.
pub query_codec_latency_ms-value_timeval_set :
    (buffer : List ℕ) (length_bytes bs bu es eu : ℕ) (now : Timeval)
    → Holds buffer length_bytes
    → (bs < 2 ^ 32) × (bu ≤ 2146483647) × (es < 2 ^ 32) × (eu ≤ 2146483647)
    → let begin : Timeval = record { tv_sec = pos bs; tv_usec = pos bu } in
      let end : Timeval = record { tv_sec = pos es; tv_usec = pos eu } in
      let entered = value_timeval_set buffer length_bytes 4 (some begin) now in
      let left = value_timeval_set entered length_bytes 6 (some end) now in
      (ms : ℤ) × (query_codec_latency_ms left ≡ some ms)
      × (scale 1000 ms ≤ℤ timediff_to_usecs end -ℤ timediff_to_usecs begin)
      × (timediff_to_usecs end -ℤ timediff_to_usecs begin <ℤ scale 1000 ms +ℤ pos 1000)
unfolding query_codec_latency_ms latency_of
query_codec_latency_ms-value_timeval_set buffer length_bytes bs bu es eu now h s =
    let begin : Timeval = record { tv_sec = pos bs; tv_usec = pos bu } in
    let end : Timeval = record { tv_sec = pos es; tv_usec = pos eu } in
    let r = four_fields length_bytes buffer bs bu es eu h (omega (arith, s)) in
    let rounded =
      msecs-timeval_subtract end begin (omega (arith, s)) (omega (arith, s))
        (omega (int_laws, s)) in
    (
      timediff_to_msecs (timeval_subtract end begin).0,
      rw
          (
            value_timeval_set-write buffer length_bytes 4 bs bu now s.0 (omega (arith, s)),
            value_timeval_set-write _ length_bytes 6 es eu now s.2 (omega (arith, s)),
          )
          (rw (r.0, r.1, r.2, r.3)),
      rounded.0,
      rounded.1,
    )
