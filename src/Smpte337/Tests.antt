-- ===== src/Smpte337/Tests.antt =====
-- Tests of the model of smpte337_detector2.c, and its theorems at concrete streams.
use obe_rt.Base.{ℕ, ◌≡◌, refl, true, some, List, [], ◌∷◌, ◌++◌, arith}
use obe_rt.Base.Int.{pos, ◌+ℤ◌}
use obe_rt.Smpte337.{
  Avfm, Item, Detector, Delivered, list_peek, peek_items, from_items, copy_all, consume, unread,
  spent, overspent, run_detector, enter, detect, detect_round, look, read_burst, deliver, follow,
  prepend, corrected, burst_of, is_sync, is_ac3, payload_bits, timing,
}
use obe_rt.Smpte337.Stream.{stream, bytes, IsValid, AllRead}
use obe_rt.Smpte337.Scan.{Scans, Scanned, bursts, run_detector-Scans}
use obe_rt.Smpte337.Delivery.{burst, run_detector-burst}
use obe_rt.Smpte337.Write.{write, frame_bytes, span_bytes, refuses, write-Scans}

abbrev stamp : Avfm
stamp = record { audio_pts = pos 5400; audio_pts_corrected = pos 0 }

abbrev payload : List ℕ
payload = 11 ∷ 119 ∷ 1 ∷ 2 ∷ 3 ∷ 4 ∷ 5 ∷ 6 ∷ []

abbrev item : List ℕ → Item
item bs = record { avfm = stamp; ptr = bs; maxlen = 16384; readpos = 0 }

abbrev behind : Detector
behind = record { item_list = item (7 ∷ []) ∷ []; item_list_total_bytes = 1 }

-- One burst and one byte, in two buffers and in one.
abbrev in_two : Detector
in_two = record {
  item_list =
      item (0xf8 ∷ 0x72 ∷ 0x4e ∷ [])
      ∷ item (0x1f ∷ 0 ∷ 1 ∷ 0 ∷ 64 ∷ 11 ∷ 119 ∷ 1 ∷ 2 ∷ 3 ∷ 4 ∷ 5 ∷ 6 ∷ 7 ∷ [])
      ∷ [];
  item_list_total_bytes = 17;
}

abbrev in_one : Detector
in_one = record {
  item_list =
      item (0xf8 ∷ 0x72 ∷ 0x4e ∷ 0x1f ∷ 0 ∷ 1 ∷ 0 ∷ 64 ∷ 11 ∷ 119 ∷ 1 ∷ 2 ∷ 3 ∷ 4 ∷ 5 ∷ 6 ∷ 7 ∷ [])
      ∷ [];
  item_list_total_bytes = 17;
}

in_two-IsValid : IsValid in_two
unfolding stream AllRead
in_two-IsValid = record { items = (omega arith, (omega arith, omega arith)); counted = refl }

in_one-IsValid : IsValid in_one
unfolding stream AllRead
in_one-IsValid = record { items = (omega arith, omega arith); counted = refl }

behind-IsValid : IsValid behind
unfolding stream AllRead
behind-IsValid = record { items = (omega arith, omega arith); counted = refl }

run_detector-Scans_example :
    Scanned (λ n. pos n) (λ n. true) in_two (run_detector (λ n. pos n) (λ n. true) in_two)
run_detector-Scans_example =
    run_detector-Scans (λ n. pos n) (λ n. true) in_two (λ n. refl) in_two-IsValid

run_detector-burst_example :
    (ds₁ ds₂ : List Delivered) × (ctx₁' ctx₂' : Detector) × (run_detector
        (λ n. pos n)
        (λ n. true)
        in_two
      ≡ some (ds₁, ctx₁'))
    × (run_detector (λ n. pos n) (λ n. true) behind ≡ some (ds₂, ctx₂'))
    × (bursts ds₁ ≡ burst 1 0 64 payload ∷ bursts ds₂)
    × (bytes ctx₁' ≡ bytes ctx₂')
unfolding stream
run_detector-burst_example =
    run_detector-burst (λ n. pos n) (λ n. true) in_two behind 0 1 0 64 payload (λ n. refl)
      in_two-IsValid behind-IsValid refl refl (omega arith) refl

write-Scans_example :
    (ds : List Delivered) × (ctx' : Detector) × (write
        (λ n. pos n)
        (λ n. true)
        behind
        (some (0 ∷ 0 ∷ 0x72 ∷ 0xf8 ∷ 0 ∷ 0 ∷ 0x1f ∷ 0x4e ∷ []))
        1
        32
        2
        8
        2
        stamp
      ≡ some (4, ds, ctx'))
    × Scans (7 ∷ 0xf8 ∷ 0x72 ∷ 0x4e ∷ 0x1f ∷ []) (bursts ds) (bytes ctx')
    × IsValid ctx'
unfolding stream frame_bytes span_bytes refuses
write-Scans_example =
    write-Scans (λ n. pos n) (λ n. true) behind (0 ∷ 0 ∷ 0x72 ∷ 0xf8 ∷ 0 ∷ 0 ∷ 0x1f ∷ 0x4e ∷ []) 0 2
      8 2 stamp (λ n. refl) behind-IsValid refl (omega arith) (omega arith)

-- The burst is delivered with its time, seven bytes of it in the second buffer.
run_in_two :
    run_detector (λ n. pos n) (λ n. true) in_two
    ≡ some (
      record {
        burst = burst 1 0 64 payload;
        avfm = record stamp { audio_pts_corrected = pos 5400 };
      }
          ∷ [],
      record {
        item_list = record (item (0x1f ∷ 0 ∷ 1 ∷ 0 ∷ 64 ∷ payload ++ 7 ∷ [])) { readpos = 13 } ∷ [];
        item_list_total_bytes = 1;
      },
    )
unfolding run_detector enter detect detect_round look read_burst deliver follow prepend list_peek
    peek_items from_items copy_all consume unread spent overspent corrected burst_of is_sync is_ac3
    payload_bits timing ◌+ℤ◌
run_in_two = refl
