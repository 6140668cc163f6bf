-- ===== src/UserData/Tests.antt =====
-- The theorems on user data with a writer and a reader of lists of bits.
use obe_rt.Base.{
  ℕ, zero, suc, ◌+◌, ◌*◌, ◌/◌, ◌%◌, ◌^◌, ◌<◌, ◌≤◌, ◌≡◌, ◌⊎◌, inl, refl, sym, ap, ◌∙◌, Bool, true,
  false, some, List, [], ◌∷◌, ◌++◌, length, drop, arith, drop-append_exact, length-drop,
}
use native.Mathlib.Nat.{div-eq_of_lt}
use obe_rt.Base.Bits.{halve}
use obe_rt.Base.Int.{pos, negsuc}
use obe_rt.UserData.{
  UserItem, RawFrame, BitWriter, BitReader, byte_at, replace_data, write_identifier,
  write_itu_t_codes,
}
use obe_rt.UserData.Bits.{
  all_bytes-AllBytes, to_bits, unpack, unpack-append, AllBytes, WriterLaws, ReaderLaws,
  ReaderProgress, length-unpack,
}
use obe_rt.UserData.Sar.{set_sar, set_sar_from, is_sd}
use obe_rt.UserData.Caption.{find_cc_count, cc_timecode, write_608_cc}
use obe_rt.UserData.Caption.Entries.{cc_user_data, pairs}
use obe_rt.UserData.Caption.Write.{write_608_cc-pairs}
use obe_rt.UserData.Cdp.{Captions, read_captions, read_cdp}
use obe_rt.UserData.Cdp.Ends.{read_captions-ends}
use obe_rt.UserData.Cdp.Packet.{
  Section, tc, cc_data, svc_info, future, triples, services, encode, encode_all, Fits,
}
use obe_rt.UserData.Cdp.Sections.{AllFit, last_triples, sum, packet}
use obe_rt.UserData.Cdp.Read.{read_cdp-packet, read_cdp-refuses}
use obe_rt.UserData.Items.{
  with_frame, on_frame, write_afd_of, afd_byte, write_afd, write_element, end_bars, bars_of,
  write_bar_data, wss_entry, wss_of, convert_wss_to_afd, encapsulate, Encapsulated, after_item,
  encapsulate_items, encapsulate_user_data,
}
use obe_rt.UserData.Items.Bars.{write_bar_data-bytes}
use obe_rt.UserData.Items.Loop.{Raw, AllRaw, AllRegistered, encapsulate_user_data-AllRegistered}

pub pack : List ℕ → List ℕ
pack (a ∷ b ∷ c ∷ d ∷ e ∷ f ∷ g ∷ h ∷ bits) =
    (a * 128 + b * 64 + c * 32 + d * 16 + e * 8 + f * 4 + g * 2 + h) ∷ pack bits
pack _ = []

abbrev pub lib : BitWriter (List ℕ)
lib = record {
  bs_init = [];
  bs_write = λ s n v. s ++ to_bits n v;
  bs_write1 = λ s v. s ++ to_bits 1 v;
  bs_write32 = λ s v. s ++ (to_bits 16 (v / 2 ^ 16) ++ to_bits 16 (v % 2 ^ 16));
  bs_flush = λ s. s;
  bs_pos = λ s. length s;
  bytes = pack;
  put = λ s bytes. s ++ unpack bytes;
}

pack-unpack : (bs : List ℕ) → AllBytes bs → pack (unpack bs) ≡ bs
unfolding pack unpack
pack-unpack [] p = refl
pack-unpack (b ∷ bs) (lt, p) =
    let same : b / 2 ^ 7 % 2 * 128
          + b / 2 ^ 6 % 2 * 64
          + b / 2 ^ 5 % 2 * 32
          + b / 2 ^ 4 % 2 * 16
          + b / 2 ^ 3 % 2 * 8
          + b / 2 ^ 2 % 2 * 4
          + b / 2 ^ 1 % 2 * 2
          + b / 2 ^ 0 % 2
        ≡ b =
      omega arith in
    ap (λ x. x ∷ pack (unpack bs)) same ∙ ap (λ x. b ∷ x) (pack-unpack bs p)

pub laws : WriterLaws lib
laws = record {
  bits = λ s. s;
  init = refl;
  write = λ s n v lt. refl;
  write1 = λ s v lt. refl;
  write32 = λ s v lt. refl;
  pos = λ s. refl;
  flush_bits = λ s bs h. h;
  flush = λ s bs p h. ap pack h ∙ pack-unpack bs p;
  put_after = λ s bs cs h. ap (λ x. x ++ unpack cs) h ∙ sym (unpack-append bs cs);
}

pub value : ℕ → ℕ → List ℕ → ℕ
value zero v bits = v
value (suc n) v [] = v
value (suc n) v (b ∷ bits) = value n (v * 2 + b) bits

pub is_empty : List ℕ → Bool
is_empty [] = true
is_empty (b ∷ bits) = false

abbrev pub reader : BitReader (List ℕ × ℕ)
reader = record {
  bs_read_init = λ bytes. (unpack bytes, 0);
  bs_read = λ s n. (value n 0 s.0, (drop n s.0, s.1 + n));
  bs_skip = λ s n. (drop n s.0, s.1 + n);
  bs_read_eof = λ s. is_empty s.0;
  bs_read_pos = λ s. s.1;
}

value-to_bits : (n v : ℕ) (rest : List ℕ) → value n (v / 2 ^ n) (to_bits n v ++ rest) ≡ v
unfolding value
value-to_bits zero v rest = omega arith
value-to_bits (suc n) v rest =
    let next : v / 2 ^ suc n * 2 + v / 2 ^ n % 2 ≡ v / 2 ^ n = omega (arith, halve v n) in
    ap (λ x. value n x (to_bits n v ++ rest)) next ∙ value-to_bits n v rest

drop-to_bits : (n v : ℕ) (rest : List ℕ) → drop n (to_bits n v ++ rest) ≡ rest
drop-to_bits zero v rest = refl
drop-to_bits (suc n) v rest = drop-to_bits n v rest

pub reader_laws : ReaderLaws reader
unfolding is_empty
reader_laws = record {
  left = λ s. s.0;
  init = λ bs. refl;
  init_pos = λ bs. refl;
  read = λ s n v rest lt e. (
    ap (λ x. value n x s.0) (sym (div-eq_of_lt lt))
        ∙ ap (value n (v / 2 ^ n)) e
        ∙ value-to_bits n v rest,
    ap (drop n) e ∙ drop-to_bits n v rest,
    refl,
  );
  skip = λ s n bs rest l e. (ap (drop n) e ∙ drop-append_exact n bs rest l, refl);
  eof_end = λ s e. ap is_empty e;
  eof_more = λ s b bs e. ap is_empty e;
}

reader_progress : ReaderProgress reader
unfolding is_empty
reader_progress = record {
  measure = λ s. (length s.0 + 7) / 8;
  starts = λ bs. omega (arith, length-unpack bs);
  reads = λ s n. omega (arith, length-drop n s.0);
  reads_on = λ s more. reads_on s.0 more;
  skips = λ s n. omega (arith, length-drop n s.0);
}
  where
    reads_on :
        (bits : List ℕ)
        → is_empty bits ≡ false
        → (length (drop 8 bits) + 7) / 8 < (length bits + 7) / 8
    reads_on [] more = cc
    reads_on (b ∷ bits) more = omega (arith, length-drop 8 (b ∷ bits))

read_captions-ends_example :
    (c : Captions) × (read_captions reader
        (9 ∷ 9 ∷ 9 ∷ [])
        (reader.bs_read (reader.bs_read_init (9 ∷ 9 ∷ 9 ∷ [])) 16).1
      ≡ some c)
read_captions-ends_example = read_captions-ends reader reader_progress (9 ∷ 9 ∷ 9 ∷ [])

abbrev pub frame : List UserItem → RawFrame
frame items = record {
  timebase_num = 1001;
  timebase_den = 60000;
  format = 2;
  width = 720;
  height = 480;
  sar_width = 1;
  sar_height = 1;
  user_data = items;
}

abbrev item : ℕ → List ℕ → UserItem
item type bytes = record { type = type; source = 27; len = length bytes; bytes = some bytes }

write_608_cc-pairs_example :
    ((find_cc_count (frame []) 0 cc_timecode ≡ 0)
      × (write_608_cc lib (λ n. true) (item 64 (1 ∷ 2 ∷ 3 ∷ 4 ∷ [])) (frame [])
          ≡ some (negsuc 0, item 64 (1 ∷ 2 ∷ 3 ∷ 4 ∷ []))))
    ⊎ ((n : ℕ) × (find_cc_count (frame []) 0 cc_timecode ≡ suc (suc n))
        × (write_608_cc lib (λ n. true) (item 64 (1 ∷ 2 ∷ 3 ∷ 4 ∷ [])) (frame [])
            ≡ some (
                replace_data
                  (λ n. true)
                  (cc_user_data (suc (suc n)) (pairs n (1 ∷ 2 ∷ 3 ∷ 4 ∷ [])))
                  (item 64 (1 ∷ 2 ∷ 3 ∷ 4 ∷ [])))))
write_608_cc-pairs_example =
    write_608_cc-pairs lib laws (λ n. true) (item 64 (1 ∷ 2 ∷ 3 ∷ 4 ∷ [])) (frame [])
      (1 ∷ 2 ∷ 3 ∷ 4 ∷ []) refl refl (omega arith, (omega arith, (omega arith, (omega arith, tt))))

abbrev pub sections : List Section
sections =
    tc 192 0 0 0
    ∷ cc_data 7 ((252, 148, 44) ∷ (253, 128, 128) ∷ [])
    ∷ svc_info 13 ((128, 101, 110, 103, 193, 63, 255) ∷ [])
    ∷ future 117 (100 ∷ 33 ∷ [])
    ∷ []

abbrev pub bytes : List ℕ
bytes = packet 37 79 67 0 1 sections 0 1 157

bytes-AllBytes : AllBytes bytes
unfolding encode_all encode triples services
bytes-AllBytes = all_bytes-AllBytes bytes refl

pub bytes-sum : sum bytes % 256 ≡ 0
unfolding sum encode_all encode triples services
bytes-sum = refl

pub sections-AllFit : AllFit sections
unfolding AllFit Fits
sections-AllFit =
    (tt, ((omega arith, omega arith), ((omega arith, omega arith), (ground arith, tt))))

read_cdp-packet_example :
    ((length (last_triples [] sections) ≡ 0)
      × (read_cdp reader lib (λ n. true) (item 65 bytes) ≡ some (pos 1, item 65 bytes)))
    ⊎ ((0 < length (last_triples [] sections))
        × (read_cdp reader lib (λ n. true) (item 65 bytes)
            ≡ some (
                replace_data
                  (λ n. true)
                  (cc_user_data
                    (length (last_triples [] sections))
                    (triples (last_triples [] sections)))
                  (item 65 bytes))))
read_cdp-packet_example =
    read_cdp-packet reader reader_laws lib laws (λ n. true) (item 65 bytes) 37 79 67 0 1 sections 0
      1 157 refl sections-AllFit bytes-AllBytes bytes-sum

read_cdp-refuses_example :
    read_cdp reader lib (λ n. true) (item 65 (1 ∷ 2 ∷ 3 ∷ []))
    ≡ some (pos 1, item 65 (1 ∷ 2 ∷ 3 ∷ []))
read_cdp-refuses_example =
    read_cdp-refuses reader reader_laws lib laws (λ n. true) (item 65 (1 ∷ 2 ∷ 3 ∷ [])) 1 2 (3 ∷ [])
      refl (omega arith, (omega arith, (omega arith, tt))) (inl (λ e. absurd (omega (arith, e))))

write_bar_data-bytes_example :
    write_bar_data lib (λ n. true) (item 67 (160 ∷ 1 ∷ 2 ∷ 3 ∷ 4 ∷ []))
    ≡ some (
        replace_data
          (λ n. true)
          (181 ∷ 0 ∷ 49 ∷ 71 ∷ 65 ∷ 57 ∷ 52 ∷ 6 ∷ 175 ∷ 1 ∷ 2 ∷ 3 ∷ 4 ∷ [])
          (item 67 (160 ∷ 1 ∷ 2 ∷ 3 ∷ 4 ∷ [])))
write_bar_data-bytes_example =
    write_bar_data-bytes lib laws (λ n. true) (item 67 (160 ∷ 1 ∷ 2 ∷ 3 ∷ 4 ∷ [])) 160 (1 ∷ 2 ∷ [])
      [] (3 ∷ 4 ∷ []) [] [] refl (omega arith)
      (omega arith, (omega arith, (omega arith, (omega arith, tt)))) refl refl refl refl

-- A wide-screen signal and bars.
abbrev items : List UserItem
items = item 68 (3 ∷ []) ∷ item 67 (0 ∷ []) ∷ []

abbrev after : Encapsulated lib (λ n. true) reader
after = record {
  status = pos 0;
  items =
      item 4 (181 ∷ 0 ∷ 49 ∷ 68 ∷ 84 ∷ 71 ∷ 49 ∷ 65 ∷ 250 ∷ [])
      ∷ item 4 (181 ∷ 0 ∷ 49 ∷ 71 ∷ 65 ∷ 57 ∷ 52 ∷ 6 ∷ 15 ∷ [])
      ∷ [];
  frame = record (frame items) { sar_width = 40; sar_height = 33 };
}

runs : encapsulate_user_data lib (λ n. true) reader (frame items) ≡ some after
unfolding encapsulate_user_data encapsulate_items encapsulate after_item convert_wss_to_afd wss_of
    wss_entry write_afd afd_byte byte_at write_afd_of write_identifier write_itu_t_codes with_frame
    replace_data set_sar set_sar_from is_sd on_frame write_bar_data bars_of write_element end_bars
    pack
runs = refl

items-AllRaw : AllRaw items
unfolding AllRaw Raw
items-AllRaw = ((omega arith, omega arith), ((omega arith, omega arith), tt))

encapsulate_user_data-AllRegistered_example :
    (length after.items ≤ 2)
    × ((after.status ≡ negsuc 0)
        ⊎ (((after.status ≡ pos 1) ⊎ (after.status ≡ pos 0)) × AllRegistered after.items))
encapsulate_user_data-AllRegistered_example =
    encapsulate_user_data-AllRegistered lib (λ n. true) reader (frame items) after items-AllRaw runs
