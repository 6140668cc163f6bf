-- ===== src/Smpte337/Write.antt =====
-- smpte337_detector2_write: the samples of a span of channels become bytes of the stream.
use obe_rt.Base.{
  ℕ, zero, suc, ◌+◌, ◌*◌, ◌/◌, ◌≤◌, ◌<◌, ◌≡◌, refl, sym, ap, ap₂, not, ◌&&◌, ◌||◌, Bool, true,
  false, Option, none, some, List, [], ◌∷◌, ◌++◌, append-nil, append_assoc, arith, ltb, leb, ◌==◌,
  if◌then◌else◌, length, get_elem?, get_or, drop, length-append,
}
use obe_rt.Base.Int.{ℤ}
use obe_rt.Smpte337.{Avfm, Item, Detector, Delivered, run_detector}
use obe_rt.Smpte337.Stream.{stream, bytes, IsValid, AllRead}
use obe_rt.Smpte337.Scan.{Scans, bursts, run_detector-Scans}

-- `_item_alloc(16384)`
abbrev pub item_maxlen : ℕ
item_maxlen = 16384

-- The two stores for one sample. The assertion before them lets `usedlen == maxlen` pass, but then they
-- are outside the buffer, so either way a sample without room ends the run. The second component is
-- `consumed`.
pub store : Option ℕ → Option ℕ → List ℕ × ℕ → Option (List ℕ × ℕ)
store (some high) (some low) (ptr, consumed) =
    if leb (length ptr + 2) item_maxlen then some (ptr ++ high ∷ low ∷ [], consumed + 2) else none
store _ _ _ = none

pub and_then {ℓ κ} : {A : Type ℓ} {B : Type κ} → Option A → (A → Option B) → Option B
and_then none f = none
and_then (some a) f = f a

-- The inner loop, with the rounds that are left and the word that `q` points to.
pub write_span : List ℕ → ℕ → ℕ → List ℕ × ℕ → Option (List ℕ × ℕ)
write_span buf zero q out = some out
write_span buf (suc k) q out =
    and_then (store (get_elem? buf (4 * q + 3)) (get_elem? buf (4 * q + 2)) out)
      (write_span buf k (q + 1))

-- The outer loop; `stride` is in words.
pub write_32b : List ℕ → ℕ → ℕ → ℕ → ℕ → List ℕ × ℕ → Option (List ℕ × ℕ)
write_32b buf span_count stride zero p out = some out
write_32b buf span_count stride (suc n) p out =
    and_then (write_span buf span_count p out) (write_32b buf span_count stride n (p + stride))

-- The early return; the buffer is `none` where it is null.
unfoldable pub refuses : ℕ → ℕ → ℕ → ℕ → ℕ → Bool
refuses audio_frames sample_depth channels_per_frame frame_stride_bytes span_count =
    audio_frames == 0
    || channels_per_frame == 0
    || frame_stride_bytes == 0
    || (not (sample_depth == 16) && not (sample_depth == 32))
    || span_count == 0
    || ltb channels_per_frame span_count

pub item_bytes : ℕ → List ℕ → ℕ → ℕ → ℕ → Option (List ℕ × ℕ)
item_bytes sample_depth buf audio_frames frame_stride_bytes span_count =
    if sample_depth == 32
    then write_32b buf span_count (frame_stride_bytes / 4) audio_frames 0 ([], 0)
    else some ([], 0)

pub append_item : Detector → Avfm → List ℕ → Detector
append_item ctx avfm ptr = record {
  item_list =
      ctx.item_list ++ record { avfm = avfm; ptr = ptr; maxlen = item_maxlen; readpos = 0 } ∷ [];
  item_list_total_bytes = ctx.item_list_total_bytes + length ptr;
}

module _ (rescale : ℕ → ℤ) (grants : ℕ → Bool) where
  pub returns : ℕ → Option (List Delivered × Detector) → Option (ℕ × List Delivered × Detector)
  returns ret none = none
  returns ret (some (ds, ctx)) = some (ret, ds, ctx)

  pub append_and_run :
      Detector → Avfm → Option (List ℕ × ℕ) → Option (ℕ × List Delivered × Detector)
  append_and_run ctx avfm none = none
  append_and_run ctx avfm (some (ptr, consumed)) =
      returns consumed (run_detector rescale grants (append_item ctx avfm ptr))

  -- The return value, what the callback got, and the state. Without memory for the item the
  -- run ends in a store through a null pointer.
  pub write :
      Detector → Option (List ℕ) → ℕ → ℕ → ℕ → ℕ → ℕ → Avfm → Option (ℕ × List Delivered × Detector)
  write ctx none audio_frames sample_depth channels_per_frame frame_stride_bytes span_count avfm =
      some (0, [], ctx)
  write ctx (some buf) audio_frames sample_depth channels_per_frame frame_stride_bytes span_count
        avfm =
      if refuses audio_frames sample_depth channels_per_frame frame_stride_bytes span_count
      then some (0, [], ctx)
      else if grants item_maxlen
      then append_and_run ctx avfm
          (item_bytes sample_depth buf audio_frames frame_stride_bytes span_count)
      else none

-- The two upper bytes of each word, the highest first: of `k` words from `q` on.
unfoldable pub span_bytes : List ℕ → ℕ → ℕ → List ℕ
span_bytes buf q zero = []
span_bytes buf q (suc k) =
    get_or buf (4 * q + 3) 0 ∷ get_or buf (4 * q + 2) 0 ∷ span_bytes buf (q + 1) k

-- And of the spans of `n` frames from the word `p` on.
unfoldable pub frame_bytes : List ℕ → ℕ → ℕ → ℕ → ℕ → List ℕ
frame_bytes buf span_count stride p zero = []
frame_bytes buf span_count stride p (suc n) =
    span_bytes buf p span_count ++ frame_bytes buf span_count stride (p + stride) n

get_elem?-get_or : (xs : List ℕ) (i : ℕ) → i < length xs → get_elem? xs i ≡ some (get_or xs i 0)
get_elem?-get_or [] i h = absurd (omega arith)
get_elem?-get_or (x ∷ xs) zero h = refl
get_elem?-get_or (x ∷ xs) (suc i) h = get_elem?-get_or xs i (omega arith)

length-span_bytes : (buf : List ℕ) (q k : ℕ) → length (span_bytes buf q k) ≡ 2 * k
unfolding span_bytes
length-span_bytes buf q zero = omega arith
length-span_bytes buf q (suc k) = omega (arith, length-span_bytes buf (q + 1) k)

length-frame_bytes :
    (buf : List ℕ) (span_count stride p n : ℕ)
    → length (frame_bytes buf span_count stride p n) ≡ 2 * (n * span_count)
unfolding frame_bytes
length-frame_bytes buf span_count stride p zero = omega arith
length-frame_bytes buf span_count stride p (suc n) = omega (
  arith,
  length-append (span_bytes buf p span_count) (frame_bytes buf span_count stride (p + stride) n),
  length-span_bytes buf p span_count,
  length-frame_bytes buf span_count stride (p + stride) n,
)

write_span-span_bytes :
    (buf : List ℕ) (k q : ℕ) (ptr : List ℕ) (consumed : ℕ)
    → 4 * (q + k) ≤ length buf
    → length ptr + 2 * k ≤ item_maxlen
    → write_span buf k q (ptr, consumed) ≡ some (ptr ++ span_bytes buf q k, consumed + 2 * k)
unfolding write_span span_bytes store and_then
write_span-span_bytes buf zero q ptr consumed h room =
    ap₂ {C = Option (List ℕ × ℕ)} (λ l n. some (l, n)) (sym (append-nil ptr)) (omega arith)
write_span-span_bytes buf (suc k) q ptr consumed h room =
    let high : ℕ = get_or buf (4 * q + 3) 0 in
    let low : ℕ = get_or buf (4 * q + 2) 0 in
    let fits : leb (length ptr + 2) item_maxlen ≡ true = ground arith in
    rw
      (
        get_elem?-get_or buf (4 * q + 3) (omega arith),
        get_elem?-get_or buf (4 * q + 2) (omega arith),
        fits,
        write_span-span_bytes buf k (q + 1) (ptr ++ high ∷ low ∷ []) (consumed + 2) (omega arith)
            (omega (arith, length-append ptr (high ∷ low ∷ []))),
      )
      (ap₂ {C = Option (List ℕ × ℕ)} (λ l n. some (l, n))
        (append_assoc ptr (high ∷ low ∷ []) (span_bytes buf (q + 1) k)) (omega arith))

write_32b-frame_bytes :
    (buf : List ℕ) (span_count stride n p : ℕ) (ptr : List ℕ) (consumed : ℕ)
    → 4 * (p + n * stride + span_count) ≤ length buf + 4 * stride
    → length ptr + 2 * (n * span_count) ≤ item_maxlen
    → write_32b buf span_count stride n p (ptr, consumed)
      ≡ some (ptr ++ frame_bytes buf span_count stride p n, consumed + 2 * (n * span_count))
unfolding write_32b frame_bytes and_then
write_32b-frame_bytes buf span_count stride zero p ptr consumed h room =
    ap₂ {C = Option (List ℕ × ℕ)} (λ l n. some (l, n)) (sym (append-nil ptr)) (omega arith)
write_32b-frame_bytes buf span_count stride (suc n) p ptr consumed h room =
    let span : List ℕ = span_bytes buf p span_count in
    rw
      (
        write_span-span_bytes buf span_count p ptr consumed (omega arith) (omega arith),
        write_32b-frame_bytes buf span_count stride n (p + stride) (ptr ++ span)
            (consumed + 2 * span_count) (omega arith)
            (omega (arith, length-append ptr span, length-span_bytes buf p span_count)),
      )
      (ap₂ {C = Option (List ℕ × ℕ)} (λ l n. some (l, n))
        (append_assoc ptr span (frame_bytes buf span_count stride (p + stride) n)) (omega arith))

stream-append :
    (items : List Item) (e : Item)
    → e.readpos ≡ 0
    → stream (items ++ e ∷ []) ≡ stream items ++ e.ptr
unfolding stream
stream-append [] e h = rw (h, append-nil e.ptr) refl
stream-append (x ∷ xs) e h =
    rw (stream-append xs e h) (sym (append_assoc (drop x.readpos x.ptr) (stream xs) e.ptr))

AllRead-append :
    (items : List Item) (e : Item) → AllRead items → e.readpos ≡ 0 → AllRead (items ++ e ∷ [])
unfolding AllRead
AllRead-append [] e all h = (omega arith, all)
AllRead-append (x ∷ xs) e (ok, all) h = (ok, AllRead-append xs e all h)

append_item-stream :
    (ctx : Detector) (avfm : Avfm) (ptr : List ℕ)
    → IsValid ctx
    → (bytes (append_item ctx avfm ptr) ≡ bytes ctx ++ ptr) × IsValid (append_item ctx avfm ptr)
unfolding append_item
append_item-stream ctx avfm ptr v =
    let e : Item = record { avfm = avfm; ptr = ptr; maxlen = item_maxlen; readpos = 0 } in
    let same = stream-append ctx.item_list e refl in
    (
      same,
      record {
        items = AllRead-append ctx.item_list e v.items refl;
        counted = omega (arith, v.counted, ap length same, length-append (bytes ctx) ptr);
      },
    )

module _ (rescale : ℕ → ℤ) (grants : ℕ → Bool) where
  -- A write of 32-bit samples puts the two upper bytes of each sample of the span, frame by frame, behind
  -- the waiting bytes, and then scans: with memory at hand, for arguments that are not refused, a buffer
  -- that holds the last frame's span, and no more samples than a list item holds, the call returns the
  -- number of bytes that it added, reports the bursts of the scan and leaves a valid state.
  pub write-Scans :
      (ctx : Detector) (buf : List ℕ) (n channels_per_frame frame_stride_bytes span_count : ℕ)
      (avfm : Avfm)
      → ((k : ℕ) → grants k ≡ true)
      → IsValid ctx
      → refuses (suc n) 32 channels_per_frame frame_stride_bytes span_count ≡ false
      → 4 * (n * (frame_stride_bytes / 4) + span_count) ≤ length buf
      → 2 * (suc n * span_count) ≤ item_maxlen
      → (ds : List Delivered) × (ctx' : Detector) × (write rescale grants ctx
            (some buf)
            (suc n)
            32
            channels_per_frame
            frame_stride_bytes
            span_count
            avfm
          ≡ some (2 * (suc n * span_count), ds, ctx'))
        × Scans
            (bytes ctx ++ frame_bytes buf span_count (frame_stride_bytes / 4) 0 (suc n))
            (bursts ds)
            (bytes ctx')
        × IsValid ctx'
  unfolding write append_and_run returns item_bytes
  write-Scans ctx buf n channels_per_frame frame_stride_bytes span_count avfm all v accepted inside
        fits =
      let ptr : List ℕ = frame_bytes buf span_count (frame_stride_bytes / 4) 0 (suc n) in
      let (same, ok) = append_item-stream ctx avfm ptr v in
      let (ds, ctx', run, s, v') =
        run_detector-Scans rescale grants (append_item ctx avfm ptr) all ok in
      rw
        (
          accepted,
          all item_maxlen,
          write_32b-frame_bytes buf span_count (frame_stride_bytes / 4) (suc n) 0 [] 0
              (omega (arith, inside)) (omega (arith, fits)),
          run,
        )
        (ds, ctx', ap (λ k. some (k, ds, ctx')) (omega arith), rw (← same) s, v')
