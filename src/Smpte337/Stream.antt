-- ===== src/Smpte337/Stream.antt =====
-- Reading the list of buffers of the detector as one stream of bytes.
use obe_rt.Base.{
  ℕ, ◌+◌, ◌-◌, ◌≤◌, ◌≡◌, refl, sym, ap, ap₂, ◌∙◌, inl, inr, true, false, some, List, [], ◌∷◌, ◌++◌,
  arith, ltb, ◌==◌, Bool-cases, ==_iff, leb-cases, take_all, drop_all, drop-append, drop-drop,
  append-nil, ltb, length, take, drop, length-append, length-drop, take-append,
}
use obe_rt.Smpte337.{
  Item, Detector, unread, consume, spent, overspent, copy_all, peek_items, from_items, list_peek,
}

-- The bytes that wait, in order.
unfoldable pub stream : List Item → List ℕ
stream [] = []
stream (e ∷ es) = drop e.readpos e.ptr ++ stream es

-- No item is read past its end.
unfoldable pub AllRead : List Item → Type 0
AllRead [] = 0 ≤ 0
AllRead (e ∷ es) = (e.readpos ≤ length e.ptr) × AllRead es

-- The count of bytes is that of the waiting bytes.
pub record IsValid (ctx : Detector) : Type 0 where
  pub items : AllRead ctx.item_list
  pub counted : ctx.item_list_total_bytes ≡ length (stream ctx.item_list)

-- A read that ends in the first item, and one that goes past it.
take_within : (n : ℕ) (xs ys : List ℕ) → n ≤ length xs → take n (xs ++ ys) ≡ take n xs
take_within n xs ys h = take-append n 0 xs ys (omega arith) ∙ append-nil (take n xs)

drop_within : (n : ℕ) (xs ys : List ℕ) → n ≤ length xs → drop n (xs ++ ys) ≡ drop n xs ++ ys
drop_within n xs ys h = drop-append n 0 xs ys (omega arith)

take_past :
    (n k : ℕ) (xs ys : List ℕ)
    → length xs ≤ n
    → k ≡ n - length xs
    → take n (xs ++ ys) ≡ xs ++ take k ys
take_past n k xs ys h e = take-append n k xs ys e ∙ ap (λ l. l ++ take k ys) (take_all n xs h)

drop_past :
    (n k : ℕ) (xs ys : List ℕ) → length xs ≤ n → k ≡ n - length xs → drop n (xs ++ ys) ≡ drop k ys
drop_past n k xs ys h e = drop-append n k xs ys e ∙ ap (λ l. l ++ drop k ys) (drop_all n xs h)

unread-length : (e : Item) → length (drop e.readpos e.ptr) ≡ unread e
unfolding unread
unread-length e = length-drop e.readpos e.ptr

-- A look at the stream copies its first bytes and changes nothing.
pub peek_items_still :
    (rem : ℕ) (items : List Item) (total : ℕ)
    → peek_items false rem items total ≡ some (take rem (stream items), items, total)
unfolding peek_items stream copy_all overspent spent consume
peek_items_still rem [] total = ap (λ l. some (l, [], total)) (sym (take_all rem [] (omega arith)))
peek_items_still rem (e ∷ es) total =
    let size : length (drop e.readpos e.ptr) ≡ unread e = unread-length e in
    elim (leb-cases rem (unread e)) [
      | inl (hit, le) ↦
          rw (hit, take_within rem (drop e.readpos e.ptr) (stream es) (omega (arith, size))) refl
      | inr (miss, gt) ↦
          rw
            (
              miss,
              peek_items_still (rem - unread e) es total,
              take_past rem (rem - unread e) (drop e.readpos e.ptr) (stream es)
                  (omega (arith, size)) (omega (arith, size)),
            )
            refl
    ]

-- The item that is left of one after `n` bytes, or none.
consume-stream :
    (e : Item) (n : ℕ) (rest : List Item)
    → e.readpos ≤ length e.ptr
    → n ≤ unread e
    → AllRead rest
    → (stream (consume true e n rest) ≡ drop n (drop e.readpos e.ptr) ++ stream rest)
      × AllRead (consume true e n rest)
unfolding consume unread stream AllRead
consume-stream e n rest h k all = elim (Bool-cases (e.readpos + n == length e.ptr)) [
  | inl hit ↦
      rw
        (
          hit,
          drop_all n (drop e.readpos e.ptr)
              (omega (arith, length-drop e.readpos e.ptr, (==_iff _ _).0 hit)),
        )
        (refl, all)
  | inr miss ↦
      rw (miss, drop-drop e.readpos n (e.readpos + n) e.ptr refl) (refl, (omega arith, all))
]

-- A read takes the bytes that it copies off the stream, and off the count.
pub peek_items_read :
    (rem : ℕ) (items : List Item) (total : ℕ)
    → AllRead items
    → total ≡ length (stream items)
    → (items' : List Item) × (peek_items true rem items total
        ≡ some (take rem (stream items), items', total - rem))
      × (stream items' ≡ drop rem (stream items))
      × AllRead items'
unfolding peek_items stream copy_all overspent spent AllRead
peek_items_read rem [] total all h = (
  [],
  ap (λ p. some p)
      (ap₂ {C = List ℕ × List Item × ℕ} (λ l n. (l, [], n)) (sym (take_all rem [] (omega arith)))
        (omega arith)),
  sym (drop_all rem [] (omega arith)),
  omega arith,
)
peek_items_read rem (e ∷ es) total (ok, all) h =
    let size : length (drop e.readpos e.ptr) ≡ unread e = unread-length e in
    let sum : total ≡ unread e + length (stream es) =
      omega (arith, size, length-append (drop e.readpos e.ptr) (stream es)) in
    elim (leb-cases rem (unread e)) [
      | inl (hit, le) ↦
          let few : ltb total rem ≡ false = ground arith in
          let c = consume-stream e rem es ok le all in
          rw
            (
              hit,
              few,
              take_within rem (drop e.readpos e.ptr) (stream es) (omega (arith, size)),
              drop_within rem (drop e.readpos e.ptr) (stream es) (omega (arith, size)),
            )
            (consume true e rem es, refl, c.0, c.1)
      | inr (miss, gt) ↦
          let few : ltb total (unread e) ≡ false = ground arith in
          let rest : (rem - unread e) ≡ rem - length (drop e.readpos e.ptr) = omega (arith, size) in
          let left : total - unread e - (rem - unread e) ≡ total - rem = omega arith in
          let (items', read, same, ok') =
            peek_items_read (rem - unread e) es (total - unread e) all (omega arith) in
          let c = consume-stream e (unread e) items' ok (omega arith) ok' in
          rw
            (
              miss,
              few,
              read,
              take_past rem (rem - unread e) (drop e.readpos e.ptr) (stream es)
                  (omega (arith, size)) rest,
              drop_past rem (rem - unread e) (drop e.readpos e.ptr) (stream es)
                  (omega (arith, size)) rest,
            )
            (
              consume true e (unread e) items',
              ap
                  (λ n. some (
                    drop e.readpos e.ptr ++ take (rem - unread e) (stream es),
                    consume true e (unread e) items',
                    n,
                  ))
                  left,
              c.0
                  ∙ ap₂ (λ a b. a ++ b)
                      (drop_all (unread e) (drop e.readpos e.ptr) (omega (arith, size))) same,
              c.1,
            )
    ]

-- The bytes that wait in a detector.
abbrev pub bytes : Detector → List ℕ
bytes ctx = stream ctx.item_list

pub list_peek_still :
    (ctx : Detector) (n : ℕ) → list_peek ctx n false ≡ some (take n (bytes ctx), ctx)
unfolding list_peek from_items
list_peek_still ctx n = rw (peek_items_still n ctx.item_list ctx.item_list_total_bytes) refl

-- A read of `n` bytes from a valid detector runs to its end: it returns the next `n` waiting bytes, or
-- all where there are fewer, across any number of buffers, and leaves a valid detector in which
-- exactly the bytes behind them wait.
pub list_peek_read :
    (ctx : Detector) (n : ℕ)
    → IsValid ctx
    → (ctx' : Detector) × (list_peek ctx n true ≡ some (take n (bytes ctx), ctx'))
      × (bytes ctx' ≡ drop n (bytes ctx))
      × IsValid ctx'
unfolding list_peek from_items
list_peek_read ctx n v =
    let (items', read, same, ok) =
      peek_items_read n ctx.item_list ctx.item_list_total_bytes v.items v.counted in
    let total = ctx.item_list_total_bytes - n in
    rw read (
      record { item_list = items'; item_list_total_bytes = total },
      refl,
      same,
      record {
        items = ok;
        counted = omega (arith, v.counted, ap length same, length-drop n (bytes ctx));
      },
    )
