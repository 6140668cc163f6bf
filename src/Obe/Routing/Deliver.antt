-- ===== src/Obe/Routing/Deliver.antt =====
-- Which queue a raw frame is added to.
use obe_rt.Base.{
  ℕ, suc, ◌+◌, ◌*◌, ◌^◌, ◌≤◌, ◌<◌, ◌≡◌, refl, ap, ◌∙◌, inl, inr, Bool, true, false, Bool-cases,
  Option, none, some, List, [], ◌∷◌, ◌++◌, length, arith, set, get_elem?,
}
use obe_rt.Base.Int.{ℤ, pos, eqb_ℤ, eqb_ℤ_iff}
use obe_rt.Queue.{Queue}
use obe_rt.Queue.Fifo.{IsValid, contents, add_to_queue-append}
use obe_rt.Obe.Routing.{
  Filter, Encoder, lists, filter_of, encoder_of, put_back, add_at, add_found, add_to_filter_queue,
  put_back_encoder, add_at_encoder, add_found_encoder, add_to_encode_queue,
}

module _ {ℓ} {A : Type ℓ} where
  -- No filter of the list takes the stream, and no encoder is for it.
  unfoldable pub NoneLists : List (Filter A) → ℤ → Type 0
  NoneLists [] id = 0 ≤ 0
  NoneLists (f ∷ fs) id = (lists f.stream_id_list id ≡ false) × NoneLists fs id

  unfoldable pub NoneEncodes : List (Encoder A) → ℤ → Type 0
  NoneEncodes [] id = 0 ≤ 0
  NoneEncodes (e ∷ es) id = (eqb_ℤ e.output_stream_id id ≡ false) × NoneEncodes es id

  filter_of_none :
      (fs : List (Filter A)) (id : ℤ) (i : ℕ) (found : Option ℕ)
      → NoneLists fs id
      → filter_of fs id i found ≡ found
  unfolding filter_of NoneLists
  filter_of_none [] id i found h = refl
  filter_of_none (f ∷ fs) id i found (miss, h) = rw miss (filter_of_none fs id (suc i) found h)

  filter_of_last :
      (before after : List (Filter A)) (f : Filter A) (id : ℤ) (i k : ℕ) (found : Option ℕ)
      → lists f.stream_id_list id ≡ true
      → NoneLists after id
      → k ≡ i + length before
      → filter_of (before ++ f ∷ after) id i found ≡ some k
  unfolding filter_of
  filter_of_last [] after f id i k found hit h e =
      rw hit (filter_of_none after id (suc i) (some i) h ∙ ap (λ n. some n) (omega arith))
  filter_of_last (b ∷ before) after f id i k found hit h e =
      elim (Bool-cases (lists b.stream_id_list id)) [
        | inl takes ↦
            rw takes (filter_of_last before after f id (suc i) k (some i) hit h (omega arith))
        | inr leaves ↦
            rw leaves (filter_of_last before after f id (suc i) k found hit h (omega arith))
      ]

  encoder_of_first :
      (before after : List (Encoder A)) (e : Encoder A) (id : ℤ) (i k : ℕ)
      → e.output_stream_id ≡ id
      → NoneEncodes before id
      → k ≡ i + length before
      → encoder_of (before ++ e ∷ after) id i ≡ some k
  unfolding encoder_of NoneEncodes
  encoder_of_first [] after e id i k own h at =
      rw ((eqb_ℤ_iff e.output_stream_id id).1 own) (ap (λ n. some n) (omega arith))
  encoder_of_first (b ∷ before) after e id i k own (miss, h) at =
      rw miss (encoder_of_first before after e id (suc i) k own h (omega arith))

get_elem?_middle {ℓ} :
    {A : Type ℓ} (before after : List A) (a : A)
    → get_elem? (before ++ a ∷ after) (length before) ≡ some a
get_elem?_middle [] after a = refl
get_elem?_middle (b ∷ before) after a = get_elem?_middle before after a

set_middle {ℓ} :
    {A : Type ℓ} (before after : List A) (a v : A)
    → set (before ++ a ∷ after) (length before) v ≡ before ++ v ∷ after
set_middle [] after a v = refl
set_middle (b ∷ before) after a v = ap (◌∷◌ b) (set_middle before after a v)

module _ {ℓ} {A : Type ℓ} (grants : ℕ → Bool) where
  -- A raw frame goes to the last filter that lists its stream, and to no other: with a valid queue that is
  -- free and has room, and with memory for it, the call returns 0, the frame stands last in that
  -- filter's queue, and every other filter is as before.
  pub add_to_filter_queue-last :
      (before after : List (Filter A)) (f : Filter A) (item : A) (id : ℤ)
      → lists f.stream_id_list id ≡ true
      → NoneLists after id
      → IsValid f.queue
      → f.queue.size + 1 < 2 ^ 31
      → f.queue.locked ≡ false
      → grants (8 * (f.queue.size + 1)) ≡ true
      → (q' : Queue A) × (add_to_filter_queue grants (before ++ f ∷ after) item id
          ≡ some (pos 0, before ++ record f { queue = q' } ∷ after))
        × (contents q' ≡ contents f.queue ++ item ∷ [])
        × IsValid q'
  unfolding add_to_filter_queue add_found add_at put_back
  add_to_filter_queue-last before after f item id hit rest v room free got =
      let (q', done, same, v', _, _) = add_to_queue-append grants f.queue item v room free got in
      rw
        (
          filter_of_last before after f id 0 (length before) none hit rest (omega arith),
          get_elem?_middle before after f,
          done,
          set_middle before after f (record f { queue = q' }),
        )
        (q', refl, same, v')

  -- A frame for an encoder goes to the first encoder of its output stream, and to no other, under the same
  -- conditions on that encoder's queue.
  pub add_to_encode_queue-first :
      (before after : List (Encoder A)) (e : Encoder A) (item : A) (id : ℤ)
      → e.output_stream_id ≡ id
      → NoneEncodes before id
      → IsValid e.queue
      → e.queue.size + 1 < 2 ^ 31
      → e.queue.locked ≡ false
      → grants (8 * (e.queue.size + 1)) ≡ true
      → (q' : Queue A) × (add_to_encode_queue grants (before ++ e ∷ after) item id
          ≡ some (pos 0, before ++ record e { queue = q' } ∷ after))
        × (contents q' ≡ contents e.queue ++ item ∷ [])
        × IsValid q'
  unfolding add_to_encode_queue add_found_encoder add_at_encoder put_back_encoder
  add_to_encode_queue-first before after e item id own rest v room free got =
      let (q', done, same, v', _, _) = add_to_queue-append grants e.queue item v room free got in
      rw
        (
          encoder_of_first before after e id 0 (length before) own rest (omega arith),
          get_elem?_middle before after e,
          done,
          set_middle before after e (record e { queue = q' }),
        )
        (q', refl, same, v')
