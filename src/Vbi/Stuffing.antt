-- ===== src/Vbi/Stuffing.antt =====
-- The bytes behind the last data unit of a frame.
use obe_rt.Base.{
  ℕ, zero, suc, ◌+◌, ◌-◌, ◌%◌, ◌≡◌, ap, ◌∙◌, inl, inr, List, [], ◌∷◌, ◌++◌, append-nil, length,
  length-append, replicate, length-replicate, ◌==◌, ==_iff, if◌then◌else◌, if_true, if_false,
  if_elim, Bool-cases, arith,
}
use obe_rt.UserData.Bits.{AllBytes}

-- The bytes that fill the packet: none, or a unit of stuffing up to its end.
abbrev pub stuffing_of : ℕ → List ℕ
stuffing_of n =
    if (n + 45) % 184 == 0
    then []
    else 255 ∷ (184 - (n + 47) % 184) % 184 ∷ replicate ((184 - (n + 47) % 184) % 184) 255

abbrev pub framed : List ℕ → List ℕ
framed body = body ++ stuffing_of (length body)

pub framed_whole : (body : List ℕ) → (45 + length (framed body)) % 184 ≡ 0
framed_whole body =
    let n = length body in
    let m = (184 - (n + 47) % 184) % 184 in
    elim (Bool-cases ((n + 45) % 184 == 0)) [
      | inl full ↦
          let e : length (framed body) ≡ n =
            ap (λ x. length (body ++ x)) (if_true _ _ _ full) ∙ ap length (append-nil body) in
          omega (arith, e, (==_iff _ _).0 full)
      | inr open_end ↦
          let e : length (framed body) ≡ n + (2 + m) =
            ap (λ x. length (body ++ x)) (if_false _ _ _ open_end)
            ∙ omega (
              arith,
              length-append body (255 ∷ m ∷ replicate m 255),
              length-replicate {A = ℕ} m 255,
            ) in
          omega (arith, e)
    ]

replicate-AllBytes : (n : ℕ) → AllBytes (replicate n 255)
replicate-AllBytes zero = tt
replicate-AllBytes (suc n) = (omega arith, replicate-AllBytes n)

pub stuffing_of-AllBytes : (n : ℕ) → AllBytes (stuffing_of n)
stuffing_of-AllBytes n =
    if_elim AllBytes ((n + 45) % 184 == 0) (λ full. tt)
      (λ open_end. (omega arith, (omega arith, replicate-AllBytes _)))
