-- ===== src/UserData/Told.antt =====
-- How the functions on user data return.
use obe_rt.Base.{ℕ, Bool, ◌≡◌, ◌⊎◌, inl, inr, refl, List, Option, none, some, length, if_elim}
use obe_rt.Base.Int.{ℤ, pos, negsuc}
use obe_rt.UserData.{UserItem, user_data_avc_registered_itu_t35, replace_data}

-- With -1, with 1, or with 0 and an item for the encoder.
unfoldable pub Told : ℤ × UserItem → Type 0
Told (ret, u) =
    (ret ≡ negsuc 0)
    ⊎ ((ret ≡ pos 1) ⊎ ((ret ≡ pos 0) × (u.type ≡ user_data_avc_registered_itu_t35)))

unfoldable pub ToldBy : Option (ℤ × UserItem) → Type 0
ToldBy none = Unit
ToldBy (some p) = Told p

pub replace_data-Told :
    (grants : ℕ → Bool) (bytes : List ℕ) (u : UserItem) → Told (replace_data grants bytes u)
unfolding replace_data Told
replace_data-Told grants bytes u =
    if_elim Told (grants (length bytes)) (λ granted. inr (inr (refl, refl))) (λ refused. inl refl)
