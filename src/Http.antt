-- ===== src/Http.antt =====
-- The methods of HTTP requests that the handlers under pkg/protocols tell apart.
use go_certa.Prelude.{◌≡◌, refl, ◌⊎◌, inl, inr}

pub data Method : Type 0 where
  get head post other_method : Method

pub Method-cases : (m : Method) → (m ≡ get) ⊎ (m ≡ head) ⊎ (m ≡ post) ⊎ (m ≡ other_method)
Method-cases get = inl refl
Method-cases head = inr (inl refl)
Method-cases post = inr (inr (inl refl))
Method-cases other_method = inr (inr (inr refl))
