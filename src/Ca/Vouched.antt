-- ===== src/Ca/Vouched.antt =====
-- Which calls the client makes over which connection.
use step_ui_ng.Ca.Net.{
  CaWorld, Call, Trust, Reply, no_body, Body, anchored_in, replied, any_chain, is_success,
  untrusted, undelivered,
}
use step_ui_ng.Base.{◌≡◌, String, Bool, List, false, ◌∷◌, true, ◌⊎◌, inr, [], ◌&&◌}

-- A call that gives nothing away: a GET without a token or a document.
abbrev pub IsBare : Call → Type 0
IsBare call = (call.method ≡ "GET") × (call.authorization ≡ "") × (call.body ≡ no_body)

-- The CA answers in full, and with success.
abbrev pub is_answered : Reply → Bool
is_answered untrusted = false
is_answered undelivered = false
is_answered (replied status body complete) = is_success status && complete

module _ (w : CaWorld) (want : String) where
  -- Some earlier call over a connection anchored in the root was bare, and was answered.
  abbrev pub Vouched : String → List Call → Type 0
  Vouched root [] = ⊥
  Vouched root (call ∷ rest) =
      (call.trust ≡ anchored_in root) × IsBare call × (is_answered (w.answer rest call) ≡ true)
      ⊎ Vouched root rest

  -- The root has the pinned sum, and the CA has proved that its chain is anchored in it.
  abbrev pub IsReady : Trust → List Call → Type 0
  IsReady any_chain l = ⊥
  IsReady (anchored_in root) l = (w.sha256_hex root ≡ want) × Vouched root l

  -- Every call is bare, or was made over a connection that was ready for it.
  abbrev pub AreGuarded : List Call → Type 0
  AreGuarded [] = Unit
  AreGuarded (call ∷ rest) = (IsBare call ⊎ IsReady call.trust rest) × AreGuarded rest

  -- What an operation without a connection keeps, and what one with a connection keeps.
  abbrev pub Guards : List Call → List Call → Type 0
  Guards l l' = AreGuarded l → AreGuarded l'

  abbrev pub Stays : Trust → List Call → List Call → Type 0
  Stays c l l' = IsReady c l × AreGuarded l → IsReady c l' × AreGuarded l'

  pub IsReady-cons : (c : Trust) (call : Call) (l : List Call) → IsReady c l → IsReady c (call ∷ l)
  IsReady-cons any_chain call l h = h
  IsReady-cons (anchored_in root) call l h = (h.0, inr h.1)

  -- Any call over a ready connection.
  pub send-Stays :
      (method url token : String) (body : Body) (c : Trust) (l : List Call)
      → Stays c l
          (record { trust = c; method = method; url = url; authorization = token; body = body } ∷ l)
  send-Stays method url token body c l (r, g) = (IsReady-cons c _ l r, (inr r, g))
