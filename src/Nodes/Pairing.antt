-- ===== src/Nodes/Pairing.antt =====
-- A pairing code of apps/gateway/src/nodes.ts registers one machine.
use deepseek_harness_gateway.Common.{
  ℕ, ◌≡◌, ◌≢◌, refl, sym, ap, subst, ◌∙◌, true, Option, none, some, List, [], ◌∷◌, Eq-nat,
  Bool-cases, inl, inr,
}
use deepseek_harness_gateway.Common.Text.{Text, Eq-text}
use deepseek_harness_gateway.Common.Lists.{All}
use deepseek_harness_gateway.Common.Dict.{get}
use deepseek_harness_gateway.Store.Domain.{PairingCode}
use deepseek_harness_gateway.Store.Memory.{get_pairing_code_by_hash}
use deepseek_harness_gateway.Nodes.State.{Nodes}
use deepseek_harness_gateway.Nodes.Onboard.{
  Payload, Outside, handle_onboarding, onboard_with, with_pairing_code, is_past, is_set,
}
use deepseek_harness_gateway.Nodes.Revoked.{
  IsRefused, IsAccepted, used-IsRefused, consumed, set_nonempty,
}
use deepseek_harness_gateway.Nodes.Codes.{Later, do_all, IsNotReissue, used, Spent, do_all-Spent}

accepted-Spent :
    (o : Outside) (ws : ℕ) (p : Payload) (hash : Text) (g : Nodes) (r : Option PairingCode)
    → o.fresh_id ≢ []
    → get hash g.store.pairing_codes ≡ r
    → IsAccepted (with_pairing_code o ws p hash g r).0
    → Spent hash (with_pairing_code o ws p hash g r).1
unfolding with_pairing_code
accepted-Spent o ws p hash g none fresh found = λ h. absurd h
accepted-Spent o ws p hash g (some pc) fresh found =
    elim (Bool-cases (is_past o.now (o.time_of pc.expires_at))) [
      | inl late ↦ rw late (λ h. absurd h)
      | inr live ↦ rw live (elim (Bool-cases (is_set pc.consumed_by)) [
        | inl twice ↦ rw twice (λ h. absurd h)
        | inr free ↦
            rw free
              (λ h. ap used (consumed o hash p g.store pc found) ∙ set_nonempty o.fresh_id fresh)
      ])
    ]

spent-IsRefused :
    (o : Outside) (ws : ℕ) (p : Payload) (hash : Text) (g : Nodes) (r : Option PairingCode)
    → used r ≡ true
    → IsRefused (with_pairing_code o ws p hash g r).0
spent-IsRefused o ws p hash g none h = cc
spent-IsRefused o ws p hash g (some pc) h = used-IsRefused o ws p hash g pc h

-- A pairing code that has registered a machine is refused from then on, to any socket, at any time,
-- with anything else in its message: whatever first messages, heartbeats and closes of sockets come in
-- between, and whatever codes an admin issues and machines an admin approves, revokes or deletes, unless
-- a code of the same hash is seeded or issued again. (The two messages hash codes alike, and new ids
-- are not empty.)
pub pairing_code_once :
    (o o' : Outside) (ws ws' : ℕ) (p p' : Payload) (c : ℕ) (code : Text) (g : Nodes)
    (between : List Later)
    → o.fresh_id ≢ []
    → o'.sha256 (c ∷ code) ≡ o.sha256 (c ∷ code)
    → p.code ≡ some (c ∷ code)
    → p'.code ≡ some (c ∷ code)
    → IsAccepted (handle_onboarding o ws p g).0
    → All (IsNotReissue (o.sha256 (c ∷ code))) between
    → IsRefused (handle_onboarding o' ws' p' (do_all between (handle_onboarding o ws p g).1)).0
unfolding handle_onboarding onboard_with get_pairing_code_by_hash
pairing_code_once o o' ws ws' p p' c code g between fresh alike given given' taken once =
    let hash = o.sha256 (c ∷ code) in
    let g' = (handle_onboarding o ws p g).1 in
    let spent : Spent hash g' =
      subst (λ q. IsAccepted (onboard_with o ws p q g).0 → Spent hash (onboard_with o ws p q g).1)
        (sym given) (accepted-Spent o ws p hash g (get hash g.store.pairing_codes) fresh refl)
        taken in
    rw given' (
      rw alike (
        spent-IsRefused o' ws' p' hash (do_all between g')
          (get hash (do_all between g').store.pairing_codes)
          (do_all-Spent hash between g' once spent)))
