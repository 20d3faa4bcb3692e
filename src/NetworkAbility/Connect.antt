-- ===== src/NetworkAbility/Connect.antt =====
-- ReConnectNlpService and what stands before a message: when the service is there.
use gitee_oh_base_location.Base.{
  ℕ, Bool, Bool-cases, Option, arith, false, if◌then◌else◌, inl, inr, none, refl, some, suc, true,
  zero, ◌&&◌, ◌+◌, ◌≡◌,
}
use gitee_oh_base_location.NetworkAbility.{
  NetworkAbility, Nlp, usable_name, connect_nlp_service, notify_connected, re_connect_rounds,
  re_connect_nlp_service, max_retry_count,
}

-- An attempt that connects.
abbrev pub connects : Nlp → ℕ → Bool
connects nlp k = (nlp.attempt k).accepted && (nlp.attempt k).done_in_time

-- The service has a name.
abbrev pub has_name : Nlp → Bool
has_name nlp = elim (usable_name nlp) [ none ↦ false | some name ↦ true ]

-- The first attempt that connects, of the `n` from the attempt `k` on.
abbrev pub first_attempt : Nlp → ℕ → ℕ → Option ℕ
first_attempt nlp zero k = none
first_attempt nlp (suc n) k = if connects nlp k then some k else first_attempt nlp n (k + 1)

-- The state that it leaves, and whether the service is connected.
abbrev pub connected_by : {D : Type 0} → Nlp → Option ℕ → NetworkAbility D → NetworkAbility D × Bool
connected_by nlp none a = (a, false)
connected_by nlp (some k) a = (notify_connected (nlp.attempt k).remote_object a, true)

module _ {D : Type 0} where
  re_connect_rounds_named :
      (nlp : Nlp) (n k : ℕ) (a : NetworkAbility D)
      → a.nlp_service_ready ≡ false
      → has_name nlp ≡ true
      → re_connect_rounds nlp n k a ≡ connected_by nlp (first_attempt nlp n k) a
  unfolding re_connect_rounds connect_nlp_service
  re_connect_rounds_named nlp zero k a r h = refl
  re_connect_rounds_named nlp (suc n) k a r h =
      ground (arith, r, h, re_connect_rounds_named nlp n (k + 1) a r h)

  re_connect_rounds_nameless :
      (nlp : Nlp) (n k : ℕ) (a : NetworkAbility D)
      → a.nlp_service_ready ≡ false
      → has_name nlp ≡ false
      → re_connect_rounds nlp n k a ≡ (a, false)
  unfolding re_connect_rounds connect_nlp_service
  re_connect_rounds_nameless nlp zero k a r h = refl
  re_connect_rounds_nameless nlp (suc n) k a r h =
      ground (arith, r, h, re_connect_rounds_nameless nlp n (k + 1) a r h)

  -- ReConnectNlpService ends. A service that is ready it leaves alone; otherwise it connects to the
  -- service by the first of five attempts that is accepted and done in time, if the service has a name
  -- and there is one, and else it fails and changes nothing.
  pub re_connect_nlp_service_lem :
      (nlp : Nlp) (a : NetworkAbility D)
      → re_connect_nlp_service nlp a ≡ (
          if a.nlp_service_ready
          then (a, true)
          else if has_name nlp
          then connected_by nlp (first_attempt nlp max_retry_count 0) a
          else (a, false))
  unfolding re_connect_nlp_service
  re_connect_nlp_service_lem nlp a = elim (Bool-cases a.nlp_service_ready) [
    | inl r ↦ ground (arith, r)
    | inr r ↦ elim (Bool-cases (has_name nlp)) [
      | inl h ↦ ground (arith, r, h, re_connect_rounds_named nlp max_retry_count 0 a r h)
      | inr h ↦ ground (arith, r, h, re_connect_rounds_nameless nlp max_retry_count 0 a r h)
    ]
  ]
