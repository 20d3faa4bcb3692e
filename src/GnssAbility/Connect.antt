-- ===== src/GnssAbility/Connect.antt =====
-- ConnectHdi: when it succeeds, and what it leaves.
use gitee_oh_base_location.Base.{
  ℕ, Bool, Bool-cases, arith, false, inl, inr, nat_beq, nat_beq_iff, refl, suc, true, zero, ◌&&◌,
  ◌+◌, ◌<◌, ◌||◌, ◌≡◌, ◌≢◌, ◌≤◌, append-nil, replicate, snoc_append, sym, ◌++◌, ◌↔◌, ◌∷◌, ◌∙◌, [],
}
use gitee_oh_base_location.GnssAbility.{
  GnssAbility, Hdi, call, sleep_ms, wait_ms, connect_rounds, connect_hdi,
  register_location_hdi_death_recipient, get_hdi_service_count, load_device, gnss_service_name,
  agnss_service_name,
}

-- Round `n` gives both interfaces.
abbrev pub both : Hdi → ℕ → Bool
both hdi n = (hdi.attempt n).0 && (hdi.attempt n).1

-- The device manager is there and loads both devices.
abbrev pub loads : Hdi → Bool
loads hdi = hdi.device_manager && (hdi.load_gnss && hdi.load_agnss)

-- Some of the rounds `i` to `i + n - 1` gives both.
abbrev pub some_round : Hdi → ℕ → ℕ → Bool
some_round hdi zero i = false
some_round hdi (suc n) i = both hdi i || some_round hdi n (i + 1)

some_round→ :
    (hdi : Hdi) (n i : ℕ)
    → some_round hdi n i ≡ true
    → (k : ℕ) × (i ≤ k) × (k < i + n) × (both hdi k ≡ true)
some_round→ hdi (suc n) i h = elim (Bool-cases (both hdi i)) [
  | inl e ↦ (i, omega arith, omega arith, e)
  | inr e ↦
      let rest : some_round hdi n (i + 1) ≡ true = ground arith in
      let (k, a, b, f) = some_round→ hdi n (i + 1) rest in (k, omega arith, omega arith, f)
]
some_round→ hdi zero i h = ground arith

pub →some_round :
    (hdi : Hdi) (n i k : ℕ) → i ≤ k → k < i + n → both hdi k ≡ true → some_round hdi n i ≡ true
→some_round hdi zero i k a b e = absurd (omega arith)
→some_round hdi (suc n) i k a b e = elim (Bool-cases (nat_beq i k)) [
  | inl same ↦ rw ((nat_beq_iff i k).0 same, e) refl
  | inr other ↦
      let apart : i ≢ k = λ same. ground (arith, (nat_beq_iff i k).1 same) in
      rw (→some_round hdi n (i + 1) k (omega arith) (omega arith) e) (ground arith)
]

-- What a connection leaves besides its calls and its pointers.
pub record IsConnection {D : Type 0} (ok : Bool) (g g' : GnssAbility D) : Type 0 where
  pub same_mock : g'.mock ≡ g.mock
  pub same_status : g'.gnss_working_status ≡ g.gnss_working_status
  pub same_connected : g'.is_hdi_connected ≡ g.is_hdi_connected
  pub gnss : ok ≡ true → g'.gnss_interface ≡ true
  pub agnss : ok ≡ true → g'.agnss_interface ≡ true
  pub gnss_cb : ok ≡ true → g'.gnss_callback ≡ true
  pub agnss_cb : ok ≡ true → g'.agnss_callback ≡ true

module _ {D : Type 0} where
  connect_rounds-some_round :
      (hdi : Hdi) (n i : ℕ) (g : GnssAbility D) → (connect_rounds hdi n i g).1 ≡ some_round hdi n i
  unfolding connect_rounds
  connect_rounds-some_round hdi zero i g = refl
  connect_rounds-some_round hdi (suc n) i g = ground (
    arith,
    connect_rounds-some_round hdi n (i + 1) (
        call (record g { gnss_interface = (hdi.attempt i).0; agnss_interface = (hdi.attempt i).1 })
          (sleep_ms wait_ms)),
  )

  connect_rounds-IsConnection :
      (hdi : Hdi) (n i : ℕ) (g : GnssAbility D)
      → let (g', ok) = connect_rounds hdi n i g in IsConnection ok g g'
  unfolding connect_rounds call register_location_hdi_death_recipient
  connect_rounds-IsConnection hdi zero i g = ground arith
  connect_rounds-IsConnection hdi (suc n) i g =
      let v = connect_rounds-IsConnection hdi n (i + 1) (
        call (record g { gnss_interface = (hdi.attempt i).0; agnss_interface = (hdi.attempt i).1 })
          (sleep_ms wait_ms)) in
      ground (arith, v)

  connect_rounds-failed :
      (hdi : Hdi) (n i : ℕ) (g : GnssAbility D)
      → some_round hdi n i ≡ false
      → (connect_rounds hdi n i g).0.calls ≡ g.calls ++ replicate n (sleep_ms wait_ms)
  unfolding connect_rounds call
  connect_rounds-failed hdi zero i g h = sym (append-nil g.calls)
  connect_rounds-failed hdi (suc n) i g h =
      let got = record g {
        gnss_interface = (hdi.attempt i).0;
        agnss_interface = (hdi.attempt i).1;
      } in
      let now : both hdi i ≡ false = ground arith in
      let later : some_round hdi n (i + 1) ≡ false = ground arith in
      rw (now, connect_rounds-failed hdi n (i + 1) (call got (sleep_ms wait_ms)) later)
        (snoc_append g.calls (sleep_ms wait_ms) (replicate n (sleep_ms wait_ms)))

  connect_hdi-some_round :
      (hdi : Hdi) (g : GnssAbility D)
      → (connect_hdi hdi g).1 ≡ (loads hdi && some_round hdi get_hdi_service_count 0)
  unfolding connect_hdi
  connect_hdi-some_round hdi g = ground (
    arith,
    connect_rounds-some_round hdi get_hdi_service_count 0
        (call (call g (load_device gnss_service_name)) (load_device agnss_service_name)),
  )

  pub connect_hdi-IsConnection :
      (hdi : Hdi) (g : GnssAbility D) → let (g', ok) = connect_hdi hdi g in IsConnection ok g g'
  unfolding connect_hdi call
  connect_hdi-IsConnection hdi g =
      let v =
        connect_rounds-IsConnection hdi get_hdi_service_count 0
          (call (call g (load_device gnss_service_name)) (load_device agnss_service_name)) in
      ground (arith, v)

  -- ConnectHdi ends, and succeeds exactly if the device manager loads both devices and one of the 30
  -- rounds gives both interfaces. Neither the working status, nor the requests, nor the connection
  -- flag change.
  pub connect_hdi_lem :
      (hdi : Hdi) (g : GnssAbility D)
      → let (g', ok) = connect_hdi hdi g in
        ((ok ≡ true) ↔ ((loads hdi ≡ true) × (k : ℕ) × (k < 30) × (both hdi k ≡ true)))
        × (g'.mock ≡ g.mock)
        × (g'.gnss_working_status ≡ g.gnss_working_status)
        × (g'.is_hdi_connected ≡ g.is_hdi_connected)
  connect_hdi_lem hdi g =
      let v = connect_hdi-IsConnection hdi g in
      ((forth, back), v.same_mock, v.same_status, v.same_connected)
    where
      forth :
          (connect_hdi hdi g).1 ≡ true
          → (loads hdi ≡ true) × (k : ℕ) × (k < 30) × (both hdi k ≡ true)
      forth h =
          let e : (loads hdi && some_round hdi 30 0) ≡ true =
            sym (connect_hdi-some_round hdi g) ∙ h in
          let found : some_round hdi 30 0 ≡ true = ground (arith, e) in
          let (k, _, below, b) = some_round→ hdi 30 0 found in (ground (arith, e), k, below, b)

      back :
          (loads hdi ≡ true) × (k : ℕ) × (k < 30) × (both hdi k ≡ true)
          → (connect_hdi hdi g).1 ≡ true
      back (l, k, below, b) =
          rw (connect_hdi-some_round hdi g, l, →some_round hdi 30 0 k (omega arith) below b) refl

  -- Where the devices are loaded and no round gives both interfaces, ConnectHdi has waited 30 times
  -- and made no other call than the two that load the devices.
  pub connect_hdi_failed :
      (hdi : Hdi) (g : GnssAbility D)
      → loads hdi ≡ true
      → (connect_hdi hdi g).1 ≡ false
      → (connect_hdi hdi g).0.calls
        ≡ g.calls
          ++ load_device gnss_service_name
            ∷ load_device agnss_service_name
            ∷ replicate get_hdi_service_count (sleep_ms wait_ms)
  unfolding connect_hdi call
  connect_hdi_failed hdi g l f =
      let loaded = call (call g (load_device gnss_service_name)) (load_device agnss_service_name) in
      let none_of : some_round hdi get_hdi_service_count 0 ≡ false =
        ground (arith, connect_hdi-some_round hdi g, l, f) in
      let waits = replicate get_hdi_service_count (sleep_ms wait_ms) in
      let opened : (connect_hdi hdi g).0.calls ≡ loaded.calls ++ waits =
        ground (arith, l, connect_rounds-failed hdi get_hdi_service_count 0 loaded none_of) in
      opened
      ∙ snoc_append (g.calls ++ load_device gnss_service_name ∷ []) (load_device agnss_service_name)
          waits
      ∙ snoc_append g.calls (load_device gnss_service_name) (load_device agnss_service_name ∷ waits)
