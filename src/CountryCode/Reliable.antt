-- ===== src/CountryCode/Reliable.antt =====
-- Which country code is given, and who is told.
use gitee_oh_base_location.Base.{
  ℕ, List, String, [], arith, if◌then◌else◌, int_eq, map, nat_eq, string_eq, ℤ, ◌++◌, ◌==◌, ◌∷◌,
  ◌≡◌, ◌≤ℤ◌, ◌⊎◌, Bool-cases, inl, inr, refl, false, not, subst, sym, true, ◌&&◌, ==_refl, ==→eq,
  ◌≢◌, ltb_ℤ,
}
use gitee_oh_base_location.CountryCode.{
  CountryCode, CountryCodeManager, Sources, country_code_from_network, country_code_from_location,
  country_code_from_sim, country_code_from_locale, is_same, is_more_reliable, notify_all_listener,
  update_country_code, get_country_code_by_last_location, find_country_code, accept_country,
  get_iso_country_code,
}

-- The first code that is not empty, with its type.
abbrev pub first_named : List (String × ℤ) → CountryCode → CountryCode
first_named [] otherwise = otherwise
first_named ((code, type) ∷ rest) otherwise =
    if code == ""
    then first_named rest otherwise
    else record { country_code_str = code; country_code_type = type }

-- The network, the last location, the SIM card and the region of the system, in this order.
abbrev pub candidate : Sources → CountryCodeManager → CountryCode
candidate sources m =
    first_named
      ((sources.for_network, country_code_from_network)
        ∷ (m.last_country_by_location.country_code_str, country_code_from_location)
        ∷ (sources.for_sim, country_code_from_sim)
        ∷ [])
      (record {
        country_code_str = sources.system_region;
        country_code_type = country_code_from_locale;
      })

find_country_code-candidate :
    (sources : Sources) (m : CountryCodeManager)
    → (find_country_code sources m).1 ≡ candidate sources m
unfolding find_country_code get_country_code_by_last_location
find_country_code-candidate sources m =
    ground (arith, string_eq.beq_iff m.last_country_by_location.country_code_str "")

-- Finding a code changes nothing that a callback can see.
record IsKept (m m' : CountryCodeManager) : Type 0 where
  same_country : m'.last_country ≡ m.last_country
  same_callbacks : m'.country_code_callbacks ≡ m.country_code_callbacks
  same_notices : m'.notices ≡ m.notices

find_country_code-IsKept :
    (sources : Sources) (m : CountryCodeManager) → IsKept m (find_country_code sources m).0
unfolding find_country_code get_country_code_by_last_location
find_country_code-IsKept sources m = ground arith

-- What one look for a country code comes to.
abbrev pub told : CountryCodeManager → CountryCode → List (ℕ × CountryCode)
told m country = map (λ entry. (entry.1, country)) m.country_code_callbacks

-- The last country after a candidate: the candidate, unless its type is less than that of the last
-- country; and who is told, which is nobody unless the last country is another one now.
abbrev pub IsDecided : CountryCodeManager → CountryCode → CountryCodeManager → Type 0
IsDecided m country m' =
    (m'.last_country ≡ (
      if ltb_ℤ country.country_code_type m.last_country.country_code_type
      then m.last_country
      else country))
    × (m.last_country.country_code_type ≤ℤ m'.last_country.country_code_type)
    × (((m'.last_country ≡ m.last_country) × (m'.notices ≡ m.notices))
        ⊎ ((m'.last_country ≢ m.last_country) × (m'.notices ≡ m.notices ++ told m country)))

same_country :
    (c d : CountryCode)
    → c.country_code_str ≡ d.country_code_str
    → c.country_code_type ≡ d.country_code_type
    → c ≡ d
same_country c d e f = cc (e, f)

is_same→eq : (c d : CountryCode) → is_same c d ≡ true → c ≡ d
unfolding is_same
is_same→eq c d h =
    same_country c d (==→eq c.country_code_str d.country_code_str (ground (arith, h)))
      (==→eq c.country_code_type d.country_code_type (ground (arith, h)))

not_same→ne : (c d : CountryCode) → is_same c d ≡ false → c ≢ d
unfolding is_same
not_same→ne c d h e =
    let s = ==_refl d.country_code_str in
    let t = ==_refl d.country_code_type in
    ground (arith, subst (λ x. is_same x d ≡ false) e h, s, t)

accept_country_kept :
    (country : CountryCode) (m : CountryCodeManager)
    → (not (is_same country m.last_country)
        && not (is_more_reliable m.last_country country.country_code_type))
      ≡ false
    → accept_country country m ≡ m
unfolding accept_country
accept_country_kept country m h = rw h refl

accept_country_taken :
    (country : CountryCode) (m : CountryCodeManager)
    → (not (is_same country m.last_country)
        && not (is_more_reliable m.last_country country.country_code_type))
      ≡ true
    → accept_country country m
      ≡ record m { last_country = country; notices = m.notices ++ told m country }
unfolding accept_country update_country_code notify_all_listener
accept_country_taken country m h =
    let less : is_more_reliable m.last_country country.country_code_type ≡ false =
      ground (arith, h) in
    rw (h, less) refl

last-either :
    (country : CountryCode) (m : CountryCodeManager)
    → country ≡ m.last_country
    → m.last_country ≡ (
        if is_more_reliable m.last_country country.country_code_type
        then m.last_country
        else country)
last-either country m e = ground (arith, e)

not_more_reliable :
    (c : CountryCode) (type : ℤ) → is_more_reliable c type ≡ false → c.country_code_type ≤ℤ type
unfolding is_more_reliable
not_more_reliable c type h = ground (arith, h)

accept_country-IsDecided :
    (country : CountryCode) (m : CountryCodeManager)
    → IsDecided m country (accept_country country m)
unfolding is_more_reliable
accept_country-IsDecided country m = elim (Bool-cases (is_same country m.last_country)) [
  | inl same ↦
      let e = is_same→eq country m.last_country same in
      subst (IsDecided m country) (sym (accept_country_kept country m (ground (arith, same))))
        (last-either country m e, omega arith, inl (refl, refl))
  | inr other ↦ elim (Bool-cases (is_more_reliable m.last_country country.country_code_type)) [
    | inl more ↦
        subst (IsDecided m country) (sym (accept_country_kept country m (ground (arith, more))))
          (rw more refl, omega arith, inl (refl, refl))
    | inr less ↦
        subst (IsDecided m country)
          (sym (accept_country_taken country m (ground (arith, other, less))))
          (
            rw less refl,
            not_more_reliable m.last_country country.country_code_type less,
            inr (not_same→ne country m.last_country other, refl),
          )
  ]
]

-- GetIsoCountryCode gives the last country. It is now the candidate, the first code that is not
-- empty, of the network, the last location, the SIM card and the region of the system; but where the
-- type of the candidate is less than that of the last country, it stays. Its type never falls. Where
-- the last country is the same as before nobody is told; where it is another one, each callback is told
-- of it once.
pub get_iso_country_code_lem :
    (sources : Sources) (m : CountryCodeManager)
    → let (m', country) = get_iso_country_code sources m in
      (country ≡ m'.last_country) × IsDecided m (candidate sources m) m'
unfolding get_iso_country_code
get_iso_country_code_lem sources m =
    let k = find_country_code-IsKept sources m in
    let d =
      accept_country-IsDecided (find_country_code sources m).1 (find_country_code sources m).0 in
    let kept : IsDecided m (find_country_code sources m).1 (get_iso_country_code sources m).0 =
      rw (k.same_country, k.same_callbacks, k.same_notices) at d in
    (
      refl,
      subst (λ c. IsDecided m c (get_iso_country_code sources m).0)
          (find_country_code-candidate sources m) kept,
    )
