-- ===== src/Template/Functions/Network.antt =====
-- The functions that look up addresses.
use confd.Prelude.{
  ℕ, Bool, true, false, ◌&&◌, ◌||◌, Option, none, some, List, [], ◌∷◌, ◌++◌, map, keep_if, ltb,
  ◌==◌,
}
use confd.Std.Text.{Text, codes, contains}
use confd.Std.Result.{Result, ok, err}
use confd.Std.Net.{Ip, to_4, to_16}
use confd.Std.Strconv.{itoa}

-- `net.SRV`
pub record Srv : Type 0 where
  pub target : Text
  pub port : ℕ
  pub priority : ℕ
  pub weight : ℕ

-- What package net answers: the addresses and the SRV records of a name, the addresses of an
-- interface, the text of an address, nil among them, and `sort.Strings` and `sort.Sort`.
pub record Network : Type 0 where
  pub lookup_ip : Text → Result (List Ip)
  pub lookup_srv : Text → Text → Text → Result (List Srv)
  pub interface_addresses : Text → Result (List Ip)
  pub ip_string : Option Ip → Text
  pub sort_strings : List Text → List Text
  pub sort_records : (Srv → Srv → Bool) → List Srv → List Srv

-- `s < t` on strings.
unfoldable pub text_less : Text → Text → Bool
text_less s [] = false
text_less [] (d ∷ t) = true
text_less (c ∷ s) (d ∷ t) = ltb c d || (c == d && text_less s t)

-- The text that `sortSRV` compares.
unfoldable pub sort_key : Srv → Text
sort_key r = r.target ++ (itoa r.port ++ (itoa r.priority ++ itoa r.weight))

unfoldable pub record_less : Srv → Srv → Bool
record_less r q = text_less (sort_key r) (sort_key q)

-- The first address of the form asked for, if there is one.
unfoldable pub first_form : (Ip → Option Ip) → List Ip → Option Ip
first_form form [] = none
first_form form (ip ∷ addresses) = elim (form ip) [
  | none ↦ first_form form addresses
  | some found ↦ some found
]

module _ (net : Network) where
  -- The addresses as texts, in order; none where the look-up fails.
  unfoldable pub address_texts : Result (List Ip) → List Text
  address_texts (err e) = []
  address_texts (ok ips) = net.sort_strings (map (λ ip. net.ip_string (some ip)) ips)

  -- `LookupIP`
  unfoldable pub lookup_ips : Text → List Text
  lookup_ips name = address_texts (net.lookup_ip name)

  -- `LookupIPV6` and `LookupIPV4`
  unfoldable pub lookup_ips_v6 : Text → List Text
  lookup_ips_v6 name = keep_if (λ ip. contains ip (codes ":")) (lookup_ips name)

  unfoldable pub lookup_ips_v4 : Text → List Text
  lookup_ips_v4 name = keep_if (λ ip. contains ip (codes ".")) (lookup_ips name)

  -- The text of the address chosen, nil where there is none, and nothing where the interface or
  -- its addresses cannot be found.
  unfoldable pub interface_address : (Ip → Option Ip) → Result (List Ip) → Text
  interface_address form (err e) = []
  interface_address form (ok addresses) = net.ip_string (first_form form addresses)

  -- `LookupIfaceIPV4` and `LookupIfaceIPV6`
  unfoldable pub lookup_iface_v4 : Text → Text
  lookup_iface_v4 name = interface_address to_4 (net.interface_addresses name)

  unfoldable pub lookup_iface_v6 : Text → Text
  lookup_iface_v6 name = interface_address to_16 (net.interface_addresses name)

  unfoldable pub sorted_records : Result (List Srv) → List Srv
  sorted_records (err e) = []
  sorted_records (ok records) = net.sort_records record_less records

  -- `LookupSRV`
  unfoldable pub lookup_records : Text → Text → Text → List Srv
  lookup_records service proto name = sorted_records (net.lookup_srv service proto name)
