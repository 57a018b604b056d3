-- ===== src/Std/Net.antt =====
-- Package `net`: IP addresses as the program reads them.
use confd.Prelude.{
  ℕ, ◌&&◌, Option, none, some, List, [], ◌∷◌, ◌++◌, length, drop, ◌==◌, if◌then◌else◌,
}
use confd.Std.Text.{has_prefix}

-- `net.IP`: the bytes of an address.
abbrev pub Ip : Type 0
Ip = List ℕ

-- The first twelve bytes of an IPv4 address in the form of an IPv6 address.
abbrev pub v4_in_v6 : List ℕ
v4_in_v6 = 0 ∷ 0 ∷ 0 ∷ 0 ∷ 0 ∷ 0 ∷ 0 ∷ 0 ∷ 0 ∷ 0 ∷ 255 ∷ 255 ∷ []

-- `ip.To4()`; `none` is nil.
unfoldable pub to_4 : Ip → Option Ip
to_4 ip =
    if length ip == 4
    then some ip
    else if length ip == 16 && has_prefix ip v4_in_v6
    then some (drop 12 ip)
    else none

-- `ip.To16()`
unfoldable pub to_16 : Ip → Option Ip
to_16 ip =
    if length ip == 4 then some (v4_in_v6 ++ ip) else if length ip == 16 then some ip else none
