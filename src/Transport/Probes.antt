-- ===== src/Transport/Probes.antt =====
-- core/src/transport/lan.rs: which address `local_ipv4` chooses.
use mesh_chat.Prelude.{
  ◌≡◌, refl, Text, text, map, ◌⊎◌, inl, inr, Option, none, some, List, [], ◌∷◌, Bool, true, false,
}
use mesh_chat.Transport.Lan.{
  Ip, is_unspecified, LocalAddr, ipv4, ipv6, Route, probed, loopback, first_ip, Tcp, local_ipv4,
}

-- The system found a route to a probe, from an IPv4 address that is not 0.0.0.0.
abbrev pub Finds : Route → Ip → Type 0
Finds r ip =
    (r.binds ≡ true)
    × (r.connects ≡ true)
    × (r.local_addr ≡ some (ipv4 ip))
    × (is_unspecified ip ≡ false)

-- The address of the first probe that has one, or else the loopback address.
abbrev pub Chosen : (Text → Route) → List Text → Ip → Type 0
Chosen route [] ip = ip ≡ loopback
Chosen route (p ∷ probes) ip =
    Finds (route p) ip ⊎ (((j : Ip) → Finds (route p) j → ⊥) × Chosen route probes ip)

abbrev pub probes : List Text
probes = text "8.8.8.8:80" ∷ text "192.168.1.1:80" ∷ text "10.0.0.1:80" ∷ []

-- A probe has one address at most, and `probed` is it.
probed_correct :
    (r : Route)
    → ((ip : Ip) × (probed r ≡ some ip) × Finds r ip)
      ⊎ ((probed r ≡ none) × ((j : Ip) → Finds r j → ⊥))
probed_correct r = ground_route r.binds r.connects r.local_addr refl refl refl
  where
    usable :
        (ip : Ip) (b : Bool)
        → r.binds ≡ true
        → r.connects ≡ true
        → r.local_addr ≡ some (ipv4 ip)
        → is_unspecified ip ≡ b
        → ((i : Ip) × (probed r ≡ some i) × Finds r i)
          ⊎ ((probed r ≡ none) × ((j : Ip) → Finds r j → ⊥))
    usable ip true e f g h = inr (rw (e, f, g, h) refl, λ j w. cc (w.3, h, w.2, g))
    usable ip false e f g h = inl (ip, rw (e, f, g, h) refl, (e, f, g, h))

    ground_route :
        (a b : Bool) (o : Option LocalAddr)
        → r.binds ≡ a
        → r.connects ≡ b
        → r.local_addr ≡ o
        → ((i : Ip) × (probed r ≡ some i) × Finds r i)
          ⊎ ((probed r ≡ none) × ((j : Ip) → Finds r j → ⊥))
    ground_route false b o e f g = inr (rw e refl, λ j w. cc (w.0, e))
    ground_route true false o e f g = inr (rw (e, f) refl, λ j w. cc (w.1, f))
    ground_route true true none e f g = inr (rw (e, f, g) refl, λ j w. cc (w.2, g))
    ground_route true true (some ipv6) e f g = inr (rw (e, f, g) refl, λ j w. cc (w.2, g))
    ground_route true true (some (ipv4 ip)) e f g = usable ip (is_unspecified ip) e f g refl

first_ip-Chosen :
    (route : Text → Route) (ps : List Text) → Chosen route ps (first_ip (map route ps))
unfolding first_ip
first_ip-Chosen route [] = refl
first_ip-Chosen route (p ∷ ps) = elim (probed_correct (route p)) [
  | inl (ip, e, w) ↦ rw e (inl w)
  | inr (e, w) ↦ rw e (inr (w, first_ip-Chosen route ps))
]

pub local_ipv4-Chosen : (tcp : Tcp) → Chosen tcp.route probes (local_ipv4 tcp)
unfolding local_ipv4
local_ipv4-Chosen tcp = first_ip-Chosen tcp.route probes
