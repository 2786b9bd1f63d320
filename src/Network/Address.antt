-- ===== src/Network/Address.antt =====
-- app/src/plc_util.c and app/src/plc_cli.c: what is told of the address of the default interface.
use beremiz4u_c.Common.{
  ℕ, ◌≡◌, ◌↔◌, refl, Bool, List, [], ◌∷◌, ◌++◌, Option, none, some, if◌then◌else◌, ℤ, pos, minus,
  enoexec, codes, arith,
}

abbrev pub Bytes : Type 0
Bytes = List ℕ

-- `addr_type`, with NET_ADDR_ANY and what else the kernel may set as the last one.
pub data Assigned : Type 0 where
  autoconf dhcp manual overridable any : Assigned

-- The configuration of an interface, with its first unicast address.
pub record Ipv4 : Type 0 where
  pub preferred : Bool
  pub addr_type : Assigned
  pub address : ℕ
  pub netmask : ℕ
  pub gw : ℕ

-- The default interface, where there is one, with its configuration, where it has one.
abbrev pub Interface : Type 0
Interface = Option (Option Ipv4)

-- The name of an address type, for the status and for the shell.
unfoldable pub assignment_name : Assigned → Bytes
assignment_name autoconf = codes "Autoconf"
assignment_name dhcp = codes "DHCP"
assignment_name manual = codes "Static"
assignment_name overridable = codes "Fallback"
assignment_name any = codes "Unknown"

unfoldable pub shown_name : Assigned → Bytes
shown_name autoconf = codes "Autoconf"
shown_name dhcp = codes "DHCP"
shown_name manual = codes "Manual"
shown_name overridable = codes "Overridable"
shown_name any = codes "Unknown"

unfoldable pub get_ip_assignment_method : Interface → Bytes
get_ip_assignment_method none = codes "---"
get_ip_assignment_method (some none) = codes "---"
get_ip_assignment_method (some (some i)) = assignment_name i.addr_type

abbrev pub text_or : Bytes → Option Bytes → Bytes
text_or other none = other
text_or other (some text) = text

named : (a : Assigned) → assignment_name a ≡ codes "---" → ⊥
unfolding assignment_name
named autoconf h = ground (arith, h)
named dhcp h = ground (arith, h)
named manual h = ground (arith, h)
named overridable h = ground (arith, h)
named any h = ground (arith, h)

-- Over `net_addr_ntop` of the kernel.
module _ (net_addr_ntop : ℕ → Option Bytes) where
  unfoldable pub get_ip_address : Interface → Bytes
  get_ip_address none = codes "No interface"
  get_ip_address (some none) = codes "IPv4 is not configured."
  get_ip_address (some (some i)) =
      if i.preferred
      then text_or (codes "Invalid address") (net_addr_ntop i.address)
      else codes "No preferred IPv4 address assigned"

  -- What is printed, and the code. `left` is what the buffers hold where `net_addr_ntop` writes
  -- nothing.
  unfoldable pub cmd_show_ip : Bytes → Interface → List Bytes × ℤ
  cmd_show_ip left none = (codes "No default network interface found." ∷ [], minus enoexec)
  cmd_show_ip left (some none) = (codes "IPv4 is not configured." ∷ [], minus enoexec)
  cmd_show_ip left (some (some i)) = (
    (if i.preferred
        then codes "IPv4 Network Configuration:"
          ∷ (codes "  IP Address:    " ++ text_or left (net_addr_ntop i.address))
          ∷ (codes "  Netmask:       " ++ text_or left (net_addr_ntop i.netmask))
          ∷ (codes "  Gateway:       " ++ text_or left (net_addr_ntop i.gw))
          ∷ (codes "  Address Type:  " ++ shown_name i.addr_type)
          ∷ []
        else codes
            "IPv4 Network Configuration: No preferred IPv4 address assigned to the default interface."
          ∷ []),
    pos 0,
  )

  -- The shell and the status page agree: the command fails exactly where the page has no address
  -- type.
  pub cmd_show_ip-get_ip_assignment_method :
      (left : Bytes) (iface : Interface)
      → ((cmd_show_ip left iface).1 ≡ minus enoexec)
        ↔ (get_ip_assignment_method iface ≡ codes "---")
  unfolding cmd_show_ip get_ip_assignment_method
  cmd_show_ip-get_ip_assignment_method left none = (λ h. refl, λ h. refl)
  cmd_show_ip-get_ip_assignment_method left (some none) = (λ h. refl, λ h. refl)
  cmd_show_ip-get_ip_assignment_method left (some (some i)) =
      (λ h. absurd (ground (arith, h)), λ h. absurd (named i.addr_type h))
