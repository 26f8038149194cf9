-- ===== src/Telemetry/Devices/Kept.antt =====
-- A device before and after the merge, and lists of them.
use yachtsense_link_emulator.Common.{
  ℕ, zero, suc, ◌≤◌, List, [], ◌∷◌, ◌++◌, length, ◌≡◌, refl, sym, ◌∙◌, ap, ◌⊎◌, inl, inr,
}
use yachtsense_link_emulator.Common.Bytes.{Bytes, codes}
use yachtsense_link_emulator.Telemetry.Devices.{DeviceView, Merge, change_at, or_else, fill, on_vpn}

-- A text that was filled in only where it was empty
abbrev pub Fills : Bytes → Bytes → Type 0
Fills s t = (s ≡ []) ⊎ (t ≡ s)

-- The same device later: its name and address are filled in at most, and only its connection changes.
pub record IsSame (d e : DeviceView) : Type 0 where
  pub same_mac : e.mac ≡ d.mac
  pub same_interface : e.on_interface ≡ d.on_interface
  pub same_state : e.device_state ≡ d.device_state
  pub name_filled : Fills d.device_name e.device_name
  pub ip_filled : Fills d.device_ip e.device_ip
  pub connected : (e.connection ≡ d.connection) ⊎ (e.connection ≡ codes "VPN")

-- Every device is still there, in its place, and others may follow.
abbrev pub Extends : List DeviceView → List DeviceView → Type 0
Extends [] es = Unit
Extends (d ∷ ds) [] = ⊥
Extends (d ∷ ds) (e ∷ es) = IsSame d e × Extends ds es

IsSame-refl : (d : DeviceView) → IsSame d d
IsSame-refl d = record {
  same_mac = refl;
  same_interface = refl;
  same_state = refl;
  name_filled = inr refl;
  ip_filled = inr refl;
  connected = inl refl;
}

Fills-trans : (s t u : Bytes) → Fills s t → Fills t u → Fills s u
Fills-trans s t u (inl e) k = inl e
Fills-trans s t u (inr e) (inl f) = inl (sym e ∙ f)
Fills-trans s t u (inr e) (inr f) = inr (f ∙ e)

IsSame-trans : (c d e : DeviceView) → IsSame c d → IsSame d e → IsSame c e
IsSame-trans c d e h k = record {
  same_mac = k.same_mac ∙ h.same_mac;
  same_interface = k.same_interface ∙ h.same_interface;
  same_state = k.same_state ∙ h.same_state;
  name_filled = Fills-trans c.device_name d.device_name e.device_name h.name_filled k.name_filled;
  ip_filled = Fills-trans c.device_ip d.device_ip e.device_ip h.ip_filled k.ip_filled;
  connected = by_change h.connected k.connected;
}
  where
    by_change :
        (d.connection ≡ c.connection) ⊎ (d.connection ≡ codes "VPN")
        → (e.connection ≡ d.connection) ⊎ (e.connection ≡ codes "VPN")
        → (e.connection ≡ c.connection) ⊎ (e.connection ≡ codes "VPN")
    by_change x (inr v) = inr v
    by_change (inl p) (inl q) = inl (q ∙ p)
    by_change (inr v) (inl q) = inr (q ∙ v)

pub Extends-refl : (ds : List DeviceView) → Extends ds ds
Extends-refl [] = tt
Extends-refl (d ∷ ds) = (IsSame-refl d, Extends-refl ds)

pub Extends-trans : (cs ds es : List DeviceView) → Extends cs ds → Extends ds es → Extends cs es
Extends-trans [] ds es h k = tt
Extends-trans (c ∷ cs) [] es h k = absurd h
Extends-trans (c ∷ cs) (d ∷ ds) [] h k = absurd k
Extends-trans (c ∷ cs) (d ∷ ds) (e ∷ es) h k =
    (IsSame-trans c d e h.0 k.0, Extends-trans cs ds es h.1 k.1)

pub Extends-append : (ds es : List DeviceView) → Extends ds (ds ++ es)
Extends-append [] es = tt
Extends-append (d ∷ ds) es = (IsSame-refl d, Extends-append ds es)

pub Extends-change_at :
    (i : ℕ) (f : DeviceView → DeviceView) (ds : List DeviceView)
    → ((d : DeviceView) → IsSame d (f d))
    → Extends ds (change_at i f ds)
unfolding change_at
Extends-change_at i f [] h = tt
Extends-change_at zero f (d ∷ ds) h = (h d, Extends-refl ds)
Extends-change_at (suc i) f (d ∷ ds) h = (IsSame-refl d, Extends-change_at i f ds h)

or_else-Fills : (s t : Bytes) → Fills s (or_else s t)
or_else-Fills [] t = inl refl
or_else-Fills (c ∷ s) t = inr refl

pub fill-IsSame : (new d : DeviceView) → IsSame d (fill new d)
fill-IsSame new d = record {
  same_mac = refl;
  same_interface = refl;
  same_state = refl;
  name_filled = or_else-Fills d.device_name new.device_name;
  ip_filled = or_else-Fills d.device_ip new.device_ip;
  connected = inl refl;
}

pub on_vpn-IsSame : (d : DeviceView) → IsSame d (on_vpn d)
on_vpn-IsSame d = record {
  same_mac = refl;
  same_interface = refl;
  same_state = refl;
  name_filled = inr refl;
  ip_filled = inr refl;
  connected = inr refl;
}

pub length-change_at :
    (i : ℕ) (f : DeviceView → DeviceView) (ds : List DeviceView)
    → length (change_at i f ds) ≡ length ds
unfolding change_at
length-change_at i f [] = refl
length-change_at zero f (d ∷ ds) = refl
length-change_at (suc i) f (d ∷ ds) = ap suc (length-change_at i f ds)

-- What every step does: the devices are extended, and stay within 256.
pub record Grows (s t : Merge) : Type 0 where
  pub extends : Extends s.devices t.devices
  pub bounded : (length t.devices ≤ 256) ⊎ (length t.devices ≡ length s.devices)
